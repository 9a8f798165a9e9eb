-- ===== src/Master/Phases/Collective.antt =====
-- The transitions of collective operations, and their abort flags.
use pccl.Common.{
  ℕ, ◌+◌, ◌%◌, ◌^◌, Bool, true, false, ◌&&◌, ◌||◌, not, List, [], ◌∷◌, Option, none, some,
  if◌then◌else◌, ◌==◌, nat_eq, lookup, contains, get_or, insert, erase, map_values, values,
}
use pccl.Client.{
  ClientInfo, state_eq, coll_eq, idle, collective_communications_running,
  vote_initiate_collective_comms, perform_collective_comms, vote_complete_collective_comms,
}
use pccl.Master.State.{MasterState}
use pccl.Master.Votes.{put_collective}
use pccl.Master.Consensus.{is_member}
use pccl.Master.Loop.{visit}

unfoldable pub perform_step : ℕ → ℕ → ClientInfo → Option ClientInfo
perform_step g tag i =
    if is_member g i
    then (if i.connection_state == collective_communications_running
        then elim (lookup tag i.collective_coms_states) [
          | none ↦ none
          | some c ↦
              if c == vote_initiate_collective_comms
              then some (put_collective tag perform_collective_comms i)
              else none
        ]
        else none)
    else some i

unfoldable pub transition_to_perform_collective_comms_phase :
    ℕ → ℕ → MasterState → MasterState × Bool
unfolding perform_step visit
transition_to_perform_collective_comms_phase g tag s =
    let (infos, done) = visit (perform_step g tag) s.client_info in
    (record s { client_info = infos }, done)

-- The operation is forgotten; with the last one the client is idle again.
abbrev pub drop_collective : ℕ → ClientInfo → ClientInfo
drop_collective tag i =
    let rest = erase tag i.collective_coms_states in
    record i {
      collective_coms_states = rest;
      connection_state = if pccl.Common.length rest == 0 then idle else i.connection_state;
    }

unfoldable pub complete_step : ℕ → ℕ → ClientInfo → Option ClientInfo
complete_step g tag i =
    if is_member g i
    then (if i.connection_state == collective_communications_running
        then elim (lookup tag i.collective_coms_states) [
          | none ↦ none
          | some c ↦
              if c == vote_complete_collective_comms then some (drop_collective tag i) else none
        ]
        else none)
    else some i

unfoldable pub transition_to_collective_comms_complete_phase :
    ℕ → ℕ → MasterState → MasterState × Bool
unfolding complete_step visit
transition_to_collective_comms_complete_phase g tag s =
    let (infos, done) = visit (complete_step g tag) s.client_info in
    (
      record s {
        client_info = infos;
        collective_comms_op_abort_states =
            if done
            then insert g (erase tag (get_or [] g s.collective_comms_op_abort_states))
                s.collective_comms_op_abort_states
            else s.collective_comms_op_abort_states;
      },
      done,
    )

unfoldable pub abort_collective_comms_operation : ℕ → ℕ → MasterState → MasterState × Bool
abort_collective_comms_operation g tag s =
    let flags = get_or [] g s.collective_comms_op_abort_states in
    if get_or false tag flags then (s, false) else (
      record s {
        collective_comms_op_abort_states =
            insert g (insert tag true flags) s.collective_comms_op_abort_states;
      },
      true,
    )

unfoldable pub is_collective_comms_operation_aborted : ℕ → ℕ → MasterState → Bool
is_collective_comms_operation_aborted g tag s = elim (lookup g s.collective_comms_op_abort_states) [
  | none ↦ false
  | some flags ↦ elim (lookup tag flags) [ none ↦ false | some b ↦ b ]
]

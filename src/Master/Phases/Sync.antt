-- ===== src/Master/Phases/Sync.antt =====
-- The start and the end of the synchronization of shared state.
use pccl.Common.{
  ℕ, ◌+◌, ◌%◌, ◌^◌, Bool, true, false, List, [], ◌∷◌, Option, none, some, if◌then◌else◌, ◌==◌,
  nat_eq, lookup, get_or, insert, erase,
}
use pccl.Client.{
  ClientInfo, ConnectionState, is_accepted, state_eq, coll_eq, idle,
  vote_complete_shared_state_sync, vote_sync_shared_state, distribute_shared_state,
  request_shared_state,
}
use pccl.Master.State.{
  MasterState, SharedStateMismatchStatus, successful_match, key_set_mismatch, SyncStrategy,
}
use pccl.Master.Votes.{put_state}
use pccl.Master.Consensus.{in_group, is_member}
use pccl.Master.Loop.{Infos, visit}

abbrev pub end_sync_step : ℕ → ClientInfo → Option ClientInfo
end_sync_step g i =
    if is_member g i
    then (if i.connection_state == vote_complete_shared_state_sync
        then some (put_state idle i)
        else none)
    else some i

-- The strategies of the group's accepted members are forgotten.
unfoldable pub forget_strategies : ℕ → Infos → List (ℕ × SyncStrategy) → List (ℕ × SyncStrategy)
forget_strategies g [] m = m
forget_strategies g ((k, i) ∷ is) m =
    forget_strategies g is (if is_member g i then erase i.client_uuid m else m)

unfoldable pub end_shared_state_sync_phase : ℕ → MasterState → MasterState × Bool
unfolding visit forget_strategies
end_shared_state_sync_phase g s =
    let (infos, done) = visit (end_sync_step g) s.client_info in
    if done
    then (
      record s {
        client_info = infos;
        shared_state_mask = insert g [] s.shared_state_mask;
        shared_state_mask_candidates = insert g [] s.shared_state_mask_candidates;
        shared_state_entries = insert g [] s.shared_state_entries;
        shared_state_hashes = insert g [] s.shared_state_hashes;
        shared_state_hash_types = insert g [] s.shared_state_hash_types;
        shared_state_statuses = insert g [] s.shared_state_statuses;
        shared_state_dirty_keys = insert g [] s.shared_state_dirty_keys;
        votes_sync_shared_state_complete = insert g [] s.votes_sync_shared_state_complete;
        shared_state_sync_strategies = forget_strategies g infos s.shared_state_sync_strategies;
      },
      true,
    )
    else (record s { client_info = infos }, false)

-- `getSharedStateMismatchStatus`
unfoldable pub get_shared_state_mismatch_status : ℕ → MasterState → Option SharedStateMismatchStatus
get_shared_state_mismatch_status u s = elim (lookup u s.client_info) [
  | none ↦ none
  | some i ↦ lookup u (get_or [] i.peer_group s.shared_state_statuses)
]

abbrev pub sync_target : SharedStateMismatchStatus → Option ConnectionState
sync_target successful_match = some distribute_shared_state
sync_target key_set_mismatch = none
sync_target _ = some request_shared_state

unfoldable pub sync_step : ℕ → MasterState → ClientInfo → Option ClientInfo
unfolding get_shared_state_mismatch_status
sync_step g s i =
    if in_group g i
    then (if i.connection_state == vote_sync_shared_state
        then elim (get_shared_state_mismatch_status i.client_uuid s) [
          | none ↦ none
          | some status ↦ elim (sync_target status) [
            | none ↦ none
            | some st ↦ some (put_state st i)
          ]
        ]
        else if is_accepted i.connection_phase
        then none
        else some i)
    else some i

-- The status of a client does not depend on what the loop writes, the connection states.
unfoldable pub transition_to_shared_state_sync_phase : ℕ → MasterState → MasterState × Bool
unfolding sync_step visit
transition_to_shared_state_sync_phase g s =
    let (infos, done) = visit (sync_step g s) s.client_info in
    if done
    then (
      record s {
        client_info = infos;
        votes_sync_shared_state = insert g [] s.votes_sync_shared_state;
        next_shared_state_revision =
            insert g ((get_or 0 g s.next_shared_state_revision + 1) % 2 ^ 64)
              s.next_shared_state_revision;
      },
      true,
    )
    else (record s { client_info = infos }, false)

-- ===== src/Handler/Collective.antt =====
-- Votes on collective operations and their aborts, on pending peers, and on the end of the
-- synchronization of shared state.
use pccl.Common.{
  ℕ, Bool, true, false, ◌&&◌, ◌||◌, List, [], ◌∷◌, ◌++◌, none, some, if◌then◌else◌, ◌==◌, nat_eq,
  lookup, erase, modify,
}
use pccl.Net.{SocketAddress, socket_eq}
use pccl.Client.{ClientInfo, is_accepted, state_eq, idle, collective_communications_running}
use pccl.Master.State.{
  MasterState, get_client_entry_set, get_next_collective_op_seq_nr, has_pending_peers,
}
use pccl.Master.Votes.{
  vote_collective_comms_initiate, vote_collective_comms_complete, vote_query_waiting_peers_pending,
  vote_dist_shared_state_complete, reset_vote_query_pending_peers,
}
use pccl.Master.Consensus.{
  is_member, collective_comms_initiate_consensus, collective_comms_complete_consensus,
  query_pending_peers_consensus, sync_shared_state_complete_consensus,
}
use pccl.Master.Phases.{
  transition_to_perform_collective_comms_phase, transition_to_collective_comms_complete_phase,
  abort_collective_comms_operation, is_collective_comms_operation_aborted,
  end_shared_state_sync_phase,
}
use pccl.Handler.{
  Handler, Action, broadcast, broadcast_to, handle_vote, in_own_group, peers_pending_response,
  sync_shared_state_complete, collective_comms_commence, collective_comms_abort,
  collective_comms_complete,
}

abbrev pub is_running_member : ℕ → ClientInfo → Bool
is_running_member g i = is_member g i && i.connection_state == collective_communications_running

unfoldable pub check_collective_comms_initiate_consensus : ℕ → ℕ → Handler → Handler × List Action
unfolding broadcast_to
check_collective_comms_initiate_consensus g tag h =
    let moved = transition_to_perform_collective_comms_phase g tag h.server_state in
    let (s, seq_nr) = get_next_collective_op_seq_nr moved.0 in
    if collective_comms_initiate_consensus g tag h.server_state
    then (if moved.1
        then (
          record h { server_state = s },
          broadcast (is_running_member g) (collective_comms_commence tag seq_nr) s,
        )
        else (record h { server_state = moved.0 }, []))
    else (h, [])

unfoldable pub send_collective_comms_abort_packets : ℕ → ℕ → Bool → MasterState → List Action
unfolding broadcast_to
send_collective_comms_abort_packets g tag aborted s =
    broadcast (is_running_member g) (collective_comms_abort tag aborted) s

abbrev pub is_done_member : ℕ → ClientInfo → Bool
is_done_member g i =
    is_member g i
    && (i.connection_state == idle || i.connection_state == collective_communications_running)

-- `peer_info.collective_coms_states.erase(tag)` for each client that is sent the packet.
unfoldable pub erase_tags : ℕ → ℕ → List (ℕ × SocketAddress) → MasterState → MasterState
erase_tags g tag [] s = s
erase_tags g tag ((u, a) ∷ es) s = erase_tags g tag es (elim (lookup u s.client_info) [
  | none ↦ s
  | some i ↦
      if is_done_member g i
      then record s {
        client_info =
            modify u (λ j. record j { collective_coms_states = erase tag j.collective_coms_states })
              s.client_info;
      }
      else s
])

unfoldable pub check_collective_comms_complete_consensus : ℕ → ℕ → Handler → Handler × List Action
unfolding send_collective_comms_abort_packets erase_tags broadcast_to
check_collective_comms_complete_consensus g tag h =
    let s = h.server_state in
    let aborts =
      if is_collective_comms_operation_aborted g tag s
      then []
      else send_collective_comms_abort_packets g tag false s in
    let moved = transition_to_collective_comms_complete_phase g tag s in
    if collective_comms_complete_consensus g tag s
    then (if moved.1
        then (
          record h { server_state = erase_tags g tag (get_client_entry_set moved.0) moved.0 },
          aborts ++ broadcast (is_done_member g) (collective_comms_complete tag) moved.0,
        )
        else (record h { server_state = moved.0 }, aborts))
    else (h, [])

unfoldable pub handle_collective_comms_initiate :
    SocketAddress → ℕ → Handler → Handler × List Action
unfolding check_collective_comms_initiate_consensus handle_vote in_own_group
handle_collective_comms_initiate a tag =
    handle_vote a (λ u. vote_collective_comms_initiate u tag)
      (in_own_group (λ g. check_collective_comms_initiate_consensus g tag))

-- The first that reports an abort has it sent to the others.
unfoldable pub report_abort : ℕ → ℕ → Bool → Handler → Handler × List Action
unfolding send_collective_comms_abort_packets
report_abort g tag was_aborted h =
    let (s, first) = abort_collective_comms_operation g tag h.server_state in
    if was_aborted
    then (
      record h { server_state = s },
      if first then send_collective_comms_abort_packets g tag true s else [],
    )
    else (h, [])

unfoldable pub finish_collective_comms : ℕ → Bool → ℕ → Handler → Handler × List Action
unfolding report_abort check_collective_comms_complete_consensus
finish_collective_comms tag was_aborted g h =
    let reported = report_abort g tag was_aborted h in
    let checked = check_collective_comms_complete_consensus g tag reported.0 in
    (checked.0, reported.1 ++ checked.1)

unfoldable pub handle_collective_comms_complete :
    SocketAddress → ℕ → Bool → Handler → Handler × List Action
unfolding finish_collective_comms handle_vote in_own_group
handle_collective_comms_complete a tag was_aborted =
    handle_vote a (λ u. vote_collective_comms_complete u tag)
      (in_own_group (finish_collective_comms tag was_aborted))

unfoldable pub check_query_peers_pending_consensus : Handler → Handler × List Action
unfolding broadcast_to
check_query_peers_pending_consensus h =
    let s = h.server_state in
    if query_pending_peers_consensus s
    then (
      record h { server_state = reset_vote_query_pending_peers s },
      broadcast (λ i. is_accepted i.connection_phase) (peers_pending_response (has_pending_peers s))
          s,
    )
    else (h, [])

unfoldable pub handle_check_peers_pending : SocketAddress → Handler → Handler × List Action
unfolding check_query_peers_pending_consensus handle_vote
handle_check_peers_pending a =
    handle_vote a vote_query_waiting_peers_pending (λ u. check_query_peers_pending_consensus)

unfoldable pub check_sync_shared_state_complete_consensus : ℕ → Handler → Handler × List Action
unfolding broadcast_to
check_sync_shared_state_complete_consensus g h =
    let moved = end_shared_state_sync_phase g h.server_state in
    if sync_shared_state_complete_consensus g h.server_state
    then (
      record h { server_state = moved.0 },
      if moved.1
          then broadcast (λ i. is_member g i && i.connection_state == idle)
              sync_shared_state_complete moved.0
          else [],
    )
    else (h, [])

unfoldable pub handle_sync_shared_state_complete : SocketAddress → Handler → Handler × List Action
unfolding check_sync_shared_state_complete_consensus handle_vote in_own_group
handle_sync_shared_state_complete a =
    handle_vote a vote_dist_shared_state_complete
      (in_own_group check_sync_shared_state_complete_consensus)

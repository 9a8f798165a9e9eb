-- ===== src/Handler/Disconnect.antt =====
-- A client that leaves: `onClientDisconnect`.
use pccl.Common.{
  ℕ, Bool, true, List, [], ◌∷◌, ◌++◌, Option, none, some, if◌then◌else◌, nat_eq, lookup,
}
use pccl.Net.{SocketAddress, socket_eq}
use pccl.Master.State.{find_client_uuid}
use pccl.Master.Consensus.{is_collective_operation_running}
use pccl.Master.Registry.{unregister_client}
use pccl.Master.Audit.{get_ongoing_collective_comms_op_tags}
use pccl.Handler.{Handler, Action}
use pccl.Handler.Establish.{check_establish_p2p_connection_consensus}
use pccl.Handler.Connected.{check_p2p_connections_established}
use pccl.Handler.Collective.{
  check_query_peers_pending_consensus, check_sync_shared_state_complete_consensus,
  check_collective_comms_initiate_consensus, check_collective_comms_complete_consensus,
  report_abort,
}
use pccl.Handler.Sync.{check_sync_shared_state_consensus}

abbrev pub followed_by :
    (Handler → Handler × List Action)
    → (Handler → Handler × List Action)
    → Handler
    → Handler × List Action
followed_by f k h = let first = f h in let second = k first.0 in (second.0, first.1 ++ second.1)

-- An operation that a member still performs is aborted.
unfoldable pub abort_if_running : ℕ → ℕ → Handler → Handler × List Action
unfolding report_abort
abort_if_running g tag h =
    if is_collective_operation_running g tag h.server_state
    then report_abort g tag true h
    else (h, [])

abbrev pub complete_or_abort : ℕ → ℕ → Handler → Handler × List Action
complete_or_abort g tag =
    followed_by (check_collective_comms_complete_consensus g tag) (abort_if_running g tag)

abbrev pub recheck_operation : ℕ → ℕ → Handler → Handler × List Action
recheck_operation g tag =
    followed_by (check_collective_comms_initiate_consensus g tag) (complete_or_abort g tag)

unfoldable pub recheck_operations : ℕ → List ℕ → Handler → Handler × List Action
unfolding abort_if_running check_collective_comms_initiate_consensus
    check_collective_comms_complete_consensus
recheck_operations g [] h = (h, [])
recheck_operations g (tag ∷ tags) h =
    followed_by (recheck_operation g tag) (recheck_operations g tags) h

abbrev pub end_establishment : Handler → Handler × List Action
end_establishment h = check_p2p_connections_established (record h { peer_dropped = true })

-- The votes that the client was the last to be missing from, up to the synchronization.
abbrev pub recheck_connections : Handler → Handler × List Action
recheck_connections =
    followed_by check_establish_p2p_connection_consensus
      (followed_by end_establishment check_query_peers_pending_consensus)

abbrev pub recheck_ongoing : ℕ → Handler → Handler × List Action
recheck_ongoing g h = recheck_operations g (get_ongoing_collective_comms_op_tags g h.server_state) h

-- The votes after that.
abbrev pub recheck_group : ℕ → Handler → Handler × List Action
recheck_group g = followed_by (check_sync_shared_state_complete_consensus g) (recheck_ongoing g)

-- The values of the checks are only logged.
unfoldable pub on_client_disconnect :
    (SocketAddress → Bool) → SocketAddress → Handler → Option (Handler × List Action)
unfolding unregister_client check_establish_p2p_connection_consensus
    check_p2p_connections_established check_query_peers_pending_consensus
    check_sync_shared_state_consensus check_sync_shared_state_complete_consensus recheck_operations
on_client_disconnect closes a h = elim (find_client_uuid a h.server_state) [
  | none ↦ some (h, [])
  | some u ↦ elim (lookup u h.server_state.client_info) [
    | none ↦ some (h, [])
    | some i ↦
        let left = unregister_client a h.server_state in
        let gone = record h { server_state = left.0 } in
        let first = recheck_connections gone in
        if left.1
        then elim (check_sync_shared_state_consensus closes i.peer_group first.0) [
          | none ↦ none
          | some (synced, out, ok) ↦
              let last = recheck_group i.peer_group synced in
              some (last.0, first.1 ++ (out ++ last.1))
        ]
        else some (gone, [])
  ]
]

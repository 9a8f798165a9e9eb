-- ===== src/Handler/Keeps/Disconnect.antt =====
-- A client that leaves, and the votes that its leaving decides, keep the invariant.
use pccl.Common.{
  ℕ, ◌≡◌, Bool, true, List, [], ◌∷◌, some, nat_eq, lookup, Bool-cases, Option-cases, inl, inr,
  subst,
}
use pccl.Net.{SocketAddress, socket_eq}
use pccl.Master.State.{find_client_uuid}
use pccl.Master.Consensus.{is_collective_operation_running}
use pccl.Master.Registry.{unregister_client}
use pccl.Master.Audit.{get_ongoing_collective_comms_op_tags}
use pccl.Master.Invariant.{Inv}
use pccl.Master.Invariant.Members.{unregister-Inv}
use pccl.Handler.{Handler, Action}
use pccl.Handler.Establish.{check_establish_p2p_connection_consensus}
use pccl.Handler.Collective.{
  check_query_peers_pending_consensus, check_sync_shared_state_complete_consensus,
  check_collective_comms_initiate_consensus, check_collective_comms_complete_consensus,
}
use pccl.Handler.Sync.{check_sync_shared_state_consensus}
use pccl.Handler.Disconnect.{
  followed_by, abort_if_running, recheck_operations, recheck_connections, recheck_group,
  recheck_operation, complete_or_abort, end_establishment, recheck_ongoing, on_client_disconnect,
}
use pccl.Handler.Keeps.{Keeps}
use pccl.Handler.Keeps.Establish.{check_establish-Inv, check_connected-Inv}
use pccl.Handler.Keeps.Collective.{
  check_query-Inv, check_sync_complete-Inv, check_initiate-Inv, check_complete-Inv,
  report_abort-Inv,
}
use pccl.Handler.Keeps.Sync.{Stays, check_sync-Stays}

followed_by-Keeps :
    (f k : Handler → Handler × List Action) → Keeps f → Keeps k → Keeps (followed_by f k)
followed_by-Keeps f k kf kk h v = kk (f h).0 (kf h v)

abort_if_running-Keeps : (g tag : ℕ) → Keeps (abort_if_running g tag)
unfolding abort_if_running
abort_if_running-Keeps g tag h v =
    elim (Bool-cases (is_collective_operation_running g tag h.server_state)) [
      | inl running ↦ rw (running, abort_if_running) (report_abort-Inv g tag true h v)
      | inr over ↦ rw (over, abort_if_running) v
    ]

recheck_operation-Keeps : (g tag : ℕ) → Keeps (recheck_operation g tag)
recheck_operation-Keeps g tag =
    followed_by-Keeps (check_collective_comms_initiate_consensus g tag) (complete_or_abort g tag)
      (check_initiate-Inv g tag)
      (followed_by-Keeps (check_collective_comms_complete_consensus g tag) (abort_if_running g tag)
        (check_complete-Inv g tag) (abort_if_running-Keeps g tag))

recheck_operations-Keeps : (g : ℕ) (tags : List ℕ) → Keeps (recheck_operations g tags)
unfolding recheck_operations
recheck_operations-Keeps g [] h v = v
recheck_operations-Keeps g (tag ∷ tags) h v =
    followed_by-Keeps (recheck_operation g tag) (recheck_operations g tags)
      (recheck_operation-Keeps g tag) (recheck_operations-Keeps g tags) h v

recheck_connections-Keeps : Keeps recheck_connections
recheck_connections-Keeps =
    followed_by-Keeps check_establish_p2p_connection_consensus
      (followed_by end_establishment check_query_peers_pending_consensus) check_establish-Inv
      (followed_by-Keeps end_establishment check_query_peers_pending_consensus
        (λ h v. check_connected-Inv (record h { peer_dropped = true }) v) check_query-Inv)

recheck_group-Keeps : (g : ℕ) → Keeps (recheck_group g)
recheck_group-Keeps g =
    followed_by-Keeps (check_sync_shared_state_complete_consensus g) (recheck_ongoing g)
      (check_sync_complete-Inv g)
      (λ h v.
        recheck_operations-Keeps g (get_ongoing_collective_comms_op_tags g h.server_state) h v)

pub disconnect-Stays :
    (closes : SocketAddress → Bool) (a : SocketAddress) (h : Handler)
    → Inv h.server_state
    → Stays (λ r. r.0) (on_client_disconnect closes a h)
unfolding on_client_disconnect
disconnect-Stays closes a h v = elim (Option-cases (find_client_uuid a h.server_state)) [
  | inl unknown ↦ rw (unknown, on_client_disconnect) v
  | inr (u, known) ↦ elim (Option-cases (lookup u h.server_state.client_info)) [
    | inl missing ↦ rw (known, missing, on_client_disconnect) v
    | inr (i, e) ↦
        let left = unregister_client a h.server_state in
        let gone = record h { server_state = left.0 } in
        let kept = unregister-Inv h.server_state v a in
        let first = recheck_connections gone in
        let stays =
          check_sync-Stays closes i.peer_group first.0 (recheck_connections-Keeps gone kept) in
        elim (Bool-cases left.1) [
          | inr failed ↦ rw (known, e, failed, on_client_disconnect) kept
          | inl ok ↦
              elim (Option-cases (check_sync_shared_state_consensus closes i.peer_group first.0)) [
                | inl undefined ↦ rw (known, e, ok, undefined, on_client_disconnect) tt
                | inr (result, done) ↦
                    rw (known, e, ok, done, on_client_disconnect)
                      (recheck_group-Keeps i.peer_group result.0
                        (subst (Stays (λ q. q.0)) done stays))
              ]
        ]
  ]
]

-- The disconnect of a client keeps the invariant wherever the model of the handler has a result,
-- that is, where the code's behaviour is defined: the client is forgotten, each vote that it was
-- the last to be missing from is decided in turn, and the operations that its group still performs
-- are aborted.
pub on_client_disconnect-Inv :
    (closes : SocketAddress → Bool) (a : SocketAddress) (h next : Handler) (out : List Action)
    → on_client_disconnect closes a h ≡ some (next, out)
    → Inv h.server_state
    → Inv next.server_state
on_client_disconnect-Inv closes a h next out e v =
    subst (Stays (λ r. r.0)) e (disconnect-Stays closes a h v)

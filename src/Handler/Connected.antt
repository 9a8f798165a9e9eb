-- ===== src/Handler/Connected.antt =====
-- The end of the establishment of p2p connections: `checkP2PConnectionsEstablished`.
use pccl.Common.{
  ℕ, Bool, true, false, ◌&&◌, ◌||◌, not, List, [], ◌∷◌, none, some, if◌then◌else◌, ◌==◌, nat_eq,
  lookup,
}
use pccl.Net.{SocketAddress, socket_eq}
use pccl.Client.{ClientInfo, state_eq, connecting_to_peers_failed, waiting_for_other_peers}
use pccl.Master.State.{MasterState, get_client_entry_set}
use pccl.Master.Consensus.{p2p_connections_establish_consensus}
use pccl.Master.Phases.{transition_to_p2p_connections_established_phase, missed_the_cut}
use pccl.Master.Ring.{get_ring_topology}
use pccl.Master.Reports.{mark_p2p_connections_established}
use pccl.Handler.{Handler, Action, send, handle_vote, p2p_connections_established}

-- A loop over the known clients that ends with the first that passes the test.
unfoldable pub any_client : (ClientInfo → Bool) → MasterState → List (ℕ × SocketAddress) → Bool
any_client p s [] = false
any_client p s ((u, a) ∷ es) =
    let rest = any_client p s es in
    elim (lookup u s.client_info) [ none ↦ rest | some i ↦ if p i then true else rest ]

abbrev pub is_failed : ClientInfo → Bool
is_failed i = i.connection_state == connecting_to_peers_failed

abbrev pub is_reported : ClientInfo → Bool
is_reported i = i.connection_state == waiting_for_other_peers || is_failed i

-- Each client of the phase is sent the result, and the ring of its group.
unfoldable pub send_established :
    Bool → List (ℕ × SocketAddress) → MasterState → MasterState × List Action
send_established success [] s = (s, [])
send_established success ((u, a) ∷ es) s =
    let skip = send_established success es s in
    let visit : MasterState × List Action = elim (lookup u s.client_info) [
      | none ↦ skip
      | some i ↦
          if missed_the_cut i
          then skip
          else (let (t, ring) = get_ring_topology i.peer_group false s in
              let (rest, out) = send_established success es t in
              (rest, send a (p2p_connections_established success ring) ∷ out))
    ] in
    visit

-- The value that the code returns is only logged.
unfoldable pub check_p2p_connections_established : Handler → Handler × List Action
unfolding any_client send_established
check_p2p_connections_established h =
    let s = h.server_state in
    let entries = get_client_entry_set s in
    let any_failed = any_client is_failed s entries in
    let moved = transition_to_p2p_connections_established_phase (any_failed || h.peer_dropped) s in
    let told =
      send_established (if h.peer_dropped then false else not any_failed)
        (get_client_entry_set moved.0) moved.0 in
    if any_client is_reported s entries && p2p_connections_establish_consensus s
    then (if moved.1
        then (record h { server_state = told.0; peer_dropped = false }, told.1)
        else (record h { server_state = moved.0; peer_dropped = false }, []))
    else (h, [])

unfoldable pub handle_p2p_connections_established :
    SocketAddress → Bool → List ℕ → Handler → Handler × List Action
unfolding check_p2p_connections_established handle_vote
handle_p2p_connections_established a success failed_peers =
    handle_vote a (λ u. mark_p2p_connections_established u success failed_peers)
      (λ u. check_p2p_connections_established)

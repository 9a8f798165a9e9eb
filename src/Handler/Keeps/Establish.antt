-- ===== src/Handler/Keeps/Establish.antt =====
-- The handlers of the establishment of p2p connections keep the invariant.
use pccl.Common.{
  ℕ, ◌≡◌, Bool, true, false, ◌&&◌, ◌||◌, not, List, [], ◌∷◌, ◌++◌, none, if◌then◌else◌, ◌==◌,
  nat_eq, lookup, Bool-cases, Option-cases, inl, inr, length,
}
use pccl.Net.{SocketAddress, socket_eq}
use pccl.Client.{ClientInfo, VariablePorts, state_eq, connecting_to_peers}
use pccl.Master.State.{
  MasterState, get_client_entry_set, get_client_socket_addresses, is_client_registered,
}
use pccl.Master.Votes.{vote_establish_p2p_connections}
use pccl.Master.Consensus.{
  accept_new_peers_consensus, no_accept_new_peers_consensus, p2p_connections_establish_consensus,
}
use pccl.Master.Phases.{
  transition_to_p2p_establishment_phase, transition_to_p2p_connections_established_phase,
  missed_the_cut,
}
use pccl.Master.Registry.{register_client}
use pccl.Master.Invariant.{Inv}
use pccl.Master.Invariant.Voting.{vote_establish-Inv}
use pccl.Master.Invariant.Establish.{transition_true-Inv, transition_false-Inv}
use pccl.Master.Invariant.Marked.{mark_p2p-Inv}
use pccl.Master.Invariant.Members.{register-Inv}
use pccl.Master.Invariant.Partial.{transition_to_established-Inv}
use pccl.Master.Ring.{get_peers_for_client, get_ring_topology}
use pccl.Master.Reports.{mark_p2p_connections_established}
use pccl.Handler.{Handler, Action}
use pccl.Handler.Establish.{
  send_p2p_connection_information_to, send_to_connecting, send_p2p_connection_information,
  start_establishment, check_establish_p2p_connection_consensus, handle_establish_p2p_connections,
  handle_request_session_join,
}
use pccl.Handler.Connected.{
  any_client, is_failed, is_reported, send_established, check_p2p_connections_established,
  handle_p2p_connections_established,
}
use pccl.Handler.Keeps.{Keeps, get_ring_topology-Inv, handle_vote-Inv}

send_to-Inv : (i : ClientInfo) (b : Bool) → Keeps (send_p2p_connection_information_to i b)
unfolding send_p2p_connection_information_to get_peers_for_client
send_to-Inv i b h v = get_ring_topology-Inv i.peer_group b h.server_state v

send_to_connecting-Inv :
    (b : Bool) (es : List (ℕ × SocketAddress)) → Keeps (send_to_connecting b es)
unfolding send_to_connecting
send_to_connecting-Inv b [] h v = v
send_to_connecting-Inv b ((u, a) ∷ es) h v =
    elim (Option-cases (lookup u h.server_state.client_info)) [
      | inl e ↦ rw (e, send_to_connecting) (send_to_connecting-Inv b es h v)
      | inr (i, e) ↦ elim (Bool-cases (i.connection_state == connecting_to_peers)) [
        | inl yes' ↦
            rw (e, yes', send_to_connecting)
              (send_to_connecting-Inv b es (send_p2p_connection_information_to i b h).0
                (send_to-Inv i b h v))
        | inr no' ↦ rw (e, no', send_to_connecting) (send_to_connecting-Inv b es h v)
      ]
    ]

send_information-Inv : (b : Bool) → Keeps (send_p2p_connection_information b)
unfolding send_p2p_connection_information
send_information-Inv b h v = send_to_connecting-Inv b (get_client_entry_set h.server_state) h v

no_new_peers-Inv :
    (h : Handler)
    → Inv h.server_state
    → no_accept_new_peers_consensus h.server_state ≡ true
    → Inv (start_establishment false h).0.server_state
no_new_peers-Inv h v agreed =
    send_information-Inv false
      (record h {
        server_state = (transition_to_p2p_establishment_phase false h.server_state).0;
        peer_dropped = false;
      })
      (transition_false-Inv h.server_state v agreed)

new_peers-Inv :
    (h : Handler)
    → Inv h.server_state
    → accept_new_peers_consensus h.server_state ≡ true
    → Inv (start_establishment true h).0.server_state
new_peers-Inv h v agreed =
    send_information-Inv true
      (record h {
        server_state = (transition_to_p2p_establishment_phase true h.server_state).0;
        peer_dropped = false;
      })
      (transition_true-Inv h.server_state v agreed)

second_check-Inv :
    (first : Handler × List Action)
    → Inv first.0.server_state
    → Inv
        (if no_accept_new_peers_consensus first.0.server_state
          then (let second = start_establishment false first.0 in (second.0, first.1 ++ second.1))
          else first).0.server_state
second_check-Inv first v = elim (Bool-cases (no_accept_new_peers_consensus first.0.server_state)) [
  | inl agreed ↦ rw agreed (no_new_peers-Inv first.0 v agreed)
  | inr split ↦ rw split v
]

pub check_establish-Inv : Keeps check_establish_p2p_connection_consensus
unfolding check_establish_p2p_connection_consensus
check_establish-Inv h v = elim (Bool-cases (accept_new_peers_consensus h.server_state)) [
  | inl agreed ↦
      rw (agreed, check_establish_p2p_connection_consensus)
        (second_check-Inv (start_establishment true h) (new_peers-Inv h v agreed))
  | inr split ↦ rw (split, check_establish_p2p_connection_consensus) (second_check-Inv (h, []) v)
]

-- A vote to establish p2p connections, with or without new peers, and the phase that the last vote
-- starts keep the invariant.
pub handle_establish-Inv :
    (a : SocketAddress) (b : Bool) (h : Handler)
    → Inv h.server_state
    → Inv (handle_establish_p2p_connections a b h).0.server_state
unfolding handle_establish_p2p_connections
handle_establish-Inv a b =
    handle_vote-Inv a (λ u. vote_establish_p2p_connections u b)
      (λ u. check_establish_p2p_connection_consensus) (λ u s v. vote_establish-Inv u b s v)
      (λ u. check_establish-Inv)

-- A request to join under a uuid that no client has keeps the invariant, on every branch: the
-- address is known, local and remote clients would mix, the client is the first, or its entry lets
-- a consensus be reached.
pub handle_join-Inv :
    (a : SocketAddress) (ports : VariablePorts) (g u : ℕ) (h : Handler)
    → Inv h.server_state
    → lookup u h.server_state.client_info ≡ none
    → Inv (handle_request_session_join a ports g u h).0.server_state
unfolding handle_request_session_join
handle_join-Inv a ports g u h v fresh = elim (Bool-cases (is_client_registered a h.server_state)) [
  | inl twice ↦ rw (twice, handle_request_session_join) v
  | inr new ↦
      let s = (register_client a ports g u h.server_state).0 in
      let registered = record h { server_state = s } in
      let vs : Inv s = register-Inv a ports g u h.server_state v fresh in
      elim (Bool-cases (length (get_client_socket_addresses s) == 1)) [
        | inl first ↦
            rw (new, first, handle_request_session_join) (send_information-Inv true registered vs)
        | inr later ↦
            rw (new, later, handle_request_session_join) (check_establish-Inv registered vs)
      ]
]

send_established-Inv :
    (ok : Bool) (es : List (ℕ × SocketAddress)) (s : MasterState)
    → Inv s
    → Inv (send_established ok es s).0
unfolding send_established
send_established-Inv ok [] s v = v
send_established-Inv ok ((u, a) ∷ es) s v = elim (Option-cases (lookup u s.client_info)) [
  | inl e ↦ rw (e, send_established) (send_established-Inv ok es s v)
  | inr (i, e) ↦ elim (Bool-cases (missed_the_cut i)) [
    | inl missed ↦ rw (e, missed, send_established) (send_established-Inv ok es s v)
    | inr made ↦
        rw (e, made, send_established)
          (send_established-Inv ok es (get_ring_topology i.peer_group false s).0
            (get_ring_topology-Inv i.peer_group false s v))
  ]
]

pub check_connected-Inv : Keeps check_p2p_connections_established
unfolding check_p2p_connections_established
check_connected-Inv h v =
    let s = h.server_state in
    let entries = get_client_entry_set s in
    let failure = any_client is_failed s entries || h.peer_dropped in
    let vm = transition_to_established-Inv s v failure in
    let moved = transition_to_p2p_connections_established_phase failure s in
    elim (Bool-cases (any_client is_reported s entries && p2p_connections_establish_consensus s)) [
      | inr early ↦ rw (early, check_p2p_connections_established) v
      | inl agreed ↦ elim (Bool-cases moved.1) [
        | inl done ↦
            rw (agreed, done, check_p2p_connections_established)
              (send_established-Inv
                (if h.peer_dropped then false else not (any_client is_failed s entries))
                (get_client_entry_set moved.0) moved.0 vm)
        | inr failed ↦ rw (agreed, failed, check_p2p_connections_established) vm
      ]
    ]

-- A client's report on its p2p connections keeps the invariant: a refused one, one that makes the
-- master look for another ring, and one that ends the phase, also where the transition to the end
-- fails half way.
pub handle_connected-Inv :
    (a : SocketAddress) (success : Bool) (failed_peers : List ℕ) (h : Handler)
    → Inv h.server_state
    → Inv (handle_p2p_connections_established a success failed_peers h).0.server_state
unfolding handle_p2p_connections_established
handle_connected-Inv a success failed_peers =
    handle_vote-Inv a (λ u. mark_p2p_connections_established u success failed_peers)
      (λ u. check_p2p_connections_established) (λ u s v. mark_p2p-Inv u success failed_peers s v)
      (λ u. check_connected-Inv)

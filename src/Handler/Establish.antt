-- ===== src/Handler/Establish.antt =====
-- Votes on p2p connections, their information packets, and the end of the phase.
use pccl.Common.{
  ℕ, Bool, true, false, not, List, [], ◌∷◌, ◌++◌, map, none, some, if◌then◌else◌, ◌==◌, nat_eq,
  lookup, get_or, insert, length, any,
}
use pccl.Net.{SocketAddress, socket_eq}
use pccl.Client.{ClientInfo, VariablePorts, state_eq, connecting_to_peers}
use pccl.Master.State.{
  get_client_entry_set, get_client_socket_addresses, get_global_world_size, get_local_world_size,
  get_num_distinct_peer_groups, get_largest_peer_group_world_size, is_client_registered,
}
use pccl.Master.Votes.{vote_establish_p2p_connections}
use pccl.Master.Consensus.{accept_new_peers_consensus, no_accept_new_peers_consensus}
use pccl.Master.Phases.{transition_to_p2p_establishment_phase}
use pccl.Master.Registry.{register_client}
use pccl.Master.Ring.{get_peers_for_client}
use pccl.Handler.{
  Handler, Action, send, kick, handle_vote, session_registration_response, p2p_connection_info,
}

abbrev named_in : List ClientInfo → ClientInfo → Bool
named_in previous i = any (λ p. p.client_uuid == i.client_uuid) previous

-- Whether a client's neighbours are others than it was last told.
unfoldable pub peers_changed : List ClientInfo → List ClientInfo → Bool
peers_changed previous peers =
    if length previous == length peers then any (λ p. not (named_in previous p)) peers else true

abbrev pub listen_address : ClientInfo → SocketAddress × ℕ
listen_address i = (
  record { inet = i.socket_address.inet; port = i.variable_ports.p2p_listen_port },
  i.client_uuid,
)

-- `sendP2PConnectionInformation` for one client. Its ring may be set anew on the way.
unfoldable pub send_p2p_connection_information_to :
    ClientInfo → Bool → Handler → Handler × List Action
unfolding peers_changed
send_p2p_connection_information_to i include_registered h =
    let s = h.server_state in
    let (t, peers) = get_peers_for_client i include_registered s in
    let changed = peers_changed (get_or [] i.client_uuid h.previous_p2p_connection_info) peers in
    (
      record h {
        server_state = t;
        previous_p2p_connection_info = insert i.client_uuid peers h.previous_p2p_connection_info;
      },
      send i.socket_address (
            p2p_connection_info (record {
              global_world_size = get_global_world_size s;
              local_world_size = get_local_world_size i.peer_group include_registered s;
              num_distinct_peer_groups = get_num_distinct_peer_groups include_registered s;
              largest_peer_group_world_size =
                  get_largest_peer_group_world_size include_registered s;
              all_peers = if changed then map listen_address peers else [];
              unchanged = not changed;
            }))
          ∷ [],
    )

unfoldable pub send_to_connecting :
    Bool → List (ℕ × SocketAddress) → Handler → Handler × List Action
unfolding send_p2p_connection_information_to
send_to_connecting include_registered [] h = (h, [])
send_to_connecting include_registered ((u, a) ∷ es) h =
    let skip = send_to_connecting include_registered es h in
    let visit : Handler × List Action = elim (lookup u h.server_state.client_info) [
      | none ↦ skip
      | some i ↦
          if i.connection_state == connecting_to_peers
          then (let (told, out) = send_p2p_connection_information_to i include_registered h in
              let (rest, more) = send_to_connecting include_registered es told in
              (rest, out ++ more))
          else skip
    ] in
    visit

unfoldable pub send_p2p_connection_information : Bool → Handler → Handler × List Action
unfolding send_to_connecting
send_p2p_connection_information include_registered h =
    send_to_connecting include_registered (get_client_entry_set h.server_state) h

-- A new phase: it forgets that a peer was dropped in the last one.
abbrev pub start_establishment : Bool → Handler → Handler × List Action
start_establishment accept_new_peers h =
    send_p2p_connection_information accept_new_peers (record h {
      server_state = (transition_to_p2p_establishment_phase accept_new_peers h.server_state).0;
      peer_dropped = false;
    })

-- The transition cannot fail, so that the code's check of it is left out.
unfoldable pub check_establish_p2p_connection_consensus : Handler → Handler × List Action
unfolding send_p2p_connection_information
check_establish_p2p_connection_consensus h =
    let first : Handler × List Action =
      if accept_new_peers_consensus h.server_state then start_establishment true h else (h, []) in
    if no_accept_new_peers_consensus first.0.server_state
    then (let second = start_establishment false first.0 in (second.0, first.1 ++ second.1))
    else first

unfoldable pub handle_establish_p2p_connections :
    SocketAddress → Bool → Handler → Handler × List Action
unfolding check_establish_p2p_connection_consensus handle_vote
handle_establish_p2p_connections a accept_new_peers =
    handle_vote a (λ u. vote_establish_p2p_connections u accept_new_peers)
      (λ u. check_establish_p2p_connection_consensus)

-- The uuid is the one that the server generates.
unfoldable pub handle_request_session_join :
    SocketAddress → VariablePorts → ℕ → ℕ → Handler → Handler × List Action
unfolding check_establish_p2p_connection_consensus send_p2p_connection_information
handle_request_session_join a ports group new_uuid h =
    if is_client_registered a h.server_state
    then (h, kick a ∷ [])
    else let (s, accepted) = register_client a ports group new_uuid h.server_state in
      let registered = record h { server_state = s } in
      let (next, out) : Handler × List Action =
        if length (get_client_socket_addresses s) == 1
        then send_p2p_connection_information true registered
        else check_establish_p2p_connection_consensus registered in
      (next, send a (session_registration_response accepted new_uuid) ∷ out)

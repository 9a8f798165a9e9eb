-- ===== src/Master/Registry.antt =====
-- Clients that join and leave: `registerClient`, `unregisterClient`.
use pccl.Common.{
  ℕ, Bool, true, false, not, List, [], none, some, if◌then◌else◌, ◌==◌, nat_eq, lookup, contains,
  get_or, insert, erase, modify, map_values, values, remove, length, all,
}
use pccl.Net.{SocketAddress, socket_eq, is_local_address}
use pccl.Client.{
  ClientInfo, VariablePorts, is_accepted, peer_registered, peer_accepted, idle,
  no_vote_initiated_query_pending_peers,
}
use pccl.Bandwidth.{unregister_peer}
use pccl.Master.State.{MasterState}
use pccl.Master.Votes.{vote_establish_p2p_connections}
use pccl.Master.Consensus.{accept_new_peers_consensus}
use pccl.Master.Phases.{on_peer_accepted, transition_to_p2p_establishment_phase}

abbrev pub fresh_info : SocketAddress → VariablePorts → ℕ → ℕ → ClientInfo
fresh_info a ports group uuid = record {
  client_uuid = uuid;
  connection_phase = peer_registered;
  connection_state = idle;
  vote_query = no_vote_initiated_query_pending_peers;
  collective_coms_states = [];
  socket_address = a;
  variable_ports = ports;
  peer_group = group;
}

-- Local and non-local clients do not mix.
unfoldable pub locality_conflict : SocketAddress → MasterState → Bool
locality_conflict a s =
    let all_local = all (λ i. is_local_address i.socket_address) (values s.client_info) in
    if length s.client_info == 0
    then false
    else if all_local
    then not (is_local_address a)
    else is_local_address a

abbrev pub accept_info : ClientInfo → ClientInfo
accept_info i = record i { connection_phase = peer_accepted }

unfoldable pub enter : SocketAddress → ℕ → ClientInfo → MasterState → MasterState
enter a uuid i s = record s {
  client_uuids = insert a uuid s.client_uuids;
  uuid_clients = insert uuid a s.uuid_clients;
  client_info = insert uuid i s.client_info;
  peer_list_changed = map_values (λ b. true) s.peer_list_changed;
}

-- The first client is accepted at once, and votes for the first establishment phase.
unfoldable pub admit_first : ℕ → ClientInfo → MasterState → MasterState × Bool
unfolding vote_establish_p2p_connections accept_new_peers_consensus
    transition_to_p2p_establishment_phase
admit_first uuid i s =
    let accepted = record s {
      client_info = modify uuid accept_info s.client_info;
      bandwidth_store = on_peer_accepted (accept_info i) s.bandwidth_store;
    } in
    let (voted, cast) = vote_establish_p2p_connections uuid true accepted in
    if cast
    then (if accept_new_peers_consensus voted
        then ((transition_to_p2p_establishment_phase true voted).0, true)
        else (voted, false))
    else (voted, false)

unfoldable pub register_client :
    SocketAddress → VariablePorts → ℕ → ℕ → MasterState → MasterState × Bool
unfolding locality_conflict enter admit_first
register_client a ports group uuid s =
    if locality_conflict a s
    then (s, false)
    else if contains a s.client_uuids
    then (s, false)
    else let i = fresh_info a ports group uuid in
      let entered = enter a uuid i s in
      if length entered.client_uuids == 1 then admit_first uuid i entered else (entered, true)

-- `m[group].erase(uuid)`
abbrev pub remove_in : ℕ → ℕ → List (ℕ × List ℕ) → List (ℕ × List ℕ)
remove_in group u m = insert group (remove u (get_or [] group m)) m

unfoldable pub forget_client : SocketAddress → ℕ → ClientInfo → MasterState → MasterState
forget_client a u i s = record s {
  client_uuids = erase a s.client_uuids;
  uuid_clients = erase u s.uuid_clients;
  client_info = erase u s.client_info;
  bandwidth_store =
      if is_accepted i.connection_phase
      then (unregister_peer u s.bandwidth_store).0
      else s.bandwidth_store;
  votes_accept_new_peers = remove u s.votes_accept_new_peers;
  votes_establish_p2p_connections = remove u s.votes_establish_p2p_connections;
  votes_optimize_topology = remove u s.votes_optimize_topology;
  votes_complete_topology_optimization = remove u s.votes_complete_topology_optimization;
  votes_sync_shared_state = remove_in i.peer_group u s.votes_sync_shared_state;
  shared_state_sync_strategies = erase u s.shared_state_sync_strategies;
  votes_sync_shared_state_complete = remove_in i.peer_group u s.votes_sync_shared_state_complete;
  peer_list_changed = map_values (λ b. true) s.peer_list_changed;
}

-- The two inconsistencies that the code reports leave the state as it is, or without the
-- uuid -> address entry.
unfoldable pub unregister_client : SocketAddress → MasterState → MasterState × Bool
unfolding forget_client
unregister_client a s = elim (lookup a s.client_uuids) [
  | none ↦ (s, false)
  | some u ↦
      if contains u s.uuid_clients
      then elim (lookup u s.client_info) [
        | none ↦ (record s { uuid_clients = erase u s.uuid_clients }, false)
        | some i ↦ (forget_client a u i s, true)
      ]
      else (s, false)
]

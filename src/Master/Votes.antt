-- ===== src/Master/Votes.antt =====
-- The votes of a client: `vote…`, `markP2PConnectionsEstablished` stands in Topology.
-- A vote that is refused because the set holds it already has changed the client's state before.
use pccl.Common.{
  ℕ, Bool, true, false, ◌&&◌, ◌||◌, not, List, [], Option, none, some, if◌then◌else◌, ◌==◌, nat_eq,
  lookup, contains, get_or, insert, modify, has, add,
}
use pccl.Client.{
  ClientInfo, ConnectionState, CollectiveCommunicationState, is_accepted, is_query_vote, state_eq,
  coll_eq, idle, vote_accept_new_peers, vote_no_new_peers_establish_p2p_connections,
  connecting_to_peers_failed, vote_optimize_topology, optimize_topology, optimize_topology_failed,
  vote_complete_topology_optimization, vote_sync_shared_state, distribute_shared_state,
  request_shared_state, vote_complete_shared_state_sync, collective_communications_running,
  vote_initiate_collective_comms, perform_collective_comms, vote_complete_collective_comms,
  vote_query_pending_peers,
}
use pccl.Master.State.{MasterState, SyncStrategy}

-- `info.connection_state = st` through the reference that `getClientInfo` gives.
abbrev pub put_state : ConnectionState → ClientInfo → ClientInfo
put_state st i = record i { connection_state = st }

abbrev pub set_state : ℕ → ConnectionState → List (ℕ × ClientInfo) → List (ℕ × ClientInfo)
set_state u st = modify u (put_state st)

-- The guards that every vote begins with: the client is known and accepted, and its state allowed.
abbrev pub voter : ℕ → (ConnectionState → Bool) → MasterState → Option ClientInfo
voter u allowed s = elim (lookup u s.client_info) [
  | none ↦ none
  | some i ↦ if is_accepted i.connection_phase && allowed i.connection_state then some i else none
]

abbrev pub may_establish : ConnectionState → Bool
may_establish c = c == idle || c == connecting_to_peers_failed

unfoldable pub vote_establish_p2p_connections : ℕ → Bool → MasterState → MasterState × Bool
vote_establish_p2p_connections u accept_new_peers s = elim (voter u may_establish s) [
  | none ↦ (s, false)
  | some i ↦
      if accept_new_peers
      then (
        record s {
          client_info = set_state u vote_accept_new_peers s.client_info;
          votes_accept_new_peers = add i.client_uuid s.votes_accept_new_peers;
        },
        not (has i.client_uuid s.votes_accept_new_peers),
      )
      else (
        record s {
          client_info = set_state u vote_no_new_peers_establish_p2p_connections s.client_info;
          votes_establish_p2p_connections = add i.client_uuid s.votes_establish_p2p_connections;
        },
        not (has i.client_uuid s.votes_establish_p2p_connections),
      )
]

-- This vote is independent of the connection state.
unfoldable pub vote_query_waiting_peers_pending : ℕ → MasterState → MasterState × Bool
vote_query_waiting_peers_pending u s = elim (voter u (λ c. true) s) [
  | none ↦ (s, false)
  | some i ↦ if is_query_vote i.vote_query then (s, false) else (
    record s {
      client_info =
          modify u (λ i. record i { vote_query = vote_query_pending_peers }) s.client_info;
    },
    true,
  )
]

abbrev pub may_optimize : ConnectionState → Bool
may_optimize c = c == idle || c == optimize_topology_failed

unfoldable pub vote_to_optimize_topology : ℕ → MasterState → MasterState × Bool
vote_to_optimize_topology u s = elim (voter u may_optimize s) [
  | none ↦ (s, false)
  | some i ↦ (
    record s {
      client_info = set_state u vote_optimize_topology s.client_info;
      votes_optimize_topology = add i.client_uuid s.votes_optimize_topology;
    },
    not (has i.client_uuid s.votes_optimize_topology),
  )
]

unfoldable pub vote_topology_optimization_complete : ℕ → MasterState → MasterState × Bool
vote_topology_optimization_complete u s = elim (voter u (λ c. c == optimize_topology) s) [
  | none ↦ (s, false)
  | some i ↦ (
    record s {
      client_info = set_state u vote_complete_topology_optimization s.client_info;
      votes_complete_topology_optimization =
          add i.client_uuid s.votes_complete_topology_optimization;
    },
    not (has i.client_uuid s.votes_complete_topology_optimization),
  )
]

-- `m[group].insert(uuid)`
abbrev pub add_in : ℕ → ℕ → List (ℕ × List ℕ) → List (ℕ × List ℕ)
add_in group u m = insert group (add u (get_or [] group m)) m

unfoldable pub vote_to_sync_shared_state : ℕ → SyncStrategy → MasterState → MasterState × Bool
vote_to_sync_shared_state u strategy s = elim (voter u (λ c. c == idle) s) [
  | none ↦ (s, false)
  | some i ↦
      let voted = record s {
        client_info = set_state u vote_sync_shared_state s.client_info;
        votes_sync_shared_state = add_in i.peer_group i.client_uuid s.votes_sync_shared_state;
      } in
      if has i.client_uuid (get_or [] i.peer_group s.votes_sync_shared_state)
      then (voted, false)
      else if contains i.client_uuid s.shared_state_sync_strategies
      then (voted, false)
      else (
        record voted {
          shared_state_sync_strategies =
              insert i.client_uuid strategy s.shared_state_sync_strategies;
        },
        true,
      )
]

abbrev pub may_complete_sync : ConnectionState → Bool
may_complete_sync c = c == distribute_shared_state || c == request_shared_state

unfoldable pub vote_dist_shared_state_complete : ℕ → MasterState → MasterState × Bool
vote_dist_shared_state_complete u s = elim (voter u may_complete_sync s) [
  | none ↦ (s, false)
  | some i ↦ (
    record s {
      client_info = set_state u vote_complete_shared_state_sync s.client_info;
      votes_sync_shared_state_complete =
          add_in i.peer_group i.client_uuid s.votes_sync_shared_state_complete;
    },
    not (has i.client_uuid (get_or [] i.peer_group s.votes_sync_shared_state_complete)),
  )
]

abbrev pub put_collective : ℕ → CollectiveCommunicationState → ClientInfo → ClientInfo
put_collective tag c i = record i { collective_coms_states = insert tag c i.collective_coms_states }

abbrev pub may_initiate : ConnectionState → Bool
may_initiate c = c == idle || c == collective_communications_running

unfoldable pub vote_collective_comms_initiate : ℕ → ℕ → MasterState → MasterState × Bool
vote_collective_comms_initiate u tag s = elim (voter u may_initiate s) [
  | none ↦ (s, false)
  | some i ↦ if contains tag i.collective_coms_states then (s, false) else (
    record s {
      client_info =
          modify u
            (λ i.
              put_collective tag vote_initiate_collective_comms
                (put_state collective_communications_running i))
            s.client_info;
    },
    true,
  )
]

unfoldable pub vote_collective_comms_complete : ℕ → ℕ → MasterState → MasterState × Bool
vote_collective_comms_complete u tag s = elim (voter u (λ c. true) s) [
  | none ↦ (s, false)
  | some i ↦ elim (lookup tag i.collective_coms_states) [
    | none ↦ (s, false)
    | some c ↦
        if c == perform_collective_comms
        then (
          record s {
            client_info =
                modify u (put_collective tag vote_complete_collective_comms) s.client_info;
          },
          true,
        )
        else (s, false)
  ]
]

abbrev pub reset_query : ClientInfo → ClientInfo
reset_query i =
    if is_accepted i.connection_phase
    then record i { vote_query = pccl.Client.no_vote_initiated_query_pending_peers }
    else i

unfoldable pub reset_vote_query_pending_peers : MasterState → MasterState
reset_vote_query_pending_peers s = record s {
  client_info = pccl.Common.map_values reset_query s.client_info;
}

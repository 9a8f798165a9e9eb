-- ===== src/Master/Phases.antt =====
-- The transitions of the connection states once the clients agree.
mod Collective
mod Sync
unfoldable pub use Collective.*
unfoldable pub use Sync.*
use pccl.Common.{
  ℕ, ◌+◌, ◌%◌, ◌^◌, Bool, true, false, ◌&&◌, ◌||◌, not, List, [], ◌∷◌, Option, none, some,
  if◌then◌else◌, ◌==◌, nat_eq, lookup, contains, get_or, insert, erase, map_values, values,
}
use pccl.Client.{
  ClientInfo, ConnectionState, is_accepted, state_eq, coll_eq, peer_accepted, idle,
  connecting_to_peers, connecting_to_peers_failed, waiting_for_other_peers, vote_optimize_topology,
  optimize_topology, optimize_topology_failed, vote_complete_topology_optimization,
  vote_complete_shared_state_sync, collective_communications_running,
  vote_initiate_collective_comms, perform_collective_comms, vote_complete_collective_comms,
  vote_sync_shared_state, distribute_shared_state, request_shared_state,
}
use pccl.Bandwidth.{BandwidthStore, register_peer}
use pccl.Master.State.{
  MasterState, SharedStateMismatchStatus, successful_match, key_set_mismatch, SyncStrategy,
}
use pccl.Master.Votes.{put_state, put_collective}
use pccl.Master.Consensus.{in_group, is_member}
use pccl.Master.Loop.{Infos, visit, visit_with}

abbrev pub connect_all : ClientInfo → ClientInfo
connect_all = put_state connecting_to_peers

abbrev pub connect_accepted : ClientInfo → ClientInfo
connect_accepted i = if is_accepted i.connection_phase then put_state connecting_to_peers i else i

unfoldable pub transition_to_p2p_establishment_phase : Bool → MasterState → MasterState × Bool
transition_to_p2p_establishment_phase accept_new_peers s =
    if accept_new_peers
    then (
      record s { client_info = map_values connect_all s.client_info; votes_accept_new_peers = [] },
      true,
    )
    else (
      record s {
        client_info = map_values connect_accepted s.client_info;
        votes_establish_p2p_connections = [];
      },
      true,
    )

-- `onPeerAccepted` also logs the world size.
abbrev pub on_peer_accepted : ClientInfo → BandwidthStore → BandwidthStore
on_peer_accepted i b = (register_peer i.client_uuid i.socket_address.inet i.peer_group b).0

-- The client leaves the phase in the state `st`; a new one is accepted.
abbrev pub settle :
    ConnectionState → ClientInfo → BandwidthStore → Option (ClientInfo × BandwidthStore)
settle st i b =
    if is_accepted i.connection_phase
    then some (put_state st i, b)
    else some (
      record i { connection_state = st; connection_phase = peer_accepted },
      on_peer_accepted (record i { connection_state = st; connection_phase = peer_accepted }) b,
    )

abbrev pub missed_the_cut : ClientInfo → Bool
missed_the_cut i = not (is_accepted i.connection_phase) && i.connection_state == idle

unfoldable pub established_step :
    Bool → ClientInfo → BandwidthStore → Option (ClientInfo × BandwidthStore)
established_step failure i b =
    if missed_the_cut i
    then some (i, b)
    else if i.connection_state == waiting_for_other_peers
    then settle (if failure then connecting_to_peers_failed else idle) i b
    else if failure && i.connection_state == connecting_to_peers_failed
    then some (i, b)
    else none

unfoldable pub transition_to_p2p_connections_established_phase :
    Bool → MasterState → MasterState × Bool
unfolding established_step visit_with
transition_to_p2p_connections_established_phase failure s =
    let (infos, b, done) = visit_with (established_step failure) s.client_info s.bandwidth_store in
    (record s { client_info = infos; bandwidth_store = b }, done)

abbrev pub optimize_step : ClientInfo → Option ClientInfo
optimize_step i =
    if is_accepted i.connection_phase
    then (if i.connection_state == vote_optimize_topology
        then some (put_state optimize_topology i)
        else none)
    else some i

-- The set of the votes is cleared only if no client stops the loop.
unfoldable pub transition_to_topology_optimization_phase : MasterState → MasterState × Bool
unfolding visit
transition_to_topology_optimization_phase s =
    let (infos, done) = visit optimize_step s.client_info in
    (
      record s {
        client_info = infos;
        votes_optimize_topology = if done then [] else s.votes_optimize_topology;
      },
      done,
    )

abbrev pub end_optimize_step : Bool → ClientInfo → Option ClientInfo
end_optimize_step failed i =
    if is_accepted i.connection_phase
    then (if i.connection_state == vote_complete_topology_optimization
        then some (put_state (if failed then optimize_topology_failed else idle) i)
        else none)
    else some i

unfoldable pub end_topology_optimization_phase : Bool → MasterState → MasterState × Bool
unfolding visit
end_topology_optimization_phase failed s =
    let (infos, done) = visit (end_optimize_step failed) s.client_info in
    (
      record s {
        client_info = infos;
        votes_complete_topology_optimization =
            if done then [] else s.votes_complete_topology_optimization;
      },
      done,
    )

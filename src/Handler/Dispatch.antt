-- ===== src/Handler/Dispatch.antt =====
-- onClientRead of ccoip/src/cpp/ccoip_master_handler.cpp: a packet is read, and the handler of its type
-- is called.
use pccl.Common.{ℕ, Bool, List, [], ◌∷◌, Option, none, some}
use pccl.Net.{SocketAddress}
use pccl.PacketBuffer.{Reading, read, out_of_range, refused, unnamed}
use pccl.Packets.{
  C2MPacket, request_session_registration, request_establish_p2p_connections,
  report_p2p_connections, check_peers_pending, vote_optimize, report_peer_bandwidth,
  optimize_topology_work_complete, request_sync_shared_state, dist_shared_state_complete,
  initiate_collective_comms, complete_collective_comms,
}
use pccl.Packets.FromClient.{receive}
use pccl.Topology.{Solver}
use pccl.Handler.{Handler, Action, kick}
use pccl.Handler.Establish.{handle_establish_p2p_connections, handle_request_session_join}
use pccl.Handler.Connected.{handle_p2p_connections_established}
use pccl.Handler.Collective.{
  handle_collective_comms_initiate, handle_collective_comms_complete, handle_check_peers_pending,
  handle_sync_shared_state_complete,
}
use pccl.Handler.Sync.{handle_sync_shared_state}
use pccl.Handler.Topology.{handle_optimize_topology, handle_report_peer_bandwidth}
use pccl.Handler.Optimize.{handle_optimize_topology_work_complete}

-- What comes of the bytes of a client: they are handled; an exception that nothing catches ends the
-- master; or what follows is not determined, since the behaviour is undefined or an enum has a value
-- that no enumerator names.
pub data Outcome : Type 0 where
  handled : Handler → List Action → Outcome
  terminated undetermined : Outcome

abbrev pub handled_as : Handler × List Action → Outcome
handled_as r = handled r.0 r.1

abbrev pub if_determined : Option (Handler × List Action) → Outcome
if_determined none = undetermined
if_determined (some r) = handled_as r

-- What the master's environment decides: which connections can be closed, the uuid of a client that
-- joins, the solver, and the cost of a bandwidth.
pub record Environment : Type 0 where
  pub closes : SocketAddress → Bool
  pub new_uuid : ℕ
  pub solver : Solver
  pub cost : ℕ → ℕ

unfoldable pub handle_packet : Environment → SocketAddress → C2MPacket → Handler → Outcome
unfolding handle_request_session_join handle_establish_p2p_connections
    handle_p2p_connections_established handle_check_peers_pending handle_optimize_topology
    handle_report_peer_bandwidth handle_optimize_topology_work_complete handle_sync_shared_state
    handle_sync_shared_state_complete handle_collective_comms_initiate
    handle_collective_comms_complete
handle_packet env a (request_session_registration ports group) h =
    handled_as (handle_request_session_join a ports group env.new_uuid h)
handle_packet env a (request_establish_p2p_connections accept) h =
    handled_as (handle_establish_p2p_connections a accept h)
handle_packet env a (report_p2p_connections success failed) h =
    handled_as (handle_p2p_connections_established a success failed h)
handle_packet env a check_peers_pending h = handled_as (handle_check_peers_pending a h)
handle_packet env a vote_optimize h = handled_as (handle_optimize_topology a h)
handle_packet env a (report_peer_bandwidth to bandwidth) h =
    handled_as (handle_report_peer_bandwidth a to bandwidth h)
handle_packet env a optimize_topology_work_complete h =
    handled_as (handle_optimize_topology_work_complete env.solver env.cost a h)
handle_packet env a (request_sync_shared_state revision strategy hashes) h =
    if_determined (handle_sync_shared_state env.closes a revision strategy hashes h)
handle_packet env a dist_shared_state_complete h =
    handled_as (handle_sync_shared_state_complete a h)
handle_packet env a (initiate_collective_comms tag count data_type op) h =
    handled_as (handle_collective_comms_initiate a tag h)
handle_packet env a (complete_collective_comms tag was_aborted) h =
    handled_as (handle_collective_comms_complete a tag was_aborted h)

-- A packet of an unknown type makes the master kick the client, as does one that `deserialize`
-- refuses.
unfoldable pub on_read :
    Environment → SocketAddress → Handler → Reading (Option C2MPacket) → Outcome
unfolding handle_packet
on_read env a h (read none rest) = handled h (kick a ∷ [])
on_read env a h (read (some p) rest) = handle_packet env a p h
on_read env a h refused = handled h (kick a ∷ [])
on_read env a h out_of_range = terminated
on_read env a h unnamed = undetermined

unfoldable pub on_client_read : Environment → SocketAddress → List ℕ → Handler → Outcome
unfolding on_read receive
on_client_read env a bytes h = on_read env a h (receive (record { data_ = bytes; read_index_ = 0 }))

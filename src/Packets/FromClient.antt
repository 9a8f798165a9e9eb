-- ===== src/Packets/FromClient.antt =====
-- What a client sends to the master: the C2M packets of ccoip/src/cpp/ccoip_packets.cpp.
pub mod RoundTrip
use pccl.Common.{
  ℕ, Bool, true, false, List, [], ◌∷◌, ◌++◌, Option, none, some, if◌then◌else◌, ◌==◌, nat_eq,
  length,
}
use pccl.Client.{VariablePorts}
use pccl.PacketBuffer.{
  Reader, ◌>>=◌, ◌>>◌, return, write_u8, write_u16, write_u32, write_u64, write_bool, write_uuid,
  write_all, read_u8, read_u16, read_u32, read_u64, read_bool, read_uuid, read_times,
}
use pccl.Packets.{
  C2MPacket, request_session_registration, request_establish_p2p_connections,
  report_p2p_connections, check_peers_pending, vote_optimize, report_peer_bandwidth,
  optimize_topology_work_complete, request_sync_shared_state, dist_shared_state_complete,
  initiate_collective_comms, complete_collective_comms, strategy_code, strategy_from,
  write_hash_entry, read_hash_entry,
}

abbrev pub packet_id : C2MPacket → ℕ
packet_id (request_session_registration ports group) = 1
packet_id (request_establish_p2p_connections accept) = 2
packet_id (report_p2p_connections success failed) = 3
packet_id check_peers_pending = 4
packet_id vote_optimize = 5
packet_id (report_peer_bandwidth to bandwidth) = 6
packet_id optimize_topology_work_complete = 7
packet_id (request_sync_shared_state revision strategy hashes) = 8
packet_id dist_shared_state_complete = 9
packet_id (initiate_collective_comms tag count data_type op) = 10
packet_id (complete_collective_comms tag was_aborted) = 11

abbrev pub write_ports : VariablePorts → List ℕ
write_ports ports =
    write_u16 ports.p2p_listen_port
    ++ (write_u16 ports.shared_dist_state_listen_port
        ++ write_u16 ports.bandwidth_benchmark_listen_port)

-- `serialize` of each packet.
unfoldable pub serialize : C2MPacket → List ℕ
unfolding write_all write_hash_entry
serialize (request_session_registration ports group) = write_ports ports ++ write_u32 group
serialize (request_establish_p2p_connections accept) = write_bool accept
serialize (report_p2p_connections success failed) =
    write_bool success ++ (write_u64 (length failed) ++ write_all write_uuid failed)
serialize check_peers_pending = []
serialize vote_optimize = []
serialize (report_peer_bandwidth to bandwidth) = write_uuid to ++ write_u64 bandwidth
serialize optimize_topology_work_complete = []
serialize (request_sync_shared_state revision strategy hashes) =
    write_u64 revision
    ++ (write_u8 (strategy_code strategy)
        ++ (write_u64 (length hashes) ++ write_all write_hash_entry hashes))
serialize dist_shared_state_complete = []
serialize (initiate_collective_comms tag count data_type op) =
    write_u64 tag ++ (write_u64 count ++ (write_u8 data_type ++ write_u8 op))
serialize (complete_collective_comms tag was_aborted) = write_u64 tag ++ write_bool was_aborted

abbrev pub read_ports : Reader VariablePorts
read_ports = do
  p2p ← read_u16
  shared_state ← read_u16
  benchmark ← read_u16
  return (record {
    p2p_listen_port = p2p;
    shared_dist_state_listen_port = shared_state;
    bandwidth_benchmark_listen_port = benchmark;
  })

-- `deserialize` of each packet.
abbrev pub read_session_registration : Reader C2MPacket
read_session_registration = do
  ports ← read_ports
  group ← read_u32
  return (request_session_registration ports group)

abbrev pub read_establish : Reader C2MPacket
read_establish = do accept ← read_bool; return (request_establish_p2p_connections accept)

abbrev pub read_p2p_connections : Reader C2MPacket
read_p2p_connections = do
  success ← read_bool
  n ← read_u64
  failed ← read_times n read_uuid
  return (report_p2p_connections success failed)

abbrev pub read_peer_bandwidth : Reader C2MPacket
read_peer_bandwidth = do
  to ← read_uuid
  bandwidth ← read_u64
  return (report_peer_bandwidth to bandwidth)

abbrev pub read_sync_shared_state : Reader C2MPacket
read_sync_shared_state = do
  revision ← read_u64
  strategy ← read_u8 >>= strategy_from
  n ← read_u64
  hashes ← read_times n read_hash_entry
  return (request_sync_shared_state revision strategy hashes)

abbrev pub read_initiate : Reader C2MPacket
read_initiate = do
  tag ← read_u64
  count ← read_u64
  data_type ← read_u8
  op ← read_u8
  return (initiate_collective_comms tag count data_type op)

abbrev pub read_complete : Reader C2MPacket
read_complete = do
  tag ← read_u64
  was_aborted ← read_bool
  return (complete_collective_comms tag was_aborted)

-- The packet of a type; none for a type that the master does not know.
unfoldable pub deserialize : ℕ → Option (Reader C2MPacket)
deserialize id =
    if id == 1
    then some read_session_registration
    else if id == 2
    then some read_establish
    else if id == 3
    then some read_p2p_connections
    else if id == 4
    then some (return check_peers_pending)
    else if id == 5
    then some (return vote_optimize)
    else if id == 6
    then some read_peer_bandwidth
    else if id == 7
    then some (return optimize_topology_work_complete)
    else if id == 8
    then some read_sync_shared_state
    else if id == 9
    then some (return dist_shared_state_complete)
    else if id == 10
    then some read_initiate
    else if id == 11
    then some read_complete
    else none

-- The two bytes of the packet's type, and the packet.
abbrev pub write_packet : C2MPacket → List ℕ
write_packet p = write_u16 (packet_id p) ++ serialize p

-- What `onClientRead` reads of the bytes that it is given.
unfoldable pub receive : Reader (Option C2MPacket)
unfolding deserialize
receive = do
  id ← read_u16
  elim (deserialize id) [ none ↦ return none | some m ↦ m >>= λ p. return (some p) ]

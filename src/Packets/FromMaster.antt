-- ===== src/Packets/FromMaster.antt =====
-- What the master sends to a client: the M2C packets of ccoip/src/cpp/ccoip_packets.cpp, and
-- `parsePacket` of QueuedSocket in tinysockets/include/tinysockets.hpp, by which a client reads one.
pub mod RoundTrip
use pccl.Common.{
  ℕ, Bool, true, false, List, [], ◌∷◌, ◌++◌, Option, none, some, if◌then◌else◌, ◌==◌, nat_eq,
  length,
}
use pccl.Net.{SocketAddress, InetAddress, ipv4}
use pccl.PacketBuffer.{
  Reader, ◌>>=◌, ◌>>◌, return, write_u8, write_u16, write_u64, write_bool, write_uuid, write_all,
  write_string, read_u8, read_u16, read_u64, read_bool, read_uuid, read_string, read_times,
}
use pccl.Packets.{
  P2PConnectionInfo, SyncResponse, BenchmarkRequest, M2CPacket, session_registration_response,
  p2p_connection_info, p2p_connections_established, peers_pending_response,
  optimize_topology_response, optimize_topology_complete, sync_shared_state,
  sync_shared_state_complete, collective_comms_commence, collective_comms_abort,
  collective_comms_complete, hash_type_code, read_hash_type, write_socket_address,
  read_socket_address,
}

abbrev pub packet_id : M2CPacket → ℕ
packet_id (session_registration_response accepted uuid) = 1
packet_id (p2p_connection_info info) = 2
packet_id (p2p_connections_established success ring) = 3
packet_id (peers_pending_response pending) = 4
packet_id (optimize_topology_response requests) = 5
packet_id (optimize_topology_complete success ring) = 6
packet_id (sync_shared_state response) = 7
packet_id sync_shared_state_complete = 8
packet_id (collective_comms_commence tag seq_nr) = 9
packet_id (collective_comms_complete tag) = 10
packet_id (collective_comms_abort tag aborted) = 11

-- The address of zeros that a response carries where it was not set.
abbrev pub unset_address : SocketAddress
unset_address = record { inet = ipv4 0 0 0 0; port = 0 }

abbrev pub address_or_unset : Option SocketAddress → SocketAddress
address_or_unset none = unset_address
address_or_unset (some a) = a

abbrev pub write_ring : List ℕ → List ℕ
write_ring ring = write_u64 (length ring) ++ write_all write_uuid ring

abbrev pub write_peer : SocketAddress × ℕ → List ℕ
write_peer p = write_socket_address p.0 ++ write_uuid p.1

abbrev pub write_benchmark_request : BenchmarkRequest → List ℕ
write_benchmark_request r =
    write_uuid r.from_peer_uuid
    ++ (write_uuid r.to_peer_uuid ++ write_socket_address r.to_peer_benchmark_endpoint)

abbrev pub write_peers : Bool → List (SocketAddress × ℕ) → List ℕ
write_peers true peers = []
write_peers false peers = write_u64 (length peers) ++ write_all write_peer peers

-- `serialize` of each packet.
unfoldable pub serialize : M2CPacket → List ℕ
unfolding write_all write_string write_socket_address
serialize (session_registration_response accepted uuid) = write_bool accepted ++ write_uuid uuid
serialize (p2p_connection_info info) =
    write_bool info.unchanged
    ++ (write_u64 info.global_world_size
        ++ (write_u64 info.local_world_size
            ++ (write_u64 info.num_distinct_peer_groups
                ++ (write_u64 info.largest_peer_group_world_size
                    ++ write_peers info.unchanged info.all_peers))))
serialize (p2p_connections_established success ring) = write_bool success ++ write_ring ring
serialize (peers_pending_response pending) = write_bool pending
serialize (optimize_topology_response requests) =
    write_u64 (length requests) ++ write_all write_benchmark_request requests
serialize (optimize_topology_complete success ring) = write_bool success ++ write_ring ring
serialize (sync_shared_state r) =
    write_bool r.is_outdated
    ++ (write_socket_address (address_or_unset r.distributor_address)
        ++ (write_u64 (length r.outdated_keys)
            ++ (write_all write_string r.outdated_keys
                ++ (write_all write_u64 r.expected_hashes
                    ++ write_all (λ t. write_u8 (hash_type_code t)) r.expected_hash_types))))
serialize sync_shared_state_complete = []
serialize (collective_comms_commence tag seq_nr) = write_u64 tag ++ write_u64 seq_nr
serialize (collective_comms_complete tag) = write_u64 tag
serialize (collective_comms_abort tag aborted) = write_u64 tag ++ write_bool aborted

abbrev pub read_ring : Reader (List ℕ)
read_ring = do n ← read_u64; read_times n read_uuid

abbrev pub read_registration_response : Reader M2CPacket
read_registration_response = do
  accepted ← read_bool
  uuid ← read_uuid
  return (session_registration_response accepted uuid)

abbrev pub read_peer : Reader (SocketAddress × ℕ)
read_peer = do address ← read_socket_address; uuid ← read_uuid; return (address, uuid)

abbrev pub read_peers : Bool → Reader (List (SocketAddress × ℕ))
read_peers true = return []
read_peers false = do n ← read_u64; read_times n read_peer

abbrev pub read_connection_info : Reader M2CPacket
read_connection_info = do
  unchanged ← read_bool
  global ← read_u64
  local ← read_u64
  groups ← read_u64
  largest ← read_u64
  peers ← read_peers unchanged
  return (
      p2p_connection_info (record {
        global_world_size = global;
        local_world_size = local;
        num_distinct_peer_groups = groups;
        largest_peer_group_world_size = largest;
        all_peers = peers;
        unchanged = unchanged;
      }))

abbrev pub read_established : Reader M2CPacket
read_established = do
  success ← read_bool
  ring ← read_ring
  return (p2p_connections_established success ring)

abbrev pub read_peers_pending : Reader M2CPacket
read_peers_pending = do pending ← read_bool; return (peers_pending_response pending)

abbrev pub read_benchmark_request : Reader BenchmarkRequest
read_benchmark_request = do
  from ← read_uuid
  to ← read_uuid
  endpoint ← read_socket_address
  return
      (record { from_peer_uuid = from; to_peer_uuid = to; to_peer_benchmark_endpoint = endpoint })

abbrev pub read_optimize_response : Reader M2CPacket
read_optimize_response = do
  n ← read_u64
  requests ← read_times n read_benchmark_request
  return (optimize_topology_response requests)

abbrev pub read_optimize_complete : Reader M2CPacket
read_optimize_complete = do
  success ← read_bool
  ring ← read_ring
  return (optimize_topology_complete success ring)

-- As many hashes and types as keys are read.
abbrev pub read_sync_response : Reader M2CPacket
read_sync_response = do
  is_outdated ← read_bool
  distributor ← read_socket_address
  n ← read_u64
  keys ← read_times n read_string
  hashes ← read_times n read_u64
  types ← read_times n read_hash_type
  return (
      sync_shared_state (record {
        is_outdated = is_outdated;
        distributor_address = some distributor;
        outdated_keys = keys;
        expected_hashes = hashes;
        expected_hash_types = types;
      }))

abbrev pub read_commence : Reader M2CPacket
read_commence = do tag ← read_u64; seq_nr ← read_u64; return (collective_comms_commence tag seq_nr)

abbrev pub read_complete : Reader M2CPacket
read_complete = do tag ← read_u64; return (collective_comms_complete tag)

abbrev pub read_abort : Reader M2CPacket
read_abort = do tag ← read_u64; aborted ← read_bool; return (collective_comms_abort tag aborted)

-- `deserialize` of the packet of a type; none where there is no such packet.
unfoldable pub deserialize : ℕ → Option (Reader M2CPacket)
deserialize id =
    if id == 1
    then some read_registration_response
    else if id == 2
    then some read_connection_info
    else if id == 3
    then some read_established
    else if id == 4
    then some read_peers_pending
    else if id == 5
    then some read_optimize_response
    else if id == 6
    then some read_optimize_complete
    else if id == 7
    then some read_sync_response
    else if id == 8
    then some (return sync_shared_state_complete)
    else if id == 9
    then some read_commence
    else if id == 10
    then some read_complete
    else if id == 11
    then some read_abort
    else none

abbrev pub write_packet : M2CPacket → List ℕ
write_packet p = write_u16 (packet_id p) ++ serialize p

-- `deserialize`, if the type is the one that was asked for.
abbrev pub read_expected : ℕ → ℕ → Reader (Option M2CPacket)
read_expected id actual =
    if actual == id
    then elim (deserialize id) [ none ↦ return none | some m ↦ m >>= λ p. return (some p) ]
    else return none

-- `parsePacket`: a client reads the packet of the type that it waits for; none where another type
-- stands there.
unfoldable pub parse_packet : ℕ → Reader (Option M2CPacket)
unfolding deserialize
parse_packet id = read_u16 >>= read_expected id

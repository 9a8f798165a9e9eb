-- ===== src/Packets.antt =====
-- The packets of the protocol: ccoip/internal/ccoip_packets.hpp, with what ccoip_packets.cpp writes
-- and reads in several of them.
pub mod Fields
pub mod FromMaster
pub mod FromClient
use pccl.Common.{
  ℕ, ◌≡◌, ◌<◌, refl, Bool, true, false, List, [], ◌∷◌, ◌++◌, Option, none, some, if◌then◌else◌,
  ◌==◌, nat_eq, length, Text, All,
}
use pccl.Net.{SocketAddress, InetAddress, ipv4, ipv6}
use pccl.Client.{VariablePorts}
use pccl.Master.State.{
  HashType, hash_simple, hash_crc32, SyncStrategy, enforce_popular, rx_only, tx_only,
  SharedStateHashEntry,
}
use pccl.PacketBuffer.{
  Reader, ◌>>=◌, ◌>>◌, return, unnamed, write_u8, write_u16, write_u64, write_bool, write_bytes,
  write_string, read_u8, read_u16, read_u64, read_bool, read_string, read_times,
}

pub record P2PConnectionInfo : Type 0 where
  pub global_world_size : ℕ
  pub local_world_size : ℕ
  pub num_distinct_peer_groups : ℕ
  pub largest_peer_group_world_size : ℕ
  pub all_peers : List (SocketAddress × ℕ)
  pub unchanged : Bool

-- `distributor_address` is none where the code leaves it empty.
pub record SyncResponse : Type 0 where
  pub is_outdated : Bool
  pub distributor_address : Option SocketAddress
  pub outdated_keys : List Text
  pub expected_hashes : List ℕ
  pub expected_hash_types : List HashType

pub record BenchmarkRequest : Type 0 where
  pub from_peer_uuid : ℕ
  pub to_peer_uuid : ℕ
  pub to_peer_benchmark_endpoint : SocketAddress

-- From the master to a client.
pub data M2CPacket : Type 0 where
  session_registration_response : Bool → ℕ → M2CPacket
  p2p_connection_info : P2PConnectionInfo → M2CPacket
  p2p_connections_established : Bool → List ℕ → M2CPacket
  peers_pending_response : Bool → M2CPacket
  optimize_topology_response : List BenchmarkRequest → M2CPacket
  optimize_topology_complete : Bool → List ℕ → M2CPacket
  sync_shared_state : SyncResponse → M2CPacket
  sync_shared_state_complete : M2CPacket
  collective_comms_commence : ℕ → ℕ → M2CPacket
  collective_comms_abort : ℕ → Bool → M2CPacket
  collective_comms_complete : ℕ → M2CPacket

-- From a client to the master. A data type and an operator are the enumerators' values.
pub data C2MPacket : Type 0 where
  request_session_registration : VariablePorts → ℕ → C2MPacket
  request_establish_p2p_connections : Bool → C2MPacket
  report_p2p_connections : Bool → List ℕ → C2MPacket
  check_peers_pending : C2MPacket
  vote_optimize : C2MPacket
  report_peer_bandwidth : ℕ → ℕ → C2MPacket
  optimize_topology_work_complete : C2MPacket
  request_sync_shared_state : ℕ → SyncStrategy → List SharedStateHashEntry → C2MPacket
  dist_shared_state_complete : C2MPacket
  initiate_collective_comms : ℕ → ℕ → ℕ → ℕ → C2MPacket
  complete_collective_comms : ℕ → Bool → C2MPacket

abbrev pub hash_type_code : HashType → ℕ
hash_type_code hash_simple = 0
hash_type_code hash_crc32 = 1

abbrev pub strategy_code : SyncStrategy → ℕ
strategy_code enforce_popular = 0
strategy_code rx_only = 1
strategy_code tx_only = 2

-- The casts of a byte that was read to the enums.
abbrev pub hash_type_from : ℕ → Reader HashType
hash_type_from n b =
    if n == 0 then return hash_simple b else if n == 1 then return hash_crc32 b else unnamed

abbrev pub strategy_from : ℕ → Reader SyncStrategy
strategy_from n b =
    if n == 0
    then return enforce_popular b
    else if n == 1
    then return rx_only b
    else if n == 2
    then return tx_only b
    else unnamed

abbrev pub read_hash_type : Reader HashType
read_hash_type = read_u8 >>= hash_type_from

-- The protocol and its bytes.
unfoldable pub write_inet : InetAddress → List ℕ
unfolding write_bytes
write_inet (ipv4 x y z w) = write_bool true ++ write_bytes (x ∷ y ∷ z ∷ w ∷ [])
write_inet (ipv6 bytes) = write_bool false ++ write_bytes bytes

unfoldable pub write_socket_address : SocketAddress → List ℕ
unfolding write_inet
write_socket_address a = write_inet a.inet ++ write_u16 a.port

abbrev pub read_inet : Bool → Reader InetAddress
read_inet true = do x ← read_u8; y ← read_u8; z ← read_u8; w ← read_u8; return (ipv4 x y z w)
read_inet false = do bytes ← read_times 16 read_u8; return (ipv6 bytes)

unfoldable pub read_socket_address : Reader SocketAddress
unfolding read_times
read_socket_address = do
  inet ← read_bool >>= read_inet
  port ← read_u16
  return (record { inet = inet; port = port })

-- One entry of C2MPacketSyncSharedState.
unfoldable pub write_hash_entry : SharedStateHashEntry → List ℕ
unfolding write_string
write_hash_entry e =
    write_string e.key
    ++ (write_u64 e.hash
        ++ (write_u8 (hash_type_code e.hash_type)
            ++ (write_u64 e.data_size
                ++ (write_u8 e.data_type ++ write_bool e.allow_content_inequality))))

unfoldable pub read_hash_entry : Reader SharedStateHashEntry
unfolding read_string
read_hash_entry = do
  key ← read_string
  hash ← read_u64
  hash_type ← read_hash_type
  data_size ← read_u64
  data_type ← read_u8
  allow_content_inequality ← read_bool
  return (record {
    key = key;
    hash = hash;
    hash_type = hash_type;
    data_size = data_size;
    data_type = data_type;
    allow_content_inequality = allow_content_inequality;
  })

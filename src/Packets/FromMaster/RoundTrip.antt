-- ===== src/Packets/FromMaster/RoundTrip.antt =====
-- A packet of the master is read as it was written, and refused where it is cut short.
use pccl.Common.{
  ℕ, ◌<◌, ◌≡◌, refl, Bool, true, false, List, [], ◌∷◌, ◌++◌, some, length, All, subst, arith,
  nat_eq, ==-refl,
}
use pccl.Net.{SocketAddress}
use pccl.Master.State.{HashType}
use pccl.PacketBuffer.{
  weight, write_uuid, write_all, read_uuid, read, Reader, write_u8, write_u64, read_u64,
  write_string, read_string, read_times,
}
use pccl.PacketBuffer.Reads.{
  at, Reads, Reads-return, Reads-bind, Reads-map, Reads-bool, Reads-unsigned, Reads-times,
  Reads-uuid, Reads-string,
}
use pccl.Packets.{
  P2PConnectionInfo, SyncResponse, BenchmarkRequest, M2CPacket, session_registration_response,
  p2p_connection_info, p2p_connections_established, peers_pending_response,
  optimize_topology_response, optimize_topology_complete, sync_shared_state,
  sync_shared_state_complete, collective_comms_commence, collective_comms_abort,
  collective_comms_complete, hash_type_code, read_hash_type,
}
use pccl.Packets.Fields.{AddressFits, Reads-address, Reads-hash_type}
use pccl.Packets.FromMaster.{
  packet_id, serialize, deserialize, write_packet, parse_packet, read_expected, address_or_unset,
  read_registration_response, read_connection_info, read_established, read_peers_pending,
  read_optimize_response, read_optimize_complete, read_sync_response, read_commence, read_complete,
  read_abort, read_ring, write_ring, read_peer, write_peer, read_peers, write_peers,
  read_benchmark_request, write_benchmark_request,
}

abbrev pub PeerFits : SocketAddress × ℕ → Type 0
PeerFits p = AddressFits p.0 × (p.1 < weight 16)

abbrev pub RingFits : List ℕ → Type 0
RingFits ring = (length ring < weight 8) × All (λ u. u < weight 16) ring

abbrev pub RequestFits : BenchmarkRequest → Type 0
RequestFits r =
    (r.from_peer_uuid < weight 16)
    × (r.to_peer_uuid < weight 16)
    × AddressFits r.to_peer_benchmark_endpoint

-- The fields' values are those of the code's types, and a response has a hash and a type for each key.
abbrev pub Fits : M2CPacket → Type 0
Fits (session_registration_response accepted uuid) = uuid < weight 16
Fits (p2p_connection_info info) =
    (info.global_world_size < weight 8)
    × (info.local_world_size < weight 8)
    × (info.num_distinct_peer_groups < weight 8)
    × (info.largest_peer_group_world_size < weight 8)
    × (length info.all_peers < weight 8)
    × All PeerFits info.all_peers
Fits (p2p_connections_established success ring) = RingFits ring
Fits (peers_pending_response pending) = Unit
Fits (optimize_topology_response requests) = (length requests < weight 8) × All RequestFits requests
Fits (optimize_topology_complete success ring) = RingFits ring
Fits (sync_shared_state r) =
    AddressFits (address_or_unset r.distributor_address)
    × (length r.outdated_keys < weight 8)
    × All (λ k. length k < weight 8) r.outdated_keys
    × (length r.expected_hashes ≡ length r.outdated_keys)
    × All (λ h. h < weight 8) r.expected_hashes
    × (length r.expected_hash_types ≡ length r.outdated_keys)
Fits sync_shared_state_complete = Unit
Fits (collective_comms_commence tag seq_nr) = (tag < weight 8) × (seq_nr < weight 8)
Fits (collective_comms_complete tag) = tag < weight 8
Fits (collective_comms_abort tag aborted) = tag < weight 8

abbrev pub peers_received : Bool → List (SocketAddress × ℕ) → List (SocketAddress × ℕ)
peers_received true peers = []
peers_received false peers = peers

-- What arrives of a packet: no peers where they are unchanged, and for an address that was not set
-- the one of zeros.
abbrev pub received : M2CPacket → M2CPacket
received (p2p_connection_info info) =
    p2p_connection_info (record info { all_peers = peers_received info.unchanged info.all_peers })
received (sync_shared_state r) =
    sync_shared_state
      (record r { distributor_address = some (address_or_unset r.distributor_address) })
received p = p

module _ {A : Type 0} (P : A → Type 0) (item : Reader A) (write : A → List ℕ)
    (reads : (x : A) → P x → Reads item x (write x)) where
  Reads-All : (xs : List A) → All P xs → Reads (read_times (length xs) item) xs (write_all write xs)
  Reads-All xs h = Reads-times item write xs (each xs h)
    where
      each : (ys : List A) → All P ys → All (λ y. Reads item y (write y)) ys
      each [] k = tt
      each (y ∷ ys) k = (reads y k.0, each ys k.1)

  -- A loop of a given number of rounds.
  Reads-counted :
      (n : ℕ) (xs : List A)
      → length xs ≡ n
      → All P xs
      → Reads (read_times n item) xs (write_all write xs)
  Reads-counted n xs e h =
      subst (λ k. Reads (read_times k item) xs (write_all write xs)) e (Reads-All xs h)

Reads-ring : (ring : List ℕ) → RingFits ring → Reads read_ring ring (write_ring ring)
Reads-ring ring h =
    Reads-bind _ (Reads-unsigned 8 (length ring) h.0)
      (Reads-All (λ u. u < weight 16) read_uuid write_uuid Reads-uuid ring h.1)

Reads-peer : (p : SocketAddress × ℕ) → PeerFits p → Reads read_peer p (write_peer p)
Reads-peer (a, u) h = Reads-bind _ (Reads-address a h.0) (Reads-map _ (Reads-uuid u h.1))

Reads-peers :
    (unchanged : Bool) (peers : List (SocketAddress × ℕ))
    → length peers < weight 8
    → All PeerFits peers
    → Reads (read_peers unchanged) (peers_received unchanged peers) (write_peers unchanged peers)
Reads-peers true peers h k = Reads-return []
Reads-peers false peers h k =
    Reads-bind _ (Reads-unsigned 8 (length peers) h)
      (Reads-All PeerFits read_peer write_peer Reads-peer peers k)

Reads-request :
    (r : BenchmarkRequest)
    → RequestFits r
    → Reads read_benchmark_request r (write_benchmark_request r)
Reads-request r h = Reads-bind _ (Reads-uuid r.from_peer_uuid h.0) (
    Reads-bind _ (Reads-uuid r.to_peer_uuid h.1)
      (Reads-map _ (Reads-address r.to_peer_benchmark_endpoint h.2)))

-- The reader of a packet's type reads what arrives of the packet.
Deserializes : M2CPacket → Type 0
Deserializes p =
    (m : Reader M2CPacket) × (deserialize (packet_id p) ≡ some m)
    × Reads m (received p) (serialize p)

Reads-info :
    (info : P2PConnectionInfo)
    → Fits (p2p_connection_info info)
    → Reads read_connection_info
        (received (p2p_connection_info info))
        (serialize (p2p_connection_info info))
unfolding serialize
Reads-info info h = Reads-bind _ (Reads-bool info.unchanged) (
    Reads-bind _ (Reads-unsigned 8 info.global_world_size h.0) (
      Reads-bind _ (Reads-unsigned 8 info.local_world_size h.1) (
        Reads-bind _ (Reads-unsigned 8 info.num_distinct_peer_groups h.2) (
          Reads-bind _ (Reads-unsigned 8 info.largest_peer_group_world_size h.3)
            (Reads-map _ (Reads-peers info.unchanged info.all_peers h.4 h.5))))))

Reads-sync :
    (r : SyncResponse)
    → Fits (sync_shared_state r)
    → Reads read_sync_response (received (sync_shared_state r)) (serialize (sync_shared_state r))
unfolding serialize
Reads-sync r h =
    let n = length r.outdated_keys in
    Reads-bind _ (Reads-bool r.is_outdated) (
      Reads-bind _ (Reads-address (address_or_unset r.distributor_address) h.0) (
        Reads-bind _ (Reads-unsigned 8 n h.1) (
          Reads-bind _
            (Reads-All (λ k. length k < weight 8) read_string write_string Reads-string
              r.outdated_keys h.2)
            (Reads-bind _
              (Reads-counted (λ x. x < weight 8) read_u64 write_u64 (Reads-unsigned 8) n
                r.expected_hashes h.3 h.4)
              (Reads-map _ (
                Reads-counted (λ t. Unit {0}) read_hash_type (λ t. write_u8 (hash_type_code t))
                  (λ t k. Reads-hash_type t) n r.expected_hash_types h.5
                  (any_type r.expected_hash_types)))))))
  where
    any_type : (ts : List HashType) → All (λ t. Unit {0}) ts
    any_type [] = tt
    any_type (t ∷ ts) = (tt, any_type ts)

Deserializes-all : (p : M2CPacket) → Fits p → Deserializes p
unfolding Deserializes serialize deserialize
Deserializes-all (session_registration_response accepted uuid) h = (
  read_registration_response,
  refl,
  Reads-bind _ (Reads-bool accepted) (Reads-map _ (Reads-uuid uuid h)),
)
Deserializes-all (p2p_connection_info info) h = (read_connection_info, refl, Reads-info info h)
Deserializes-all (p2p_connections_established success ring) h =
    (read_established, refl, Reads-bind _ (Reads-bool success) (Reads-map _ (Reads-ring ring h)))
Deserializes-all (peers_pending_response pending) h =
    (read_peers_pending, refl, Reads-map _ (Reads-bool pending))
Deserializes-all (optimize_topology_response requests) h = (
  read_optimize_response,
  refl,
  Reads-bind _ (Reads-unsigned 8 (length requests) h.0) (
      Reads-map _ (
        Reads-All RequestFits read_benchmark_request write_benchmark_request Reads-request requests
          h.1)),
)
Deserializes-all (optimize_topology_complete success ring) h = (
  read_optimize_complete,
  refl,
  Reads-bind _ (Reads-bool success) (Reads-map _ (Reads-ring ring h)),
)
Deserializes-all (sync_shared_state r) h = (read_sync_response, refl, Reads-sync r h)
Deserializes-all sync_shared_state_complete h = (_, refl, Reads-return sync_shared_state_complete)
Deserializes-all (collective_comms_commence tag seq_nr) h = (
  read_commence,
  refl,
  Reads-bind _ (Reads-unsigned 8 tag h.0) (Reads-map _ (Reads-unsigned 8 seq_nr h.1)),
)
Deserializes-all (collective_comms_complete tag) h =
    (read_complete, refl, Reads-map _ (Reads-unsigned 8 tag h))
Deserializes-all (collective_comms_abort tag aborted) h =
    (read_abort, refl, Reads-bind _ (Reads-unsigned 8 tag h) (Reads-map _ (Reads-bool aborted)))

pub id_fits : (p : M2CPacket) → packet_id p < weight 2
id_fits (session_registration_response accepted uuid) = omega arith
id_fits (p2p_connection_info info) = omega arith
id_fits (p2p_connections_established success ring) = omega arith
id_fits (peers_pending_response pending) = omega arith
id_fits (optimize_topology_response requests) = omega arith
id_fits (optimize_topology_complete success ring) = omega arith
id_fits (sync_shared_state response) = omega arith
id_fits (sync_shared_state_complete) = omega arith
id_fits (collective_comms_commence tag seq_nr) = omega arith
id_fits (collective_comms_complete tag) = omega arith
id_fits (collective_comms_abort tag aborted) = omega arith

pub Reads-parse :
    (p : M2CPacket)
    → Fits p
    → Reads (parse_packet (packet_id p)) (some (received p)) (write_packet p)
unfolding parse_packet Deserializes
Reads-parse p h =
    let (m, found, reads) = Deserializes-all p h in
    Reads-bind (read_expected (packet_id p)) (Reads-unsigned 2 (packet_id p) (id_fits p))
      (rw (==-refl (packet_id p), found) (Reads-map some reads))

-- Each packet of the master, whose fields have values of their types, and with as many expected
-- hashes and types of them as keys, is read by a client that waits for its type as it was written,
-- where a list of peers that counts as unchanged is read as empty and an address that was not set
-- as zeros; exactly its bytes are read.
pub parse_packet-write_packet :
    (p : M2CPacket) (tail : List ℕ)
    → Fits p
    → parse_packet (packet_id p) (at [] (write_packet p ++ tail))
      ≡ read (some (received p)) (at (write_packet p) tail)
parse_packet-write_packet p tail h = (Reads-parse p h).whole [] tail

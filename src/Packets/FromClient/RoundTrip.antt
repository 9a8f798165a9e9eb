-- ===== src/Packets/FromClient/RoundTrip.antt =====
-- A client's packet is read as it was written, and refused where it is cut short.
use pccl.Common.{ℕ, ◌<◌, ◌≡◌, refl, List, [], ◌∷◌, ◌++◌, some, length, take, All, arith}
use pccl.Client.{VariablePorts}
use pccl.Master.State.{SharedStateHashEntry}
use pccl.PacketBuffer.{weight, write_uuid, read_uuid, read, out_of_range, Reader}
use pccl.PacketBuffer.Reads.{
  at, Reads, Reads-return, Reads-bind, Reads-map, Reads-u8, Reads-bool, Reads-unsigned, Reads-times,
  Reads-uuid,
}
use pccl.Packets.{
  C2MPacket, request_session_registration, request_establish_p2p_connections,
  report_p2p_connections, check_peers_pending, vote_optimize, report_peer_bandwidth,
  optimize_topology_work_complete, request_sync_shared_state, dist_shared_state_complete,
  initiate_collective_comms, complete_collective_comms, read_hash_entry, write_hash_entry,
}
use pccl.Packets.Fields.{EntryFits, Reads-strategy, Reads-entry}
use pccl.Packets.FromClient.{
  packet_id, serialize, deserialize, write_packet, receive, read_ports, write_ports,
  read_session_registration, read_establish, read_p2p_connections, read_peer_bandwidth,
  read_sync_shared_state, read_initiate, read_complete,
}

abbrev pub PortsFit : VariablePorts → Type 0
PortsFit p =
    (p.p2p_listen_port < weight 2)
    × (p.shared_dist_state_listen_port < weight 2)
    × (p.bandwidth_benchmark_listen_port < weight 2)

-- The fields' values are those of the code's types, and the lists' lengths those of `uint64_t`.
abbrev pub Fits : C2MPacket → Type 0
Fits (request_session_registration ports group) = PortsFit ports × (group < weight 4)
Fits (request_establish_p2p_connections accept) = Unit
Fits (report_p2p_connections success failed) =
    (length failed < weight 8) × All (λ u. u < weight 16) failed
Fits check_peers_pending = Unit
Fits vote_optimize = Unit
Fits (report_peer_bandwidth to bandwidth) = (to < weight 16) × (bandwidth < weight 8)
Fits optimize_topology_work_complete = Unit
Fits (request_sync_shared_state revision strategy hashes) =
    (revision < weight 8) × (length hashes < weight 8) × All EntryFits hashes
Fits dist_shared_state_complete = Unit
Fits (initiate_collective_comms tag count data_type op) =
    (tag < weight 8) × (count < weight 8) × (data_type < 256) × (op < 256)
Fits (complete_collective_comms tag was_aborted) = tag < weight 8

All-uuids :
    (us : List ℕ) → All (λ u. u < weight 16) us → All (λ u. Reads read_uuid u (write_uuid u)) us
All-uuids [] h = tt
All-uuids (u ∷ us) h = (Reads-uuid u h.0, All-uuids us h.1)

All-entries :
    (es : List SharedStateHashEntry)
    → All EntryFits es
    → All (λ e. Reads read_hash_entry e (write_hash_entry e)) es
All-entries [] h = tt
All-entries (e ∷ es) h = (Reads-entry e h.0, All-entries es h.1)

Reads-ports : (p : VariablePorts) → PortsFit p → Reads read_ports p (write_ports p)
Reads-ports p h = Reads-bind _ (Reads-unsigned 2 p.p2p_listen_port h.0) (
    Reads-bind _ (Reads-unsigned 2 p.shared_dist_state_listen_port h.1)
      (Reads-map _ (Reads-unsigned 2 p.bandwidth_benchmark_listen_port h.2)))

-- The reader of a packet's type reads the packet.
Deserializes : C2MPacket → Type 0
Deserializes p =
    (m : Reader C2MPacket) × (deserialize (packet_id p) ≡ some m) × Reads m p (serialize p)

Deserializes-all : (p : C2MPacket) → Fits p → Deserializes p
unfolding Deserializes serialize deserialize
Deserializes-all (request_session_registration ports group) h = (
  read_session_registration,
  refl,
  Reads-bind _ (Reads-ports ports h.0) (Reads-map _ (Reads-unsigned 4 group h.1)),
)
Deserializes-all (request_establish_p2p_connections accept) h =
    (read_establish, refl, Reads-map _ (Reads-bool accept))
Deserializes-all (report_p2p_connections success failed) h = (
  read_p2p_connections,
  refl,
  Reads-bind _ (Reads-bool success) (
      Reads-bind _ (Reads-unsigned 8 (length failed) h.0)
        (Reads-map _ (Reads-times read_uuid write_uuid failed (All-uuids failed h.1)))),
)
Deserializes-all check_peers_pending h = (_, refl, Reads-return check_peers_pending)
Deserializes-all vote_optimize h = (_, refl, Reads-return vote_optimize)
Deserializes-all (report_peer_bandwidth to bandwidth) h = (
  read_peer_bandwidth,
  refl,
  Reads-bind _ (Reads-uuid to h.0) (Reads-map _ (Reads-unsigned 8 bandwidth h.1)),
)
Deserializes-all optimize_topology_work_complete h =
    (_, refl, Reads-return optimize_topology_work_complete)
Deserializes-all (request_sync_shared_state revision strategy hashes) h = (
  read_sync_shared_state,
  refl,
  Reads-bind _ (Reads-unsigned 8 revision h.0) (
      Reads-bind _ (Reads-strategy strategy) (
        Reads-bind _ (Reads-unsigned 8 (length hashes) h.1) (
          Reads-map _
            (Reads-times read_hash_entry write_hash_entry hashes (All-entries hashes h.2))))),
)
Deserializes-all dist_shared_state_complete h = (_, refl, Reads-return dist_shared_state_complete)
Deserializes-all (initiate_collective_comms tag count data_type op) h = (
  read_initiate,
  refl,
  Reads-bind _ (Reads-unsigned 8 tag h.0) (
      Reads-bind _ (Reads-unsigned 8 count h.1)
        (Reads-bind _ (Reads-u8 data_type h.2) (Reads-map _ (Reads-u8 op h.3)))),
)
Deserializes-all (complete_collective_comms tag was_aborted) h = (
  read_complete,
  refl,
  Reads-bind _ (Reads-unsigned 8 tag h) (Reads-map _ (Reads-bool was_aborted)),
)

id_fits : (p : C2MPacket) → packet_id p < weight 2
id_fits (request_session_registration ports group) = omega arith
id_fits (request_establish_p2p_connections accept) = omega arith
id_fits (report_p2p_connections success failed) = omega arith
id_fits check_peers_pending = omega arith
id_fits vote_optimize = omega arith
id_fits (report_peer_bandwidth to bandwidth) = omega arith
id_fits optimize_topology_work_complete = omega arith
id_fits (request_sync_shared_state revision strategy hashes) = omega arith
id_fits dist_shared_state_complete = omega arith
id_fits (initiate_collective_comms tag count data_type op) = omega arith
id_fits (complete_collective_comms tag was_aborted) = omega arith

Reads-receive : (p : C2MPacket) → Fits p → Reads receive (some p) (write_packet p)
unfolding receive Deserializes
Reads-receive p h =
    let (m, found, reads) = Deserializes-all p h in
    Reads-bind _ (Reads-unsigned 2 (packet_id p) (id_fits p)) (rw found (Reads-map some reads))

-- Each packet of a client, whose fields have values of their types, is read by the master as it
-- was written, and exactly its bytes are read, whatever follows them.
pub receive-write_packet :
    (p : C2MPacket) (tail : List ℕ)
    → Fits p
    → receive (at [] (write_packet p ++ tail)) ≡ read (some p) (at (write_packet p) tail)
receive-write_packet p tail h = (Reads-receive p h).whole [] tail

pub receive-take :
    (p : C2MPacket) (n : ℕ)
    → Fits p
    → n < length (write_packet p)
    → receive (at [] (take n (write_packet p))) ≡ out_of_range
receive-take p n h short = (Reads-receive p h).cut [] n short

-- ===== src/QueuedSocket.antt =====
-- How a client receives the packets of the master: QueuedSocket of
-- tinysockets/src/queued_client_socket.cpp and tinysockets/include/tinysockets.hpp.
pub mod Delivery
use mathlib.Core.Option
use pccl.Common.{
  ℕ, ◌*◌, Bool, true, false, List, [], ◌∷◌, ◌++◌, Option, none, some, if◌then◌else◌, ◌==◌, nat_eq,
  ltb, length,
}
use pccl.PacketBuffer.{Reading, read, out_of_range, refused, unnamed, read_u16, PacketReadBuffer}
use pccl.Packets.{M2CPacket}
use pccl.Packets.FromMaster.{parse_packet}

pub record QueuedSocket : Type 0 where
  pub running : Bool
  pub recv_queue : List (List ℕ)

-- 64 MiB
abbrev pub max_length : ℕ
max_length = 64 * 1024 * 1024

-- A turn of the loop of `run`, in which a packet of this data arrives with its length.
unfoldable pub receive_turn : List ℕ → QueuedSocket → QueuedSocket
receive_turn packet q =
    if q.running
    then if length packet == 0
      then record q { running = false }
      else if ltb max_length (length packet)
      then record q { running = false }
      else record q { recv_queue = q.recv_queue ++ packet ∷ [] }
    else q

abbrev pub whole_buffer : List ℕ → PacketReadBuffer
whole_buffer bytes = record { data_ = bytes; read_index_ = 0 }

abbrev pub is_id : ℕ → Reading ℕ → Bool
is_id id (read actual b) = actual == id
is_id id _ = false

-- Whether the loop of `pollNextPacketBuffer` stops at a packet: one that is too short is passed over.
abbrev pub has_packet_id : ℕ → List ℕ → Bool
has_packet_id id bytes =
    if ltb (length bytes) 2 then false else is_id id (read_u16 (whole_buffer bytes))

-- The first packet of the type, and the queue without it.
unfoldable pub find_packet : ℕ → List (List ℕ) → Option (List ℕ × List (List ℕ))
find_packet id [] = none
find_packet id (packet ∷ packets) =
    let rest = find_packet id packets in
    if has_packet_id id packet
    then some (packet, packets)
    else Option.map (λ found. (found.0, packet ∷ found.1)) rest

-- None: it returns nothing, or waits for another packet.
abbrev pub poll_next_packet_buffer : ℕ → QueuedSocket → Option (List ℕ × List (List ℕ))
poll_next_packet_buffer id q = if q.running then find_packet id q.recv_queue else none

-- The call waits or returns nothing, returns, throws, or makes a value that no enumerator names.
pub data Delivered : Type 0 where
  not_delivered unnamed_value : Delivered
  delivered : Option M2CPacket → QueuedSocket → Delivered
  threw : QueuedSocket → Delivered

abbrev pub deliver_parsed : QueuedSocket → Reading (Option M2CPacket) → Delivered
deliver_parsed q (read p b) = delivered p q
deliver_parsed q out_of_range = threw q
deliver_parsed q refused = delivered none q
deliver_parsed q unnamed = unnamed_value

abbrev pub deliver_found : ℕ → QueuedSocket → Option (List ℕ × List (List ℕ)) → Delivered
deliver_found id q none = not_delivered
deliver_found id q (some (packet, packets)) =
    deliver_parsed (record q { recv_queue = packets }) (parse_packet id (whole_buffer packet))

-- `receivePacket`.
unfoldable pub receive_packet : ℕ → QueuedSocket → Delivered
unfolding find_packet
receive_packet id q = deliver_found id q (poll_next_packet_buffer id q)

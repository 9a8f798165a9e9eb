-- ===== src/ServerSocket.antt =====
-- How the server's socket puts packets together from what a connection delivers:
-- tinysockets/src/server_socket.cpp, onClientRead; and how a packet is framed, by `sendLtvPacket` of
-- tinysockets/include/tinysockets.hpp and tinysockets/src/blocking_client_socket.cpp.
pub mod Frames
pub mod Chunks
pub mod Stream
use pccl.Common.{
  ℕ, zero, suc, ◌+◌, ◌-◌, ◌%◌, Bool, true, false, ◌&&◌, List, [], ◌∷◌, ◌++◌, if◌then◌else◌, ◌==◌,
  nat_eq, ltb, length, append_assoc,
}
use pccl.PacketBuffer.{
  PacketReadBuffer, Reading, read, out_of_range, refused, unnamed, Reader, ◌>>=◌, return, weight,
  write_u16, write_u64, read_u64, read_chars, remaining,
}

-- `-1`, by which a length that was not received is marked.
abbrev pub unset : ℕ
unset = weight 8 - 1

pub record RecvBuffer : Type 0 where
  pub expected_length : ℕ
  pub buffer : List ℕ

abbrev pub empty_buffer : RecvBuffer
empty_buffer = record { expected_length = unset; buffer = [] }

abbrev pub read_length : RecvBuffer → Reader RecvBuffer
read_length r b =
    if r.expected_length == unset
    then (read_u64 >>= λ n. return (record r { expected_length = n })) b
    else return r b

-- How many bytes the packet lacks, in 64 bits.
abbrev pub lacking : RecvBuffer → ℕ
lacking r = (r.expected_length + weight 8 - length r.buffer) % weight 8

abbrev pub n_to_insert : RecvBuffer → PacketReadBuffer → ℕ
n_to_insert r b = if ltb (lacking r) (remaining b) then lacking r else remaining b

-- `readContents`, like `readString` after its length, reads so many bytes.
abbrev pub insert_bytes : RecvBuffer → Reader RecvBuffer
insert_bytes r b =
    (read_chars (n_to_insert r b) >>= λ bytes. return (record r { buffer = r.buffer ++ bytes })) b

abbrev pub is_full : RecvBuffer → Bool
is_full r = length r.buffer == r.expected_length

-- What a part of the loop leaves: the buffer of the connection, what the read callbacks were given,
-- and whether the connection was closed.
pub record Delivery : Type 0 where
  pub recv_buffer : RecvBuffer
  pub delivered : List (List ℕ)
  pub is_closed : Bool

abbrev pub after : List (List ℕ) → Delivery → Delivery
after packets d = record d { delivered = packets ++ d.delivered }

-- A packet that is full is given to the callbacks, and the loop goes on.
abbrev pub deliver : (RecvBuffer → Reader Delivery) → RecvBuffer → Reader Delivery
deliver loop r b =
    if is_full r then (loop empty_buffer >>= λ d. return (after (r.buffer ∷ []) d)) b else loop r b

abbrev pub pause : RecvBuffer → Bool → Delivery
pause r closed = record { recv_buffer = r; delivered = []; is_closed = closed }

-- The loop over a chunk. Each turn reads a byte or more, so that the chunk's length is enough fuel.
unfoldable pub receive_loop : ℕ → RecvBuffer → Reader Delivery
unfolding read_chars
receive_loop zero r b = read (pause r false) b
receive_loop (suc fuel) r b =
    if remaining b == 0
    then read (pause r false) b
    else if r.expected_length == unset && ltb (remaining b) 8
    then read (pause r true) b
    else (read_length r >>= λ known. insert_bytes known >>= deliver (receive_loop fuel)) b

-- One call of `onClientRead`.
abbrev pub on_chunk : RecvBuffer → List ℕ → Reading Delivery
on_chunk r chunk = receive_loop (length chunk) r (record { data_ = chunk; read_index_ = 0 })

abbrev pub also_given : List (List ℕ) → Reading Delivery → Reading Delivery
also_given packets (read d b) = read (after packets d) b
also_given packets out_of_range = out_of_range
also_given packets refused = refused
also_given packets unnamed = unnamed

-- After a chunk, the ones that follow it, unless the connection was closed.
abbrev pub continue_with : (RecvBuffer → Reading Delivery) → Reading Delivery → Reading Delivery
continue_with next (read d b) =
    let rest = next d.recv_buffer in if d.is_closed then read d b else also_given d.delivered rest
continue_with next out_of_range = out_of_range
continue_with next refused = refused
continue_with next unnamed = unnamed

-- The chunks of a connection, up to the one at which it is closed.
unfoldable pub on_chunks : RecvBuffer → List (List ℕ) → Reading Delivery
unfolding receive_loop
on_chunks r [] = read (pause r false) (record { data_ = []; read_index_ = 0 })
on_chunks r (chunk ∷ chunks) = continue_with (λ next. on_chunks next chunks) (on_chunk r chunk)

-- What a packet's bytes are: its type and its contents.
abbrev pub packet_bytes : ℕ × List ℕ → List ℕ
packet_bytes p = write_u16 p.0 ++ p.1

-- `sendLtvPacket`: the length of what follows, the type, and the contents.
abbrev pub ltv_packet : ℕ × List ℕ → List ℕ
ltv_packet p = write_u64 (length p.1 + 2) ++ packet_bytes p

unfoldable pub ltv_packets : List (ℕ × List ℕ) → List ℕ
ltv_packets [] = []
ltv_packets (p ∷ ps) = ltv_packet p ++ ltv_packets ps

-- ===== src/QueuedSocket/Delivery.antt =====
-- What a client makes of a packet of the master that arrives, whole or cut short.
use mathlib.Core.Option
use pccl.Common.{
  ℕ, ◌+◌, ◌-◌, ◌≡◌, ◌<◌, ◌≤◌, refl, ap, sym, subst, ◌∙◌, Bool, true, false, List, [], ◌∷◌, ◌++◌,
  none, some, if◌then◌else◌, ◌==◌, nat_eq, ltb, length, All, take, arith, append-nil,
  take-append_long, length-take, length-append, ==-refl, nat_beq_iff, Bool-cases, inl, inr,
}
use pccl.PacketBuffer.{read, write_u16}
use pccl.PacketBuffer.Integers.{length-write_integral}
use pccl.PacketBuffer.Reads.{at, Reads-unsigned}
use pccl.Packets.{M2CPacket}
use pccl.Packets.FromMaster.{packet_id, serialize, write_packet, parse_packet}
use pccl.Packets.FromMaster.RoundTrip.{Fits, Reads-parse, received, id_fits}
use pccl.QueuedSocket.{
  QueuedSocket, max_length, receive_turn, whole_buffer, has_packet_id, find_packet, delivered,
  not_delivered, threw, deliver_parsed, deliver_found, receive_packet,
}

-- No packet of the type waits in a queue.
abbrev pub NoneWaits : ℕ → List (List ℕ) → Type 0
NoneWaits id packets = All (λ packet. has_packet_id id packet ≡ false) packets

-- What a search finds.
abbrev Found : Type 0
Found = List ℕ × List (List ℕ)

find_packet-append :
    (id : ℕ) (packet : List ℕ) (packets : List (List ℕ))
    → NoneWaits id packets
    → find_packet id (packets ++ packet ∷ [])
      ≡ (if has_packet_id id packet then some (packet, packets) else none)
unfolding find_packet
find_packet-append id packet [] w = elim (Bool-cases (has_packet_id id packet)) [
  | inl good ↦ rw good refl
  | inr bad ↦ rw bad refl
]
find_packet-append id packet (x ∷ xs) w =
    rw (w.0, find_packet-append id packet xs w.1) (mapped (has_packet_id id packet))
  where
    mapped :
        (b : Bool)
        → Option.map {A = Found} {B = Found}
            (λ found. (found.0, x ∷ found.1))
            (if b then some (packet, xs) else none)
          ≡ (if b then some (packet, x ∷ xs) else none)
    mapped true = refl
    mapped false = refl

take-write_packet :
    (p : M2CPacket) (n : ℕ)
    → 2 ≤ n
    → take n (write_packet p) ≡ write_u16 (packet_id p) ++ take (n - 2) (serialize p)
take-write_packet p n h =
    let id = write_u16 (packet_id p) in
    let split : n ≡ length id + (n - 2) = omega (arith, length-write_integral 2 (packet_id p)) in
    ap (λ m. take m (write_packet p)) split ∙ take-append_long (n - 2) id (serialize p)

has_packet_id-take :
    (p : M2CPacket) (n : ℕ) → 2 ≤ n → has_packet_id (packet_id p) (take n (write_packet p)) ≡ true
has_packet_id-take p n h =
    let id = write_u16 (packet_id p) in
    let rest = take (n - 2) (serialize p) in
    let reads = (Reads-unsigned 2 (packet_id p) (id_fits p)).whole [] rest in
    let long : ltb (length (id ++ rest)) 2 ≡ false =
      ground (arith, length-append id rest, length-write_integral 2 (packet_id p)) in
    ap (has_packet_id (packet_id p)) (take-write_packet p n h)
    ∙ rw (long, reads) (==-refl (packet_id p))

-- A packet of this data arrives while none of the type waits, and is asked for.
arrives :
    (id : ℕ) (packet : List ℕ) (q : QueuedSocket)
    → q.running ≡ true
    → NoneWaits id q.recv_queue
    → 0 < length packet
    → length packet ≤ max_length
    → receive_packet id (receive_turn packet q) ≡ (
        if has_packet_id id packet
        then deliver_parsed q (parse_packet id (whole_buffer packet))
        else not_delivered)
unfolding receive_packet receive_turn
arrives id packet q up w some_bytes few =
    let filled : (length packet == 0) ≡ false = ground arith in
    let fits : ltb max_length (length packet) ≡ false = ground arith in
    let next : QueuedSocket = record q { recv_queue = q.recv_queue ++ packet ∷ [] } in
    let queued : receive_turn packet q ≡ next = rw (receive_turn, up, filled, fits) refl in
    ap (receive_packet id) queued
    ∙ (ap (λ b. deliver_found id next (if b then find_packet id next.recv_queue else none)) up
        ∙ (ap (deliver_found id next) (find_packet-append id packet q.recv_queue w)
            ∙ found (has_packet_id id packet)))
  where
    found :
        (b : Bool)
        → deliver_found id
            (record q { recv_queue = q.recv_queue ++ packet ∷ [] })
            (if b then some (packet, q.recv_queue) else none)
          ≡ (if b then deliver_parsed q (parse_packet id (whole_buffer packet)) else not_delivered)
    found true = refl
    found false = refl

-- A packet of the master, whose fields have values of their types, and with as many expected
-- hashes and types of them as keys, of at most 64 MiB, that arrives at a client's socket which is
-- running and in whose queue no packet of its type waits, is received by the next call that asks
-- for its type, as it was written, where a list of peers that counts as unchanged is read as empty
-- and an address that was not set as zeros. Packets of other types may wait before it; the socket
-- goes on running, and they stay in the queue in their order.
pub receive_packet-write_packet :
    (p : M2CPacket) (q : QueuedSocket)
    → Fits p
    → q.running ≡ true
    → NoneWaits (packet_id p) q.recv_queue
    → length (write_packet p) ≤ max_length
    → receive_packet (packet_id p) (receive_turn (write_packet p) q)
      ≡ delivered (some (received p)) q
receive_packet-write_packet p q h up w few =
    let packet = write_packet p in
    let id = packet_id p in
    let size : 2 ≤ length packet =
      omega (arith, length-append (write_u16 id) (serialize p), length-write_integral 2 id) in
    let all : take (length packet) packet ≡ packet = take_all packet in
    let known : has_packet_id id packet ≡ true =
      subst (λ d. has_packet_id id d ≡ true) all (has_packet_id-take p (length packet) size) in
    let parsed : parse_packet id (whole_buffer packet) ≡ read (some (received p)) (at packet []) =
      ap (λ d. parse_packet id (whole_buffer d)) (sym (append-nil packet))
      ∙ (Reads-parse p h).whole [] [] in
    arrives id packet q up w (omega arith) few ∙ rw (known, parsed) refl
  where
    take_all : (xs : List ℕ) → take (length xs) xs ≡ xs
    take_all [] = refl
    take_all (x ∷ xs) = ap (λ ys. x ∷ ys) (take_all xs)

-- A packet without bytes closes the connection, and one of a byte is passed over.
closes :
    (id : ℕ) (q : QueuedSocket)
    → q.running ≡ true
    → receive_packet id (receive_turn [] q) ≡ not_delivered
unfolding receive_packet receive_turn
closes id q up = rw up refl

passed_over : (id : ℕ) (packet : List ℕ) → length packet < 2 → has_packet_id id packet ≡ false
passed_over id packet h = let tiny : ltb (length packet) 2 ≡ true = ground arith in rw tiny refl

-- Where only the first n bytes of such a packet arrive, less than all and at most 64 MiB, the
-- length before them being n, a call that asks for its type throws if they are 2 or more, after it
-- has taken the packet out of the queue, so that no value is read from behind the end. If they are
-- fewer, it receives nothing.
pub receive_packet-take :
    (p : M2CPacket) (n : ℕ) (q : QueuedSocket)
    → Fits p
    → n < length (write_packet p)
    → q.running ≡ true
    → NoneWaits (packet_id p) q.recv_queue
    → n ≤ max_length
    → receive_packet (packet_id p) (receive_turn (take n (write_packet p)) q)
      ≡ (if ltb n 2 then not_delivered else threw q)
receive_packet-take p n q h short up w few =
    let id = packet_id p in
    let packet = take n (write_packet p) in
    let size : length packet ≡ n = length-take n (write_packet p) (omega arith) in
    elim (Bool-cases (n == 0)) [
      | inl none_left ↦
          let zero_left = (nat_beq_iff n 0).0 none_left in
          let tiny : ltb n 2 ≡ true = ground (arith, none_left) in
          rw tiny (
            ap (λ m. receive_packet id (receive_turn (take m (write_packet p)) q)) zero_left
            ∙ closes id q up)
      | inr some_left ↦
          let came =
            arrives id packet q up w (ground (arith, some_left, size)) (omega (arith, size)) in
          elim (Bool-cases (ltb n 2)) [
            | inl tiny ↦
                let unknown : has_packet_id id packet ≡ false =
                  passed_over id packet (ground (arith, tiny, size)) in
                rw tiny (came ∙ rw unknown refl)
            | inr enough ↦
                let known = has_packet_id-take p n (ground (arith, enough)) in
                let cut = (Reads-parse p h).cut [] n short in
                rw enough (came ∙ rw (known, cut) refl)
          ]
    ]

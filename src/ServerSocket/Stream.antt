-- ===== src/ServerSocket/Stream.antt =====
-- The packets that a connection was sent are delivered, in whatever chunks their bytes come.
use pccl.Common.{
  ℕ, ◌+◌, ◌<◌, ◌≡◌, refl, sym, ap, ◌∙◌, subst, true, false, List, [], ◌∷◌, ◌++◌, map, nat_eq,
  length, All, arith, append_assoc, length-append, inl, inr, ◌⊎◌,
}
use pccl.PacketBuffer.{Reading, read, out_of_range, refused, unnamed, write_u64}
use pccl.PacketBuffer.Integers.{length-write_integral}
use pccl.ServerSocket.{
  RecvBuffer, Delivery, empty_buffer, on_chunk, on_chunks, also_given, continue_with, packet_bytes,
  ltv_packet, ltv_packets,
}
use pccl.ServerSocket.Frames.{HasLength, Awaits, between, within, Stops, Progress}
use mathlib.Core.List.{map-append}
use pccl.ServerSocket.Chunks.{chunk-Progress}

unfoldable pub concat : List (List ℕ) → List ℕ
concat [] = []
concat (c ∷ cs) = c ++ concat cs

-- A chunk ends after some, but not all, of the 8 bytes of a packet's length.
pub record SplitsLength (ps : List (ℕ × List ℕ)) (chunks : List (List ℕ)) : Type 0 where
  pub earlier : List (List ℕ)
  pub chunk : List ℕ
  pub later : List (List ℕ)
  pub at_chunk : chunks ≡ earlier ++ (chunk ∷ later)
  pub stops :
      (qs : List (ℕ × List ℕ)) × (rs : List (ℕ × List ℕ)) × (ps ≡ qs ++ rs)
      × Stops rs chunk (concat later)

-- The packets were delivered in their order, and no other bytes are left; or the connection was closed at
-- a chunk that splits a length.
abbrev pub Delivered : List (ℕ × List ℕ) → List (List ℕ) → Reading Delivery → Type 0
Delivered ps chunks (read d b) =
    ((d.delivered ≡ map packet_bytes ps) × (d.recv_buffer ≡ empty_buffer) × (d.is_closed ≡ false))
    ⊎ ((d.is_closed ≡ true) × SplitsLength ps chunks)
Delivered ps chunks out_of_range = ⊥
Delivered ps chunks refused = ⊥
Delivered ps chunks unnamed = ⊥

-- A suffix of the packets.
All-suffix : {A : Type 0} (P : A → Type 0) (xs ys : List A) → All P (xs ++ ys) → All P ys
All-suffix P [] ys h = h
All-suffix P (x ∷ xs) ys h = All-suffix P xs ys h.1

-- What the chunks after the first deliver.
later-Delivered :
    (qs rs : List (ℕ × List ℕ)) (given : List (List ℕ)) (chunk : List ℕ) (chunks : List (List ℕ))
    (r : Reading Delivery)
    → given ≡ map packet_bytes qs
    → Delivered rs chunks r
    → Delivered (qs ++ rs) (chunk ∷ chunks) (also_given given r)
later-Delivered qs rs given chunk chunks (read d b) e (inl (all, empty, stays)) =
    inl (cc (e, all, map-append packet_bytes qs rs), empty, stays)
later-Delivered qs rs given chunk chunks (read d b) e (inr (closed, s)) =
    let (before, others, parts, stops) = s.stops in
    inr (
      closed,
      record {
        earlier = chunk ∷ s.earlier;
        chunk = s.chunk;
        later = s.later;
        at_chunk = ap (λ cs. chunk ∷ cs) s.at_chunk;
        stops = (
          qs ++ before,
          others,
          ap (λ ps. qs ++ ps) parts ∙ sym (append_assoc qs before others),
          stops,
        );
      },
    )
later-Delivered qs rs given chunk chunks out_of_range e h = elim h [ ]
later-Delivered qs rs given chunk chunks refused e h = elim h [ ]
later-Delivered qs rs given chunk chunks unnamed e h = elim h [ ]

continue_with-Delivered :
    (next : RecvBuffer → Reading Delivery) (ps : List (ℕ × List ℕ)) (chunk : List ℕ)
    (chunks : List (List ℕ)) (first : Reading Delivery)
    → ((r : RecvBuffer) (rs : List (ℕ × List ℕ))
        → All HasLength rs
        → Awaits r rs (concat chunks)
        → Delivered rs chunks (next r))
    → All HasLength ps
    → Progress ps chunk (concat chunks) first
    → Delivered ps (chunk ∷ chunks) (continue_with next first)
continue_with-Delivered next ps chunk chunks (read d b) ih fits (inl (closed, s)) = rw closed (
    inr (
      refl,
      record {
        earlier = [];
        chunk = chunk;
        later = chunks;
        at_chunk = refl;
        stops = ([], ps, refl, s);
      },
    ))
continue_with-Delivered next ps chunk chunks (read d b) ih fits (inr c) =
    let rest =
      ih d.recv_buffer c.rest
        (All-suffix HasLength c.done c.rest (subst (All HasLength) c.whole fits)) c.awaits in
    rw (c.is_open, c.whole)
      (later-Delivered c.done c.rest d.delivered chunk chunks (next d.recv_buffer) c.given rest)
continue_with-Delivered next ps chunk chunks out_of_range ih fits h = elim h [ ]
continue_with-Delivered next ps chunk chunks refused ih fits h = elim h [ ]
continue_with-Delivered next ps chunk chunks unnamed ih fits h = elim h [ ]

length-ltv_packet : (p : ℕ × List ℕ) (bs : List ℕ) → 0 < length (ltv_packet p ++ bs)
length-ltv_packet p bs =
    let w = write_u64 (length p.1 + 2) in
    omega (
      arith,
      length-append (w ++ packet_bytes p) bs,
      length-append w (packet_bytes p),
      length-write_integral 8 (length p.1 + 2),
    )

chunks-Delivered :
    (chunks : List (List ℕ)) (r : RecvBuffer) (ps : List (ℕ × List ℕ))
    → All HasLength ps
    → Awaits r ps (concat chunks)
    → Delivered ps chunks (on_chunks r chunks)
unfolding on_chunks concat ltv_packets
chunks-Delivered [] r [] fits (between same e) = inl (refl, same, refl)
chunks-Delivered [] r (p ∷ ps) fits (between same e) =
    let size = ap length e in absurd (omega (arith, size, length-ltv_packet p (ltv_packets ps)))
chunks-Delivered [] r ps fits (within p qs got lacks first own some_lack same e) =
    let size = ap length e in
    absurd (omega (arith, size, some_lack, length-append lacks (ltv_packets qs)))
chunks-Delivered (chunk ∷ chunks) r ps fits a =
    continue_with-Delivered (λ next. on_chunks next chunks) ps chunk chunks (on_chunk r chunk)
      (chunks-Delivered chunks) fits (chunk-Progress r ps chunk (concat chunks) fits a)

-- Of packets that are sent to the server, each framed with its length, whose lengths are below the
-- mark of an unset length, in whatever chunks their bytes come, exactly these packets are
-- delivered in their order, and the connection's buffer is empty again and the connection open; or
-- the connection is closed, and a chunk has ended after some but not all of the 8 bytes of a
-- packet's length.
pub on_chunks-Delivered :
    (ps : List (ℕ × List ℕ)) (chunks : List (List ℕ))
    → All HasLength ps
    → concat chunks ≡ ltv_packets ps
    → Delivered ps chunks (on_chunks empty_buffer chunks)
on_chunks-Delivered ps chunks fits e = chunks-Delivered chunks empty_buffer ps fits (between refl e)

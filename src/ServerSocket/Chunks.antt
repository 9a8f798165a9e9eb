-- ===== src/ServerSocket/Chunks.antt =====
-- The loop over a chunk, and the chunks of a connection.
use pccl.Common.{
  ℕ, zero, suc, ◌+◌, ◌≤◌, ◌<◌, ◌≡◌, refl, sym, ap, ◌∙◌, subst, true, false, List, [], ◌∷◌, ◌++◌,
  ◌==◌, nat_eq, ltb, length, All, arith, append_assoc, length-append, Bool-cases, inl, inr,
}
use pccl.PacketBuffer.{read, ◌>>=◌, write_u64, remaining}
use pccl.PacketBuffer.Integers.{length-write_integral}
use pccl.PacketBuffer.Reads.{at, Reads-unsigned}
use pccl.ServerSocket.{
  RecvBuffer, unset, empty_buffer, receive_loop, on_chunk, packet_bytes, ltv_packets, read_length,
}
use pccl.ServerSocket.Frames.{
  append-cases, HasLength, length-packet_bytes, Awaits, between, within, Progress, pauses, further,
  Loops, fill,
}

remaining-at : (pre chunk : List ℕ) → remaining (at pre chunk) ≡ length chunk
remaining-at pre chunk = omega (arith, length-append pre chunk)

-- The chunk begins with the length of a packet.
length_known :
    (p : ℕ × List ℕ) (pre chunk : List ℕ)
    → HasLength p
    → read_length empty_buffer (at pre (write_u64 (length p.1 + 2) ++ chunk))
      ≡ read
          (record { expected_length = length p.1 + 2; buffer = [] })
          (at (pre ++ write_u64 (length p.1 + 2)) chunk)
length_known p pre chunk fits =
    let n = length p.1 + 2 in
    rw ((Reads-unsigned 8 n (omega arith)).whole pre chunk, read_length, ◌>>=◌) refl

module _ (fuel : ℕ) (ih : Loops fuel) (p : ℕ × List ℕ) (qs : List (ℕ × List ℕ))
    (fits : All HasLength (p ∷ qs)) (pre later : List ℕ) where
  abbrev Looped : RecvBuffer → List ℕ → Type 0
  Looped r chunk = Progress (p ∷ qs) chunk later (receive_loop (suc fuel) r (at pre chunk))

  starts :
      (rest : List ℕ)
      → length rest ≤ suc fuel
      → rest ++ later ≡ packet_bytes p ++ ltv_packets qs
      → Looped empty_buffer (write_u64 (length p.1 + 2) ++ rest)
  unfolding receive_loop
  starts rest h e =
      let w = write_u64 (length p.1 + 2) in
      let size = length-write_integral 8 (length p.1 + 2) in
      let there : (remaining (at pre (w ++ rest)) == 0) ≡ false =
        ground (arith, length-append pre (w ++ rest), length-append w rest, size) in
      let long : ltb (remaining (at pre (w ++ rest))) 8 ≡ false =
        ground (arith, length-append pre (w ++ rest), length-append w rest, size) in
      rw (there, long, length_known p pre rest fits.0, receive_loop, ◌>>=◌)
        (further w (p ∷ qs) rest later _ (
          fill fuel ih p qs fits (pre ++ w) [] (packet_bytes p) refl
            (omega (arith, length-packet_bytes p)) rest later h e))

  -- The loop between two packets.
  begins :
      (chunk : List ℕ)
      → length chunk ≤ suc fuel
      → 0 < length chunk
      → chunk ++ later ≡ ltv_packets (p ∷ qs)
      → Looped empty_buffer chunk
  unfolding receive_loop ltv_packets
  begins chunk h some_bytes e =
      let w = write_u64 (length p.1 + 2) in
      let size = length-write_integral 8 (length p.1 + 2) in
      let there : (remaining (at pre chunk) == 0) ≡ false =
        ground (arith, remaining-at pre chunk) in
      let stream = e ∙ append_assoc w (packet_bytes p) (ltv_packets qs) in
      elim (Bool-cases (ltb (remaining (at pre chunk)) 8)) [
        | inl few ↦
            rw (there, few, receive_loop)
              (inl (
                refl,
                record {
                  before = [];
                  others = p ∷ qs;
                  front = [];
                  short = chunk;
                  parts = refl;
                  ends = refl;
                  some_bytes = some_bytes;
                  few_bytes = ground (arith, few, remaining-at pre chunk);
                  same = e;
                },
              ))
        | inr long ↦ elim (append-cases chunk later w (packet_bytes p ++ ltv_packets qs) stream) [
          | inr (zs, a, more, b) ↦
              let parts = ap length a in
              absurd
                (ground (arith, parts, size, length-append chunk zs, remaining-at pre chunk, long))
          | inl (zs, a, b) ↦
              let parts = ap length a in
              subst (Looped empty_buffer) (sym a)
                (starts zs (omega (arith, parts, length-append w zs)) (sym b))
        ]
      ]

  -- The loop within a packet.
  goes_on :
      (got lacks chunk : List ℕ)
      → packet_bytes p ≡ got ++ lacks
      → 0 < length lacks
      → length chunk ≤ suc fuel
      → 0 < length chunk
      → chunk ++ later ≡ lacks ++ ltv_packets qs
      → Looped (record { expected_length = length p.1 + 2; buffer = got }) chunk
  unfolding receive_loop
  goes_on got lacks chunk own some_lack h some_bytes e =
      let there : (remaining (at pre chunk) == 0) ≡ false =
        ground (arith, remaining-at pre chunk) in
      let known : (length p.1 + 2 == unset) ≡ false = ground (arith, fits.0) in
      rw (there, known, receive_loop, ◌>>=◌, read_length)
        (fill fuel ih p qs fits pre got lacks own some_lack chunk later h e)

Loops-all : (fuel : ℕ) → Loops fuel
unfolding receive_loop ltv_packets
Loops-all zero r ps pre [] later fits h a = inr (pauses r ps later a)
Loops-all zero r ps pre (x ∷ chunk) later fits h a = absurd (omega arith)
Loops-all (suc fuel) r ps pre [] later fits h a =
    let there : (remaining (at pre []) == 0) ≡ true = ground (arith, remaining-at pre []) in
    rw (there, receive_loop) (inr (pauses r ps later a))
Loops-all (suc fuel) r [] pre (x ∷ chunk) later fits h (between same e) =
    let size = ap length e in absurd (omega (arith, size, length-append chunk later))
Loops-all (suc fuel) r (p ∷ qs) pre (x ∷ chunk) later fits h (between same e) =
    subst
      (λ b. Progress (p ∷ qs) (x ∷ chunk) later (receive_loop (suc fuel) b (at pre (x ∷ chunk))))
      (sym same) (begins fuel (Loops-all fuel) p qs fits pre later (x ∷ chunk) h (omega arith) e)
Loops-all (suc fuel) r ps pre (x ∷ chunk) later fits h
      (within p qs got lacks first own some_lack same e) =
    let went =
      goes_on fuel (Loops-all fuel) p qs (subst (All HasLength) first fits) pre later got lacks
        (x ∷ chunk) own some_lack h (omega arith) e in
    rw (first, same) went

-- One chunk.
pub chunk-Progress :
    (r : RecvBuffer) (ps : List (ℕ × List ℕ)) (chunk later : List ℕ)
    → All HasLength ps
    → Awaits r ps (chunk ++ later)
    → Progress ps chunk later (on_chunk r chunk)
chunk-Progress r ps chunk later fits a =
    Loops-all (length chunk) r ps [] chunk later fits (omega arith) a

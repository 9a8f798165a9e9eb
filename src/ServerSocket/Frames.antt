-- ===== src/ServerSocket/Frames.antt =====
-- The packets that a connection was sent are delivered, in whatever chunks their bytes come.
use pccl.Common.{
  ℕ, suc, ◌+◌, ◌≤◌, ◌<◌, ◌≡◌, refl, sym, ap, ◌∙◌, subst, true, false, List, [], ◌∷◌, ◌++◌, map,
  nat_eq, length, All, arith, append_assoc, append-nil, length-append, inl, inr, ◌⊎◌,
}
use pccl.PacketBuffer.{
  Reading, read, out_of_range, refused, unnamed, ◌>>=◌, write_integral, write_u16,
}
use pccl.PacketBuffer.Integers.{length-write_integral}
use pccl.PacketBuffer.Reads.{at, Reads-chars}
use pccl.ServerSocket.{
  RecvBuffer, Delivery, unset, empty_buffer, lacking, n_to_insert, insert_bytes, is_full, deliver,
  after, pause, receive_loop, packet_bytes, ltv_packets,
}

-- Two ways to cut a list in two.
pub append-cases :
    {A : Type 0} (xs ys us vs : List A)
    → xs ++ ys ≡ us ++ vs
    → ((zs : List A) × (xs ≡ us ++ zs) × (vs ≡ zs ++ ys))
      ⊎ ((zs : List A) × (us ≡ xs ++ zs) × (0 < length zs) × (ys ≡ zs ++ vs))
append-cases xs ys [] vs e = inl (xs, refl, sym e)
append-cases [] ys (u ∷ us) vs e = inr (u ∷ us, refl, omega arith, e)
append-cases (x ∷ xs) ys (u ∷ us) vs e = elim (append-cases xs ys us vs (cc)) [
  | inl (zs, a, b) ↦ inl (zs, cc, b)
  | inr (zs, a, h, b) ↦ inr (zs, cc, h, b)
]

-- A packet whose length is one of 64 bits, and not the mark of an unset length.
abbrev pub HasLength : ℕ × List ℕ → Type 0
HasLength p = length p.1 + 2 < unset

pub length-packet_bytes : (p : ℕ × List ℕ) → length (packet_bytes p) ≡ length p.1 + 2
unfolding write_integral
length-packet_bytes p =
    omega (arith, length-append (write_u16 p.0) p.1, length-write_integral 2 p.0)

-- The buffer of a connection on which the packets are still to be received, as these bytes: no
-- packet has begun, or the first one lacks some bytes.
pub data Awaits (r : RecvBuffer) (ps : List (ℕ × List ℕ)) (bytes : List ℕ) : Type 0 where
  between : r ≡ empty_buffer → bytes ≡ ltv_packets ps → Awaits r ps bytes
  within :
      (p : ℕ × List ℕ) (qs : List (ℕ × List ℕ)) (got lacks : List ℕ)
      → ps ≡ p ∷ qs
      → packet_bytes p ≡ got ++ lacks
      → 0 < length lacks
      → r ≡ record { expected_length = length p.1 + 2; buffer = got }
      → bytes ≡ lacks ++ ltv_packets qs
      → Awaits r ps bytes

-- The first packets were delivered, and the others are awaited.
pub record Continues (ps : List (ℕ × List ℕ)) (later : List ℕ) (d : Delivery) : Type 0 where
  pub done : List (ℕ × List ℕ)
  pub rest : List (ℕ × List ℕ)
  pub whole : ps ≡ done ++ rest
  pub given : d.delivered ≡ map packet_bytes done
  pub awaits : Awaits d.recv_buffer rest later
  pub is_open : d.is_closed ≡ false

-- The chunk ends within the 8 bytes of a packet's length.
pub record Stops (ps : List (ℕ × List ℕ)) (chunk later : List ℕ) : Type 0 where
  pub before : List (ℕ × List ℕ)
  pub others : List (ℕ × List ℕ)
  pub front : List ℕ
  pub short : List ℕ
  pub parts : ps ≡ before ++ others
  pub ends : chunk ≡ front ++ short
  pub some_bytes : 0 < length short
  pub few_bytes : length short < 8
  pub same : short ++ later ≡ ltv_packets others

abbrev pub Progress : List (ℕ × List ℕ) → List ℕ → List ℕ → Reading Delivery → Type 0
Progress ps chunk later (read d b) =
    ((d.is_closed ≡ true) × Stops ps chunk later) ⊎ Continues ps later d
Progress ps chunk later out_of_range = ⊥
Progress ps chunk later refused = ⊥
Progress ps chunk later unnamed = ⊥

-- What holds of the end of a chunk holds of the chunk.
pub further :
    (x : List ℕ) (ps : List (ℕ × List ℕ)) (chunk later : List ℕ) (r : Reading Delivery)
    → Progress ps chunk later r
    → Progress ps (x ++ chunk) later r
further x ps chunk later (read d b) (inr c) = inr c
further x ps chunk later (read d b) (inl (closed, s)) = inl (
  closed,
  record {
    before = s.before;
    others = s.others;
    front = x ++ s.front;
    short = s.short;
    parts = s.parts;
    ends = ap (λ c. x ++ c) s.ends ∙ sym (append_assoc x s.front s.short);
    some_bytes = s.some_bytes;
    few_bytes = s.few_bytes;
    same = s.same;
  },
)
further x ps chunk later out_of_range h = elim h [ ]
further x ps chunk later refused h = elim h [ ]
further x ps chunk later unnamed h = elim h [ ]

pub pauses :
    (r : RecvBuffer) (ps : List (ℕ × List ℕ)) (later : List ℕ)
    → Awaits r ps later
    → Continues ps later (pause r false)
pauses r ps later a = record {
  done = [];
  rest = ps;
  whole = refl;
  given = refl;
  awaits = a;
  is_open = refl;
}

-- What is delivered after one more packet.
pub one_more :
    (p : ℕ × List ℕ) (qs : List (ℕ × List ℕ)) (chunk later got : List ℕ) (r : Reading Delivery)
    → got ≡ packet_bytes p
    → Progress qs chunk later r
    → Progress (p ∷ qs) chunk later (elim r [
      | read d b ↦ read (after (got ∷ []) d) b
      | out_of_range ↦ out_of_range
      | refused ↦ refused
      | unnamed ↦ unnamed
    ])
one_more p qs chunk later got (read d b) e (inl (closed, s)) = inl (
  closed,
  record {
    before = p ∷ s.before;
    others = s.others;
    front = s.front;
    short = s.short;
    parts = ap (λ xs. p ∷ xs) s.parts;
    ends = s.ends;
    some_bytes = s.some_bytes;
    few_bytes = s.few_bytes;
    same = s.same;
  },
)
one_more p qs chunk later got (read d b) e (inr c) = inr (record {
  done = p ∷ c.done;
  rest = c.rest;
  whole = ap (λ xs. p ∷ xs) c.whole;
  given = cc (e, c.given);
  awaits = c.awaits;
  is_open = c.is_open;
})
one_more p qs chunk later got out_of_range e h = elim h [ ]
one_more p qs chunk later got refused e h = elim h [ ]
one_more p qs chunk later got unnamed e h = elim h [ ]

-- What the loop does with a chunk of at most this length.
abbrev pub Loops : ℕ → Type 0
Loops fuel =
    (r : RecvBuffer) (ps : List (ℕ × List ℕ)) (pre chunk later : List ℕ)
    → All HasLength ps
    → length chunk ≤ fuel
    → Awaits r ps (chunk ++ later)
    → Progress ps chunk later (receive_loop fuel r (at pre chunk))

module _ (fuel : ℕ) (ih : Loops fuel) (p : ℕ × List ℕ) (qs : List (ℕ × List ℕ))
    (fits : All HasLength (p ∷ qs)) (pre got lacks : List ℕ) (own : packet_bytes p ≡ got ++ lacks)
    (some_lack : 0 < length lacks) where
  abbrev begun : RecvBuffer
  begun = record { expected_length = length p.1 + 2; buffer = got }

  lacking_lem : lacking begun ≡ length lacks
  lacking_lem =
      let size = ap length own in
      omega (arith, size, length-packet_bytes p, length-append got lacks, fits.0)

  inserted_full :
      (chunk : List ℕ)
      → insert_bytes begun (at pre (lacks ++ chunk))
        ≡ read (record begun { buffer = got ++ lacks }) (at (pre ++ lacks) chunk)
  inserted_full chunk =
      let enough : n_to_insert begun (at pre (lacks ++ chunk)) ≡ length lacks =
        ground
          (arith, lacking_lem, length-append pre (lacks ++ chunk), length-append lacks chunk) in
      rw (enough, (Reads-chars lacks).whole pre chunk, insert_bytes, ◌>>=◌) refl

  abbrev filled : List ℕ → Reading Delivery
  filled chunk = (insert_bytes begun >>= deliver (receive_loop fuel)) (at pre chunk)

  -- The chunk holds what the packet lacks.
  fill_full :
      (chunk later : List ℕ)
      → length (lacks ++ chunk) ≤ suc fuel
      → ltv_packets qs ≡ chunk ++ later
      → Progress (p ∷ qs) (lacks ++ chunk) later (filled (lacks ++ chunk))
  fill_full chunk later h e =
      let full : is_full (record begun { buffer = got ++ lacks }) ≡ true =
        ground (arith, own, length-packet_bytes p) in
      let loop = receive_loop fuel empty_buffer (at (pre ++ lacks) chunk) in
      rw (inserted_full chunk, full, ◌>>=◌, deliver)
        (further lacks (p ∷ qs) chunk later _ (
          one_more p qs chunk later (got ++ lacks) loop (sym own) (
            ih empty_buffer qs (pre ++ lacks) chunk later fits.1
              (omega (arith, length-append lacks chunk)) (between refl (sym e)))))

  -- The chunk ends before the packet does.
  module _ (chunk zs later : List ℕ) (cut : lacks ≡ chunk ++ zs) (more : 0 < length zs) where
    abbrev longer : RecvBuffer
    longer = record begun { buffer = got ++ chunk }

    inserted_part : insert_bytes begun (at pre (chunk ++ [])) ≡ read longer (at (pre ++ chunk) [])
    inserted_part =
        let size = ap length cut in
        let few : n_to_insert begun (at pre (chunk ++ [])) ≡ length chunk = ground (
          arith,
          lacking_lem,
          size,
          length-append chunk zs,
          length-append pre (chunk ++ []),
          length-append chunk [],
        ) in
        rw (few, (Reads-chars chunk).whole pre [], insert_bytes, ◌>>=◌) refl

    fill_part :
        later ≡ zs ++ ltv_packets qs → Progress (p ∷ qs) (chunk ++ []) later (filled (chunk ++ []))
    fill_part e =
        let whole : packet_bytes p ≡ (got ++ chunk) ++ zs =
          own ∙ (ap (λ l. got ++ l) cut ∙ sym (append_assoc got chunk zs)) in
        let size = ap length whole in
        let partial : is_full longer ≡ false =
          ground (arith, size, length-packet_bytes p, length-append (got ++ chunk) zs) in
        rw (inserted_part, partial, ◌>>=◌, deliver)
          (further chunk (p ∷ qs) [] later _ (
            ih longer (p ∷ qs) (pre ++ chunk) [] later fits (omega arith)
              (within p qs (got ++ chunk) zs refl whole more refl e)))

  pub fill :
      (chunk later : List ℕ)
      → length chunk ≤ suc fuel
      → chunk ++ later ≡ lacks ++ ltv_packets qs
      → Progress (p ∷ qs) chunk later (filled chunk)
  fill chunk later h e = elim (append-cases chunk later lacks (ltv_packets qs) e) [
    | inl (zs, a, b) ↦
        subst (λ c. Progress (p ∷ qs) c later (filled c)) (sym a)
          (fill_full zs later (subst (λ c. length c ≤ suc fuel) a h) b)
    | inr (zs, a, more, b) ↦
        subst (λ c. Progress (p ∷ qs) c later (filled c)) (append-nil chunk)
          (fill_part chunk zs later a more b)
  ]

-- ===== src/Reduce/Gather.antt =====
-- The allgather: a chunk that is complete goes round the ring, and every rank makes the same of it.
use pccl.Common.{
  ℕ, zero, suc, ◌+◌, ◌-◌, ◌%◌, ◌<◌, ◌≤◌, ◌≡◌, refl, ap, sym, ◌∙◌, subst, true, false, Option, none,
  some, ◌==◌, nat_eq, nat_beq_iff, ltb, leb, arith, Bool-cases, inl, inr,
}
use pccl.Reduce.{
  Kernels, raw, encoded, Local, rx_peer_idx, payload, received, settle_first, settle_owned, forward,
  gather_tx, keep_data, gather_stage, allgather, reduce_scatter, begin_reduce, begin_gather,
  pipeline_ring_reduce,
}
use pccl.Reduce.Modular.{back, forth, mod_back, mod_forth, rx_peer_idx_lem, prev_small}
use pccl.Reduce.Scatter.{accumulated, sent_value, reduce_scatter_lem}

module _ {A Q : Type 0} (k : Kernels A Q) (n : ℕ) (src : ℕ → ℕ → A) where
  -- A chunk that all ranks have reduced, and what each of them makes of it.
  abbrev pub complete : ℕ → A
  complete c = accumulated k n src c (n - 1)

  abbrev pub agreed : ℕ → A
  agreed c = sent_value k n src (complete c)

  -- What a send of forwarded data carries off is the data, where there is a quantization.
  module _ (carried : ℕ → ℕ → Q → Q)
      (intact : k.is_quantized ≡ true → (step rank : ℕ) (q : Q) → carried step rank q ≡ q) where
    -- The chunk that a rank sends in a step, and how far behind the one that it owned a chunk is.
    abbrev current : ℕ → ℕ → ℕ
    current r s = back n (forth n r 1) s

    abbrev behind : ℕ → ℕ → ℕ
    behind r c = back n (forth n r 1) c

    -- A rank before a step: it is about to send a complete chunk, and those that it had are settled.
    record Ready (s r : ℕ) (l : Local A Q) : Type 0 where
      at_chunk : l.current_chunk_idx ≡ current r s
      sends : gather_tx k n carried s r l ≡ payload k n (complete (current r s))
      settled : (c : ℕ) → c < n → behind r c ≤ s → (settle_owned k n l).chunks c ≡ agreed c

    module _ (s r : ℕ) (hr : r < n) (hs : s + 1 < n) where
      next_chunk : (current r s + n - 1) % n ≡ current r (s + 1)
      next_chunk =
          let small : current r s < n = ground arith in
          mod_back n (current r s) 1 small (omega arith) ∙ ground arith

      prev_chunk : current (back n r 1) s ≡ current r (s + 1)
      prev_chunk = ground arith

      next_small : current r (s + 1) < n
      next_small = ground arith

      older :
          (c : ℕ) → c < n → behind r c ≤ s + 1 → (c == current r (s + 1)) ≡ false → behind r c ≤ s
      older c hc h e = ground (arith, e)

    -- The two modes, with and without a quantization.
    payload_raw : (a : A) → k.is_quantized ≡ false → payload k n a ≡ raw a
    payload_raw a e = rw e refl

    payload_encoded : (a : A) → k.is_quantized ≡ true → payload k n a ≡ encoded (k.quantize a)
    payload_encoded a e = rw e refl

    tx_raw :
        (s r : ℕ) (l : Local A Q)
        → k.is_quantized ≡ false
        → gather_tx k n carried s r l ≡ raw (l.chunks l.current_chunk_idx)
    tx_raw s r l e = rw e refl

    tx_encoded :
        (s r : ℕ) (l : Local A Q)
        → k.is_quantized ≡ true
        → gather_tx k n carried s r l
          ≡ forward k n carried s r l.owned_data (l.chunks l.current_chunk_idx)
    tx_encoded s r l e = rw e refl

    settle_raw : (l : Local A Q) → k.is_quantized ≡ false → settle_owned k n l ≡ l
    settle_raw l e = rw e refl

    settle_encoded :
        (l : Local A Q)
        → k.is_quantized ≡ true
        → settle_owned k n l ≡ settle_first k n l.owned_data l
    settle_encoded l e = rw e refl

    settle_first-current :
        (o : Option Q) (l : Local A Q)
        → (settle_first k n o l).current_chunk_idx ≡ l.current_chunk_idx
    settle_first-current none l = refl
    settle_first-current (some q) l = refl

    settle-current : (l : Local A Q) → (settle_owned k n l).current_chunk_idx ≡ l.current_chunk_idx
    settle-current l = elim (Bool-cases k.is_quantized) [
      | inl e ↦
          ap (λ m. m.current_chunk_idx) (settle_encoded l e) ∙ settle_first-current l.owned_data l
      | inr e ↦ ap (λ m. m.current_chunk_idx) (settle_raw l e)
    ]

    -- A rank that has received a complete chunk and sends it on.
    passes_on :
        (s r i : ℕ) (l : Local A Q)
        → l.current_chunk_idx ≡ i
        → l.chunks i ≡ agreed i
        → l.owned_data ≡ keep_data k n (payload k n (complete i))
        → (gather_tx k n carried s r l ≡ payload k n (complete i)) × (settle_owned k n l ≡ l)
    passes_on s r i l at_chunk have kept = elim (Bool-cases k.is_quantized) [
      | inl e ↦
          let owned : l.owned_data ≡ some (k.quantize (complete i)) =
            kept ∙ ap (keep_data k n) (payload_encoded (complete i) e) in
          (
            tx_encoded s r l e
                ∙ (ap (λ o. forward k n carried s r o (l.chunks l.current_chunk_idx)) owned
                    ∙ (ap encoded (intact e s r (k.quantize (complete i)))
                        ∙ sym (payload_encoded (complete i) e))),
            settle_encoded l e ∙ ap (λ o. settle_first k n o l) owned,
          )
      | inr e ↦
          let plain : agreed i ≡ complete i = ap (received k n) (payload_raw (complete i) e) in
          (
            tx_raw s r l e
                ∙ (ap (λ j. raw (l.chunks j)) at_chunk
                    ∙ (ap raw (have ∙ plain) ∙ sym (payload_raw (complete i) e))),
            settle_raw l e,
          )
    ]

    -- One stage.
    module _ (w : ℕ → Local A Q) (s r : ℕ) (hr : r < n) (hs : s + 1 < n)
        (ready : (i : ℕ) → i < n → Ready s i (w i)) where
      arrives :
          gather_tx k n carried s (rx_peer_idx n r) (w (rx_peer_idx n r))
          ≡ payload k n (complete (current r (s + 1)))
      arrives =
          ap (λ i. gather_tx k n carried s i (w i)) (rx_peer_idx_lem n r s hr hs)
          ∙ ((ready (back n r 1) (prev_small n r s hr hs)).sends
              ∙ ap (λ i. payload k n (complete i)) (prev_chunk s r hr hs))

      moves : ((settle_owned k n (w r)).current_chunk_idx + n - 1) % n ≡ current r (s + 1)
      moves =
          ap (λ i. (i + n - 1) % n) (settle-current (w r) ∙ (ready r hr).at_chunk)
          ∙ next_chunk s r hr hs

      gathered :
          (c : ℕ)
          → c < n
          → behind r c ≤ s + 1
          → (gather_stage k n carried s w r).chunks c ≡ agreed c
      gathered c hc h = elim (Bool-cases (c == current r (s + 1))) [
        | inl hit ↦
            rw (moves, arrives, hit) (ap agreed (sym ((nat_beq_iff c (current r (s + 1))).0 hit)))
        | inr other ↦
            rw (moves, arrives, other) ((ready r hr).settled c hc (older s r hr hs c hc h other))
      ]

      next_Ready : Ready (s + 1) r (gather_stage k n carried s w r)
      next_Ready =
          let i = current r (s + 1) in
          let l = gather_stage k n carried s w r in
          let here : behind r i ≤ s + 1 = ground arith in
          let has_it = gathered i (next_small s r hr hs) here in
          let kept : l.owned_data ≡ keep_data k n (payload k n (complete i)) =
            ap (keep_data k n) arrives in
          let (sends, stays) = passes_on (s + 1) r i l moves has_it kept in
          record {
            at_chunk = moves;
            sends = sends;
            settled = λ c hc h. ap (λ m. m.chunks c) stays ∙ gathered c hc h;
          }

    module _ (h2 : 2 ≤ n) where
      abbrev scattered : ℕ → Local A Q
      scattered = reduce_scatter k n (n - 1) (begin_reduce k n src)

      owns : (r : ℕ) → r < n → (scattered r).chunks (current r 0) ≡ complete (current r 0)
      owns r hr =
          let small : current r 0 < n = ground arith in
          let whole : back n r (current r 0) ≡ n - 1 = ground arith in
          let due : leb (n - 1) (n - 1) ≡ true = ground arith in
          reduce_scatter_lem k n src (n - 1) r (current r 0) (omega arith) hr small
          ∙ rw (whole, due) refl

      start_Ready : (r : ℕ) → r < n → Ready 0 r (begin_gather k n scattered r)
      start_Ready r hr =
          let l = begin_gather k n scattered r in
          let i = current r 0 in
          let at_i : (r + 1) % n ≡ i = mod_forth n r 1 hr (omega arith) ∙ ground arith in
          let has_it : l.chunks l.current_chunk_idx ≡ complete i =
            ap (scattered r).chunks at_i ∙ owns r hr in
          let only : (c : ℕ) → c < n → behind r c ≤ 0 → c ≡ (r + 1) % n =
            λ c hc h. ground (arith, at_i) in
          elim (Bool-cases k.is_quantized) [
            | inl e ↦ record {
              at_chunk = at_i;
              sends =
                  tx_encoded 0 r l e
                  ∙ (ap (λ a. encoded (k.quantize a)) has_it
                      ∙ sym (payload_encoded (complete i) e));
              settled = λ c hc h.
                  let same = only c hc h in
                  let hit = (nat_beq_iff c ((r + 1) % n)).1 same in
                  let mine = ap (received k n) (payload_encoded (complete i) e) in
                  ap (λ m. m.chunks c) (settle_encoded l e)
                  ∙ (rw hit (ap (λ a. k.dequantize (k.quantize a)) has_it)
                      ∙ (sym mine ∙ ap agreed (sym (same ∙ at_i))));
            }
            | inr e ↦ record {
              at_chunk = at_i;
              sends = tx_raw 0 r l e ∙ (ap raw has_it ∙ sym (payload_raw (complete i) e));
              settled = λ c hc h.
                  let same = only c hc h in
                  let mine = ap (received k n) (payload_raw (complete i) e) in
                  ap (λ m. m.chunks c) (settle_raw l e)
                  ∙ (ap (scattered r).chunks same
                      ∙ (has_it ∙ (sym mine ∙ ap agreed (sym (same ∙ at_i)))));
            }
          ]

      all_Ready :
          (s : ℕ)
          → s + 1 < n
          → (r : ℕ) → r < n
          → Ready s r (allgather k n carried s (begin_gather k n scattered) r)
      unfolding allgather
      all_Ready zero hs r hr = start_Ready r hr
      all_Ready (suc s) hs r hr =
          let step : s + 1 ≡ suc s = omega arith in
          subst
            (λ t.
              Ready t r (
                gather_stage k n carried s (allgather k n carried s (begin_gather k n scattered))
                  r))
            step
            (next_Ready (allgather k n carried s (begin_gather k n scattered)) s r hr (omega arith)
              (all_Ready s (omega arith)))

      -- With two ranks or more, of which no stage fails, any kernels, and, where there is a
      -- quantization, each send of quantized data that is passed on carrying off the data as it is
      -- before the step, although the step receives into the same memory: at the end every rank
      -- has the same value of a chunk. It is the one that the rank of the chunk's number begins
      -- with, that each of the others along the ring reduces in turn into its own what it
      -- receives, and that the last one sends to all, finalized; what is sent is quantized and
      -- dequantized where there is a quantization.
      pub pipeline_ring_reduce-agreed :
          (r c : ℕ)
          → r < n
          → c < n
          → pipeline_ring_reduce k n carried src r c ≡ k.finalize n (agreed c)
      unfolding pipeline_ring_reduce allgather
      pipeline_ring_reduce-agreed r c hr hc =
          let many : ltb n 2 ≡ false = ground arith in
          let last : n - 1 ≡ suc (n - 2) = omega arith in
          let w = allgather k n carried (n - 2) (begin_gather k n scattered) in
          rw many (
            ap (k.finalize n) (
              ap (λ m. (allgather k n carried m (begin_gather k n scattered) r).chunks c) last
              ∙ gathered w (n - 2) r hr (omega arith) (all_Ready (n - 2) (omega arith)) c hc
                  (ground arith)))

-- ===== src/Reduce/Scatter.antt =====
-- The reduce-scatter: after s steps, a rank's chunk has been reduced by as many ranks as it has passed.
use pccl.Common.{
  ℕ, zero, suc, ◌+◌, ◌%◌, ◌<◌, ◌≡◌, refl, ap, sym, ◌∙◌, true, false, if◌then◌else◌, ◌==◌, nat_eq,
  nat_beq_iff, leb, arith, Bool-cases, inl, inr,
}
use mathlib.Core.Bool.{true≢false}
use pccl.Reduce.{Kernels, Local, payload, received, reduce_stage, reduce_scatter, begin_reduce}
use pccl.Reduce.Modular.{
  back, mod_forth, rx_peer_idx_lem, rx_chunk_idx_lem, tx-rx, back-back, back_prev, forth-back,
  back_small, prev_small, back-inverse,
}

module _ {A Q : Type 0} (k : Kernels A Q) (n : ℕ) (src : ℕ → ℕ → A) where
  -- What a chunk is after it was sent.
  abbrev pub sent_value : A → A
  sent_value a = received k n (payload k n a)

  -- Chunk c after j ranks have reduced it, from the rank c on along the ring.
  unfoldable pub accumulated : ℕ → ℕ → A
  accumulated c zero = src c c
  accumulated c (suc j) = k.reduce (src ((c + suc j) % n) c) (sent_value (accumulated c j))

  abbrev pub chunk_after : ℕ → ℕ → ℕ → A
  chunk_after s r c = if leb (back n r c) s then accumulated c (back n r c) else src r c

  module _ (s r : ℕ) (hr : r < n) (hs : s + 1 < n) where
    -- The chunk that is received, and the rank from which it comes.
    abbrev incoming : ℕ
    incoming = back n r (s + 1)

    abbrev prev : ℕ
    prev = back n r 1

    fresh_chunk : chunk_after s r incoming ≡ src r incoming
    fresh_chunk =
        let late : leb (back n r incoming) s ≡ false = ground (arith, back-back n r s hr hs) in
        rw late refl

    sent_chunk : chunk_after s prev incoming ≡ accumulated incoming s
    sent_chunk = let due : leb s s ≡ true = ground arith in rw (back_prev n r s hr hs, due) refl

    reached : (incoming + suc s) % n ≡ r
    reached =
        let step : suc s ≡ s + 1 = omega arith in
        ap (λ x. (incoming + x) % n) step
        ∙ (mod_forth n incoming (s + 1) (back_small n r s hr hs) (omega arith)
            ∙ forth-back n r s hr hs)

    own_chunk : chunk_after (suc s) r incoming ≡ accumulated incoming (suc s)
    own_chunk =
        let step : back n r incoming ≡ suc s = back-back n r s hr hs ∙ omega arith in
        let due : leb (suc s) (suc s) ≡ true = ground arith in rw (step, due) refl

    reduced :
        k.reduce (src r incoming) (sent_value (accumulated incoming s))
        ≡ accumulated incoming (suc s)
    unfolding accumulated
    reduced =
        ap (λ i. k.reduce (src i incoming) (sent_value (accumulated incoming s))) (sym reached)

    other_chunk :
        (c : ℕ) → c < n → (c == incoming) ≡ false → chunk_after s r c ≡ chunk_after (suc s) r c
    other_chunk c hc e =
        let same : leb (back n r c) s ≡ leb (back n r c) (suc s) =
          elim (Bool-cases (back n r c == s + 1)) [
            | inl hit ↦
                absurd
                  (miss (back-inverse n r c s hr hc hs ((nat_beq_iff (back n r c) (s + 1)).0 hit)))
            | inr away ↦ ground (arith, away)
          ] in
        rw same refl
      where
        miss : c ≡ incoming → ⊥
        miss same = true≢false (sym ((nat_beq_iff c incoming).1 same) ∙ e)

    -- One stage, from the chunks that stand after the stages before it.
    stage :
        (w : ℕ → Local A Q) (c : ℕ)
        → c < n
        → ((i j : ℕ) → i < n → j < n → (w i).chunks j ≡ chunk_after s i j)
        → (reduce_stage k n s w r).chunks c ≡ chunk_after (suc s) r c
    stage w c hc before =
        let in_ring = back_small n r s hr hs in
        let mine = before r incoming hr in_ring ∙ fresh_chunk in
        let theirs = before prev incoming (prev_small n r s hr hs) in_ring ∙ sent_chunk in
        rw (tx-rx n r s hr hs, rx_chunk_idx_lem n r s hr hs, rx_peer_idx_lem n r s hr hs)
          (elim (Bool-cases (c == incoming)) [
            | inl hit ↦
                rw (hit, mine, theirs, (nat_beq_iff c incoming).0 hit) (reduced ∙ sym own_chunk)
            | inr other ↦ rw other (before r c hr hc ∙ other_chunk c hc other)
          ])

  pub reduce_scatter_lem :
      (s r c : ℕ)
      → s < n
      → r < n
      → c < n
      → (reduce_scatter k n s (begin_reduce k n src) r).chunks c ≡ chunk_after s r c
  unfolding reduce_scatter accumulated
  reduce_scatter_lem zero r c hs hr hc = elim (Bool-cases (leb (back n r c) 0)) [
    | inl own ↦
        let same : r ≡ c = ground (arith, own) in
        let here : back n r c ≡ 0 = ground (arith, own) in rw here (ap (λ i. src i c) same)
    | inr other ↦ rw other refl
  ]
  reduce_scatter_lem (suc s) r c hs hr hc =
      stage s r hr (omega arith) (reduce_scatter k n s (begin_reduce k n src)) c hc
        (λ i j hi hj. reduce_scatter_lem s i j (omega arith) hi hj)

-- ===== src/Reduce/Modular.antt =====
-- The ring's arithmetic, by cases.
use pccl.Common.{
  ℕ, ◌+◌, ◌-◌, ◌%◌, ◌<◌, ◌≤◌, ◌≡◌, ap, sym, ◌∙◌, if◌then◌else◌, nat_eq, ltb, leb, arith, Bool-cases,
  inl, inr,
}
use native.Mathlib.Nat.{mod-eq_of_lt, add-mod_right}
use pccl.Reduce.{rx_peer_idx, tx_chunk_idx, rx_chunk_idx}

-- a - b around a ring of n.
abbrev pub back : ℕ → ℕ → ℕ → ℕ
back n a b = if leb b a then a - b else a + n - b

pub mod_back : (n a b : ℕ) → a < n → b ≤ n → (a + n - b) % n ≡ back n a b
mod_back n a b h k = elim (Bool-cases (leb b a)) [
  | inr more ↦ let small : a + n - b < n = ground (arith, more) in rw more (mod-eq_of_lt small)
  | inl less ↦
      let moved : a + n - b ≡ (a - b) + n = ground (arith, less) in
      let small : a - b < n = omega arith in
      rw (less, moved) (add-mod_right (a - b) n ∙ mod-eq_of_lt small)
]

-- a + b around a ring of n.
abbrev pub forth : ℕ → ℕ → ℕ → ℕ
forth n a b = if ltb (a + b) n then a + b else a + b - n

pub mod_forth : (n a b : ℕ) → a < n → b ≤ n → (a + b) % n ≡ forth n a b
mod_forth n a b h k = elim (Bool-cases (ltb (a + b) n)) [
  | inl less ↦ let small : a + b < n = ground (arith, less) in rw less (mod-eq_of_lt small)
  | inr more ↦
      let moved : a + b ≡ (a + b - n) + n = ground (arith, more) in
      let small : a + b - n < n = ground (arith, more) in
      rw more (ap (λ x. x % n) moved ∙ (add-mod_right (a + b - n) n ∙ mod-eq_of_lt small))
]

module _ (n r s : ℕ) (hr : r < n) (hs : s + 1 < n) where
  pub rx_peer_idx_lem : rx_peer_idx n r ≡ back n r 1
  rx_peer_idx_lem = mod_back n r 1 hr (omega arith)

  pub rx_chunk_idx_lem : rx_chunk_idx n r s ≡ back n r (s + 1)
  rx_chunk_idx_lem =
      let same : r + n - s - 1 ≡ r + n - (s + 1) = omega arith in
      ap (λ x. x % n) same ∙ mod_back n r (s + 1) hr (omega arith)

  -- What the previous rank sends is what this rank expects.
  pub tx-rx : tx_chunk_idx n (rx_peer_idx n r) s ≡ rx_chunk_idx n r s
  tx-rx =
      let prev = rx_peer_idx_lem in
      let below : back n r 1 < n = ground arith in
      ap (λ p. (p + n - s) % n) prev
      ∙ (mod_back n (back n r 1) s below (omega arith) ∙ (back_back ∙ sym rx_chunk_idx_lem))
    where
      back_back : back n (back n r 1) s ≡ back n r (s + 1)
      back_back = ground arith

  pub back-back : back n r (back n r (s + 1)) ≡ s + 1
  back-back = ground arith

  pub back_prev : back n (back n r 1) (back n r (s + 1)) ≡ s
  back_prev = ground arith

  pub forth-back : forth n (back n r (s + 1)) (s + 1) ≡ r
  forth-back = ground arith

  pub back_small : back n r (s + 1) < n
  back_small = ground arith

  pub prev_small : back n r 1 < n
  prev_small = ground arith

pub back-inverse :
    (n r c s : ℕ) → r < n → c < n → s + 1 < n → back n r c ≡ s + 1 → c ≡ back n r (s + 1)
back-inverse n r c s hr hc hs e = ground arith

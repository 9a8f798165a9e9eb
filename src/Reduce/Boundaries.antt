-- ===== src/Reduce/Boundaries.antt =====
-- The chunks of a buffer: they follow one another without a gap, and their sizes differ by one at most.
use pccl.Common.{
  ℕ, zero, suc, ◌+◌, ◌-◌, ◌*◌, ◌/◌, ◌%◌, ◌<◌, ◌≤◌, ◌≡◌, refl, ap, subst, List, [], ◌∷◌,
  if◌then◌else◌, ltb, length, arith, ◌⊎◌, inl, inr, Bool-cases,
}
use native.Mathlib.Nat.{div-add-mod, mod-lt}
use pccl.Reduce.{chunk_boundaries_from, compute_chunk_boundaries}

-- From a on, up to b, in pieces of the size or one more.
abbrev pub Tiles : ℕ → ℕ → ℕ → List (ℕ × ℕ) → Type 0
Tiles size a b [] = a ≡ b
Tiles size a b ((start, end) ∷ rest) =
    (start ≡ a) × ((end ≡ start + size) ⊎ (end ≡ start + size + 1)) × Tiles size end b rest

-- How many of the k chunks from r on have one element more.
abbrev longer : ℕ → ℕ → ℕ → ℕ
longer zero remainder r = 0
longer (suc k) remainder r = (if ltb r remainder then 1 else 0) + longer k remainder (suc r)

longer_none : (k remainder r : ℕ) → remainder ≤ r → longer k remainder r ≡ 0
longer_none zero remainder r h = refl
longer_none (suc k) remainder r h = ground (arith, longer_none k remainder (suc r) (omega arith))

longer_all :
    (k remainder r : ℕ) → r ≤ remainder → remainder ≤ r + k → longer k remainder r ≡ remainder - r
longer_all zero remainder r h m = omega arith
longer_all (suc k) remainder r h m = elim (Bool-cases (ltb r remainder)) [
  | inl less ↦
      let rest = longer_all k remainder (suc r) (ground (arith, less)) (omega arith) in
      rw less (ground (arith, rest, less))
  | inr more ↦
      let rest = longer_none k remainder (suc r) (ground (arith, more)) in
      rw more (ground (arith, rest, more))
]

total_step : (k base : ℕ) → suc k * base ≡ base + k * base
total_step k base = omega arith

from-Tiles :
    (k base remainder r a : ℕ)
    → Tiles base a
        (a + (k * base + longer k remainder r))
        (chunk_boundaries_from k base remainder r a)
unfolding chunk_boundaries_from
from-Tiles zero base remainder r a = omega arith
from-Tiles (suc k) base remainder r a =
    let size = base + (if ltb r remainder then 1 else 0) in
    let rest = from-Tiles k base remainder (suc r) (a + size) in
    let same : (a + size) + (k * base + longer k remainder (suc r))
        ≡ a + (suc k * base + longer (suc k) remainder r) =
      omega (arith, total_step k base) in
    (
      refl,
      elim (Bool-cases (ltb r remainder)) [
        | inl less ↦ inr (rw less (omega arith))
        | inr more ↦ inl (rw more (omega arith))
      ],
      subst
          (λ b. Tiles base (a + size) b (chunk_boundaries_from k base remainder (suc r) (a + size)))
          same rest,
    )

length-from : (k base remainder r a : ℕ) → length (chunk_boundaries_from k base remainder r a) ≡ k
unfolding chunk_boundaries_from
length-from zero base remainder r a = refl
length-from (suc k) base remainder r a = ap suc (length-from k base remainder (suc r) _)

-- With one rank or more, there are as many chunks as ranks, each begins where the one before it
-- ends, the first at 0, the last ends with the buffer, and each has the quotient of elements and
-- ranks as its size, or one more.
pub compute_chunk_boundaries-Tiles :
    (total_el world_size : ℕ)
    → 0 < world_size
    → Tiles (total_el / world_size) 0 total_el (compute_chunk_boundaries total_el world_size)
      × (length (compute_chunk_boundaries total_el world_size) ≡ world_size)
unfolding compute_chunk_boundaries
compute_chunk_boundaries-Tiles total n h =
    let base = total / n in
    let remainder = total % n in
    let small : remainder < n = mod-lt total h in
    let extra = longer_all n remainder 0 (omega arith) (omega arith) in
    let whole : 0 + (n * base + longer n remainder 0) ≡ total =
      omega (arith, extra, div-add-mod total n) in
    (
      subst (λ b. Tiles base 0 b (chunk_boundaries_from n base remainder 0 0)) whole
          (from-Tiles n base remainder 0 0),
      length-from n base remainder 0 0,
    )

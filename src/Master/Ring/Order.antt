-- ===== src/Master/Ring/Order.antt =====
-- The order in which `buildBasicRingTopology` sorts.
use native.Mathlib.Nat.{
  add-mul-mod_self_left, mod-eq_of_lt, mod-lt, div-add-mod, pow-suc, add_comm, mul-le-mul_left,
}
use mathlib.Core.List.{Perm}
use mathlib.Core.List.Perm
use pccl.Common.{
  ℕ, zero, suc, ◌+◌, ◌*◌, ◌/◌, ◌%◌, ◌^◌, ◌-◌, ◌≤◌, ◌<◌, ◌≡◌, ap, sym, ◌∙◌, Bool, List, [], ◌∷◌,
  if◌then◌else◌, ◌==◌, nat_eq, ltb, arith, Bool-cases, inl, inr, All,
}
use pccl.Master.State.{MasterState}
use pccl.Master.Ring.{
  less_from, uuid_less, sort_insert, sort, eligible_peers, build_basic_ring_topology,
}

below_digit : (q x y : ℕ) → x < y → q * x + q ≤ q * y
below_digit q x y h = omega (arith, mul-le-mul_left q h)

-- The quotient's last digit in base 256 and the remainder.
digit_split : (a q : ℕ) → 0 < q → a % (q * 256) ≡ q * (a / q % 256) + a % q
digit_split a q h =
    let d = a / q in
    let whole : q * 256 * (d / 256) + (q * (d % 256) + a % q) ≡ a =
      omega (arith, div-add-mod a q, ap (λ (t : ℕ). q * t) (div-add-mod d 256)) in
    let small : q * (d % 256) + a % q < q * 256 =
      omega (arith, mod-lt a h, below_digit q (d % 256) 256 (omega arith)) in
    ap (λ (n : ℕ). n % (q * 256))
      (sym whole ∙ add_comm (q * 256 * (d / 256)) (q * (d % 256) + a % q))
    ∙ add-mul-mod_self_left (q * (d % 256) + a % q) (q * 256) (d / 256)
    ∙ mod-eq_of_lt small

digit_less :
    (q x y r t : ℕ)
    → r < q
    → t < q
    → ltb (q * x + r) (q * y + t) ≡ (if x == y then ltb r t else ltb x y)
digit_less q x y r t hr ht = ground (arith, below_digit q x y, below_digit q y x)

base_pos : (k : ℕ) → 0 < 256 ^ k
base_pos zero = omega arith
base_pos (suc k) = omega (arith, base_pos k, pow-suc 256 k)

less_from-ltb : (k a b : ℕ) → k ≤ 16 → less_from k a b ≡ ltb (a % 256 ^ k) (b % 256 ^ k)
unfolding less_from
less_from-ltb zero a b h = ground arith
less_from-ltb (suc k) a b h =
    let place : 15 - (15 - k) ≡ k = omega arith in
    let q = 256 ^ k in
    rw (
      place,
      less_from-ltb k a b (omega arith),
      pow-suc 256 k,
      digit_split a q (base_pos k),
      digit_split b q (base_pos k),
      digit_less q (a / q % 256) (b / q % 256) (a % q) (b % q) (mod-lt a (base_pos k))
          (mod-lt b (base_pos k)),
    )

-- On uuids of 16 bytes, the comparison byte by byte is the order of the numbers that they spell.
pub uuid_less-ltb : (a b : ℕ) → a < 256 ^ 16 → b < 256 ^ 16 → uuid_less a b ≡ ltb a b
unfolding uuid_less
uuid_less-ltb a b ha hb = rw (less_from-ltb 16 a b (omega arith), mod-eq_of_lt ha, mod-eq_of_lt hb)

abbrev pub IsAscending : List ℕ → Type 0
IsAscending [] = Unit
IsAscending (x ∷ xs) = All (λ y. x ≤ y) xs × IsAscending xs

abbrev pub AreUuids : List ℕ → Type 0
AreUuids = All (λ u. u < 256 ^ 16)

module _ (less : ℕ → ℕ → Bool) where
  sort_insert-perm : (x : ℕ) (ys : List ℕ) → Perm (sort_insert less x ys) (x ∷ ys)
  unfolding sort_insert
  sort_insert-perm x [] = Perm.refl _
  sort_insert-perm x (y ∷ ys) = elim (Bool-cases (less y x)) [
    | inl e ↦ rw e (Perm.trans (Perm.cons y (sort_insert-perm x ys)) (Perm.swap x y ys))
    | inr e ↦ rw e (Perm.refl _)
  ]

  sort-perm : (xs : List ℕ) → Perm (sort less xs) xs
  unfolding sort
  sort-perm [] = Perm.refl _
  sort-perm (x ∷ xs) = Perm.trans (sort_insert-perm x (sort less xs)) (Perm.cons x (sort-perm xs))

sort_insert-All :
    (P : ℕ → Type 0) (less : ℕ → ℕ → Bool) (x : ℕ) (ys : List ℕ)
    → P x
    → All P ys
    → All P (sort_insert less x ys)
unfolding sort_insert
sort_insert-All P less x [] p a = (p, tt)
sort_insert-All P less x (y ∷ ys) p a = elim (Bool-cases (less y x)) [
  | inl e ↦ rw e (a.0, sort_insert-All P less x ys p a.1)
  | inr e ↦ rw e (p, a)
]

All-le_trans : (x y : ℕ) (ys : List ℕ) → x ≤ y → All (λ z. y ≤ z) ys → All (λ z. x ≤ z) ys
All-le_trans x y [] h a = tt
All-le_trans x y (z ∷ zs) h a = (omega arith, All-le_trans x y zs h a.1)

sort_insert-IsAscending :
    (x : ℕ) (ys : List ℕ)
    → x < 256 ^ 16
    → AreUuids ys
    → IsAscending ys
    → IsAscending (sort_insert uuid_less x ys)
unfolding sort_insert
sort_insert-IsAscending x [] hx hy a = (tt, tt)
sort_insert-IsAscending x (y ∷ ys) hx hy a = elim (Bool-cases (uuid_less y x)) [
  | inl e ↦ rw e (
    sort_insert-All (λ z. y ≤ z) uuid_less x ys (ground (arith, uuid_less-ltb y x hy.0 hx)) a.0,
    sort_insert-IsAscending x ys hx hy.1 a.1,
  )
  | inr e ↦
      let le : x ≤ y = ground (arith, uuid_less-ltb y x hy.0 hx) in
      rw e ((le, All-le_trans x y ys le a.0), a)
]

sort-IsAscending :
    (xs : List ℕ) → AreUuids xs → AreUuids (sort uuid_less xs) × IsAscending (sort uuid_less xs)
unfolding sort
sort-IsAscending [] h = (tt, tt)
sort-IsAscending (x ∷ xs) h =
    let (us, asc) = sort-IsAscending xs h.1 in
    (
      sort_insert-All (λ z. z < 256 ^ 16) uuid_less x (sort uuid_less xs) h.0 us,
      sort_insert-IsAscending x (sort uuid_less xs) h.0 us asc,
    )

-- If the eligible peers' uuids have 16 bytes, the basic ring is a permutation of the eligible
-- peers in ascending order.
pub build_basic_ring_topology-IsAscending :
    (g : ℕ) (s : MasterState)
    → AreUuids (eligible_peers g s)
    → Perm (build_basic_ring_topology g s) (eligible_peers g s)
      × IsAscending (build_basic_ring_topology g s)
unfolding build_basic_ring_topology
build_basic_ring_topology-IsAscending g s h =
    (sort-perm uuid_less (eligible_peers g s), (sort-IsAscending (eligible_peers g s) h).1)

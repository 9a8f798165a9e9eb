-- ===== src/PacketBuffer/Integers.antt =====
-- Integers in big-endian order, byte by byte.
use pccl.Common.{ℕ, zero, suc, ◌+◌, ◌*◌, ◌/◌, ◌%◌, ◌<◌, ◌≡◌, refl, ap, ◌∙◌, length, All, arith}
use native.Mathlib.Nat.{mul-add-mod_self_left, mod-eq_of_lt}
use pccl.PacketBuffer.{weight, write_integral, number_from}

pub weight-pos : (k : ℕ) → 0 < weight k
weight-pos zero = omega arith
weight-pos (suc k) = omega (arith, weight-pos k)

-- The lowest byte of the quotient, and the rest below it.
pub weight-split : (v w : ℕ) → 0 < w → v % (256 * w) ≡ (v / w) % 256 * w + v % w
weight-split v w h =
    let q = v / w in
    let x = q % 256 * w + v % w in
    let whole : v ≡ 256 * w * (q / 256) + x = grind (arith, ap (λ (t : ℕ). t * w) (div-mod q)) in
    let low : x < 256 * w = grind arith in
    ap (λ (t : ℕ). t % (256 * w)) whole
    ∙ (mul-add-mod_self_left (256 * w) (q / 256) x ∙ mod-eq_of_lt low)
  where
    div-mod : (n : ℕ) → n ≡ 256 * (n / 256) + n % 256
    div-mod n = omega arith

pub length-write_integral : (k v : ℕ) → length (write_integral k v) ≡ k
unfolding write_integral
length-write_integral zero v = refl
length-write_integral (suc k) v = omega (arith, length-write_integral k v)

pub write_integral-bytes : (k v : ℕ) → All (λ b. b < 256) (write_integral k v)
unfolding write_integral
write_integral-bytes zero v = tt
write_integral-bytes (suc k) v = (omega arith, write_integral-bytes k v)

-- One more byte on the left.
pub weight-step :
    (acc k v : ℕ)
    → (acc * 256 + (v / weight k) % 256) * weight k + v % weight k
      ≡ acc * weight (suc k) + v % weight (suc k)
weight-step acc k v = grind (arith, weight-split v (weight k) (weight-pos k))

pub number_from-write_integral :
    (k acc v : ℕ) → number_from acc (write_integral k v) ≡ acc * weight k + v % weight k
unfolding number_from write_integral
number_from-write_integral zero acc v = omega arith
number_from-write_integral (suc k) acc v =
    number_from-write_integral k (acc * 256 + (v / weight k) % 256) v ∙ weight-step acc k v

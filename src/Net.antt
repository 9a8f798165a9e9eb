-- ===== src/Net.antt =====
-- Socket addresses: ccoip/public_include/ccoip_inet.h, ccoip/internal_include/ccoip_inet_utils.hpp.
use pccl.Common.{
  ℕ, ◌≡◌, ap, Bool, true, false, ◌&&◌, List, [], ◌∷◌, Eq, ◌==◌, nat_eq, ◌↔◌, arith, text_beq,
  text_beq_sound, text_beq_refl,
}

-- The protocol tag with the bytes that belong to it. The bytes of the other family, which the
-- struct also holds, are read by no comparison.
pub data InetAddress : Type 0 where
  ipv4 : ℕ → ℕ → ℕ → ℕ → InetAddress
  ipv6 : List ℕ → InetAddress

pub record SocketAddress : Type 0 where
  pub inet : InetAddress
  pub port : ℕ

unfoldable pub inet_beq : InetAddress → InetAddress → Bool
unfolding text_beq
inet_beq (ipv4 a b c d) (ipv4 a' b' c' d') = a == a' && (b == b' && (c == c' && d == d'))
inet_beq (ipv6 xs) (ipv6 ys) = text_beq xs ys
inet_beq _ _ = false

unfoldable pub socket_beq : SocketAddress → SocketAddress → Bool
unfolding inet_beq
socket_beq a b = inet_beq a.inet b.inet && a.port == b.port

inet_beq_sound : (a b : InetAddress) → inet_beq a b ≡ true → a ≡ b
unfolding inet_beq
inet_beq_sound (ipv4 a b c d) (ipv4 a' b' c' d') h = ground arith
inet_beq_sound (ipv4 a b c d) (ipv6 ys) h = cc
inet_beq_sound (ipv6 xs) (ipv4 a b c d) h = cc
inet_beq_sound (ipv6 xs) (ipv6 ys) h = ap ipv6 (text_beq_sound xs ys h)

inet_beq_refl : (a : InetAddress) → inet_beq a a ≡ true
unfolding inet_beq
inet_beq_refl (ipv4 a b c d) = ground arith
inet_beq_refl (ipv6 xs) = text_beq_refl xs

pub inet_beq_iff : (a b : InetAddress) → (inet_beq a b ≡ true) ↔ (a ≡ b)
inet_beq_iff a b = (inet_beq_sound a b, λ p. ground (arith, inet_beq_refl a))

pub socket_beq_iff : (a b : SocketAddress) → (socket_beq a b ≡ true) ↔ (a ≡ b)
unfolding socket_beq
socket_beq_iff a b = ground (arith, inet_beq_iff a.inet b.inet)

instance abbrev pub inet_eq : Eq InetAddress
inet_eq = record { equal = inet_beq; decides = inet_beq_iff }

instance abbrev pub socket_eq : Eq SocketAddress
socket_eq = record { equal = socket_beq; decides = socket_beq_iff }

-- The loop of `isLocalAddress` over the 16 bytes: all but the last are 0, the last is 1.
unfoldable pub is_loopback : List ℕ → Bool
is_loopback [] = false
is_loopback (x ∷ []) = x == 1
is_loopback (x ∷ y ∷ xs) = x == 0 && is_loopback (y ∷ xs)

unfoldable pub is_local_address : SocketAddress → Bool
unfolding is_loopback
is_local_address a = elim a.inet [ ipv4 b0 b1 b2 b3 ↦ b0 == 127 | ipv6 bytes ↦ is_loopback bytes ]

-- ===== src/Bandwidth/Laws.antt =====
-- What the bandwidth store returns after it was written.
use mathlib.Core.Option
use pccl.Common.{
  ℕ, ◌≡◌, refl, true, ◌&&◌, List, [], Option, some, if◌then◌else◌, ◌==◌, nat_eq, lookup, get_or,
  insert, arith, lookup-insert, get_or-lookup,
}
use pccl.Net.{InetAddress, inet_eq, inet_beq_iff}
use pccl.Bandwidth.{
  BandwidthStore, BwPeer, Row, store_bandwidth, get_bandwidth_mbps, write_cell, read_cell,
}

read-write_cell :
    (a b c d : InetAddress) (v : ℕ) (m : List (InetAddress × Row))
    → read_cell c d (write_cell a b v m) ≡ (if a == c && b == d then some v else read_cell c d m)
read-write_cell a b c d v m = ground (
  arith,
  get_or-lookup [] a m,
  inet_beq_iff a c,
  inet_beq_iff b d,
  lookup-insert b d v (get_or [] a m),
  lookup-insert a c (insert b v (get_or [] a m)) m,
)

-- The machine of a peer.
abbrev pub address_of : ℕ → BandwidthStore → Option InetAddress
address_of u s = Option.map (λ p. p.address) (lookup u s.registered_peers)

-- If all four peers are registered, a bandwidth is stored, and is then returned for every pair of
-- peers on the same two machines in the same direction; for the other pairs what was stored before
-- is returned.
pub get-store_bandwidth :
    (from to a b bw : ℕ) (p q c d : BwPeer) (s : BandwidthStore)
    → lookup from s.registered_peers ≡ some p
    → lookup to s.registered_peers ≡ some q
    → lookup a s.registered_peers ≡ some c
    → lookup b s.registered_peers ≡ some d
    → ((store_bandwidth from to bw s).1 ≡ true)
      × (get_bandwidth_mbps a b (store_bandwidth from to bw s).0 ≡ (
          if p.address == c.address && q.address == d.address
          then some bw
          else get_bandwidth_mbps a b s))
unfolding store_bandwidth get_bandwidth_mbps
get-store_bandwidth from to a b bw p q c d s ep eq ec ed =
    rw (ep, eq, store_bandwidth) rw (ec, ed, get_bandwidth_mbps)
      (refl, read-write_cell p.address q.address c.address d.address bw s.bandwidth_map)

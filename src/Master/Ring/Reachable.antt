-- ===== src/Master/Ring/Reachable.antt =====
-- `buildReachableRingTopology`: the ring, read from its last member back, is a cycle of the
-- mutually reachable peers of the group, and there is one whenever such a cycle exists.
use mathlib.Core.List.{reverse, reverse-reverse}
use pccl.Common.{
  ℕ, ◌≤◌, ◌≡◌, ◌≢◌, ap, sym, ◌∙◌, inl, inr, true, not, List, [], ◌∷◌, none, some, ◌==◌, nat_eq,
  nat_beq_iff, has, length, ◌&&◌, arith, Bool-cases, Option-cases, subst,
}
use pccl.Master.State.{MasterState}
use pccl.Master.Ring.{
  can_reach, neighbours, search_ring, ring_of, eligible_peers, build_reachable_ring_topology,
}
use pccl.Master.Ring.Search.{IsCycle, search_ring_sound, search_ring_complete, last_of}

pub has-neighbours :
    (s : MasterState) (u v : ℕ) (peers : List ℕ)
    → has v (neighbours s u peers) ≡ (not (u == v) && (can_reach s u v && has v peers))
unfolding neighbours
has-neighbours s u v [] = ground arith
has-neighbours s u v (w ∷ peers) = elim (Bool-cases (w == v)) [
  | inl same ↦
      let e : w ≡ v = (nat_beq_iff w v).0 same in ground (arith, has-neighbours s u v peers)
  | inr other ↦ ground (arith, has-neighbours s u v peers)
]

abbrev pub reaches : ℕ → MasterState → ℕ → List ℕ
reaches g s u = neighbours s u (eligible_peers g s)

ring_of_sound :
    (s : MasterState) (peers ring : List ℕ)
    → 2 ≤ length peers
    → ring_of s peers ≡ some ring
    → IsCycle (λ u. neighbours s u peers) (length peers) (reverse ring)
unfolding ring_of
ring_of_sound s [] ring h e = absurd (omega arith)
ring_of_sound s (u ∷ []) ring h e = absurd (omega arith)
ring_of_sound s (u ∷ v ∷ us) ring h e =
    elim (Option-cases (search_ring (λ x. neighbours s x (u ∷ v ∷ us)) (u ∷ v ∷ us))) [
      | inl g ↦ absurd (ground arith)
      | inr (p, g) ↦
          let same : reverse p ≡ ring = ground arith in
          let back : p ≡ reverse ring = sym (reverse-reverse p) ∙ ap reverse same in
          subst (IsCycle _ _) back (search_ring_sound _ (u ∷ v ∷ us) p g)
    ]

ring_of_complete :
    (s : MasterState) (peers : List ℕ) (x : ℕ) (p : List ℕ)
    → 2 ≤ length peers
    → IsCycle (λ u. neighbours s u peers) (length peers) (x ∷ p)
    → has (last_of x p) peers ≡ true
    → ring_of s peers ≢ none
unfolding ring_of
ring_of_complete s [] x p h c m e = absurd (omega arith)
ring_of_complete s (u ∷ []) x p h c m e = absurd (omega arith)
ring_of_complete s (u ∷ v ∷ us) x p h c m e =
    let found = search_ring_complete _ (u ∷ v ∷ us) x p c m in ground arith

-- With two eligible peers or more, a ring that is built, read backwards, is a cycle through that
-- many distinct peers, in which each peer reaches its neighbour and the last one the first.
pub build_reachable_ring_topology-IsCycle :
    (g : ℕ) (s : MasterState) (ring : List ℕ)
    → 2 ≤ length (eligible_peers g s)
    → build_reachable_ring_topology g s ≡ some ring
    → IsCycle (reaches g s) (length (eligible_peers g s)) (reverse ring)
unfolding build_reachable_ring_topology
build_reachable_ring_topology-IsCycle g s ring h e = ring_of_sound s (eligible_peers g s) ring h e

-- With two eligible peers or more, no ring is returned only if the eligible peers have no cycle
-- through all of them that ends in one of them; the fuel of the search is thus enough.
pub build_reachable_ring_topology_complete :
    (g : ℕ) (s : MasterState) (x : ℕ) (p : List ℕ)
    → 2 ≤ length (eligible_peers g s)
    → build_reachable_ring_topology g s ≡ none
    → has (last_of x p) (eligible_peers g s) ≡ true
    → ¬ IsCycle (reaches g s) (length (eligible_peers g s)) (x ∷ p)
unfolding build_reachable_ring_topology
build_reachable_ring_topology_complete g s x p h e m c =
    ring_of_complete s (eligible_peers g s) x p h c m e

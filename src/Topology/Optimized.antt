-- ===== src/Topology/Optimized.antt =====
-- The optimizer hands out the peers of the ring that it is given, in the order of the solver's tour.
use mathlib.Core.Logic.{∥∥₁_map}
use mathlib.Core.List.{Perm}
use mathlib.Core.List.{Permᴰ}
use pccl.Common.{
  ℕ, suc, ◌<◌, ◌≡◌, refl, ap, ◌∙◌, true, false, List, [], ◌∷◌, map, some, ◌==◌, nat_eq, get_or,
  get_or-insert, insert, length, Distinct, All, arith, subst,
}
use pccl.Bandwidth.{BandwidthStore, get_bandwidth_mbps}
use pccl.Topology.{inverse, peers_of, Solution, Solver, input_graph, optimize_topology}
use pccl.Topology.Nodes.{numbered, has_value, input_graph-numbered}

-- The nodes from i on, one for each peer.
abbrev pub nodes : ℕ → List ℕ → List ℕ
nodes i [] = []
nodes i (x ∷ xs) = i ∷ nodes (suc i) xs

inverse-below :
    (i k : ℕ) (xs : List ℕ) (acc : List (ℕ × ℕ))
    → k < i
    → get_or 0 k (inverse (numbered i xs) acc) ≡ get_or 0 k acc
unfolding inverse
inverse-below i k [] acc h = refl
inverse-below i k (x ∷ xs) acc h =
    inverse-below (suc i) k xs (insert i x acc) (omega arith)
    ∙ ground (arith, get_or-insert 0 i k x acc)

inverse-nodes :
    (i : ℕ) (xs : List ℕ) (acc : List (ℕ × ℕ))
    → peers_of (inverse (numbered i xs) acc) (nodes i xs) ≡ xs
unfolding inverse
inverse-nodes i [] acc = refl
inverse-nodes i (x ∷ xs) acc =
    let first : get_or 0 i (inverse (numbered (suc i) xs) (insert i x acc)) ≡ x =
      inverse-below (suc i) i xs (insert i x acc) (omega arith)
      ∙ ground (arith, get_or-insert 0 i i x acc) in
    rw first (ap (λ ys. x ∷ ys) (inverse-nodes (suc i) xs (insert i x acc)))

map-Permᴰ : {A B : Type 0} (f : A → B) {xs ys : List A} → Permᴰ xs ys → Permᴰ (map f xs) (map f ys)
map-Permᴰ f Permᴰ.nil = Permᴰ.nil
map-Permᴰ f (Permᴰ.cons e p) = Permᴰ.cons (ap f e) (map-Permᴰ f p)
map-Permᴰ f (Permᴰ.swap e d) = Permᴰ.swap (ap f e) (ap f d)
map-Permᴰ f (Permᴰ.trans p q) = Permᴰ.trans (map-Permᴰ f p) (map-Permᴰ f q)

map-Perm : {A B : Type 0} (f : A → B) {xs ys : List A} → Perm xs ys → Perm (map f xs) (map f ys)
map-Perm f {xs} {ys} p = ∥∥₁_map {B = Permᴰ (map f xs) (map f ys)} p (map-Permᴰ f)

-- If a ring of two peers or more has no peer twice, the bandwidths from its first peer to the
-- others are measured, and the solver answers with a tour that visits each node once, the
-- optimizer returns a ring of the same peers, in some order, and says of it what the solver says
-- of the tour.
pub optimize_topology-Perm :
    (solver : Solver) (cost : ℕ → ℕ) (store : BandwidthStore) (x y : ℕ) (ys : List ℕ)
    (solution : Solution)
    → Distinct (x ∷ y ∷ ys)
    → All (λ z. has_value (get_bandwidth_mbps x z store) ≡ true) (y ∷ ys)
    → solver.tsp_asymmetric_solve (input_graph cost store (x ∷ y ∷ ys)).edges ≡ some solution
    → Perm solution.tour (nodes 0 (x ∷ y ∷ ys))
    → (ring : List ℕ) × (optimize_topology solver cost store (x ∷ y ∷ ys)
        ≡ some (ring, solution.is_optimal))
      × Perm ring (x ∷ y ∷ ys)
unfolding optimize_topology
optimize_topology-Perm solver cost store x y ys solution d measured solved tour =
    let all = x ∷ y ∷ ys in
    let ids = (input_graph cost store all).peer_to_id in
    let several : (length all == 1) ≡ false = ground arith in
    let named : peers_of (inverse ids []) (nodes 0 all) ≡ all =
      ap (λ m. peers_of (inverse m []) (nodes 0 all))
        (input_graph-numbered cost store x y ys d measured)
      ∙ inverse-nodes 0 all [] in
    (
      peers_of (inverse ids []) solution.tour,
      rw (several, solved) refl,
      subst (λ l. Perm (peers_of (inverse ids []) solution.tour) l) named
          (map-Perm (λ id. get_or 0 id (inverse ids [])) tour),
    )

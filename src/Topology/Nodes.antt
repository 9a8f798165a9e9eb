-- ===== src/Topology/Nodes.antt =====
-- The nodes of the input graph are the peers in the ring's order, where the bandwidths from the first
-- peer are measured.
use pccl.Common.{
  ℕ, suc, ◌+◌, ◌≡◌, refl, sym, ap, ◌∙◌, Bool, true, false, List, [], ◌∷◌, ◌++◌, Option, none, some,
  ◌==◌, nat_eq, nat_beq_iff, has-append, ==-refl, subst, contains, insert, length, has, Distinct,
  All, arith, append_assoc, Bool-cases, Option-cases, inl, inr,
}
use mathlib.Core.Bool.{true≢false}
use pccl.Topology.{InputGraph, try_emplace, add_edge, add_edges_from, add_edges, input_graph}
use pccl.Bandwidth.{BandwidthStore, get_bandwidth_mbps}

abbrev pub numbered : ℕ → List ℕ → List (ℕ × ℕ)
numbered i [] = []
numbered i (x ∷ xs) = (x, i) ∷ numbered (suc i) xs

insert-end : (x v : ℕ) (m : List (ℕ × ℕ)) → contains x m ≡ false → insert x v m ≡ m ++ ((x, v) ∷ [])
insert-end x v [] h = refl
insert-end x v ((j, w) ∷ m) h = ground (arith, insert-end x v m)

contains-numbered : (x i : ℕ) (xs : List ℕ) → contains x (numbered i xs) ≡ has x xs
contains-numbered x i [] = refl
contains-numbered x i (y ∷ ys) = ground (arith, contains-numbered x (suc i) ys)

numbered-append :
    (i x : ℕ) (xs : List ℕ)
    → numbered i xs ++ ((x, i + length xs) ∷ []) ≡ numbered i (xs ++ (x ∷ []))
numbered-append i x [] = ap (λ n. (x, n) ∷ []) (omega arith)
numbered-append i x (y ∷ ys) =
    ap (λ m. (y, i) ∷ m)
      (ap (λ n. numbered (suc i) ys ++ ((x, n) ∷ [])) (omega arith) ∙ numbered-append (suc i) x ys)

length-numbered : (i : ℕ) (xs : List ℕ) → length (numbered i xs) ≡ length xs
length-numbered i [] = refl
length-numbered i (x ∷ xs) = omega (arith, length-numbered (suc i) xs)

-- A peer that is new gets the next node.
try_emplace-new :
    (x : ℕ) (xs : List ℕ)
    → has x xs ≡ false
    → try_emplace x (numbered 0 xs) ≡ numbered 0 (xs ++ (x ∷ []))
try_emplace-new x xs h =
    let new = contains-numbered x 0 xs ∙ h in
    rw (new, length-numbered 0 xs)
      (insert-end x (length xs) (numbered 0 xs) new
        ∙ (ap (λ n. numbered 0 xs ++ ((x, n) ∷ [])) (omega arith) ∙ numbered-append 0 x xs))

try_emplace-old : (x : ℕ) (m : List (ℕ × ℕ)) → contains x m ≡ true → try_emplace x m ≡ m
try_emplace-old x m h = rw h refl

-- The bandwidth is measured.
abbrev pub has_value : Option ℕ → Bool
has_value none = false
has_value (some bw) = true

has-end : (x : ℕ) (xs : List ℕ) (y : ℕ) → has x xs ≡ true → has x (xs ++ (y ∷ [])) ≡ true
has-end x xs y h = ground (arith, has-append x xs (y ∷ []))

has-differs : (x z : ℕ) (pre : List ℕ) → has x pre ≡ true → has z pre ≡ false → (x == z) ≡ false
has-differs x z pre a b = elim (Bool-cases (x == z)) [
  | inr e ↦ e
  | inl e ↦ absurd (true≢false (sym a ∙ (ap (λ y. has y pre) ((nat_beq_iff x z).0 e) ∙ b)))
]

-- No peer of the list stands in the other one, or twice.
abbrev pub New : List ℕ → List ℕ → Type 0
New pre [] = Unit
New pre (z ∷ zs) = (has z pre ≡ false) × New (pre ++ (z ∷ [])) zs

module _ (cost : ℕ → ℕ) (bandwidth : ℕ → ℕ → Option ℕ) where
  add_edge-ids :
      (from to : ℕ) (graph : InputGraph)
      → (from == to) ≡ false
      → has_value (bandwidth from to) ≡ true
      → (add_edge cost bandwidth from to graph).peer_to_id
        ≡ try_emplace to (try_emplace from graph.peer_to_id)
  unfolding add_edge
  add_edge-ids from to graph other measured = elim (Option-cases (bandwidth from to)) [
    | inl e ↦ absurd (true≢false (sym measured ∙ ap has_value e))
    | inr (bw, e) ↦ rw (other, e, add_edge) refl
  ]

  add_edge-skips : (x : ℕ) (graph : InputGraph) → add_edge cost bandwidth x x graph ≡ graph
  unfolding add_edge
  add_edge-skips x graph = rw (==-refl x, add_edge) refl

  -- An edge between peers that have nodes.
  add_edge-keeps :
      (from to : ℕ) (ids : List (ℕ × ℕ)) (graph : InputGraph)
      → graph.peer_to_id ≡ ids
      → contains from ids ≡ true
      → contains to ids ≡ true
      → (add_edge cost bandwidth from to graph).peer_to_id ≡ ids
  unfolding add_edge
  add_edge-keeps from to ids graph same a b = elim (Bool-cases (from == to)) [
    | inl self ↦ rw (self, add_edge) same
    | inr other ↦ elim (Option-cases (bandwidth from to)) [
      | inl e ↦ rw (other, e, add_edge) same
      | inr (bw, e) ↦ rw (other, e, same, add_edge, a, b) refl
    ]
  ]

  first_edge :
      (x z : ℕ) (pre : List ℕ) (graph : InputGraph)
      → try_emplace x graph.peer_to_id ≡ numbered 0 pre
      → has x pre ≡ true
      → has z pre ≡ false
      → has_value (bandwidth x z) ≡ true
      → (add_edge cost bandwidth x z graph).peer_to_id ≡ numbered 0 (pre ++ (z ∷ []))
  first_edge x z pre graph e known new measured =
      add_edge-ids x z graph (has-differs x z pre known new) measured
      ∙ (ap (try_emplace z) e ∙ try_emplace-new z pre new)

  -- The edges from the first peer give each peer after it a node.
  first_row :
      (x z : ℕ) (zs pre : List ℕ) (graph : InputGraph)
      → try_emplace x graph.peer_to_id ≡ numbered 0 pre
      → has x pre ≡ true
      → New pre (z ∷ zs)
      → All (λ y. has_value (bandwidth x y) ≡ true) (z ∷ zs)
      → (add_edges_from cost bandwidth x (z ∷ zs) graph).peer_to_id ≡ numbered 0 (pre ++ (z ∷ zs))
  unfolding add_edges_from
  first_row x z [] pre graph e known new measured =
      first_edge x z pre graph e known new.0 measured.0
  first_row x z (w ∷ ws) pre graph e known new measured =
      let ids = first_edge x z pre graph e known new.0 measured.0 in
      let there = contains-numbered x 0 (pre ++ (z ∷ [])) ∙ has-end x pre z known in
      first_row x w ws (pre ++ (z ∷ [])) (add_edge cost bandwidth x z graph)
        (ap (try_emplace x) ids ∙ try_emplace-old x (numbered 0 (pre ++ (z ∷ []))) there)
        (has-end x pre z known) new.1 measured.1
      ∙ ap (numbered 0) (append_assoc pre (z ∷ []) (w ∷ ws))

  row_keeps :
      (from : ℕ) (all tos : List ℕ) (graph : InputGraph)
      → graph.peer_to_id ≡ numbered 0 all
      → has from all ≡ true
      → All (λ y. has y all ≡ true) tos
      → (add_edges_from cost bandwidth from tos graph).peer_to_id ≡ numbered 0 all
  unfolding add_edges_from
  row_keeps from all [] graph e a h = e
  row_keeps from all (to ∷ tos) graph e a h =
      row_keeps from all tos (add_edge cost bandwidth from to graph)
        (add_edge-keeps from to (numbered 0 all) graph e (contains-numbered from 0 all ∙ a)
          (contains-numbered to 0 all ∙ h.0))
        a h.1

  other_rows_keep :
      (all froms : List ℕ) (graph : InputGraph)
      → graph.peer_to_id ≡ numbered 0 all
      → All (λ y. has y all ≡ true) all
      → All (λ y. has y all ≡ true) froms
      → (add_edges cost bandwidth all froms graph).peer_to_id ≡ numbered 0 all
  unfolding add_edges
  other_rows_keep all [] graph e a h = e
  other_rows_keep all (from ∷ froms) graph e a h =
      other_rows_keep all froms (add_edges_from cost bandwidth from all graph)
        (row_keeps from all all graph e h.0 a) a h.1

All-has : (pre xs : List ℕ) → All (λ y. has y (pre ++ xs) ≡ true) xs
All-has pre [] = tt
All-has pre (x ∷ xs) = (
  ground (arith, has-append x pre (x ∷ xs)),
  subst (λ all. All (λ y. has y all ≡ true) xs) (append_assoc pre (x ∷ []) xs)
      (All-has (pre ++ (x ∷ [])) xs),
)

All-new :
    (z : ℕ) (pre zs : List ℕ)
    → has z zs ≡ false
    → All (λ w. has w pre ≡ false) zs
    → All (λ w. has w (pre ++ (z ∷ [])) ≡ false) zs
All-new z pre [] h a = tt
All-new z pre (w ∷ ws) h a =
    (ground (arith, a.0, has-append w pre (z ∷ [])), All-new z pre ws (ground arith) a.1)

New-Distinct : (pre xs : List ℕ) → All (λ z. has z pre ≡ false) xs → Distinct xs → New pre xs
New-Distinct pre [] a d = tt
New-Distinct pre (x ∷ xs) a d =
    (a.0, New-Distinct (pre ++ (x ∷ [])) xs (All-new x pre xs d.0 a.1) d.1)

module _ (cost : ℕ → ℕ) (store : BandwidthStore) where
  -- The nodes.
  pub input_graph-numbered :
      (x y : ℕ) (ys : List ℕ)
      → Distinct (x ∷ y ∷ ys)
      → All (λ z. has_value (get_bandwidth_mbps x z store) ≡ true) (y ∷ ys)
      → (input_graph cost store (x ∷ y ∷ ys)).peer_to_id ≡ numbered 0 (x ∷ y ∷ ys)
  unfolding input_graph add_edges add_edges_from
  input_graph-numbered x y ys d measured =
      let ring = x ∷ y ∷ ys in
      let bandwidth : ℕ → ℕ → Option ℕ = λ a b. get_bandwidth_mbps a b store in
      let start : InputGraph = record { peer_to_id = []; edges = [] } in
      let first : (add_edges_from cost bandwidth x ring start).peer_to_id ≡ numbered 0 ring =
        ap (λ g. (add_edges_from cost bandwidth x (y ∷ ys) g).peer_to_id)
          (add_edge-skips cost bandwidth x start)
        ∙ first_row cost bandwidth x y ys (x ∷ []) start refl (ground arith)
            (New-Distinct (x ∷ []) (y ∷ ys) (All-new x [] (y ∷ ys) d.0 (nowhere (y ∷ ys))) d.1)
            measured in
      let known = All-has [] ring in
      other_rows_keep cost bandwidth ring (y ∷ ys) (add_edges_from cost bandwidth x ring start)
        first known known.1
    where
      nowhere : (xs : List ℕ) → All (λ w. has w [] ≡ false) xs
      nowhere [] = tt
      nowhere (x ∷ xs) = (refl, nowhere xs)

-- ===== src/Master/Ring/Search.antt =====
-- The search for a ring of mutually reachable peers (`buildReachableRingTopology`) finds exactly
-- the Hamiltonian cycles.
use pccl.Common.{
  ℕ, zero, suc, ◌+◌, ◌≡◌, ◌≢◌, refl, inl, inr, true, false, List, [], ◌∷◌, Option, none, some, ◌==◌,
  nat_eq, nat_beq_iff, has, Distinct, length, arith, Bool-cases, Option-cases, subst,
}
use pccl.Master.Ring.{try_each, unless_visited, backtrack, search_ring}

-- Each vertex of a path, last first, is a neighbour of the one before it.
abbrev pub Linked : (ℕ → List ℕ) → List ℕ → Type 0
Linked adj [] = Unit
Linked adj (x ∷ []) = Unit
Linked adj (x ∷ y ∷ p) = (has x (adj y) ≡ true) × Linked adj (y ∷ p)

abbrev pub last_of : ℕ → List ℕ → ℕ
last_of x [] = x
last_of x (y ∷ p) = last_of y p

-- Closed by the edge from its last vertex, which stands first, to its start, which stands last.
abbrev pub Closes : (ℕ → List ℕ) → List ℕ → Type 0
Closes adj [] = ⊥
Closes adj (x ∷ p) = has (last_of x p) (adj x) ≡ true

-- A cycle through n distinct vertices.
pub record IsCycle (adj : ℕ → List ℕ) (n : ℕ) (p : List ℕ) : Type 0 where
  pub size : length p ≡ n
  pub distinct : Distinct p
  pub linked : Linked adj p
  pub closes : Closes adj p

try_each_sound :
    (f : ℕ → Option (List ℕ)) (vs : List ℕ) (r : List ℕ)
    → try_each f vs ≡ some r
    → (v : ℕ) × (has v vs ≡ true) × (f v ≡ some r)
unfolding try_each
try_each_sound f [] r h = cc
try_each_sound f (v ∷ vs) r h = elim (Option-cases (f v)) [
  | inl e ↦ let (w, m, g) = try_each_sound f vs r (rw (e, try_each) at h) in (w, ground arith, g)
  | inr (q, e) ↦ (v, ground arith, ground arith)
]

try_each_complete :
    (f : ℕ → Option (List ℕ)) (vs : List ℕ) (v : ℕ)
    → has v vs ≡ true
    → f v ≢ none
    → try_each f vs ≢ none
unfolding try_each
try_each_complete f [] v m h e = cc
try_each_complete f (w ∷ vs) v m h e = elim (Option-cases (f w)) [
  | inl g ↦ elim (Bool-cases (w == v)) [
    | inl same ↦ h (rw (← (nat_beq_iff w v).0 same) g)
    | inr other ↦ try_each_complete f vs v (ground arith) h (rw (g, try_each) at e)
  ]
  | inr (q, g) ↦ ground arith
]

module _ (adj : ℕ → List ℕ) (n start : ℕ) where
  -- One choice of the search: the vertex was not visited, and the search from it succeeds.
  unless_visited-some :
      (path : List ℕ) (f : ℕ → Option (List ℕ)) (v : ℕ) (r : List ℕ)
      → unless_visited path f v ≡ some r
      → (has v path ≡ false) × (f v ≡ some r)
  unless_visited-some path f v r h = ground arith

  backtrack_sound :
      (fuel current : ℕ) (p r : List ℕ)
      → backtrack adj n start fuel (current ∷ p) current ≡ some r
      → Distinct (current ∷ p)
      → Linked adj (current ∷ p)
      → last_of current p ≡ start
      → IsCycle adj n r
  unfolding backtrack
  backtrack_sound zero current p r h d l e = cc
  backtrack_sound (suc fuel) current p r h d l e = elim (Bool-cases (length (current ∷ p) == n)) [
    | inl full ↦ elim (Bool-cases (has start (adj current))) [
      | inl closed ↦
          let same : current ∷ p ≡ r = ground arith in
          subst (IsCycle adj n) same
            (record { size = ground arith; distinct = d; linked = l; closes = rw e closed })
      | inr open_end ↦ absurd (ground arith)
    ]
    | inr more ↦
        let next = λ (v : ℕ). backtrack adj n start fuel (v ∷ current ∷ p) v in
        let tried =
          try_each_sound (unless_visited (current ∷ p) next) (adj current) r
            (rw (more, backtrack) at h) in
        let (fresh, found) = unless_visited-some (current ∷ p) next tried.0 r tried.2 in
        backtrack_sound fuel tried.0 (current ∷ p) r found (fresh, d) (tried.1, l) e
  ]

-- The rest of a cycle in the order of the visit, from `current` back to `start`.
abbrev Route : (ℕ → List ℕ) → ℕ → ℕ → List ℕ → Type 0
Route adj start current [] = has start (adj current) ≡ true
Route adj start current (v ∷ vs) = (has v (adj current) ≡ true) × Route adj start v vs

abbrev Fresh : List ℕ → List ℕ → Type 0
Fresh [] path = Unit
Fresh (v ∷ vs) path = (has v path ≡ false) × Fresh vs (v ∷ path)

unless_visited-ne-none :
    (path : List ℕ) (f : ℕ → Option (List ℕ)) (v : ℕ)
    → has v path ≡ false
    → f v ≢ none
    → unless_visited path f v ≢ none
unless_visited-ne-none path f v h k e = ground arith

module _ (adj : ℕ → List ℕ) (n start : ℕ) where
  -- With a vertex of the route as the next choice the search cannot fail.
  backtrack_complete :
      (todo : List ℕ) (current : ℕ) (path : List ℕ)
      → Route adj start current todo
      → Fresh todo path
      → length todo + length path ≡ n
      → backtrack adj n start (suc (length todo)) path current ≢ none
  unfolding backtrack
  backtrack_complete [] current path r f e = ground arith
  backtrack_complete (v ∷ vs) current path r f e =
      let next = λ (w : ℕ). backtrack adj n start (suc (length vs)) (w ∷ path) w in
      let go = try_each_complete (unless_visited path next) (adj current) v r.0 (
        unless_visited-ne-none path next v f.0
          (backtrack_complete vs v (v ∷ path) r.1 f.1 (omega arith))) in
      let short : (length path == n) ≡ false = ground arith in rw (short, backtrack) go

  -- A path read from its last vertex gives the route from its first.
  from_path :
      (x : ℕ) (p todo : List ℕ)
      → Linked adj (x ∷ p)
      → Distinct (x ∷ p)
      → Route adj start x todo
      → Fresh todo (x ∷ p)
      → (vs : List ℕ) × Route adj start (last_of x p) vs
        × Fresh vs (last_of x p ∷ [])
        × (length vs ≡ length todo + length p)
  from_path x [] todo l d r f = (todo, r, f, omega arith)
  from_path x (y ∷ q) todo l d r f =
      let (vs, r', f', e) = from_path y q (x ∷ todo) l.1 d.1 (l.0, r) (d.0, f) in
      (vs, r', f', omega arith)

-- What the search finds is a cycle through as many distinct vertices as there are peers.
pub search_ring_sound :
    (adj : ℕ → List ℕ) (peers r : List ℕ)
    → search_ring adj peers ≡ some r
    → IsCycle adj (length peers) r
unfolding search_ring
search_ring_sound adj peers r h =
    let tried = try_each_sound _ peers r h in
    backtrack_sound adj (length peers) tried.0 (length peers) tried.0 [] r tried.2 (refl, tt) tt
      refl

-- If there is a cycle that ends in one of the peers, the search finds one.
pub search_ring_complete :
    (adj : ℕ → List ℕ) (peers : List ℕ) (x : ℕ) (p : List ℕ)
    → IsCycle adj (length peers) (x ∷ p)
    → has (last_of x p) peers ≡ true
    → search_ring adj peers ≢ none
unfolding search_ring
search_ring_complete adj peers x p c m =
    let start = last_of x p in
    let (vs, r, f, e) = from_path adj (length peers) start x p [] c.linked c.distinct c.closes tt in
    let size : suc (length vs) ≡ length peers = omega (arith, c.size) in
    try_each_complete _ peers start m (
      subst (λ k. backtrack adj (length peers) start k (start ∷ []) start ≢ none) size
        (backtrack_complete adj (length peers) start vs start (start ∷ []) r f (omega arith)))

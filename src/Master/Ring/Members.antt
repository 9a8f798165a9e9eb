-- ===== src/Master/Ring/Members.antt =====
-- Who stands in the ring that `getRingTopology` returns.
use pccl.Common.{
  ℕ, zero, suc, ◌+◌, ◌≤◌, ◌<◌, ◌≡◌, ◌≢◌, refl, ap, sym, ◌∙◌, ◌⊎◌, inl, inr, Bool, true, false, not,
  List, [], ◌∷◌, Option, none, some, if◌then◌else◌, ◌==◌, nat_eq, nat_beq_iff, ==-refl, has,
  Distinct, length, ◌&&◌, ◌||◌, All, arith, Bool-cases, Option-cases, subst, ◌↔◌, contains, lookup,
  get_or, insert, any, get_or-insert, contains-lookup,
}
use pccl.Net.{SocketAddress}
use pccl.Client.{ClientInfo, state_eq}
use pccl.Master.State.{MasterState, get_client_entry_set, get_local_world_size}
use pccl.Master.Ring.{
  sort_insert, sort, uuid_less, is_eligible, eligible_from, eligible_peers,
  build_basic_ring_topology, is_outdated, set_ring_topology, is_topology_dirty, get_ring_topology,
}

has-sort_insert :
    (less : ℕ → ℕ → Bool) (u x : ℕ) (ys : List ℕ)
    → has u (sort_insert less x ys) ≡ (if x == u then true else has u ys)
unfolding sort_insert
has-sort_insert less u x [] = refl
has-sort_insert less u x (y ∷ ys) = ground (arith, has-sort_insert less u x ys)

pub has-sort : (less : ℕ → ℕ → Bool) (u : ℕ) (xs : List ℕ) → has u (sort less xs) ≡ has u xs
unfolding sort
has-sort less u [] = refl
has-sort less u (x ∷ xs) =
    ground (arith, has-sort_insert less u x (sort less xs), has-sort less u xs)

is_eligible-contains :
    (g : ℕ) (s : MasterState) (u : ℕ) → is_eligible g s u ≡ true → contains u s.client_info ≡ true
unfolding is_eligible
is_eligible-contains g s u h = elim (Bool-cases (contains u s.client_info)) [
  | inl c ↦ c
  | inr c ↦ ground (arith, pccl.Common.lookup-contains u s.client_info)
]

eligible_from-contains :
    (g : ℕ) (s : MasterState) (es : List (ℕ × SocketAddress)) (u : ℕ)
    → has u (eligible_from g s es) ≡ true
    → contains u s.client_info ≡ true
unfolding eligible_from
eligible_from-contains g s [] u h = cc
eligible_from-contains g s ((v, a) ∷ es) u h =
    ground (arith, nat_beq_iff v u, is_eligible-contains g s v, eligible_from-contains g s es u)

basic-contains :
    (g : ℕ) (s : MasterState) (u : ℕ)
    → has u (build_basic_ring_topology g s) ≡ true
    → contains u s.client_info ≡ true
unfolding build_basic_ring_topology eligible_peers
basic-contains g s u h =
    eligible_from-contains g s (get_client_entry_set s) u
      (ground (arith, has-sort uuid_less u (eligible_peers g s)))

-- A test that no element passes fails at each of them.
any-false : (p : ℕ → Bool) (xs : List ℕ) (u : ℕ) → any p xs ≡ false → has u xs ≡ true → p u ≡ false
any-false p [] u h m = cc
any-false p (x ∷ xs) u h m = elim (Bool-cases (x == u)) [
  | inl same ↦ rw (← (nat_beq_iff x u).0 same) (ground arith)
  | inr other ↦ any-false p xs u (ground arith) (ground arith)
]

clean-contains :
    (ring : List ℕ) (infos : List (ℕ × ClientInfo)) (n u : ℕ)
    → is_topology_dirty ring infos n ≡ false
    → has u ring ≡ true
    → contains u infos ≡ true
unfolding is_topology_dirty
clean-contains ring infos n u h m = ground (arith, any-false (λ v. not (contains v infos)) ring u)

kept-contains :
    (old new : List ℕ) (u : ℕ) → is_outdated old new ≡ false → has u old ≡ true → has u new ≡ true
unfolding is_outdated
kept-contains old new u h m = ground (arith, any-false (λ v. not (has v new)) old u)

-- After an attempt to set a new ring of known clients, the stored ring has known clients only.
set_ring_topology-contains :
    (g : ℕ) (new : List ℕ) (optimal : Bool) (s : MasterState) (u : ℕ)
    → (has u new ≡ true → contains u s.client_info ≡ true)
    → has u (get_or [] g (set_ring_topology g new optimal s).0.ring_topologies) ≡ true
    → contains u s.client_info ≡ true
unfolding set_ring_topology is_outdated
set_ring_topology-contains g new optimal s u known h = ground (
  arith,
  kept-contains (get_or [] g s.ring_topologies) new u,
  get_or-insert [] g g new s.ring_topologies,
)

set_ring_topology-client_info :
    (g : ℕ) (new : List ℕ) (optimal : Bool) (s : MasterState)
    → (set_ring_topology g new optimal s).0.client_info ≡ s.client_info
unfolding set_ring_topology
set_ring_topology-client_info g new optimal s = ground arith

-- A client that stands in the ring that is returned is one that the master knows: one that has
-- left is never in it, also where the stored ring counted as optimal; and the clients are not
-- changed.
pub get_ring_topology-contains :
    (g : ℕ) (b : Bool) (s : MasterState) (u : ℕ)
    → has u (get_ring_topology g b s).1 ≡ true
    → (contains u s.client_info ≡ true) × ((get_ring_topology g b s).0.client_info ≡ s.client_info)
unfolding get_ring_topology
get_ring_topology-contains g b s u h =
    let ring = get_or [] g s.ring_topologies in
    let n = get_local_world_size g b s in
    let new = build_basic_ring_topology g s in
    elim (Bool-cases (is_topology_dirty ring s.client_info n)) [
      | inl dirty ↦ (
        set_ring_topology-contains g new false s u (basic-contains g s u)
            (rw (dirty, get_ring_topology) at h),
        rw (dirty, get_ring_topology) (set_ring_topology-client_info g new false s),
      )
      | inr clean ↦ (
        clean-contains ring s.client_info n u clean (rw (clean, get_ring_topology) at h),
        rw (clean, get_ring_topology),
      )
    ]

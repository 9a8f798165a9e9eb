-- ===== src/Master/Ring.antt =====
-- The ring of a peer group: building, replacing and reading it.
pub mod Search
pub mod Reachable
pub mod Members
pub mod Order
use pccl.Common.{
  ℕ, zero, suc, ◌+◌, ◌-◌, ◌/◌, ◌%◌, ◌^◌, Bool, true, false, ◌&&◌, ◌||◌, not, List, [], ◌∷◌, ◌++◌,
  map, Option, none, some, if◌then◌else◌, ◌==◌, nat_eq, lookup, contains, get_or, insert,
  map_values, modify, has, add, length, any, all, get_elem?, ltb,
}
use mathlib.Core.List.{reverse}
use pccl.Net.{SocketAddress}
use pccl.Client.{
  ClientInfo, is_accepted, state_eq, connecting_to_peers, waiting_for_other_peers,
  connecting_to_peers_failed,
}
use pccl.Bandwidth.{
  BandwidthEntry, BandwidthStore, store_bandwidth, get_bandwidth_mbps,
  get_missing_bandwidth_entries, is_bandwidth_store_fully_populated, get_number_of_registered_peers,
}
use pccl.Master.State.{MasterState, get_client_entry_set, get_local_world_size}
use pccl.Master.Votes.{put_state, set_state}

-- Byte i of a uuid, the number that its 16 bytes spell.
abbrev uuid_byte : ℕ → ℕ → ℕ
uuid_byte i u = u / 256 ^ (15 - i) % 256

-- The comparison's loop with k bytes left; the first byte that differs decides.
unfoldable pub less_from : ℕ → ℕ → ℕ → Bool
less_from zero a b = false
less_from (suc k) a b =
    let rest = less_from k a b in
    let x = uuid_byte (15 - k) a in let y = uuid_byte (15 - k) b in if x == y then rest else ltb x y

unfoldable pub uuid_less : ℕ → ℕ → Bool
unfolding less_from
uuid_less = less_from 16

-- `std::ranges::sort`
unfoldable pub sort_insert : (ℕ → ℕ → Bool) → ℕ → List ℕ → List ℕ
sort_insert less x [] = x ∷ []
sort_insert less x (y ∷ ys) = if less y x then y ∷ sort_insert less x ys else x ∷ (y ∷ ys)

unfoldable pub sort : (ℕ → ℕ → Bool) → List ℕ → List ℕ
unfolding sort_insert
sort less [] = []
sort less (x ∷ xs) = sort_insert less x (sort less xs)

-- Who belongs in the ring: the accepted, and those that are about to be.
unfoldable pub is_eligible : ℕ → MasterState → ℕ → Bool
is_eligible g s u = elim (lookup u s.client_info) [
  | none ↦ false
  | some i ↦
      (is_accepted i.connection_phase || i.connection_state == connecting_to_peers)
      && i.peer_group == g
]

unfoldable pub eligible_from : ℕ → MasterState → List (ℕ × SocketAddress) → List ℕ
unfolding is_eligible
eligible_from g s [] = []
eligible_from g s ((u, a) ∷ es) =
    let rest = eligible_from g s es in if is_eligible g s u then u ∷ rest else rest

unfoldable pub eligible_peers : ℕ → MasterState → List ℕ
unfolding eligible_from
eligible_peers g s = eligible_from g s (get_client_entry_set s)

unfoldable pub build_basic_ring_topology : ℕ → MasterState → List ℕ
unfolding eligible_peers sort uuid_less
build_basic_ring_topology g s = sort uuid_less (eligible_peers g s)

-- Neither holds the other to be unreachable.
unfoldable pub can_reach : MasterState → ℕ → ℕ → Bool
can_reach s u v =
    not (has v (get_or [] u s.unreachability_map)) && not (has u (get_or [] v s.unreachability_map))

unfoldable pub neighbours : MasterState → ℕ → List ℕ → List ℕ
unfolding can_reach
neighbours s u [] = []
neighbours s u (v ∷ vs) =
    let rest = neighbours s u vs in
    if u == v then rest else if can_reach s u v then v ∷ rest else rest

-- The loop of the search over what to try next.
unfoldable pub try_each : (ℕ → Option (List ℕ)) → List ℕ → Option (List ℕ)
try_each f [] = none
try_each f (v ∷ vs) = elim (f v) [ none ↦ try_each f vs | some p ↦ some p ]

abbrev pub unless_visited : List ℕ → (ℕ → Option (List ℕ)) → ℕ → Option (List ℕ)
unless_visited path f v = elim (has v path) [ true ↦ none | false ↦ f v ]

-- `backtrack`: the path, last vertex first, which is also the set of the visited vertices.
unfoldable pub backtrack : (ℕ → List ℕ) → ℕ → ℕ → ℕ → List ℕ → ℕ → Option (List ℕ)
unfolding try_each
backtrack adjacency n start zero path current = none
backtrack adjacency n start (suc fuel) path current = elim (length path == n) [
  | true ↦ elim (has start (adjacency current)) [ true ↦ some path | false ↦ none ]
  | false ↦
      try_each (unless_visited path (λ v. backtrack adjacency n start fuel (v ∷ path) v))
        (adjacency current)
]

unfoldable pub search_ring : (ℕ → List ℕ) → List ℕ → Option (List ℕ)
unfolding backtrack try_each
search_ring adjacency peers =
    try_each (λ v. backtrack adjacency (length peers) v (length peers) (v ∷ []) v) peers

unfoldable pub ring_of : MasterState → List ℕ → Option (List ℕ)
unfolding search_ring neighbours
ring_of s [] = none
ring_of s (u ∷ []) = some (u ∷ [])
ring_of s (u ∷ v ∷ us) = elim (search_ring (λ x. neighbours s x (u ∷ v ∷ us)) (u ∷ v ∷ us)) [
  | none ↦ none
  | some path ↦ some (reverse path)
]

unfoldable pub build_reachable_ring_topology : ℕ → MasterState → Option (List ℕ)
unfolding ring_of eligible_peers
build_reachable_ring_topology g s = ring_of s (eligible_peers g s)

-- The tests by which a new ring shows that the optimal one is out of date.
unfoldable pub is_outdated : List ℕ → List ℕ → Bool
is_outdated old new = if length new == length old then any (λ u. not (has u new)) old else true

unfoldable pub set_ring_topology : ℕ → List ℕ → Bool → MasterState → MasterState × Bool
unfolding is_outdated
set_ring_topology g new optimal s =
    let still =
      get_or false g s.topology_is_optimal
      && not (is_outdated (get_or [] g s.ring_topologies) new) in
    if still then (s, false) else (
      record s {
        ring_topologies = insert g new s.ring_topologies;
        topology_is_optimal = insert g optimal s.topology_is_optimal;
        topology_changed = map_values (λ b. true) s.topology_changed;
      },
      true,
    )

unfoldable pub is_topology_dirty : List ℕ → List (ℕ × ClientInfo) → ℕ → Bool
is_topology_dirty ring infos world_size =
    if length ring == world_size then any (λ u. not (contains u infos)) ring else true

unfoldable pub get_ring_topology : ℕ → Bool → MasterState → MasterState × List ℕ
unfolding set_ring_topology is_topology_dirty build_basic_ring_topology
get_ring_topology g include_registered s =
    let dirty =
      is_topology_dirty (get_or [] g s.ring_topologies) s.client_info
        (get_local_world_size g include_registered s) in
    let t = if dirty then (set_ring_topology g (build_basic_ring_topology g s) false s).0 else s in
    (t, get_or [] g t.ring_topologies)

unfoldable pub is_topology_optimal : ℕ → MasterState → Bool
is_topology_optimal g s = get_or false g s.topology_is_optimal

-- The place of a client in the ring; 0 if it is not there.
unfoldable pub position_from : ℕ → ℕ → List ℕ → ℕ
position_from u i [] = 0
position_from u i (v ∷ vs) = if v == u then i else position_from u (suc i) vs

abbrev pub previous_index : ℕ → ℕ → ℕ
previous_index n i = if i == 0 then n - 1 else i - 1

abbrev pub next_index : ℕ → ℕ → ℕ
next_index n i = if i == n - 1 then 0 else i + 1

abbrev info_at : MasterState → List ℕ → ℕ → Option ClientInfo
info_at s ring i = elim (get_elem? ring i) [ none ↦ none | some u ↦ lookup u s.client_info ]

unfoldable pub ring_neighbours : MasterState → ℕ → List ℕ → List ClientInfo
unfolding position_from
ring_neighbours s u ring =
    let i = position_from u 0 ring in
    let previous = previous_index (length ring) i in
    let next = next_index (length ring) i in
    if length ring == 0 || length ring == 1 then [] else elim (info_at s ring previous) [
      | none ↦ []
      | some p ↦ elim (info_at s ring next) [
        | none ↦ []
        | some q ↦ p ∷ (if next == previous then [] else q ∷ [])
      ]
    ]

unfoldable pub get_peers_for_client :
    ClientInfo → Bool → MasterState → MasterState × List ClientInfo
unfolding get_ring_topology ring_neighbours
get_peers_for_client i include_registered s =
    let (t, ring) = get_ring_topology i.peer_group include_registered s in
    (t, ring_neighbours t i.client_uuid ring)

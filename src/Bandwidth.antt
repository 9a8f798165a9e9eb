-- ===== src/Bandwidth.antt =====
-- The bandwidth matrix: ccoip/internal/bandwidth_store.hpp, ccoip/src/cpp/bandwidth_store.cpp.
-- A bandwidth, a `double`, is kept as its bit pattern: the store only copies it.
pub mod Laws
use pccl.Common.{
  ℕ, suc, ◌+◌, ◌≡◌, Bool, true, false, ◌&&◌, not, List, [], ◌∷◌, ◌++◌, Option, none, some,
  if◌then◌else◌, Eq, ◌==◌, nat_eq, lookup, contains, get_or, insert, erase, map_values, has, add,
  length, any, all, count,
}
use pccl.Net.{InetAddress, inet_eq}

pub record BandwidthEntry : Type 0 where
  pub from_peer_uuid : ℕ
  pub to_peer_uuid : ℕ

pub record BwPeer : Type 0 where
  pub address : InetAddress
  pub group : ℕ

abbrev pub Row : Type 0
Row = List (InetAddress × ℕ)

pub record BandwidthStore : Type 0 where
  pub bandwidth_map : List (InetAddress × Row)
  pub registered_peers : List (ℕ × BwPeer)

abbrev pub empty_store : BandwidthStore
empty_store = record { bandwidth_map = []; registered_peers = [] }

-- `emplace`: an entry that is there stays.
unfoldable pub register_peer : ℕ → InetAddress → ℕ → BandwidthStore → BandwidthStore × Bool
register_peer peer address group s = if contains peer s.registered_peers then (s, false) else (
  record s {
    registered_peers = insert peer (record { address = address; group = group }) s.registered_peers;
  },
  true,
)

-- `bandwidth_map[from][to] = bw`
abbrev pub write_cell :
    InetAddress → InetAddress → ℕ → List (InetAddress × Row) → List (InetAddress × Row)
write_cell a b v m = insert a (insert b v (get_or [] a m)) m

unfoldable pub store_bandwidth : ℕ → ℕ → ℕ → BandwidthStore → BandwidthStore × Bool
store_bandwidth from to bw s = elim (lookup from s.registered_peers) [
  | none ↦ (s, false)
  | some p ↦ elim (lookup to s.registered_peers) [
    | none ↦ (s, false)
    | some q ↦
        (record s { bandwidth_map = write_cell p.address q.address bw s.bandwidth_map }, true)
  ]
]

-- `row_it->second.find(to)` behind `bandwidth_map.find(from)`
abbrev pub read_cell : InetAddress → InetAddress → List (InetAddress × Row) → Option ℕ
read_cell a b m = elim (lookup a m) [ none ↦ none | some row ↦ lookup b row ]

abbrev pub has_cell : InetAddress → InetAddress → List (InetAddress × Row) → Bool
has_cell a b m = elim (lookup a m) [ none ↦ false | some row ↦ contains b row ]

unfoldable pub get_bandwidth_mbps : ℕ → ℕ → BandwidthStore → Option ℕ
get_bandwidth_mbps from to s = elim (lookup from s.registered_peers) [
  | none ↦ none
  | some p ↦ elim (lookup to s.registered_peers) [
    | none ↦ none
    | some q ↦ read_cell p.address q.address s.bandwidth_map
  ]
]

-- The first peer of each address of a group stands for it.
unfoldable pub representatives :
    ℕ → List (ℕ × BwPeer) → List (InetAddress × ℕ) → List (InetAddress × ℕ)
representatives g [] reps = reps
representatives g ((u, p) ∷ ps) reps = representatives g ps (
    if p.group == g
    then (if contains p.address reps then reps else insert p.address u reps)
    else reps)

unfoldable pub address_representatives_for_group : ℕ → BandwidthStore → List (InetAddress × ℕ)
unfolding representatives
address_representatives_for_group g s = representatives g s.registered_peers []

abbrev pub entry_if : Bool → ℕ → ℕ → List BandwidthEntry
entry_if have a b = if have then [] else record { from_peer_uuid = a; to_peer_uuid = b } ∷ []

-- Both directions to each other address of the group.
unfoldable pub missing_loop :
    InetAddress → ℕ → List (InetAddress × Row) → List (InetAddress × ℕ) → List BandwidthEntry
missing_loop self peer m [] = []
missing_loop self peer m ((other, rep) ∷ reps) =
    let rest = missing_loop self peer m reps in
    if other == self
    then rest
    else entry_if (has_cell other self m) rep peer
      ++ (entry_if (has_cell self other m) peer rep ++ rest)

unfoldable pub get_missing_bandwidth_entries : ℕ → BandwidthStore → List BandwidthEntry
unfolding missing_loop address_representatives_for_group
get_missing_bandwidth_entries peer s = elim (lookup peer s.registered_peers) [
  | none ↦ []
  | some self ↦
      let reps = address_representatives_for_group self.group s in
      if length reps == 1
      then entry_if (has_cell self.address self.address s.bandwidth_map) peer peer
      else missing_loop self.address peer s.bandwidth_map reps
]

-- group -> its distinct addresses
unfoldable pub group_addresses :
    List (ℕ × BwPeer) → List (ℕ × List InetAddress) → List (ℕ × List InetAddress)
group_addresses [] acc = acc
group_addresses ((u, p) ∷ ps) acc =
    group_addresses ps (insert p.group (add p.address (get_or [] p.group acc)) acc)

abbrev pub row_complete : List (InetAddress × Row) → List InetAddress → InetAddress → Bool
row_complete m addrs a = elim (lookup a m) [
  | none ↦ false
  | some row ↦
      suc (count (λ dst. if dst == a then false else contains dst row) addrs) == length addrs
]

abbrev pub group_complete : List (InetAddress × Row) → List InetAddress → Bool
group_complete m [] = true
group_complete m (a ∷ []) = has_cell a a m
group_complete m (a ∷ b ∷ rest) = all (row_complete m (a ∷ b ∷ rest)) (a ∷ b ∷ rest)

unfoldable pub is_bandwidth_store_fully_populated : BandwidthStore → Bool
unfolding group_addresses
is_bandwidth_store_fully_populated s =
    all (λ g. group_complete s.bandwidth_map (g.1)) (group_addresses s.registered_peers [])

unfoldable pub get_number_of_registered_peers : BandwidthStore → ℕ
get_number_of_registered_peers s = length s.registered_peers

-- The row and the column of an address that no peer uses any more.
abbrev pub drop_address : InetAddress → List (InetAddress × Row) → List (InetAddress × Row)
drop_address a m = map_values (erase a) (erase a m)

unfoldable pub unregister_peer : ℕ → BandwidthStore → BandwidthStore × Bool
unregister_peer peer s = elim (lookup peer s.registered_peers) [
  | none ↦ (s, false)
  | some p ↦
      let peers = erase peer s.registered_peers in
      let used = any (λ q. (q.1).address == p.address) peers in
      (
        record {
          bandwidth_map = if used then s.bandwidth_map else drop_address p.address s.bandwidth_map;
          registered_peers = peers;
        },
        true,
      )
]

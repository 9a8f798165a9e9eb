-- ===== src/Master/Reports.antt =====
-- What the clients report: their p2p connections, and measured bandwidths.
use pccl.Common.{
  ℕ, Bool, true, false, not, List, [], ◌∷◌, Option, none, some, if◌then◌else◌, ◌==◌, nat_eq, lookup,
  contains, get_or, insert, has, add, length,
}
use pccl.Client.{
  ClientInfo, state_eq, connecting_to_peers, waiting_for_other_peers, connecting_to_peers_failed,
}
use pccl.Bandwidth.{
  BandwidthEntry, store_bandwidth, get_bandwidth_mbps, get_missing_bandwidth_entries,
}
use pccl.Master.State.{MasterState}
use pccl.Master.Votes.{set_state}
use pccl.Master.Ring.{build_reachable_ring_topology, set_ring_topology}

-- The failed peers that are still registered.
unfoldable pub add_unreachable : List (ℕ × ClientInfo) → List ℕ → List ℕ → List ℕ
add_unreachable infos [] acc = acc
add_unreachable infos (p ∷ ps) acc =
    add_unreachable infos ps (if contains p infos then add p acc else acc)

-- `false` makes the caller kick the client.
unfoldable pub mark_p2p_connections_established :
    ℕ → Bool → List ℕ → MasterState → MasterState × Bool
unfolding add_unreachable build_reachable_ring_topology set_ring_topology
mark_p2p_connections_established u success failed_peers s = elim (lookup u s.client_info) [
  | none ↦ (s, false)
  | some i ↦
      let unreachable =
        add_unreachable s.client_info failed_peers (get_or [] u s.unreachability_map) in
      let marked = record s { unreachability_map = insert u unreachable s.unreachability_map } in
      if not (i.connection_state == connecting_to_peers)
      then (s, false)
      else if success
      then (record s { client_info = set_state u waiting_for_other_peers s.client_info }, true)
      else if length unreachable == length s.client_info
      then (marked, false)
      else elim (build_reachable_ring_topology i.peer_group marked) [
        | none ↦ (marked, false)
        | some ring ↦
            let t = (set_ring_topology i.peer_group ring false marked).0 in
            (record t { client_info = set_state u connecting_to_peers_failed t.client_info }, true)
      ]
]

abbrev pub same_group : ℕ → ℕ → MasterState → Bool
same_group a b s = elim (lookup a s.client_info) [
  | none ↦ false
  | some i ↦ elim (lookup b s.client_info) [ none ↦ false | some j ↦ i.peer_group == j.peer_group ]
]

unfoldable pub store_peer_bandwidth : ℕ → ℕ → ℕ → MasterState → MasterState
store_peer_bandwidth from to bw s =
    if same_group from to s
    then record s { bandwidth_store = (store_bandwidth from to bw s.bandwidth_store).0 }
    else s

unfoldable pub get_peer_bandwidth_mbps : ℕ → ℕ → MasterState → Option ℕ
get_peer_bandwidth_mbps from to s =
    if same_group from to s then get_bandwidth_mbps from to s.bandwidth_store else none

abbrev is_unreachable : MasterState → BandwidthEntry → Bool
is_unreachable s e = has e.to_peer_uuid (get_or [] e.from_peer_uuid s.unreachability_map)

unfoldable pub drop_unreachable : MasterState → List BandwidthEntry → List BandwidthEntry
drop_unreachable s [] = []
drop_unreachable s (e ∷ es) =
    let rest = drop_unreachable s es in if is_unreachable s e then rest else e ∷ rest

unfoldable pub missing_bandwidth_entries : ℕ → MasterState → List BandwidthEntry
unfolding drop_unreachable
missing_bandwidth_entries u s =
    if contains u s.client_info
    then drop_unreachable s (get_missing_bandwidth_entries u s.bandwidth_store)
    else []

-- The group that the caller names is only compared for a warning.
unfoldable pub mark_bandwidth_entry_unreachable : ℕ → BandwidthEntry → MasterState → MasterState
mark_bandwidth_entry_unreachable g e s =
    if same_group e.from_peer_uuid e.to_peer_uuid s
    then record s {
      unreachability_map =
          insert e.from_peer_uuid
            (add e.to_peer_uuid (get_or [] e.from_peer_uuid s.unreachability_map))
            s.unreachability_map;
    }
    else s

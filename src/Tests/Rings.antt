-- ===== src/Tests/Rings.antt =====
-- The theorems on rings at two clients.
use mathlib.Core.List.{Perm, reverse}
use pccl.Common.{
  ℕ, ◌≡◌, ◌≤◌, refl, true, List, [], ◌∷◌, none, some, nat_eq, contains, has, length, arith, ltb,
}
use pccl.Net.{SocketAddress, socket_eq}
use pccl.Client.{ClientInfo, peer_accepted, idle, state_beq, no_vote_initiated_query_pending_peers}
use pccl.Master.State.{MasterState, initial, get_local_world_size, get_client_entry_set}
use pccl.Master.Ring.{
  eligible_peers, build_reachable_ring_topology, build_basic_ring_topology, get_ring_topology,
  uuid_less,
}
use pccl.Master.Ring.Search.{IsCycle, last_of}
use pccl.Master.Ring.Reachable.{
  reaches, build_reachable_ring_topology-IsCycle, build_reachable_ring_topology_complete,
}
use pccl.Master.Ring.Members.{get_ring_topology-contains}
use pccl.Master.Ring.Order.{
  uuid_less-ltb, build_basic_ring_topology-IsAscending, IsAscending, AreUuids,
}
use pccl.Tests.{home, home2, ports}

abbrev member : SocketAddress → ℕ → ClientInfo
member a u = record {
  client_uuid = u;
  connection_phase = peer_accepted;
  connection_state = idle;
  vote_query = no_vote_initiated_query_pending_peers;
  collective_coms_states = [];
  socket_address = a;
  variable_ports = ports;
  peer_group = 0;
}

abbrev couple : MasterState
couple = record initial {
  client_uuids = (home, 9) ∷ (home2, 7) ∷ [];
  uuid_clients = (9, home) ∷ (7, home2) ∷ [];
  client_info = (9, member home 9) ∷ (7, member home2 7) ∷ [];
}

-- One of the two cannot reach the other.
abbrev split : MasterState
split = record couple { unreachability_map = (9, 7 ∷ []) ∷ [] }

couple-size : 2 ≤ length (eligible_peers 0 couple)
unfolding eligible_peers state_beq get_client_entry_set
couple-size = omega arith

split-size : 2 ≤ length (eligible_peers 0 split)
unfolding eligible_peers state_beq get_client_entry_set
split-size = omega arith

abbrev couple_ring : List ℕ
couple_ring = 9 ∷ 7 ∷ []

couple-ring : build_reachable_ring_topology 0 couple ≡ some couple_ring
unfolding build_reachable_ring_topology state_beq get_client_entry_set
couple-ring = refl

build_reachable_ring_topology-IsCycle_example :
    IsCycle (reaches 0 couple) (length (eligible_peers 0 couple)) (reverse couple_ring)
build_reachable_ring_topology-IsCycle_example =
    build_reachable_ring_topology-IsCycle 0 couple couple_ring couple-size couple-ring

split-ring : build_reachable_ring_topology 0 split ≡ none
unfolding build_reachable_ring_topology state_beq get_client_entry_set
split-ring = refl

split-has : has (last_of 9 (7 ∷ [])) (eligible_peers 0 split) ≡ true
unfolding eligible_peers state_beq get_client_entry_set
split-has = refl

build_reachable_ring_topology_complete_example :
    ¬ IsCycle (reaches 0 split) (length (eligible_peers 0 split)) (9 ∷ 7 ∷ [])
build_reachable_ring_topology_complete_example =
    build_reachable_ring_topology_complete 0 split 9 (7 ∷ []) split-size split-ring split-has

basic-has : has 7 (get_ring_topology 0 true couple).1 ≡ true
unfolding get_ring_topology get_local_world_size state_beq get_client_entry_set
basic-has = refl

get_ring_topology-contains_example :
    (contains 7 couple.client_info ≡ true)
    × ((get_ring_topology 0 true couple).0.client_info ≡ couple.client_info)
get_ring_topology-contains_example = get_ring_topology-contains 0 true couple 7 basic-has

uuid_less-ltb_run : uuid_less 7 9 ≡ ltb 7 9
uuid_less-ltb_run = uuid_less-ltb 7 9 (omega arith) (omega arith)

couple-uuids : AreUuids (eligible_peers 0 couple)
unfolding eligible_peers state_beq get_client_entry_set
couple-uuids = (omega arith, (omega arith, tt))

build_basic_ring_topology-IsAscending_example :
    Perm (build_basic_ring_topology 0 couple) (eligible_peers 0 couple)
    × IsAscending (build_basic_ring_topology 0 couple)
build_basic_ring_topology-IsAscending_example =
    build_basic_ring_topology-IsAscending 0 couple couple-uuids

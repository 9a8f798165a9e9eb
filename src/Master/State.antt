-- ===== src/Master/State.antt =====
-- The fields of `CCoIPMasterState`, and the reads that change nothing.
-- A `std::unordered_map` is an association list in iteration order, a `std::unordered_set` a list.
use pccl.Common.{
  Text, ℕ, suc, ◌+◌, ◌≡◌, ◌%◌, ◌^◌, Bool, true, false, ◌&&◌, ◌||◌, not, List, [], ◌∷◌, map, Option,
  none, some, if◌then◌else◌, ◌==◌, nat_eq, text_eq, lookup, contains, get_or, insert, values, has,
  add, length, count, any, all, map_values, nat_beq,
}
use pccl.Net.{SocketAddress, socket_eq}
use pccl.Client.{ClientInfo, is_accepted}
use pccl.Bandwidth.{BandwidthStore, empty_store}

pub data HashType : Type 0 where
  hash_simple hash_crc32 : HashType

pub data SyncStrategy : Type 0 where
  enforce_popular rx_only tx_only : SyncStrategy

pub data SharedStateMismatchStatus : Type 0 where
  successful_match key_set_mismatch content_hash_mismatch : SharedStateMismatchStatus
  revision_outdated revision_increment_violation : SharedStateMismatchStatus

-- The data type is the enumerator's value.
pub record SharedStateHashEntry : Type 0 where
  pub key : Text
  pub hash : ℕ
  pub hash_type : HashType
  pub data_size : ℕ
  pub data_type : ℕ
  pub allow_content_inequality : Bool

abbrev pub PerPeer : Type 0 → Type 0
PerPeer A = List (ℕ × A)

pub record MasterState : Type 0 where
  pub client_uuids : List (SocketAddress × ℕ)
  pub uuid_clients : List (ℕ × SocketAddress)
  pub client_info : List (ℕ × ClientInfo)
  pub votes_accept_new_peers : List ℕ
  pub votes_establish_p2p_connections : List ℕ
  pub votes_optimize_topology : List ℕ
  pub votes_complete_topology_optimization : List ℕ
  pub votes_sync_shared_state : List (ℕ × List ℕ)
  pub shared_state_sync_strategies : List (ℕ × SyncStrategy)
  pub votes_sync_shared_state_complete : List (ℕ × List ℕ)
  pub peer_list_changed : List (ℕ × Bool)
  pub topology_changed : List (ℕ × Bool)
  pub shared_state_mask : List (ℕ × List SharedStateHashEntry)
  pub shared_state_mask_candidates : List (ℕ × PerPeer (List SharedStateHashEntry))
  pub shared_state_entries : List (ℕ × PerPeer (List SharedStateHashEntry))
  pub shared_state_hashes : List (ℕ × List (Text × ℕ))
  pub shared_state_hash_types : List (ℕ × List (Text × HashType))
  pub next_shared_state_revision : List (ℕ × ℕ)
  pub shared_state_statuses : List (ℕ × PerPeer SharedStateMismatchStatus)
  pub shared_state_dirty_keys : List (ℕ × PerPeer (List Text))
  pub collective_comms_sequence_number_atomic : ℕ
  pub collective_comms_op_abort_states : List (ℕ × List (ℕ × Bool))
  pub unreachability_map : List (ℕ × List ℕ)
  pub bandwidth_store : BandwidthStore
  pub ring_topologies : List (ℕ × List ℕ)
  pub topology_is_optimal : List (ℕ × Bool)

abbrev pub callsite_topology_optimization_complete : ℕ
callsite_topology_optimization_complete = 1

abbrev pub initial : MasterState
initial = record {
  client_uuids = [];
  uuid_clients = [];
  client_info = [];
  votes_accept_new_peers = [];
  votes_establish_p2p_connections = [];
  votes_optimize_topology = [];
  votes_complete_topology_optimization = [];
  votes_sync_shared_state = [];
  shared_state_sync_strategies = [];
  votes_sync_shared_state_complete = [];
  peer_list_changed = (callsite_topology_optimization_complete, false) ∷ [];
  topology_changed = (callsite_topology_optimization_complete, false) ∷ [];
  shared_state_mask = [];
  shared_state_mask_candidates = [];
  shared_state_entries = [];
  shared_state_hashes = [];
  shared_state_hash_types = [];
  next_shared_state_revision = [];
  shared_state_statuses = [];
  shared_state_dirty_keys = [];
  collective_comms_sequence_number_atomic = 0;
  collective_comms_op_abort_states = [];
  unreachability_map = [];
  bandwidth_store = empty_store;
  ring_topologies = [];
  topology_is_optimal = [];
}

unfoldable pub get_client_info : ℕ → MasterState → Option ClientInfo
get_client_info u s = lookup u s.client_info

unfoldable pub find_client_uuid : SocketAddress → MasterState → Option ℕ
find_client_uuid a s = lookup a s.client_uuids

unfoldable pub is_client_registered : SocketAddress → MasterState → Bool
is_client_registered a s = contains a s.client_uuids

abbrev pub keys_of : List (SocketAddress × ℕ) → List SocketAddress
keys_of [] = []
keys_of ((a, u) ∷ m) = a ∷ keys_of m

unfoldable pub get_client_socket_addresses : MasterState → List SocketAddress
get_client_socket_addresses s = keys_of s.client_uuids

abbrev pub swap_entries : List (SocketAddress × ℕ) → List (ℕ × SocketAddress)
swap_entries [] = []
swap_entries ((a, u) ∷ m) = (u, a) ∷ swap_entries m

unfoldable pub get_client_entry_set : MasterState → List (ℕ × SocketAddress)
get_client_entry_set s = swap_entries s.client_uuids

unfoldable pub has_pending_peers : MasterState → Bool
has_pending_peers s = any (λ i. not (is_accepted (i.connection_phase))) (values s.client_info)

-- The set that a loop over the clients collects.
abbrev pub collect : (ClientInfo → Bool) → (ClientInfo → ℕ) → List ClientInfo → List ℕ → List ℕ
collect p f [] acc = acc
collect p f (i ∷ is) acc = collect p f is (if p i then add (f i) acc else acc)

unfoldable pub get_currently_accepted_peers : MasterState → List ℕ
get_currently_accepted_peers s =
    collect (λ i. is_accepted i.connection_phase) (λ i. i.client_uuid) (values s.client_info) []

unfoldable pub get_existing_peer_groups : MasterState → List ℕ
get_existing_peer_groups s = map (λ i. i.peer_group) (values s.client_info)

unfoldable pub get_global_world_size : MasterState → ℕ
get_global_world_size s = length s.client_info

unfoldable pub counts_in : Bool → ℕ → ClientInfo → Bool
counts_in include_registered group i =
    (if include_registered then true else is_accepted i.connection_phase) && i.peer_group == group

unfoldable pub get_local_world_size : ℕ → Bool → MasterState → ℕ
unfolding counts_in
get_local_world_size group include_registered s =
    count (counts_in include_registered group) (values s.client_info)

unfoldable pub get_num_distinct_peer_groups : Bool → MasterState → ℕ
get_num_distinct_peer_groups include_registered s = length (
    collect (λ i. if include_registered then true else is_accepted i.connection_phase)
      (λ i. i.peer_group) (values s.client_info) [])

unfoldable pub tally : Bool → List ClientInfo → List (ℕ × ℕ) → List (ℕ × ℕ)
tally include_registered [] sizes = sizes
tally include_registered (i ∷ is) sizes = tally include_registered is (
    if (if include_registered then true else is_accepted i.connection_phase)
    then insert i.peer_group (suc (get_or 0 i.peer_group sizes)) sizes
    else sizes)

unfoldable pub largest : List (ℕ × ℕ) → ℕ → ℕ
largest [] best = best
largest ((g, n) ∷ m) best = largest m (if pccl.Common.ltb best n then n else best)

unfoldable pub get_largest_peer_group_world_size : Bool → MasterState → ℕ
unfolding tally largest
get_largest_peer_group_world_size include_registered s =
    largest (tally include_registered (values s.client_info) []) 0

-- A flag reads once: `m[callsite]` puts a missing flag in as false.
unfoldable pub has_peer_list_changed : ℕ → MasterState → MasterState × Bool
has_peer_list_changed callsite s = (
  record s { peer_list_changed = insert callsite false s.peer_list_changed },
  get_or false callsite s.peer_list_changed,
)

unfoldable pub has_topology_changed : ℕ → MasterState → MasterState × Bool
has_topology_changed callsite s = (
  record s { topology_changed = insert callsite false s.topology_changed },
  get_or false callsite s.topology_changed,
)

-- `fetch_add` on a `uint64_t`: the value before, and the sum mod 2^64.
unfoldable pub get_next_collective_op_seq_nr : MasterState → MasterState × ℕ
get_next_collective_op_seq_nr s = (
  record s {
    collective_comms_sequence_number_atomic =
        (s.collective_comms_sequence_number_atomic + 1) % 2 ^ 64;
  },
  s.collective_comms_sequence_number_atomic,
)

unfoldable pub get_shared_state_sync_strategy : ℕ → MasterState → Option SyncStrategy
get_shared_state_sync_strategy u s = lookup u s.shared_state_sync_strategies

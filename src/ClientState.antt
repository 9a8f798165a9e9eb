-- ===== src/ClientState.antt =====
-- What a client keeps: CCoIPClientState of ccoip/src/cpp/ccoip_client_state.cpp and
-- ccoip/internal_include/ccoip_client_state.hpp, with the entries of a shared state.
use pccl.Common.{
  ℕ, ◌+◌, ◌%◌, ◌^◌, Bool, true, false, not, List, [], ◌∷◌, Option, none, some, if◌then◌else◌, ◌==◌,
  nat_eq, lookup, contains, get_or, insert, erase, has, add, remove, Text,
}
use pccl.Net.{SocketAddress, socket_eq}
use pccl.Master.State.{SyncStrategy, enforce_popular}

pub data DeviceType : Type 0 where
  cpu cuda : DeviceType

-- The memory is named by its address.
pub record SharedStateEntry : Type 0 where
  pub key : Text
  pub data_type : ℕ
  pub device_type : DeviceType
  pub data_ptr : ℕ
  pub data_size : ℕ
  pub allow_content_inequality : Bool

pub record SharedState : Type 0 where
  pub sync_strategy : SyncStrategy
  pub revision : ℕ
  pub entries : List SharedStateEntry

-- Whether the thread of the pool has run a task to its end.
pub data TaskState : Type 0 where
  running finished : TaskState

pub record ClientState : Type 0 where
  pub assigned_uuid : ℕ
  pub global_world_size : ℕ
  pub local_world_size : ℕ
  pub num_distinct_peer_groups : ℕ
  pub largest_peer_group_world_size : ℕ
  pub socket_addr_to_uuid : List (SocketAddress × ℕ)
  pub current_shared_state : SharedState
  pub is_syncing_shared_state : Bool
  pub shared_state_sync_tx_bytes : ℕ
  pub collective_coms_tx_bytes : List (ℕ × ℕ)
  pub collective_coms_rx_bytes : List (ℕ × ℕ)
  pub collective_coms_connection_revisions : List (ℕ × ℕ)
  pub running_collective_coms_ops_world_size : List (ℕ × ℕ)
  pub running_collective_coms_ops_tags : List ℕ
  pub running_collective_ops : List (ℕ × TaskState)
  pub running_reduce_tasks_failure_states : List (ℕ × ℕ)
  pub ring_order : List ℕ

abbrev pub no_shared_state : SharedState
no_shared_state = record { sync_strategy = enforce_popular; revision = 0; entries = [] }

abbrev pub initial_client_state : ClientState
initial_client_state = record {
  assigned_uuid = 0;
  global_world_size = 0;
  local_world_size = 0;
  num_distinct_peer_groups = 0;
  largest_peer_group_world_size = 0;
  socket_addr_to_uuid = [];
  current_shared_state = no_shared_state;
  is_syncing_shared_state = false;
  shared_state_sync_tx_bytes = 0;
  collective_coms_tx_bytes = [];
  collective_coms_rx_bytes = [];
  collective_coms_connection_revisions = [];
  running_collective_coms_ops_world_size = [];
  running_collective_coms_ops_tags = [];
  running_collective_ops = [];
  running_reduce_tasks_failure_states = [];
  ring_order = [];
}

abbrev pub register_peer : SocketAddress → ℕ → ClientState → Bool × ClientState
register_peer address uuid s =
    if contains address s.socket_addr_to_uuid
    then (false, s)
    else (true, record s { socket_addr_to_uuid = insert address uuid s.socket_addr_to_uuid })

abbrev pub unregister_peer : SocketAddress → ClientState → Bool × ClientState
unregister_peer address s =
    if contains address s.socket_addr_to_uuid
    then (true, record s { socket_addr_to_uuid = erase address s.socket_addr_to_uuid })
    else (false, s)

-- None is the exception.
abbrev pub set_assigned_uuid : ℕ → ClientState → Option ClientState
set_assigned_uuid uuid s =
    if s.assigned_uuid == 0 then some (record s { assigned_uuid = uuid }) else none

abbrev pub begin_sync_shared_state_phase : SharedState → ClientState → ClientState
begin_sync_shared_state_phase shared_state s = record s {
  current_shared_state = shared_state;
  is_syncing_shared_state = true;
}

abbrev pub end_sync_shared_state_phase : ClientState → ClientState
end_sync_shared_state_phase s = record s {
  current_shared_state = no_shared_state;
  is_syncing_shared_state = false;
}

abbrev pub is_collective_coms_op_running : ℕ → ClientState → Bool
is_collective_coms_op_running tag s = has tag s.running_collective_coms_ops_tags

abbrev pub is_empty : {A : Type 0} → List A → Bool
is_empty [] = true
is_empty (x ∷ xs) = false

abbrev pub is_any_collective_coms_op_running : ClientState → Bool
is_any_collective_coms_op_running s = not (is_empty s.running_collective_coms_ops_tags)

abbrev pub start_collective_coms_op : ℕ → ClientState → Bool × ClientState
start_collective_coms_op tag s =
    if has tag s.running_collective_coms_ops_tags then (false, s) else (
      true,
      record s { running_collective_coms_ops_tags = add tag s.running_collective_coms_ops_tags },
    )

abbrev pub end_collective_coms_op : ℕ → ClientState → Bool × ClientState
end_collective_coms_op tag s =
    let ended = record s {
      running_collective_coms_ops_tags = remove tag s.running_collective_coms_ops_tags;
    } in
    if has tag s.running_collective_coms_ops_tags
    then if contains tag s.running_collective_ops
      then (true, record ended { running_collective_ops = erase tag s.running_collective_ops })
      else (false, ended)
    else (false, s)

abbrev pub reset_collective_coms_tx_bytes : ℕ → ClientState → ClientState
reset_collective_coms_tx_bytes tag s = record s {
  collective_coms_tx_bytes = erase tag s.collective_coms_tx_bytes;
}

abbrev pub reset_collective_coms_rx_bytes : ℕ → ClientState → ClientState
reset_collective_coms_rx_bytes tag s = record s {
  collective_coms_rx_bytes = erase tag s.collective_coms_rx_bytes;
}

abbrev pub reset_collective_coms_world_size : ℕ → ClientState → ClientState
reset_collective_coms_world_size tag s = record s {
  running_collective_coms_ops_world_size = erase tag s.running_collective_coms_ops_world_size;
}

-- The sums wrap in 64 bits, as `size_t` does.
abbrev pub track_collective_coms_tx_bytes : ℕ → ℕ → ClientState → ClientState
track_collective_coms_tx_bytes tag bytes s =
    let total = (get_or 0 tag s.collective_coms_tx_bytes + bytes) % 2 ^ 64 in
    record s { collective_coms_tx_bytes = insert tag total s.collective_coms_tx_bytes }

abbrev pub track_collective_coms_rx_bytes : ℕ → ℕ → ClientState → ClientState
track_collective_coms_rx_bytes tag bytes s =
    let total = (get_or 0 tag s.collective_coms_rx_bytes + bytes) % 2 ^ 64 in
    record s { collective_coms_rx_bytes = insert tag total s.collective_coms_rx_bytes }

abbrev pub track_shared_state_tx_bytes : ℕ → ClientState → ClientState
track_shared_state_tx_bytes bytes s = record s {
  shared_state_sync_tx_bytes = (s.shared_state_sync_tx_bytes + bytes) % 2 ^ 64;
}

abbrev pub reset_shared_state_sync_tx_bytes : ClientState → ClientState
reset_shared_state_sync_tx_bytes s = record s { shared_state_sync_tx_bytes = 0 }

abbrev pub set_collective_connection_revision : ℕ → ℕ → ClientState → ClientState
set_collective_connection_revision tag revision s = record s {
  collective_coms_connection_revisions = insert tag revision s.collective_coms_connection_revisions;
}

abbrev pub update_topology : List ℕ → ClientState → ClientState
update_topology ring s = record s { ring_order = ring }

-- `emplace`, which leaves the value of a key that is there.
abbrev pub emplace : {V : Type 0} → ℕ → V → List (ℕ × V) → List (ℕ × V)
emplace k v m = if contains k m then m else insert k v m

-- What is set for a tag that has been started, up to the task that is given to the pool.
abbrev pub prepare_task : ℕ → ClientState → ClientState
prepare_task tag s =
    let reset = reset_collective_coms_rx_bytes tag (reset_collective_coms_tx_bytes tag s) in
    record reset {
      running_collective_coms_ops_world_size =
          insert tag (s.local_world_size % 2 ^ 32) s.running_collective_coms_ops_world_size;
      running_reduce_tasks_failure_states = insert tag 2 s.running_reduce_tasks_failure_states;
      running_collective_ops = emplace tag running s.running_collective_ops;
    }

abbrev pub launch_async_collective_op : ℕ → ClientState → Bool × ClientState
launch_async_collective_op tag s =
    let started = start_collective_coms_op tag s in
    if started.0 then (true, prepare_task tag started.1) else (false, s)

-- The end of a task, whose promise holds the value, in the thread of the pool.
abbrev pub end_task : ℕ → Bool → ClientState → ClientState
end_task tag value s = record s {
  running_reduce_tasks_failure_states =
      insert tag (if value then 1 else 0) s.running_reduce_tasks_failure_states;
  running_collective_ops = insert tag finished s.running_collective_ops;
}

-- A call that waits for a task that has not ended goes on when it has. The flag is what
-- `endCollectiveComsOp` returns, whose failure is logged as a bug.
pub data Joined : Type 0 where
  no_such_op waits : Joined
  joined : Bool → ClientState → Joined

abbrev pub join_launched : ℕ → ClientState → Option TaskState → Joined
join_launched tag s none = no_such_op
join_launched tag s (some running) = waits
join_launched tag s (some finished) =
    let ended = end_collective_coms_op tag s in joined ended.0 ended.1

abbrev pub join_async_collective_op : ℕ → ClientState → Joined
join_async_collective_op tag s = join_launched tag s (lookup tag s.running_collective_ops)

abbrev pub is_failure : Option ℕ → Option Bool
is_failure none = none
is_failure (some state) = some (state == 0)

abbrev pub has_collective_coms_op_failed : ℕ → ClientState → Option Bool
has_collective_coms_op_failed tag s = is_failure (lookup tag s.running_reduce_tasks_failure_states)

-- ===== src/ClientHandler/Lived.antt =====
-- A client's handler in whatever order its calls and its tasks' ends come.
use pccl.Common.{
  ℕ, ◌≡◌, ◌≢◌, refl, sym, ap, subst, Bool, true, false, List, [], ◌∷◌, Text, Option, none, some,
  if◌then◌else◌, ◌==◌, nat_eq, lookup, Bool-cases, Option-cases, inl, inr,
}
use pccl.ClientState.{
  ClientState, TaskState, running, initial_client_state, set_assigned_uuid, SharedState,
  begin_sync_shared_state_phase, end_sync_shared_state_phase, track_collective_coms_tx_bytes,
  track_collective_coms_rx_bytes, update_topology, track_shared_state_tx_bytes,
}
use pccl.ClientHandler.{
  ClientHandler, Attempt, establish_p2p_connections, request_and_establish_p2p_connections,
}
use pccl.ClientHandler.Async.{
  all_reduce_async, end_reduce, join_async_reduce, get_async_reduce_info, returned, undefined,
  Course, task_value, in_state,
}
use pccl.ClientHandler.Share.{
  handle_shared_state_request, collect_entries, find_entry, SharedStateResponse,
}
use pccl.ClientHandler.Join.{OpsInv, ops_of, runs, all_reduce_async-OpsInv, end_task-OpsInv}
use pccl.ClientHandler.Ended.{Sound, join_async_reduce-Sound}
use pccl.ClientHandler.Kept.{
  ops, Keeps, establish_p2p_connections-ops, request_and_establish_p2p_connections-Keeps,
}

-- What a client's calls, its tasks and its servers do: the calls for collective operations, the end
-- of a task with whatever ring it was launched with, the attempts to connect, and every change of
-- the rest of the state.
pub data Acts : ClientHandler → ClientHandler → Type 0 where
  enters :
      (uuid : ℕ) (h : ClientHandler) (s : ClientState)
      → set_assigned_uuid uuid h.client_state ≡ some s
      → Acts h (record h { client_state = s; accepted = true })
  launches : (tag : ℕ) (h : ClientHandler) → Acts h (all_reduce_async tag h).1
  ends :
      (tag : ℕ) (ring : List ℕ) (c : Course) (h : ClientHandler)
      → runs tag h ≡ some running
      → Acts h (end_reduce tag ring c h)
  joins :
      (is_open : Bool) (attempts : List Attempt) (tag : ℕ) (h : ClientHandler) (ok : Bool)
      (next : ClientHandler)
      → join_async_reduce is_open attempts tag h ≡ returned ok next
      → Acts h next
  informs : (tag : ℕ) (h : ClientHandler) → Acts h (get_async_reduce_info tag h).1
  attempts_once :
      (attempt : Attempt) (h : ClientHandler) → Acts h (establish_p2p_connections attempt h).handler
  establishes :
      (is_open : Bool) (attempts : List Attempt) (h : ClientHandler) (ok : Bool)
      (next : ClientHandler)
      → request_and_establish_p2p_connections is_open attempts h ≡ some (ok, next)
      → Acts h next
  shares : (keys : List Text) (h : ClientHandler) → Acts h (handle_shared_state_request keys h).1
  begins_sync :
      (shared_state : SharedState) (h : ClientHandler)
      → Acts h (in_state h (begin_sync_shared_state_phase shared_state h.client_state))
  ends_sync : (h : ClientHandler) → Acts h (in_state h (end_sync_shared_state_phase h.client_state))
  tracks_tx :
      (tag bytes : ℕ) (h : ClientHandler)
      → Acts h (in_state h (track_collective_coms_tx_bytes tag bytes h.client_state))
  tracks_rx :
      (tag bytes : ℕ) (h : ClientHandler)
      → Acts h (in_state h (track_collective_coms_rx_bytes tag bytes h.client_state))
  optimizes :
      (ring : List ℕ) (h : ClientHandler)
      → Acts h (in_state h (update_topology ring h.client_state))

abbrev pub initial_client_handler : ℕ → ClientHandler
initial_client_handler pool_size = record {
  client_state = initial_client_state;
  connection_revision = 0;
  accepted = false;
  p2p_connection_pool_size = pool_size;
  p2p_connections_tx = [];
  p2p_connections_rx = [];
}

pub data Lived : ClientHandler → Type 0 where
  starts : (pool_size : ℕ) → Lived (initial_client_handler pool_size)
  goes_on : (h next : ClientHandler) → Lived h → Acts h next → Lived next

abbrev KeepsState :
    List ℕ × List (ℕ × TaskState) × List (ℕ × ℕ) × List (ℕ × ℕ) → Option ClientState → Type 0
KeepsState o none = Unit
KeepsState o (some s) = ops_of s ≡ o

set_assigned_uuid-ops :
    (uuid : ℕ) (s : ClientState) → KeepsState (ops_of s) (set_assigned_uuid uuid s)
set_assigned_uuid-ops uuid s = elim (Bool-cases (s.assigned_uuid == 0)) [
  | inl unset ↦ rw unset refl
  | inr set ↦ rw set tt
]

informed-ops : (tag : ℕ) (h : ClientHandler) → ops (get_async_reduce_info tag h).1 ≡ ops h
unfolding get_async_reduce_info
informed-ops tag h =
    elim (Option-cases (lookup tag h.client_state.running_collective_coms_ops_world_size)) [
      | inl e ↦ rw (get_async_reduce_info, e) refl
      | inr (size, e) ↦ rw (get_async_reduce_info, e) refl
    ]

collect_entries-ops :
    (shared_state : SharedState) (keys : List Text) (s : ClientState)
    → ops_of (collect_entries shared_state keys s).1 ≡ ops_of s
unfolding collect_entries
collect_entries-ops shared_state [] s = refl
collect_entries-ops shared_state (key ∷ keys) s =
    elim (Option-cases (find_entry key shared_state.entries)) [
      | inl e ↦ rw (collect_entries, e) refl
      | inr (found, e) ↦
          rw (collect_entries, e)
            (collect_entries-ops shared_state keys (track_shared_state_tx_bytes found.data_size s))
    ]

shared-ops :
    (keys : List Text) (h : ClientHandler) → ops (handle_shared_state_request keys h).1 ≡ ops h
unfolding handle_shared_state_request
shared-ops keys h =
    either h.client_state.is_syncing_shared_state _ _
      (collect_entries-ops h.client_state.current_shared_state keys h.client_state) refl
  where
    either :
        (b : Bool) (p q : SharedStateResponse × ClientHandler)
        → ops p.1 ≡ ops h
        → q.1 ≡ h
        → ops (if b then p else q).1 ≡ ops h
    either true p q x y = x
    either false p q x y = ap ops y

pub Acts-OpsInv : (h next : ClientHandler) → Acts h next → OpsInv (ops h) → OpsInv (ops next)
unfolding end_reduce
Acts-OpsInv _ _ (enters uuid h s e) v =
    subst OpsInv (sym (subst (KeepsState (ops h)) e (set_assigned_uuid-ops uuid h.client_state))) v
Acts-OpsInv _ _ (launches tag h) v = all_reduce_async-OpsInv tag h v
Acts-OpsInv _ _ (ends tag ring c h r) v =
    end_task-OpsInv tag (task_value ring h.client_state.assigned_uuid c) h.client_state r v
Acts-OpsInv _ _ (joins is_open attempts tag h ok next e) v =
    subst Sound e (join_async_reduce-Sound is_open attempts tag h v)
Acts-OpsInv _ _ (informs tag h) v = subst OpsInv (sym (informed-ops tag h)) v
Acts-OpsInv _ _ (attempts_once attempt h) v =
    subst OpsInv (sym (establish_p2p_connections-ops attempt h)) v
Acts-OpsInv _ _ (establishes is_open attempts h ok next e) v =
    subst OpsInv
      (sym
        (subst (Keeps (ops h)) e (request_and_establish_p2p_connections-Keeps is_open attempts h)))
      v
Acts-OpsInv _ _ (shares keys h) v = subst OpsInv (sym (shared-ops keys h)) v
Acts-OpsInv _ _ (begins_sync shared_state h) v = v
Acts-OpsInv _ _ (ends_sync h) v = v
Acts-OpsInv _ _ (tracks_tx tag bytes h) v = v
Acts-OpsInv _ _ (tracks_rx tag bytes h) v = v
Acts-OpsInv _ _ (optimizes ring h) v = v

-- In every state of a client that its calls, the ends of its tasks, its attempts to connect, with
-- whatever the sockets give, and its answers to peers lead to, in any order, the tags of running
-- operations are exactly the tags that have a task, no tag has two, the connection revision of
-- each is known, a task that runs has no result filed and one that has ended has one.
pub Lived-OpsInv : (h : ClientHandler) → Lived h → OpsInv (ops h)
Lived-OpsInv _ (starts pool_size) = record {
  same = λ t. refl;
  unique = tt;
  revised = λ t k. cc;
  filed = λ t. refl;
}
Lived-OpsInv _ (goes_on h next l a) = Acts-OpsInv h next a (Lived-OpsInv h l)

-- In every state of a client that its calls and tasks lead to, joinAsyncReduce does not read an
-- empty optional: the connection revision at the launch is known for each operation that it finds.
pub join_async_reduce-defined :
    (is_open : Bool) (attempts : List Attempt) (tag : ℕ) (h : ClientHandler)
    → Lived h
    → join_async_reduce is_open attempts tag h ≢ undefined
join_async_reduce-defined is_open attempts tag h l e =
    subst Sound e (join_async_reduce-Sound is_open attempts tag h (Lived-OpsInv h l))

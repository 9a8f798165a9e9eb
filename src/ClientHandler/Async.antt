-- ===== src/ClientHandler/Async.antt =====
-- A client's collective operations: allReduceAsync, joinAsyncReduce and getAsyncReduceInfo of
-- ccoip/src/cpp/ccoip_client_handler.cpp. The task that allReduceAsync gives to the pool ends in a
-- step of its own.
use pccl.Common.{
  ℕ, Bool, true, false, ◌&&◌, not, List, Option, none, some, if◌then◌else◌, ◌==◌, nat_eq, ltb,
  length, lookup, has,
}
use pccl.Packets.{C2MPacket, complete_collective_comms}
use pccl.ClientState.{
  ClientState, launch_async_collective_op, set_collective_connection_revision, end_task, Joined,
  no_such_op, waits, joined, join_async_collective_op, has_collective_coms_op_failed,
  is_collective_coms_op_running, reset_collective_coms_tx_bytes, reset_collective_coms_rx_bytes,
  reset_collective_coms_world_size,
}
use pccl.ClientHandler.{ClientHandler, Attempt, request_and_establish_p2p_connections}

abbrev pub in_state : ClientHandler → ClientState → ClientHandler
in_state h s = record h { client_state = s }

-- `allReduceAsync`.
unfoldable pub all_reduce_async : ℕ → ClientHandler → Bool × ClientHandler
all_reduce_async tag h =
    let revised = set_collective_connection_revision tag h.connection_revision h.client_state in
    let launched = launch_async_collective_op tag revised in
    if is_collective_coms_op_running tag h.client_state
    then (false, h)
    else (launched.0, in_state h launched.1)

-- What the task meets: whether it votes and the start is agreed, the result of pipelineRingReduce
-- with whether an abort was received, whether the vote for the end is sent, the flag of the packet
-- that says whether the operation was aborted, and whether the end is agreed. None is a failure to
-- receive.
pub record Course : Type 0 where
  pub commences : Bool
  pub reduction : Bool × Bool
  pub complete_sent : Bool
  pub abort_response : Option Bool
  pub completes : Bool

-- Whether the reduction succeeds, and whether an abort is received in it.
unfoldable pub reduce_fun : List ℕ → ℕ → Course → Bool × Bool
reduce_fun ring uuid c =
    if not c.commences
    then (false, false)
    else if ltb (length ring) 2
    then (false, false)
    else if not (has uuid ring)
    then (false, false)
    else c.reduction

-- What the end of the operation says of it, when the vote for it is sent.
abbrev pub completion : Bool → Option Bool → Bool → Bool
completion true response completes = false
completion false none completes = false
completion false (some aborted) completes = if completes then not aborted else false

-- The value of the task's promise.
unfoldable pub task_value : List ℕ → ℕ → Course → Bool
unfolding reduce_fun
task_value ring uuid c =
    let reduced = reduce_fun ring uuid c in
    (reduced.0 && not reduced.1)
    && (c.complete_sent && completion reduced.1 c.abort_response c.completes)

-- The task's vote for the end.
unfoldable pub complete_packet : ℕ → List ℕ → ℕ → Course → C2MPacket
unfolding reduce_fun
complete_packet tag ring uuid c =
    let reduced = reduce_fun ring uuid c in
    let succeeded = reduced.0 && not reduced.1 in
    complete_collective_comms tag (not succeeded && ltb 1 (length ring))

-- The task ends. It was launched with a copy of the ring.
unfoldable pub end_reduce : ℕ → List ℕ → Course → ClientHandler → ClientHandler
unfolding task_value
end_reduce tag ring c h =
    in_state h (end_task tag (task_value ring h.client_state.assigned_uuid c) h.client_state)

-- The call returns, waits for the task or for the master, or reads an empty optional.
pub data Awaited : Type 0 where
  returned : Bool → ClientHandler → Awaited
  waiting undefined : Awaited

abbrev pub after_establishing : Option (Bool × ClientHandler) → Awaited
after_establishing none = waiting
after_establishing (some (ok, h)) = returned false h

abbrev pub recover : Bool → List Attempt → ClientHandler → Option ℕ → Awaited
recover is_open attempts h none = undefined
recover is_open attempts h (some revision) =
    if h.connection_revision == revision
    then after_establishing (request_and_establish_p2p_connections is_open attempts h)
    else returned false h

abbrev pub judge : Bool → List Attempt → ℕ → ClientHandler → Option Bool → Awaited
judge is_open attempts tag h none = returned false h
judge is_open attempts tag h (some true) =
    recover is_open attempts h (lookup tag h.client_state.collective_coms_connection_revisions)
judge is_open attempts tag h (some false) = returned true h

abbrev pub after_join : Bool → List Attempt → ℕ → ClientHandler → Joined → Awaited
after_join is_open attempts tag h no_such_op = returned false h
after_join is_open attempts tag h waits = waiting
after_join is_open attempts tag h (joined ended s) =
    judge is_open attempts tag (in_state h s) (has_collective_coms_op_failed tag s)

-- `joinAsyncReduce`.
unfoldable pub join_async_reduce : Bool → List Attempt → ℕ → ClientHandler → Awaited
unfolding request_and_establish_p2p_connections
join_async_reduce is_open attempts tag h =
    after_join is_open attempts tag h (join_async_collective_op tag h.client_state)

pub record ReduceInfo : Type 0 where
  pub tag : ℕ
  pub world_size : ℕ
  pub tx_bytes : ℕ
  pub rx_bytes : ℕ

abbrev pub or_zero : Option ℕ → ℕ
or_zero none = 0
or_zero (some n) = n

abbrev pub forget_info : ℕ → ClientState → ClientState
forget_info tag s =
    reset_collective_coms_rx_bytes tag
      (reset_collective_coms_tx_bytes tag (reset_collective_coms_world_size tag s))

-- `getAsyncReduceInfo`. None: it returns false.
unfoldable pub get_async_reduce_info : ℕ → ClientHandler → Option ReduceInfo × ClientHandler
get_async_reduce_info tag h =
    let s = h.client_state in
    elim (lookup tag s.running_collective_coms_ops_world_size) [
      | none ↦ (none, h)
      | some world_size ↦ (
        some (record {
          tag = tag;
          world_size = world_size;
          tx_bytes = or_zero (lookup tag s.collective_coms_tx_bytes);
          rx_bytes = or_zero (lookup tag s.collective_coms_rx_bytes);
        }),
        in_state h (forget_info tag s),
      )
    ]

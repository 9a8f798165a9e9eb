-- ===== src/Tests/Clients.antt =====
-- A client with its peers and its collective operations.
use pccl.Common.{
  ℕ, ◌≡◌, ◌≢◌, refl, true, false, List, [], ◌∷◌, some, none, arith, nat_eq, text_eq, ◌==◌,
  if◌then◌else◌, lookup,
}
use pccl.Net.{SocketAddress}
use pccl.Packets.{P2PConnectionInfo}
use pccl.Master.State.{enforce_popular}
use pccl.ClientState.{
  initial_client_state, is_collective_coms_op_running, running, cpu, SharedState, SharedStateEntry,
}
use pccl.ClientHandler.{
  ClientHandler, Attempt, Dialled, connected, not_connected, establish_peer, connect_peers,
  is_listed, establish_p2p_connections, success,
}
use pccl.ClientHandler.Async.{
  Course, all_reduce_async, end_reduce, join_async_reduce, returned, undefined, task_value,
}
use pccl.ClientHandler.Share as Share
use pccl.ClientHandler.Share.{handle_shared_state_request}
use pccl.ClientHandler.Peers.{connect_peers-retried}
use pccl.ClientHandler.Join.{OpsInv, runs}
use pccl.ClientHandler.Kept.{ops}
use pccl.ClientHandler.Ended.{freed}
use pccl.ClientHandler.Outcomes.{Outcome, join_async_reduce-Outcome}
use pccl.ClientHandler.Pools.{AllFull, has_full_pool, establish_p2p_connections-AllFull}
use pccl.ClientHandler.Others.{join_async_reduce-others}
use pccl.ClientHandler.Lived.{
  Lived, starts, goes_on, launches, ends, enters, initial_client_handler, Lived-OpsInv,
  join_async_reduce-defined,
}
use pccl.ClientHandler.Shared.{Collected, handle_shared_state_request-Collected}
use pccl.Tests.{home}

abbrev fresh : ClientHandler
fresh = record (initial_client_handler 2) {
  client_state = record initial_client_state { assigned_uuid = 7 };
  accepted = true;
}

abbrev begun : ClientHandler
begun = (all_reduce_async 6 fresh).1

abbrev launched : ClientHandler
launched = (all_reduce_async 5 begun).1

launched-Lived : Lived launched
launched-Lived =
    goes_on begun launched
      (goes_on fresh begun
        (goes_on (initial_client_handler 2) fresh (starts 2)
          (enters 7 (initial_client_handler 2) fresh.client_state refl))
        (launches 6 fresh))
      (launches 5 begun)

launched-running : runs 5 launched ≡ some running
unfolding all_reduce_async
launched-running = refl

abbrev course : Course
course = record {
  commences = true;
  reduction = (true, false);
  complete_sent = true;
  abort_response = some false;
  completes = true;
}

abbrev info : P2PConnectionInfo
info = record {
  global_world_size = 2;
  local_world_size = 2;
  num_distinct_peer_groups = 1;
  largest_peer_group_world_size = 2;
  all_peers = (home, 9) ∷ [];
  unchanged = false;
}

abbrev attempt : Attempt
attempt = record {
  request_sent = true;
  connection_info = some info;
  dial = λ address nr. connected;
  report_sent = true;
  response = some (true, 7 ∷ 9 ∷ []);
}

abbrev weights : SharedStateEntry
weights = record {
  key = 119 ∷ [];
  data_type = 0;
  device_type = cpu;
  data_ptr = 4096;
  data_size = 16;
  allow_content_inequality = false;
}

abbrev state : SharedState
state = record { sync_strategy = enforce_popular; revision = 3; entries = weights ∷ [] }

abbrev sharing : ClientHandler
sharing = record fresh {
  client_state = record fresh.client_state {
    current_shared_state = state;
    is_syncing_shared_state = true;
  };
}

-- The operation fails, while another one runs.
abbrev lost : ClientHandler
lost = end_reduce 5 (7 ∷ 9 ∷ []) (record course { reduction = (false, true) }) launched

lost-joined : join_async_reduce true [] 5 lost ≡ returned false (freed 5 lost)
unfolding all_reduce_async end_reduce join_async_reduce
lost-joined = refl

lost-Lived : Lived lost
lost-Lived =
    goes_on launched lost launched-Lived
      (ends 5 (7 ∷ 9 ∷ []) (record course { reduction = (false, true) }) launched launched-running)

lost-others : is_collective_coms_op_running 6 lost.client_state ≡ true
unfolding all_reduce_async end_reduce
lost-others = refl

Lived-OpsInv_example : OpsInv (ops launched)
Lived-OpsInv_example = Lived-OpsInv launched launched-Lived

join_async_reduce-defined_example : join_async_reduce true [] 5 launched ≢ undefined
join_async_reduce-defined_example = join_async_reduce-defined true [] 5 launched launched-Lived

join_async_reduce-Outcome_example :
    let ended = end_reduce 5 (7 ∷ 9 ∷ []) course launched in
    Outcome true []
      (task_value (7 ∷ 9 ∷ []) launched.client_state.assigned_uuid course)
      5
      launched
      ended
      (join_async_reduce true [] 5 ended)
join_async_reduce-Outcome_example =
    join_async_reduce-Outcome true [] 5 (7 ∷ 9 ∷ []) course launched
      (Lived-OpsInv launched launched-Lived) launched-running

join_async_reduce-others_example :
    ((freed 5 lost).connection_revision ≡ lost.connection_revision)
    × ((freed 5 lost).p2p_connections_tx ≡ lost.p2p_connections_tx)
    × ((freed 5 lost).p2p_connections_rx ≡ lost.p2p_connections_rx)
join_async_reduce-others_example =
    join_async_reduce-others true [] 5 6 lost (freed 5 lost) false (Lived-OpsInv lost lost-Lived)
      (λ e. omega (arith, e)) lost-others lost-joined

attempt-success : (establish_p2p_connections attempt fresh).result ≡ success
unfolding establish_p2p_connections
attempt-success = refl

establish_p2p_connections-AllFull_example :
    let next = (establish_p2p_connections attempt fresh).handler in
    AllFull next × ((u : ℕ) → has_full_pool u next ≡ is_listed info.all_peers u)
establish_p2p_connections-AllFull_example =
    establish_p2p_connections-AllFull attempt info fresh refl refl tt attempt-success

abbrev refusing : SocketAddress → ℕ → Dialled
refusing address nr = not_connected

connect_peers-retried_example :
    let tried = (establish_peer refusing (home, 9) fresh).1 in
    connect_peers refusing ((home, 9) ∷ []) tried ≡ (true, [], tried)
connect_peers-retried_example = connect_peers-retried refusing refusing (home, 9) fresh

shared-success : (handle_shared_state_request (weights.key ∷ []) sharing).0.status ≡ Share.success
unfolding handle_shared_state_request pccl.Common.text_beq
shared-success = refl

handle_shared_state_request-Collected_example :
    let r = handle_shared_state_request (weights.key ∷ []) sharing in
    (sharing.client_state.is_syncing_shared_state ≡ true)
    × Collected
        (weights.key ∷ [])
        sharing.client_state.shared_state_sync_tx_bytes
        (some r.0.entries_to_send)
        r.1.client_state.shared_state_sync_tx_bytes
handle_shared_state_request-Collected_example =
    handle_shared_state_request-Collected (weights.key ∷ []) sharing shared-success

-- ===== src/ClientHandler.antt =====
-- How a client connects to its peers: CCoIPClientHandler of ccoip/src/cpp/ccoip_client_handler.cpp,
-- establishP2PConnections and requestAndEstablishP2PConnections.
pub mod Async
pub mod Share
pub mod Peers
pub mod Pools
pub mod Join
pub mod Kept
pub mod Ended
pub mod Outcomes
pub mod Others
pub mod Lived
pub mod Shared
use pccl.Common.{
  ℕ, zero, suc, ◌+◌, ◌%◌, ◌^◌, Bool, true, false, ◌&&◌, not, List, [], ◌∷◌, ◌++◌, Option, none,
  some, if◌then◌else◌, ◌==◌, nat_eq, contains, insert,
}
use pccl.Net.{SocketAddress}
use pccl.Packets.{C2MPacket, report_p2p_connections, P2PConnectionInfo}
use pccl.ClientState.{
  ClientState, register_peer, unregister_peer, update_topology, is_any_collective_coms_op_running,
}

-- A pooled socket is named by the address that it is connected to, one of another peer by a number.
pub record ClientHandler : Type 0 where
  pub client_state : ClientState
  pub connection_revision : ℕ
  pub accepted : Bool
  pub p2p_connection_pool_size : ℕ
  pub p2p_connections_tx : List (ℕ × List SocketAddress)
  pub p2p_connections_rx : List (ℕ × List ℕ)

-- How the socket with a number in a peer's pool comes about: no connection, no answer to the
-- greeting, no thread for the socket, or all three.
pub data Dialled : Type 0 where
  not_connected no_hello_ack not_run connected : Dialled

-- What the sockets give in one attempt: the packet with the peers, each dialled socket, whether the
-- report is sent, and the master's answer to it. None is a failure to receive.
pub record Attempt : Type 0 where
  pub request_sent : Bool
  pub connection_info : Option P2PConnectionInfo
  pub dial : SocketAddress → ℕ → Dialled
  pub report_sent : Bool
  pub response : Option (Bool × List ℕ)

-- The loop over a peer's pool, with so many sockets left to connect.
unfoldable pub establish_pool :
    (SocketAddress → ℕ → Dialled)
    → SocketAddress
    → ℕ
    → ℕ
    → List SocketAddress
    → Bool × List SocketAddress
establish_pool dial address zero connection_nr sockets = (true, sockets)
establish_pool dial address (suc k) connection_nr sockets = elim (dial address connection_nr) [
  | connected ↦ establish_pool dial address k (suc connection_nr) (sockets ++ address ∷ [])
  | not_run ↦ (false, sockets ++ address ∷ [])
  | _ ↦ (false, sockets)
]

abbrev pub set_tx : ℕ → List SocketAddress → ClientHandler → ClientHandler
set_tx uuid sockets h = record h { p2p_connections_tx = insert uuid sockets h.p2p_connections_tx }

-- `establishP2PConnections` for one peer.
unfoldable pub establish_peer :
    (SocketAddress → ℕ → Dialled) → SocketAddress × ℕ → ClientHandler → Bool × ClientHandler
unfolding establish_pool
establish_peer dial peer h =
    let pool = establish_pool dial peer.0 h.p2p_connection_pool_size 0 [] in
    let pooled = set_tx peer.1 pool.1 h in
    let registered = register_peer peer.0 peer.1 h.client_state in
    if contains peer.1 h.p2p_connections_tx
    then (false, h)
    else if pool.0
    then (registered.0, record pooled { client_state = registered.1 })
    else (false, pooled)

-- The loop over the peers: whether all are connected, those that failed, and the handler after it.
unfoldable pub connect_peers :
    (SocketAddress → ℕ → Dialled)
    → List (SocketAddress × ℕ)
    → ClientHandler
    → Bool × List ℕ × ClientHandler
unfolding establish_peer
connect_peers dial [] h = (true, [], h)
connect_peers dial (peer ∷ peers) h =
    let known = contains peer.1 h.p2p_connections_tx in
    let established = establish_peer dial peer h in
    let rest = connect_peers dial peers (if known then h else established.1) in
    if known then rest else if established.0 then rest else (false, peer.1 ∷ [], established.1)

-- The search for a peer in the packet.
unfoldable pub is_listed : List (SocketAddress × ℕ) → ℕ → Bool
is_listed [] uuid = false
is_listed (peer ∷ peers) uuid = if peer.1 == uuid then true else is_listed peers uuid

-- The entries of the peers that are listed.
unfoldable pub keep_listed : {V : Type 0} → List (SocketAddress × ℕ) → List (ℕ × V) → List (ℕ × V)
unfolding is_listed
keep_listed peers [] = []
keep_listed peers ((uuid, v) ∷ m) =
    let rest = keep_listed peers m in if is_listed peers uuid then (uuid, v) ∷ rest else rest

-- A closed pool's peer is unregistered by the address of its first socket.
abbrev pub unregister_pool : List SocketAddress → ClientState → ClientState
unregister_pool [] s = s
unregister_pool (address ∷ sockets) s = (unregister_peer address s).1

unfoldable pub unregister_unlisted :
    List (SocketAddress × ℕ) → List (ℕ × List SocketAddress) → ClientState → ClientState
unfolding is_listed
unregister_unlisted peers [] s = s
unregister_unlisted peers ((uuid, sockets) ∷ m) s =
    unregister_unlisted peers m (if is_listed peers uuid then s else unregister_pool sockets s)

-- The two loops that close the connections that are no longer needed.
unfoldable pub close_unlisted : List (SocketAddress × ℕ) → ClientHandler → ClientHandler
unfolding keep_listed unregister_unlisted
close_unlisted peers h = record h {
  client_state = unregister_unlisted peers h.p2p_connections_tx h.client_state;
  p2p_connections_tx = keep_listed peers h.p2p_connections_tx;
  p2p_connections_rx = keep_listed peers h.p2p_connections_rx;
}

abbrev pub set_world : P2PConnectionInfo → ClientHandler → ClientHandler
set_world info h =
    let s = h.client_state in
    let sized = record s {
      global_world_size = info.global_world_size;
      local_world_size = info.local_world_size;
      num_distinct_peer_groups = info.num_distinct_peer_groups;
      largest_peer_group_world_size = info.largest_peer_group_world_size;
    } in
    record h { client_state = sized }

unfoldable pub follow_info :
    (SocketAddress → ℕ → Dialled)
    → P2PConnectionInfo
    → ClientHandler
    → Bool × List ℕ × ClientHandler
unfolding connect_peers close_unlisted
follow_info dial info h =
    let dialled = connect_peers dial info.all_peers (set_world info h) in
    if info.unchanged
    then (true, [], set_world info h)
    else (dialled.0, dialled.1, close_unlisted info.all_peers dialled.2)

pub data EstablishP2PConnectionResult : Type 0 where
  failed retry_needed success : EstablishP2PConnectionResult

-- The result, the report that is sent, if it is, and the handler.
pub record Established : Type 0 where
  pub result : EstablishP2PConnectionResult
  pub sent : List C2MPacket
  pub handler : ClientHandler

abbrev pub follow_response :
    Bool → ClientHandler → Option (Bool × List ℕ) → EstablishP2PConnectionResult × ClientHandler
follow_response all_peers_connected h none = (failed, h)
follow_response all_peers_connected h (some (agreed, ring)) =
    if not all_peers_connected && agreed
    then (failed, h)
    else if agreed
    then (success, record h { client_state = update_topology ring h.client_state })
    else (retry_needed, h)

abbrev pub send_report : Attempt → Bool × List ℕ × ClientHandler → Established
send_report attempt (all_peers_connected, failed_peers, h) =
    let packet = report_p2p_connections all_peers_connected failed_peers in
    let answered = follow_response all_peers_connected h attempt.response in
    if attempt.report_sent
    then record { result = answered.0; sent = packet ∷ []; handler = answered.1 }
    else record { result = failed; sent = []; handler = h }

unfoldable pub establish_p2p_connections : Attempt → ClientHandler → Established
unfolding follow_info
establish_p2p_connections attempt h = elim attempt.connection_info [
  | none ↦ record { result = failed; sent = []; handler = h }
  | some info ↦ send_report attempt (follow_info attempt.dial info h)
]

-- The loop, with what the sockets will give in each attempt. None: it has not ended with them.
abbrev pub conclude :
    EstablishP2PConnectionResult
    → ClientHandler
    → Option (Bool × ClientHandler)
    → Option (Bool × ClientHandler)
conclude failed h rest = some (false, h)
conclude success h rest =
    some (true, record h { connection_revision = (h.connection_revision + 1) % 2 ^ 64 })
conclude retry_needed h rest = rest

unfoldable pub attempt_all : List Attempt → ClientHandler → Option (Bool × ClientHandler)
unfolding establish_p2p_connections
attempt_all [] h = none
attempt_all (attempt ∷ attempts) h =
    let e = establish_p2p_connections attempt h in
    let rest = attempt_all attempts e.handler in
    if attempt.request_sent then conclude e.result e.handler rest else some (false, h)

unfoldable pub request_and_establish_p2p_connections :
    Bool → List Attempt → ClientHandler → Option (Bool × ClientHandler)
unfolding attempt_all
request_and_establish_p2p_connections is_open attempts h =
    if not h.accepted
    then some (false, h)
    else if not is_open
    then some (false, h)
    else if is_any_collective_coms_op_running h.client_state
    then some (false, h)
    else attempt_all attempts h

-- ===== src/Handler.antt =====
-- The master's answers to the packets of its clients:
-- ccoip/src/cpp/ccoip_master_handler.cpp. What the socket does, sending a packet and closing a
-- connection, is a list of actions in their order.
pub mod Establish
pub mod Connected
pub mod Collective
pub mod Answer
pub mod Sync
pub mod Disconnect
pub mod Topology
pub mod Optimize
pub mod Dispatch
pub mod Served
pub mod Erased
pub mod Sent
pub mod Keeps
use pccl.Common.{
  Text, ℕ, Bool, true, false, ◌&&◌, ◌||◌, not, List, [], ◌∷◌, ◌++◌, Option, none, some,
  if◌then◌else◌, ◌==◌, nat_eq, lookup,
}
pub use pccl.Packets.{
  P2PConnectionInfo, SyncResponse, BenchmarkRequest, M2CPacket, session_registration_response,
  p2p_connection_info, p2p_connections_established, peers_pending_response,
  optimize_topology_response, optimize_topology_complete, sync_shared_state,
  sync_shared_state_complete, collective_comms_commence, collective_comms_abort,
  collective_comms_complete,
}
use pccl.Net.{SocketAddress, socket_eq}
use pccl.Client.{ClientInfo}
use pccl.Master.State.{HashType, MasterState, get_client_entry_set, find_client_uuid}

pub data Action : Type 0 where
  send : SocketAddress → M2CPacket → Action
  kick : SocketAddress → Action

-- A task of the thread pool: it waits to look for a better ring, it has found the one that it is about
-- to set, or it has ended.
pub data Task : Type 0 where
  scheduled : Bool → Task
  solved : List ℕ → Bool → Task
  finished : Task

pub record Handler : Type 0 where
  pub server_state : MasterState
  pub peer_dropped : Bool
  pub previous_p2p_connection_info : List (ℕ × List ClientInfo)
  pub topology_optimization_tasks : List (ℕ × Task)

-- `for (peer_uuid, peer_address : getClientEntrySet())`: the clients that are known and pass the
-- tests of the loop's `continue`s are sent a packet.
unfoldable pub broadcast_to :
    (ClientInfo → Bool) → M2CPacket → MasterState → List (ℕ × SocketAddress) → List Action
broadcast_to p packet s [] = []
broadcast_to p packet s ((u, a) ∷ es) =
    let rest = broadcast_to p packet s es in
    elim (lookup u s.client_info) [
      | none ↦ rest
      | some i ↦ if p i then send a packet ∷ rest else rest
    ]

abbrev pub broadcast : (ClientInfo → Bool) → M2CPacket → MasterState → List Action
broadcast p packet s = broadcast_to p packet s (get_client_entry_set s)

-- A client that is not known, or whose vote is refused, is kicked.
unfoldable pub handle_vote :
    SocketAddress
    → (ℕ → MasterState → MasterState × Bool)
    → (ℕ → Handler → Handler × List Action)
    → Handler
    → Handler × List Action
handle_vote a vote next h = elim (find_client_uuid a h.server_state) [
  | none ↦ (h, kick a ∷ [])
  | some u ↦
      let (s, cast) = vote u h.server_state in
      let voted = record h { server_state = s } in
      if cast then next u voted else (voted, kick a ∷ [])
]

-- What follows the vote of a client, for its own group.
unfoldable pub in_own_group :
    (ℕ → Handler → Handler × List Action) → ℕ → Handler → Handler × List Action
in_own_group check u h = elim (lookup u h.server_state.client_info) [
  | none ↦ (h, [])
  | some i ↦ check i.peer_group h
]

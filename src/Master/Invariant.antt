-- ===== src/Master/Invariant.antt =====
-- What holds of the master's bookkeeping between two packets: the maps of the clients agree, and
-- each set of votes holds exactly the clients in the state of that vote.
pub mod Sets
pub mod Loops
pub mod Maps
pub mod Cast
pub mod Voting
pub mod Turn
pub mod Establish
pub mod Optimize
pub mod Sync
pub mod Collective
pub mod Established
pub mod Members
pub mod Marked
pub mod Partial
pub mod Bookkeeping
use pccl.Common.{
  ℕ, ◌≡◌, Bool, true, false, ◌&&◌, not, List, [], ◌∷◌, Option, none, some, ◌==◌, nat_eq, lookup,
  contains, get_or, has, Unique, length, All, ◌↔◌,
}
use mathlib.Core.Option
use pccl.Net.{SocketAddress, socket_eq}
use pccl.Client.{
  ClientInfo, ConnectionState, is_accepted, state_eq, idle, connecting_to_peers,
  connecting_to_peers_failed, waiting_for_other_peers, vote_accept_new_peers,
  vote_no_new_peers_establish_p2p_connections, vote_optimize_topology,
  vote_complete_topology_optimization, vote_sync_shared_state, vote_complete_shared_state_sync,
  collective_communications_running,
}
use pccl.Master.State.{MasterState}
use pccl.Master.Loop.{Infos}
use pccl.Master.Consensus.Laws.{Keyed}
use Sets.{VotesMatch}
use Loops.{InfoOk, Oks}
use Maps.{IsConsistent}

pub record Inv (s : MasterState) : Type 0 where
  pub consistent : IsConsistent s.client_info s.client_uuids s.uuid_clients
  pub votes : VotesMatch s
  pub clients : Oks s.client_info

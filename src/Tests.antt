-- ===== src/Tests.antt =====
-- Concrete states, and the theorems applied to them.
mod Master
mod Handlers
mod Rings
mod Shared
mod Syncs
mod Departure
mod Runs
mod Wire
mod Clients
mod Reducing
mod Optimizing
use pccl.Common.{
  ℕ, ◌≡◌, refl, Bool, true, false, List, [], ◌∷◌, Option, none, some, nat_eq, lookup, contains,
  length,
}
use pccl.Net.{SocketAddress, InetAddress, ipv4, socket_eq, is_local_address, is_loopback}
use pccl.Client.{
  ClientInfo, VariablePorts, ConnectionState, state_beq, coll_beq, peer_accepted, idle,
  collective_communications_running, vote_initiate_collective_comms, vote_complete_collective_comms,
  no_vote_initiated_query_pending_peers,
}
use pccl.Master.State.{MasterState, initial}
use pccl.Master.Votes.{
  vote_collective_comms_initiate, vote_collective_comms_complete, vote_establish_p2p_connections,
  vote_to_optimize_topology,
}
use pccl.Master.Consensus.{
  collective_comms_initiate_consensus, collective_comms_complete_consensus,
  accept_new_peers_consensus,
}
use pccl.Master.Phases.{
  transition_to_p2p_connections_established_phase, transition_to_perform_collective_comms_phase,
}
use pccl.Master.Registry.{register_client}
use pccl.Master.Reports.{mark_p2p_connections_established}
use pccl.Master.Steps.{
  Step, Reachable, start, next, register, mark_established, established, vote_initiate,
  vote_complete, perform,
}

abbrev pub home : SocketAddress
home = record { inet = ipv4 127 0 0 1; port = 4000 }

abbrev pub home2 : SocketAddress
home2 = record { inet = ipv4 127 0 0 1; port = 4001 }

abbrev pub ports : VariablePorts
ports = record {
  p2p_listen_port = 1;
  shared_dist_state_listen_port = 2;
  bandwidth_benchmark_listen_port = 3;
}

-- The first client joins, connects, and votes for an operation, which it performs and ends.
abbrev pub joined : MasterState
joined = (register_client home ports 0 7 initial).0

abbrev pub waiting : MasterState
waiting = (mark_p2p_connections_established 7 true [] joined).0

abbrev pub ready : MasterState
ready = (transition_to_p2p_connections_established_phase false waiting).0

abbrev pub voting : MasterState
voting = (vote_collective_comms_initiate 7 5 ready).0

abbrev pub performing : MasterState
performing = (transition_to_perform_collective_comms_phase 0 5 voting).0

abbrev pub finishing : MasterState
finishing = (vote_collective_comms_complete 7 5 performing).0

pub joined-Reachable : Reachable joined
joined-Reachable = next initial joined start (register home ports 0 7 initial refl)

pub waiting-Reachable : Reachable waiting
waiting-Reachable = next joined waiting joined-Reachable (mark_established 7 true [] joined)

pub ready-Reachable : Reachable ready
ready-Reachable = next waiting ready waiting-Reachable (established false waiting)

pub voting-Reachable : Reachable voting
voting-Reachable = next ready voting ready-Reachable (vote_initiate 7 5 ready)

pub voting-agreed : collective_comms_initiate_consensus 0 5 voting ≡ true
unfolding collective_comms_initiate_consensus vote_collective_comms_initiate
    transition_to_p2p_connections_established_phase mark_p2p_connections_established register_client
    state_beq coll_beq is_local_address is_loopback
voting-agreed = refl

pub performing-Reachable : Reachable performing
performing-Reachable = next voting performing voting-Reachable (perform 0 5 voting voting-agreed)

pub finishing-Reachable : Reachable finishing
finishing-Reachable = next performing finishing performing-Reachable (vote_complete 7 5 performing)

pub finishing-agreed : collective_comms_complete_consensus 0 5 finishing ≡ true
unfolding collective_comms_complete_consensus vote_collective_comms_complete
    transition_to_perform_collective_comms_phase vote_collective_comms_initiate
    transition_to_p2p_connections_established_phase mark_p2p_connections_established register_client
    state_beq coll_beq is_local_address is_loopback
finishing-agreed = refl

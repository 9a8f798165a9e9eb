-- ===== src/Tests/Runs.antt =====
-- The first client optimizes the topology.
use pccl.Common.{◌≡◌, refl, true, nat_eq}
use pccl.Net.{socket_eq, is_local_address, is_loopback}
use pccl.Client.{state_beq, coll_beq}
use pccl.Master.State.{MasterState}
use pccl.Master.Votes.{vote_to_optimize_topology, vote_topology_optimization_complete}
use pccl.Master.Consensus.{optimize_topology_consensus, topology_optimization_complete_consensus}
use pccl.Master.Phases.{
  transition_to_p2p_connections_established_phase, transition_to_topology_optimization_phase,
}
use pccl.Master.Registry.{register_client}
use pccl.Master.Reports.{mark_p2p_connections_established}
use pccl.Master.Steps.{Reachable, next, vote_optimize, vote_optimized, optimize}
use pccl.Tests.{ready, ready-Reachable}

abbrev pub asking : MasterState
asking = (vote_to_optimize_topology 7 ready).0

pub asking-Reachable : Reachable asking
asking-Reachable = next ready asking ready-Reachable (vote_optimize 7 ready)

pub asking-agreed : optimize_topology_consensus asking ≡ true
unfolding optimize_topology_consensus vote_to_optimize_topology
    transition_to_p2p_connections_established_phase mark_p2p_connections_established register_client
    state_beq coll_beq is_local_address is_loopback
asking-agreed = refl

abbrev pub optimizing : MasterState
optimizing = (transition_to_topology_optimization_phase asking).0

abbrev pub optimized : MasterState
optimized = (vote_topology_optimization_complete 7 optimizing).0

pub optimized-Reachable : Reachable optimized
optimized-Reachable =
    next optimizing optimized
      (next asking optimizing asking-Reachable (optimize asking asking-agreed))
      (vote_optimized 7 optimizing)

pub optimized-agreed : topology_optimization_complete_consensus optimized ≡ true
unfolding topology_optimization_complete_consensus vote_topology_optimization_complete
    transition_to_topology_optimization_phase vote_to_optimize_topology
    transition_to_p2p_connections_established_phase mark_p2p_connections_established register_client
    state_beq coll_beq is_local_address is_loopback
optimized-agreed = refl

-- ===== src/Handler/Keeps/Topology.antt =====
-- A vote to optimize the topology, and the report of a bandwidth.
use pccl.Common.{ℕ, Option-cases, Bool-cases, inl, inr}
use pccl.Net.{SocketAddress}
use pccl.Master.State.{find_client_uuid}
use pccl.Master.Invariant.Bookkeeping.{store_bandwidth-Inv}
use pccl.Master.Consensus.{optimize_topology_consensus}
use pccl.Master.Votes.{vote_to_optimize_topology}
use pccl.Master.Progress.{transition_to_topology_optimization-consensus}
use pccl.Master.Invariant.{Inv}
use pccl.Master.Invariant.Voting.{vote_optimize-Inv}
use pccl.Master.Invariant.Optimize.{transition_to_topology_optimization-Inv}
use pccl.Handler.{Handler}
use pccl.Handler.Topology.{
  check_topology_optimization_consensus, handle_optimize_topology, handle_report_peer_bandwidth,
}
use pccl.Handler.Keeps.{Keeps, handle_vote-Inv}

check_topology-Inv : Keeps check_topology_optimization_consensus
unfolding check_topology_optimization_consensus
check_topology-Inv h v = elim (Bool-cases (optimize_topology_consensus h.server_state)) [
  | inr split ↦ rw (split, check_topology_optimization_consensus) v
  | inl agreed ↦
      rw (agreed, check_topology_optimization_consensus)
        (transition_to_topology_optimization-Inv h.server_state v
          (transition_to_topology_optimization-consensus h.server_state v agreed))
]

-- A vote to optimize the topology, and the start of the optimization after the last vote, keep the
-- invariant.
pub handle_optimize-Inv :
    (a : SocketAddress) (h : Handler)
    → Inv h.server_state
    → Inv (handle_optimize_topology a h).0.server_state
unfolding handle_optimize_topology
handle_optimize-Inv a =
    handle_vote-Inv a vote_to_optimize_topology (λ u. check_topology_optimization_consensus)
      vote_optimize-Inv (λ u. check_topology-Inv)

pub handle_report-Inv :
    (a : SocketAddress) (to bandwidth : ℕ) → Keeps (handle_report_peer_bandwidth a to bandwidth)
unfolding handle_report_peer_bandwidth
handle_report-Inv a to bandwidth h v = elim (Option-cases (find_client_uuid a h.server_state)) [
  | inl e ↦ rw (e, handle_report_peer_bandwidth) v
  | inr (from, e) ↦
      rw (e, handle_report_peer_bandwidth) (store_bandwidth-Inv from to bandwidth h.server_state v)
]

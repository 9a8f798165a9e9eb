-- ===== src/Handler/Topology.antt =====
-- Votes to optimize the topology, with the benchmarks that the clients are asked for, and the
-- bandwidths that they report.
use pccl.Common.{ℕ, List, [], ◌∷◌, none, some, if◌then◌else◌, ◌==◌, nat_eq, lookup}
use pccl.Net.{SocketAddress, socket_eq}
use pccl.Client.{is_accepted}
use pccl.Bandwidth.{BandwidthEntry}
use pccl.Master.State.{MasterState, get_client_entry_set, find_client_uuid}
use pccl.Master.Votes.{vote_to_optimize_topology}
use pccl.Master.Consensus.{optimize_topology_consensus}
use pccl.Master.Phases.{transition_to_topology_optimization_phase}
use pccl.Master.Reports.{missing_bandwidth_entries, store_peer_bandwidth}
use pccl.Handler.{
  Handler, Action, send, kick, handle_vote, BenchmarkRequest, optimize_topology_response,
}

-- The client is asked for the missing bandwidths from it to an accepted client.
unfoldable pub benchmark_requests : ℕ → MasterState → List BandwidthEntry → List BenchmarkRequest
benchmark_requests u s [] = []
benchmark_requests u s (e ∷ es) =
    let rest = benchmark_requests u s es in
    elim (lookup e.to_peer_uuid s.client_info) [
      | none ↦ rest
      | some i ↦
          if e.from_peer_uuid == u
          then (if is_accepted i.connection_phase
              then record {
                from_peer_uuid = e.from_peer_uuid;
                to_peer_uuid = e.to_peer_uuid;
                to_peer_benchmark_endpoint = record {
                  inet = i.socket_address.inet;
                  port = i.variable_ports.bandwidth_benchmark_listen_port;
                };
              }
                ∷ rest
              else rest)
          else rest
    ]

unfoldable pub send_benchmark_requests : MasterState → List (ℕ × SocketAddress) → List Action
unfolding benchmark_requests missing_bandwidth_entries
send_benchmark_requests s [] = []
send_benchmark_requests s ((u, a) ∷ es) =
    let rest = send_benchmark_requests s es in
    let requests = benchmark_requests u s (missing_bandwidth_entries u s) in
    elim (lookup u s.client_info) [
      | none ↦ rest
      | some i ↦
          if is_accepted i.connection_phase
          then send a (optimize_topology_response requests) ∷ rest
          else rest
    ]

unfoldable pub check_topology_optimization_consensus : Handler → Handler × List Action
unfolding send_benchmark_requests
check_topology_optimization_consensus h =
    let s = h.server_state in
    let moved = transition_to_topology_optimization_phase s in
    if optimize_topology_consensus s
    then (
      record h { server_state = moved.0 },
      if moved.1 then send_benchmark_requests moved.0 (get_client_entry_set moved.0) else [],
    )
    else (h, [])

unfoldable pub handle_optimize_topology : SocketAddress → Handler → Handler × List Action
unfolding check_topology_optimization_consensus handle_vote
handle_optimize_topology a =
    handle_vote a vote_to_optimize_topology (λ u. check_topology_optimization_consensus)

-- The handler does not check the peer that the client names.
unfoldable pub handle_report_peer_bandwidth :
    SocketAddress → ℕ → ℕ → Handler → Handler × List Action
unfolding store_peer_bandwidth
handle_report_peer_bandwidth a to bandwidth h = elim (find_client_uuid a h.server_state) [
  | none ↦ (h, kick a ∷ [])
  | some from ↦
      (record h { server_state = store_peer_bandwidth from to bandwidth h.server_state }, [])
]

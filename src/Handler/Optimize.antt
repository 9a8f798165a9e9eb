-- ===== src/Handler/Optimize.antt =====
-- The end of an optimization of the topology: checkTopologyOptimizationCompletionConsensus and
-- performTopologyOptimization of ccoip/src/cpp/ccoip_master_handler.cpp. A task of the thread pool
-- takes the lock of the rings twice, to read the ring and to set the new one, and is thus two steps.
use pccl.Common.{
  ℕ, Bool, true, false, not, List, [], ◌∷◌, Option, none, some, if◌then◌else◌, ◌==◌, nat_eq, lookup,
  contains, insert, erase,
}
use pccl.Net.{SocketAddress, socket_eq}
use pccl.Client.{is_accepted}
use pccl.Bandwidth.{BandwidthEntry, is_bandwidth_store_fully_populated}
use pccl.Topology.{Solver}
use pccl.Master.State.{MasterState, get_existing_peer_groups, get_currently_accepted_peers}
use pccl.Master.Votes.{vote_topology_optimization_complete}
use pccl.Master.Consensus.{topology_optimization_complete_consensus}
use pccl.Master.Phases.{end_topology_optimization_phase}
use pccl.Master.Ring.{set_ring_topology, is_topology_optimal}
use pccl.Master.Reports.{missing_bandwidth_entries, mark_bandwidth_entry_unreachable}
use pccl.Master.Optimization.{perform_topology_optimization, Improvement}
use pccl.Handler.{
  Handler, Action, Task, scheduled, solved, finished, handle_vote, broadcast,
  optimize_topology_complete,
}

abbrev pub set_if_improved : Option Improvement → Task
set_if_improved none = finished
set_if_improved (some (ring, optimal, improved)) =
    if improved then solved ring optimal else finished

unfoldable pub advance_task : Solver → (ℕ → ℕ) → ℕ → Task → MasterState → MasterState × Task
unfolding perform_topology_optimization set_ring_topology
advance_task solver cost g (scheduled moonshot) s =
    let (t, improvement) = perform_topology_optimization solver cost g moonshot s in
    (t, set_if_improved improvement)
advance_task solver cost g (solved ring optimal) s =
    ((set_ring_topology g ring optimal s).0, finished)
advance_task solver cost g finished s = (s, finished)

-- One step of the task of a group.
unfoldable pub advance : Solver → (ℕ → ℕ) → ℕ → Handler → Handler
unfolding advance_task
advance solver cost g h = elim (lookup g h.topology_optimization_tasks) [
  | none ↦ h
  | some task ↦
      let (s, next) = advance_task solver cost g task h.server_state in
      record h {
        server_state = s;
        topology_optimization_tasks = insert g next h.topology_optimization_tasks;
      }
]

-- `join`: the task has ended.
abbrev pub join_task : Solver → (ℕ → ℕ) → ℕ → Handler → Handler
join_task solver cost g h = advance solver cost g (advance solver cost g h)

abbrev pub schedule_task : ℕ → Bool → Handler → Handler
schedule_task g moonshot h = record h {
  topology_optimization_tasks = insert g (scheduled moonshot) h.topology_optimization_tasks;
}

abbrev pub drop_task : ℕ → Handler → Handler
drop_task g h = record h { topology_optimization_tasks = erase g h.topology_optimization_tasks }

-- `performTopologyOptimization`
unfoldable pub start_optimization_task : Solver → (ℕ → ℕ) → ℕ → Handler → Handler
unfolding advance
start_optimization_task solver cost g h =
    let moonshot = contains g h.topology_optimization_tasks in
    let free = drop_task g (join_task solver cost g h) in
    if is_topology_optimal g free.server_state
    then free
    else if moonshot
    then schedule_task g true free
    else join_task solver cost g (schedule_task g false free)

unfoldable pub start_optimization_tasks : Solver → (ℕ → ℕ) → List ℕ → Handler → Handler
unfolding start_optimization_task
start_optimization_tasks solver cost [] h = h
start_optimization_tasks solver cost (g ∷ gs) h =
    start_optimization_tasks solver cost gs
      (if is_topology_optimal g h.server_state then h else start_optimization_task solver cost g h)

unfoldable pub mark_entries : ℕ → List BandwidthEntry → MasterState → MasterState
unfolding mark_bandwidth_entry_unreachable
mark_entries g [] s = s
mark_entries g (e ∷ es) s = mark_entries g es (mark_bandwidth_entry_unreachable g e s)

unfoldable pub mark_missing_of : ℕ → List ℕ → MasterState → MasterState
unfolding mark_entries missing_bandwidth_entries
mark_missing_of g [] s = s
mark_missing_of g (u ∷ us) s = mark_missing_of g us (elim (lookup u s.client_info) [
  | none ↦ s
  | some i ↦ if i.peer_group == g then mark_entries g (missing_bandwidth_entries u s) s else s
])

-- The store is one for all groups.
unfoldable pub mark_missing : List ℕ → MasterState → MasterState
unfolding mark_missing_of
mark_missing [] s = s
mark_missing (g ∷ gs) s = mark_missing gs (
    if is_bandwidth_store_fully_populated s.bandwidth_store
    then s
    else mark_missing_of g (get_currently_accepted_peers s) s)

unfoldable pub check_topology_optimization_completion_consensus :
    Solver → (ℕ → ℕ) → Handler → Handler × List Action
unfolding mark_missing start_optimization_tasks
check_topology_optimization_completion_consensus solver cost h =
    let s = h.server_state in
    let (t, ended) =
      end_topology_optimization_phase false (mark_missing (get_existing_peer_groups s) s) in
    let moved = record h { server_state = t } in
    let done = start_optimization_tasks solver cost (get_existing_peer_groups t) moved in
    if not (topology_optimization_complete_consensus s)
    then (h, [])
    else if not ended
    then (moved, [])
    else (
      done,
      broadcast (λ i. is_accepted i.connection_phase) (optimize_topology_complete true [])
          done.server_state,
    )

unfoldable pub handle_optimize_topology_work_complete :
    Solver → (ℕ → ℕ) → SocketAddress → Handler → Handler × List Action
unfolding check_topology_optimization_completion_consensus handle_vote
handle_optimize_topology_work_complete solver cost a =
    handle_vote a vote_topology_optimization_complete
      (λ u. check_topology_optimization_completion_consensus solver cost)

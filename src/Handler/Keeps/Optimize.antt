-- ===== src/Handler/Keeps/Optimize.antt =====
-- The end of an optimization of the topology, and the tasks that look for better rings, keep the
-- invariant.
use pccl.Common.{
  ℕ, true, false, List, [], ◌∷◌, ◌==◌, nat_eq, lookup, Bool-cases, Option-cases, inl, inr, ◌≡◌, ◌∙◌,
  refl, contains,
}
use pccl.Net.{SocketAddress}
use pccl.Bandwidth.{BandwidthEntry, is_bandwidth_store_fully_populated}
use pccl.Topology.{Solver}
use pccl.Master.State.{MasterState, get_existing_peer_groups, get_currently_accepted_peers}
use pccl.Master.Votes.{vote_topology_optimization_complete}
use pccl.Master.Consensus.{topology_optimization_complete_consensus}
use pccl.Master.Phases.{end_topology_optimization_phase}
use pccl.Master.Ring.{is_topology_optimal}
use pccl.Master.Reports.{missing_bandwidth_entries, mark_bandwidth_entry_unreachable, same_group}
use pccl.Master.Optimization.{perform_topology_optimization}
use pccl.Master.Progress.{end_topology_optimization-consensus}
use pccl.Master.Invariant.{Inv}
use pccl.Master.Invariant.Bookkeeping.{mark_unreachable-Inv}
use pccl.Master.Invariant.Marked.{set_ring_topology-Inv}
use pccl.Master.Invariant.Optimize.{end_topology_optimization-Inv}
use pccl.Master.Invariant.Voting.{vote_complete-Inv}
use pccl.Handler.{Handler, Task, scheduled, solved, finished}
use pccl.Handler.Optimize.{
  advance_task, advance, join_task, schedule_task, drop_task, start_optimization_task,
  start_optimization_tasks, mark_entries, mark_missing_of, mark_missing,
  check_topology_optimization_completion_consensus, handle_optimize_topology_work_complete,
}
use pccl.Handler.Keeps.{Keeps, get_ring_topology-Inv, handle_vote-Inv}

module _ (solver : Solver) (cost : ℕ → ℕ) where
  advance_task-Inv :
      (g : ℕ) (task : Task) (s : MasterState) → Inv s → Inv (advance_task solver cost g task s).0
  unfolding advance_task perform_topology_optimization
  advance_task-Inv g (scheduled moonshot) s v = get_ring_topology-Inv g false s v
  advance_task-Inv g (solved ring optimal) s v = set_ring_topology-Inv g ring optimal s v
  advance_task-Inv g finished s v = v

  pub advance-Inv :
      (g : ℕ) (h : Handler) → Inv h.server_state → Inv (advance solver cost g h).server_state
  unfolding advance
  advance-Inv g h v = elim (Option-cases (lookup g h.topology_optimization_tasks)) [
    | inl e ↦ rw (e, advance) v
    | inr (task, e) ↦ rw (e, advance) (advance_task-Inv g task h.server_state v)
  ]

  join-Inv :
      (g : ℕ) (h : Handler) → Inv h.server_state → Inv (join_task solver cost g h).server_state
  join-Inv g h v = advance-Inv g (advance solver cost g h) (advance-Inv g h v)

  start_task-Inv :
      (g : ℕ) (h : Handler)
      → Inv h.server_state
      → Inv (start_optimization_task solver cost g h).server_state
  unfolding start_optimization_task
  start_task-Inv g h v =
      let free = drop_task g (join_task solver cost g h) in
      elim (Bool-cases (is_topology_optimal g free.server_state)) [
        | inl best ↦ rw (best, start_optimization_task) (join-Inv g h v)
        | inr more ↦ elim (Bool-cases (contains g h.topology_optimization_tasks)) [
          | inl again ↦ rw (more, again, start_optimization_task) (join-Inv g h v)
          | inr first ↦
              rw (more, first, start_optimization_task)
                (join-Inv g (schedule_task g false free) (join-Inv g h v))
        ]
      ]

  start_tasks-Inv :
      (gs : List ℕ) (h : Handler)
      → Inv h.server_state
      → Inv (start_optimization_tasks solver cost gs h).server_state
  unfolding start_optimization_tasks
  start_tasks-Inv [] h v = v
  start_tasks-Inv (g ∷ gs) h v = elim (Bool-cases (is_topology_optimal g h.server_state)) [
    | inl best ↦ rw (best, start_optimization_tasks) (start_tasks-Inv gs h v)
    | inr more ↦
        rw (more, start_optimization_tasks)
          (start_tasks-Inv gs (start_optimization_task solver cost g h) (start_task-Inv g h v))
  ]

-- What each mark of a missing bandwidth keeps.
module _ (P : MasterState → Type 0)
    (keeps : (g : ℕ) (e : BandwidthEntry) (s : MasterState)
      → P s
      → P (mark_bandwidth_entry_unreachable g e s)) where
  mark_entries-keeps :
      (g : ℕ) (es : List BandwidthEntry) (s : MasterState) → P s → P (mark_entries g es s)
  unfolding mark_entries
  mark_entries-keeps g [] s v = v
  mark_entries-keeps g (e ∷ es) s v =
      mark_entries-keeps g es (mark_bandwidth_entry_unreachable g e s) (keeps g e s v)

  mark_missing_of-keeps : (g : ℕ) (us : List ℕ) (s : MasterState) → P s → P (mark_missing_of g us s)
  unfolding mark_missing_of
  mark_missing_of-keeps g [] s v = v
  mark_missing_of-keeps g (u ∷ us) s v = elim (Option-cases (lookup u s.client_info)) [
    | inl e ↦ rw e (mark_missing_of-keeps g us s v)
    | inr (i, e) ↦ elim (Bool-cases (i.peer_group == g)) [
      | inl own ↦
          rw (e, own)
            (mark_missing_of-keeps g us (mark_entries g (missing_bandwidth_entries u s) s)
              (mark_entries-keeps g (missing_bandwidth_entries u s) s v))
      | inr other ↦ rw (e, other) (mark_missing_of-keeps g us s v)
    ]
  ]

  mark_missing-keeps : (gs : List ℕ) (s : MasterState) → P s → P (mark_missing gs s)
  unfolding mark_missing
  mark_missing-keeps [] s v = v
  mark_missing-keeps (g ∷ gs) s v =
      elim (Bool-cases (is_bandwidth_store_fully_populated s.bandwidth_store)) [
        | inl full ↦ rw full (mark_missing-keeps gs s v)
        | inr partial ↦ rw partial (
            mark_missing-keeps gs (mark_missing_of g (get_currently_accepted_peers s) s)
              (mark_missing_of-keeps g (get_currently_accepted_peers s) s v))
      ]

-- The marks do not touch the votes.
mark-consensus :
    (g : ℕ) (e : BandwidthEntry) (s : MasterState)
    → topology_optimization_complete_consensus (mark_bandwidth_entry_unreachable g e s)
      ≡ topology_optimization_complete_consensus s
unfolding mark_bandwidth_entry_unreachable topology_optimization_complete_consensus
mark-consensus g e s = elim (Bool-cases (same_group e.from_peer_uuid e.to_peer_uuid s)) [
  | inl same ↦ rw (same, mark_bandwidth_entry_unreachable) refl
  | inr other ↦ rw (other, mark_bandwidth_entry_unreachable) refl
]

abbrev Agreed : MasterState → Type 0
Agreed s = Inv s × (topology_optimization_complete_consensus s ≡ true)

mark_missing-Agreed : (gs : List ℕ) (s : MasterState) → Agreed s → Agreed (mark_missing gs s)
mark_missing-Agreed =
    mark_missing-keeps Agreed
      (λ g e s a. (mark_unreachable-Inv g e s a.0, mark-consensus g e s ∙ a.1))

module _ (solver : Solver) (cost : ℕ → ℕ) where
  check_completion-Inv : Keeps (check_topology_optimization_completion_consensus solver cost)
  unfolding check_topology_optimization_completion_consensus
  check_completion-Inv h v =
      elim (Bool-cases (topology_optimization_complete_consensus h.server_state)) [
        | inr split ↦ rw (split, check_topology_optimization_completion_consensus) v
        | inl agreed ↦
            let s = mark_missing (get_existing_peer_groups h.server_state) h.server_state in
            let a =
              mark_missing-Agreed (get_existing_peer_groups h.server_state) h.server_state
                (v, agreed) in
            let ended = end_topology_optimization-consensus s a.0 false a.1 in
            let t = (end_topology_optimization_phase false s).0 in
            rw (agreed, ended, check_topology_optimization_completion_consensus)
              (start_tasks-Inv solver cost (get_existing_peer_groups t)
                (record h { server_state = t }) (end_topology_optimization-Inv s a.0 false ended))
      ]

  pub handle_work_complete-Inv :
      (a : SocketAddress) (h : Handler)
      → Inv h.server_state
      → Inv (handle_optimize_topology_work_complete solver cost a h).0.server_state
  unfolding handle_optimize_topology_work_complete
  handle_work_complete-Inv a =
      handle_vote-Inv a vote_topology_optimization_complete
        (λ u. check_topology_optimization_completion_consensus solver cost) vote_complete-Inv
        (λ u. check_completion-Inv)

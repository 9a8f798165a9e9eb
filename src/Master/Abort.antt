-- ===== src/Master/Abort.antt =====
-- The abort flags of the collective operations.
use pccl.Common.{
  ℕ, ◌≡◌, true, false, ◌||◌, ◌&&◌, not, [], if◌then◌else◌, ◌==◌, nat_eq, nat_beq_iff, get_or,
  insert, erase, Unique, arith, lookup-insert, lookup-erase, get_or-lookup,
}
use pccl.Master.State.{MasterState}
use pccl.Master.Phases.{
  abort_collective_comms_operation, is_collective_comms_operation_aborted,
  transition_to_collective_comms_complete_phase,
}

-- An abort counts as the first one exactly if the operation was not aborted before, and it sets
-- the flag of that group and tag and no other.
pub abort-is_aborted :
    (g tag h t : ℕ) (s : MasterState)
    → ((abort_collective_comms_operation g tag s).1
        ≡ not (is_collective_comms_operation_aborted g tag s))
      × (is_collective_comms_operation_aborted h t (abort_collective_comms_operation g tag s).0
          ≡ (is_collective_comms_operation_aborted h t s || (g == h && tag == t)))
unfolding abort_collective_comms_operation is_collective_comms_operation_aborted
abort-is_aborted g tag h t s =
    let flags = get_or [] g s.collective_comms_op_abort_states in
    (
      ground (
        arith,
        get_or-lookup [] g s.collective_comms_op_abort_states,
        get_or-lookup false tag flags,
      ),
      ground (
        arith,
        nat_beq_iff g h,
        nat_beq_iff tag t,
        get_or-lookup [] g s.collective_comms_op_abort_states,
        get_or-lookup false tag flags,
        lookup-insert tag t true flags,
        lookup-insert g h (insert tag true flags) s.collective_comms_op_abort_states,
      ),
    )

-- If no tag stands twice in the group's flags, the end of an operation that succeeds takes its
-- flag back, and leaves the flags of all other groups and tags as they are.
pub complete-is_aborted :
    (g tag h t : ℕ) (s : MasterState)
    → Unique (get_or [] g s.collective_comms_op_abort_states)
    → (transition_to_collective_comms_complete_phase g tag s).1 ≡ true
    → is_collective_comms_operation_aborted h t
        (transition_to_collective_comms_complete_phase g tag s).0
      ≡ (if g == h && tag == t then false else is_collective_comms_operation_aborted h t s)
unfolding transition_to_collective_comms_complete_phase is_collective_comms_operation_aborted
complete-is_aborted g tag h t s once done =
    let flags = get_or [] g s.collective_comms_op_abort_states in
    ground (
      arith,
      nat_beq_iff g h,
      nat_beq_iff tag t,
      get_or-lookup [] g s.collective_comms_op_abort_states,
      get_or-lookup false tag flags,
      lookup-erase tag t flags once,
      lookup-insert g h (erase tag flags) s.collective_comms_op_abort_states,
    )

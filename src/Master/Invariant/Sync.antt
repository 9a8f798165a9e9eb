-- ===== src/Master/Invariant/Sync.antt =====
-- The start and the end of the distribution of shared state keep the invariant.
use pccl.Common.{
  ℕ, ◌≡◌, refl, true, [], Option, none, some, ◌==◌, nat_eq, insert, arith, Bool-cases, inl, inr,
  get_or-insert,
}
use pccl.Client.{
  ClientInfo, ConnectionState, state_eq, state_beq, state_beq_iff, coll_eq, idle,
  vote_sync_shared_state, distribute_shared_state, request_shared_state,
  vote_complete_shared_state_sync,
}
use pccl.Master.State.{
  MasterState, SharedStateMismatchStatus, successful_match, key_set_mismatch, content_hash_mismatch,
  revision_outdated, revision_increment_violation,
}
use pccl.Master.Loop.{visit}
use pccl.Master.Consensus.{is_member, in_group}
use pccl.Master.Phases.{
  end_sync_step, end_shared_state_sync_phase, sync_step, transition_to_shared_state_sync_phase,
  get_shared_state_mismatch_status,
}
use pccl.Master.Invariant.{Inv}
use pccl.Master.Invariant.Sets.{votes_for}
use pccl.Master.Invariant.Loops.{InfoOk, run_step, passes}
use pccl.Master.Invariant.Turn.{Acts, unmoved, settled, visit-Inv}

module _ (s : MasterState) (v : Inv s) where
  end_sync_step-InfoOk :
      (g : ℕ) (i : ClientInfo)
      → InfoOk i
      → passes (end_sync_step g) i ≡ true
      → InfoOk (run_step (end_sync_step g) i)
  unfolding state_beq
  end_sync_step-InfoOk g i o h = elim (Bool-cases (is_member g i)) [
    | inl a ↦
        settled idle (end_sync_step g) i o (ground arith) (ground arith) (ground (arith, o.busy))
          refl
    | inr r ↦ unmoved (end_sync_step g) i o (ground arith)
  ]

  end_sync-Acts :
      (k : ℕ) (t : MasterState) (st : ConnectionState) (g : ℕ)
      → t.votes_accept_new_peers ≡ s.votes_accept_new_peers
      → t.votes_establish_p2p_connections ≡ s.votes_establish_p2p_connections
      → t.votes_optimize_topology ≡ s.votes_optimize_topology
      → t.votes_complete_topology_optimization ≡ s.votes_complete_topology_optimization
      → t.votes_sync_shared_state ≡ s.votes_sync_shared_state
      → t.votes_sync_shared_state_complete ≡ insert k [] s.votes_sync_shared_state_complete
      → Acts s t (run_step (end_sync_step k)) (passes (end_sync_step k)) st g
  unfolding votes_for state_beq
  end_sync-Acts k t vote_complete_shared_state_sync g a b c d e f = elim (Bool-cases (k == g)) [
    | inl here ↦ inr (
      ground (arith, get_or-insert [] k g [] s.votes_sync_shared_state_complete),
      λ i o h. ground (arith, o.pending),
    )
    | inr other ↦ inl (
      ground (arith, get_or-insert [] k g [] s.votes_sync_shared_state_complete),
      λ i o h. ground (arith, o.pending),
    )
  ]
  end_sync-Acts k t _ g a b c d e f = inl (ground arith, λ i o h. ground (arith, o.pending))

  pub end_shared_state_sync-Inv :
      (k : ℕ) → (end_shared_state_sync_phase k s).1 ≡ true → Inv (end_shared_state_sync_phase k s).0
  unfolding end_shared_state_sync_phase
  end_shared_state_sync-Inv k h = elim (Bool-cases (visit (end_sync_step k) s.client_info).1) [
    | inl done ↦
        rw (done, end_shared_state_sync_phase)
          (visit-Inv s v _ (end_sync_step k)
            (record { uuid = λ i. ground arith; address = λ i. ground arith }) refl done refl refl
            (end_sync_step-InfoOk k) (λ st g. end_sync-Acts k _ st g refl refl refl refl refl refl))
    | inr left ↦ absurd (ground arith)
  ]

  target-InfoOk :
      (g : ℕ) (i : ClientInfo)
      → InfoOk i
      → i.connection_state ≡ vote_sync_shared_state
      → in_group g i ≡ true
      → (o : Option SharedStateMismatchStatus)
      → get_shared_state_mismatch_status i.client_uuid s ≡ o
      → InfoOk (run_step (sync_step g s) i)
  unfolding state_beq sync_step
  target-InfoOk g i o e m none h = unmoved (sync_step g s) i o (ground arith)
  target-InfoOk g i o e m (some successful_match) h =
      settled distribute_shared_state (sync_step g s) i o (ground arith) (ground (arith, o.pending))
        (ground arith) refl
  target-InfoOk g i o e m (some key_set_mismatch) h = unmoved (sync_step g s) i o (ground arith)
  target-InfoOk g i o e m (some content_hash_mismatch) h =
      settled request_shared_state (sync_step g s) i o (ground arith) (ground (arith, o.pending))
        (ground arith) refl
  target-InfoOk g i o e m (some revision_outdated) h =
      settled request_shared_state (sync_step g s) i o (ground arith) (ground (arith, o.pending))
        (ground arith) refl
  target-InfoOk g i o e m (some revision_increment_violation) h =
      settled request_shared_state (sync_step g s) i o (ground arith) (ground (arith, o.pending))
        (ground arith) refl

  sync_step-InfoOk :
      (g : ℕ) (i : ClientInfo)
      → InfoOk i
      → passes (sync_step g s) i ≡ true
      → InfoOk (run_step (sync_step g s) i)
  unfolding sync_step
  sync_step-InfoOk g i o h = elim (Bool-cases (in_group g i)) [
    | inl m ↦ elim (Bool-cases (i.connection_state == vote_sync_shared_state)) [
      | inl e ↦
          target-InfoOk g i o
            (ground (arith, state_beq_iff i.connection_state vote_sync_shared_state)) m _ refl
      | inr e ↦ unmoved (sync_step g s) i o (ground arith)
    ]
    | inr r ↦ unmoved (sync_step g s) i o (ground arith)
  ]

  step_uuid : (g : ℕ) (i : ClientInfo) → (run_step (sync_step g s) i).client_uuid ≡ i.client_uuid
  unfolding sync_step
  step_uuid g i = ground arith

  step_address :
      (g : ℕ) (i : ClientInfo) → (run_step (sync_step g s) i).socket_address ≡ i.socket_address
  unfolding sync_step
  step_address g i = ground arith

  start_sync-Acts :
      (k : ℕ) (t : MasterState) (st : ConnectionState) (g : ℕ)
      → t.votes_accept_new_peers ≡ s.votes_accept_new_peers
      → t.votes_establish_p2p_connections ≡ s.votes_establish_p2p_connections
      → t.votes_optimize_topology ≡ s.votes_optimize_topology
      → t.votes_complete_topology_optimization ≡ s.votes_complete_topology_optimization
      → t.votes_sync_shared_state ≡ insert k [] s.votes_sync_shared_state
      → t.votes_sync_shared_state_complete ≡ s.votes_sync_shared_state_complete
      → Acts s t (run_step (sync_step k s)) (passes (sync_step k s)) st g
  unfolding votes_for state_beq sync_step
  start_sync-Acts k t vote_sync_shared_state g a b c d e f = elim (Bool-cases (k == g)) [
    | inl here ↦ inr (
      ground (arith, get_or-insert [] k g [] s.votes_sync_shared_state),
      λ i o h. ground (arith, o.pending),
    )
    | inr other ↦ inl (
      ground (arith, get_or-insert [] k g [] s.votes_sync_shared_state),
      λ i o h. ground (arith, o.pending),
    )
  ]
  start_sync-Acts k t _ g a b c d e f = inl (ground arith, λ i o h. ground (arith, o.pending))

  pub transition_to_shared_state_sync-Inv :
      (k : ℕ)
      → (transition_to_shared_state_sync_phase k s).1 ≡ true
      → Inv (transition_to_shared_state_sync_phase k s).0
  unfolding transition_to_shared_state_sync_phase
  transition_to_shared_state_sync-Inv k h =
      elim (Bool-cases (visit (sync_step k s) s.client_info).1) [
        | inl done ↦
            rw (done, transition_to_shared_state_sync_phase)
              (visit-Inv s v _ (sync_step k s)
                (record { uuid = λ i. step_uuid k i; address = λ i. step_address k i }) refl done
                refl refl (sync_step-InfoOk k)
                (λ st g. start_sync-Acts k _ st g refl refl refl refl refl refl))
        | inr left ↦ absurd (ground arith)
      ]

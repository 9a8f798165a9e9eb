-- ===== src/Master/Invariant/Collective.antt =====
-- The two transitions of a collective operation keep the invariant.
use pccl.Common.{
  ℕ, ◌≡◌, refl, sym, true, nat_eq, lookup, arith, contains-some, Bool-cases, Option-cases, inl, inr,
  insert-Unique, erase-Unique, length-insert_old, subst,
}
use pccl.Client.{
  ClientInfo, ConnectionState, state_eq, state_beq, state_beq_iff, coll_eq,
  collective_communications_running, perform_collective_comms,
}
use pccl.Master.State.{MasterState}
use pccl.Master.Consensus.{is_member}
use pccl.Master.Phases.{
  perform_step, drop_collective, transition_to_perform_collective_comms_phase, complete_step,
  transition_to_collective_comms_complete_phase,
}
use pccl.Master.Votes.{put_collective}
use pccl.Master.Invariant.Turn.{Acts, unmoved, visit-Inv}
use pccl.Master.Invariant.{Inv}
use pccl.Master.Invariant.Sets.{votes_for}
use pccl.Master.Invariant.Loops.{InfoOk, run_step, passes}

module _ (s : MasterState) (v : Inv s) where
  -- An accepted member of the group that takes part in the operation.
  perform_step-InfoOk :
      (g tag : ℕ) (i : ClientInfo)
      → InfoOk i
      → passes (perform_step g tag) i ≡ true
      → InfoOk (run_step (perform_step g tag) i)
  unfolding perform_step
  perform_step-InfoOk g tag i o h = elim (Bool-cases (is_member g i)) [
    | inr r ↦ unmoved (perform_step g tag) i o (ground arith)
    | inl m ↦ elim (Option-cases (lookup tag i.collective_coms_states)) [
      | inl e ↦ absurd (ground arith)
      | inr (c, e) ↦
          let moved : run_step (perform_step g tag) i
              ≡ put_collective tag perform_collective_comms i =
            ground arith in
          subst InfoOk (sym moved) (record {
            tags_once =
                insert-Unique tag perform_collective_comms i.collective_coms_states o.tags_once;
            busy = ground (
              arith,
              o.busy,
              length-insert_old tag perform_collective_comms i.collective_coms_states
                  (contains-some tag c i.collective_coms_states e),
            );
            pending = o.pending;
          })
    ]
  ]

  complete_step-InfoOk :
      (g tag : ℕ) (i : ClientInfo)
      → InfoOk i
      → passes (complete_step g tag) i ≡ true
      → InfoOk (run_step (complete_step g tag) i)
  unfolding complete_step state_beq
  complete_step-InfoOk g tag i o h = elim (Bool-cases (is_member g i)) [
    | inr r ↦ unmoved (complete_step g tag) i o (ground arith)
    | inl m ↦ elim (Option-cases (lookup tag i.collective_coms_states)) [
      | inl e ↦ absurd (ground arith)
      | inr (c, e) ↦
          let moved : run_step (complete_step g tag) i ≡ drop_collective tag i = ground arith in
          subst InfoOk (sym moved) (record {
            tags_once = erase-Unique tag i.collective_coms_states o.tags_once;
            busy = ground arith;
            pending = λ r. ground arith;
          })
    ]
  ]

  perform_step-Acts :
      (k tag : ℕ) (t : MasterState) (st : ConnectionState) (g : ℕ)
      → votes_for st g t ≡ votes_for st g s
      → Acts s t (run_step (perform_step k tag)) (passes (perform_step k tag)) st g
  unfolding perform_step
  perform_step-Acts k tag t st g e = inl (e, λ i o h. ground arith)

  complete_step-Acts :
      (k tag : ℕ) (t : MasterState) (st : ConnectionState) (g : ℕ)
      → votes_for st g t ≡ votes_for st g s
      → Acts s t (run_step (complete_step k tag)) (passes (complete_step k tag)) st g
  unfolding complete_step state_beq
  complete_step-Acts k tag t st g e = inl (
    e,
    λ i o h. ground (arith, state_beq_iff i.connection_state collective_communications_running),
  )

  perform_uuid :
      (g tag : ℕ) (i : ClientInfo) → (run_step (perform_step g tag) i).client_uuid ≡ i.client_uuid
  unfolding perform_step
  perform_uuid g tag i = ground arith

  perform_address :
      (g tag : ℕ) (i : ClientInfo)
      → (run_step (perform_step g tag) i).socket_address ≡ i.socket_address
  unfolding perform_step
  perform_address g tag i = ground arith

  complete_uuid :
      (g tag : ℕ) (i : ClientInfo) → (run_step (complete_step g tag) i).client_uuid ≡ i.client_uuid
  unfolding complete_step
  complete_uuid g tag i = ground arith

  complete_address :
      (g tag : ℕ) (i : ClientInfo)
      → (run_step (complete_step g tag) i).socket_address ≡ i.socket_address
  unfolding complete_step
  complete_address g tag i = ground arith

  pub transition_to_perform-Inv :
      (k tag : ℕ)
      → (transition_to_perform_collective_comms_phase k tag s).1 ≡ true
      → Inv (transition_to_perform_collective_comms_phase k tag s).0
  unfolding transition_to_perform_collective_comms_phase votes_for
  transition_to_perform-Inv k tag done =
      visit-Inv s v _ (perform_step k tag)
        (record { uuid = perform_uuid k tag; address = perform_address k tag }) refl done refl refl
        (perform_step-InfoOk k tag) (λ st g. perform_step-Acts k tag _ st g (ground arith))

  pub transition_to_complete-Inv :
      (k tag : ℕ)
      → (transition_to_collective_comms_complete_phase k tag s).1 ≡ true
      → Inv (transition_to_collective_comms_complete_phase k tag s).0
  unfolding transition_to_collective_comms_complete_phase votes_for
  transition_to_complete-Inv k tag done =
      visit-Inv s v _ (complete_step k tag)
        (record { uuid = complete_uuid k tag; address = complete_address k tag }) refl done refl
        refl (complete_step-InfoOk k tag) (λ st g. complete_step-Acts k tag _ st g (ground arith))

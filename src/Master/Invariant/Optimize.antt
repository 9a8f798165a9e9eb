-- ===== src/Master/Invariant/Optimize.antt =====
-- The start and the end of the topology optimisation keep the invariant.
use pccl.Common.{ℕ, ◌≡◌, refl, Bool, true, [], if◌then◌else◌, nat_eq, arith, Bool-cases, inl, inr}
use pccl.Client.{
  ClientInfo, ConnectionState, is_accepted, state_eq, state_beq, coll_eq, idle,
  vote_optimize_topology, optimize_topology, optimize_topology_failed,
  vote_complete_topology_optimization,
}
use pccl.Master.State.{MasterState}
use pccl.Master.Loop.{visit}
use pccl.Master.Phases.{
  optimize_step, end_optimize_step, transition_to_topology_optimization_phase,
  end_topology_optimization_phase,
}
use pccl.Master.Invariant.{Inv}
use pccl.Master.Invariant.Sets.{votes_for}
use pccl.Master.Invariant.Loops.{InfoOk, run_step, passes}
use pccl.Master.Invariant.Turn.{Acts, unmoved, settled, visit-Inv}

module _ (s : MasterState) (v : Inv s) where
  optimize_step-InfoOk :
      (i : ClientInfo)
      → InfoOk i
      → passes optimize_step i ≡ true
      → InfoOk (run_step optimize_step i)
  unfolding state_beq
  optimize_step-InfoOk i o h = elim (Bool-cases (is_accepted i.connection_phase)) [
    | inl a ↦
        settled optimize_topology optimize_step i o (ground arith) a (ground (arith, o.busy)) refl
    | inr r ↦ unmoved optimize_step i o (ground arith)
  ]

  optimize-Acts :
      (t : MasterState) (st : ConnectionState) (g : ℕ)
      → t ≡ record s {
        client_info = (visit optimize_step s.client_info).0;
        votes_optimize_topology = [];
      }
      → Acts s t (run_step optimize_step) (passes optimize_step) st g
  unfolding votes_for state_beq
  optimize-Acts t vote_optimize_topology g e =
      inr (ground arith, λ i o h. ground (arith, o.pending))
  optimize-Acts t _ g e = inl (ground arith, λ i o h. ground (arith, o.pending))

  pub transition_to_topology_optimization-Inv :
      (transition_to_topology_optimization_phase s).1 ≡ true
      → Inv (transition_to_topology_optimization_phase s).0
  unfolding transition_to_topology_optimization_phase
  transition_to_topology_optimization-Inv h =
      visit-Inv s v _ optimize_step
        (record { uuid = λ i. ground arith; address = λ i. ground arith }) refl h refl refl
        optimize_step-InfoOk (λ st g. optimize-Acts _ st g (ground arith))

  end_optimize_step-InfoOk :
      (failed : Bool) (i : ClientInfo)
      → InfoOk i
      → passes (end_optimize_step failed) i ≡ true
      → InfoOk (run_step (end_optimize_step failed) i)
  unfolding state_beq
  end_optimize_step-InfoOk failed i o h = elim (Bool-cases (is_accepted i.connection_phase)) [
    | inl a ↦
        settled (if failed then optimize_topology_failed else idle) (end_optimize_step failed) i o
          (ground arith) a (ground (arith, o.busy)) (ground arith)
    | inr r ↦ unmoved (end_optimize_step failed) i o (ground arith)
  ]

  end_optimize-Acts :
      (failed : Bool) (t : MasterState) (st : ConnectionState) (g : ℕ)
      → t ≡ record s {
        client_info = (visit (end_optimize_step failed) s.client_info).0;
        votes_complete_topology_optimization = [];
      }
      → Acts s t (run_step (end_optimize_step failed)) (passes (end_optimize_step failed)) st g
  unfolding votes_for state_beq
  end_optimize-Acts failed t vote_complete_topology_optimization g e =
      inr (ground arith, λ i o h. ground (arith, o.pending))
  end_optimize-Acts failed t _ g e = inl (ground arith, λ i o h. ground (arith, o.pending))

  pub end_topology_optimization-Inv :
      (failed : Bool)
      → (end_topology_optimization_phase failed s).1 ≡ true
      → Inv (end_topology_optimization_phase failed s).0
  unfolding end_topology_optimization_phase
  end_topology_optimization-Inv failed h =
      visit-Inv s v _ (end_optimize_step failed)
        (record { uuid = λ i. ground arith; address = λ i. ground arith }) refl h refl refl
        (end_optimize_step-InfoOk failed) (λ st g. end_optimize-Acts failed _ st g (ground arith))

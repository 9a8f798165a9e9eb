-- ===== src/Master/Progress.antt =====
-- A transition that follows its consensus does not fail.
use pccl.Common.{
  ℕ, ◌≡◌, refl, sym, ◌∙◌, Bool, true, false, List, [], ◌∷◌, Option, some, if◌then◌else◌, ◌==◌,
  nat_eq, lookup, get_or, values, all, length, arith, Bool-cases, Option-cases, inl, inr,
}
use pccl.Client.{
  CollectiveCommunicationState, ClientInfo, is_accepted, ConnectionState, state_eq, state_beq_iff,
  coll_eq, idle, vote_optimize_topology, optimize_topology, optimize_topology_failed,
  vote_complete_topology_optimization, vote_complete_shared_state_sync,
  vote_initiate_collective_comms, vote_complete_collective_comms,
}
use pccl.Master.State.{MasterState}
use pccl.Master.Loop.{Infos, visit}
use pccl.Master.Consensus.{
  voted_or_registered, sync_shared_state_complete_consensus, optimize_topology_consensus,
  topology_optimization_complete_consensus, collective_comms_initiate_consensus,
  collective_comms_complete_consensus, is_member, at_tag,
}
use pccl.Master.Consensus.Laws.{
  global_consensus-all, collective_consensus-all, group_consensus-members,
}
use pccl.Master.Phases.{
  optimize_step, end_optimize_step, transition_to_topology_optimization_phase,
  end_topology_optimization_phase, end_sync_step, end_shared_state_sync_phase, perform_step,
  transition_to_perform_collective_comms_phase, complete_step,
  transition_to_collective_comms_complete_phase,
}
use pccl.Master.Votes.{put_state}
use pccl.Master.Invariant.{Inv}
use pccl.Master.Invariant.Loops.{InfoOk, Oks, is_running, is_pending_state, passes, visit-passes}

-- A test that implies another, for each client of the map.
all-Oks :
    (p q : ClientInfo → Bool) (m : Infos)
    → ((i : ClientInfo) → InfoOk i → p i ≡ true → q i ≡ true)
    → Oks m
    → all p (values m) ≡ true
    → all q (values m) ≡ true
all-Oks p q [] imp o h = refl
all-Oks p q ((k, i) ∷ m) imp o h = ground (arith, imp i o.0, all-Oks p q m imp o.1)

passes-some :
    (f : ClientInfo → Option ClientInfo) (i j : ClientInfo) → f i ≡ some j → passes f i ≡ true
passes-some f i j e = ground arith

optimize_step-passes :
    (i : ClientInfo)
    → voted_or_registered vote_optimize_topology i ≡ true
    → passes optimize_step i ≡ true
optimize_step-passes i h = elim (Bool-cases (is_accepted i.connection_phase)) [
  | inl a ↦
      let e : (i.connection_state == vote_optimize_topology) ≡ true = ground arith in
      passes-some optimize_step i (put_state optimize_topology i) (rw (a, e) refl)
  | inr r ↦ passes-some optimize_step i i (rw r refl)
]

end_optimize_step-passes :
    (failed : Bool) (i : ClientInfo)
    → voted_or_registered vote_complete_topology_optimization i ≡ true
    → passes (end_optimize_step failed) i ≡ true
end_optimize_step-passes failed i h = elim (Bool-cases (is_accepted i.connection_phase)) [
  | inl a ↦
      let e : (i.connection_state == vote_complete_topology_optimization) ≡ true = ground arith in
      passes-some (end_optimize_step failed) i
        (put_state (if failed then optimize_topology_failed else idle) i) (rw (a, e) refl)
  | inr r ↦ passes-some (end_optimize_step failed) i i (rw r refl)
]

end_sync_step-passes :
    (g : ℕ) (i : ClientInfo)
    → (if is_member g i then i.connection_state == vote_complete_shared_state_sync else true) ≡ true
    → passes (end_sync_step g) i ≡ true
end_sync_step-passes g i h = elim (Bool-cases (is_member g i)) [
  | inl a ↦
      let e : (i.connection_state == vote_complete_shared_state_sync) ≡ true = ground arith in
      ground arith
  | inr r ↦ ground arith
]

-- A client with an operation is in the state for operations.
pub busy-running :
    (tag : ℕ) (c : CollectiveCommunicationState) (i : ClientInfo)
    → InfoOk i
    → lookup tag i.collective_coms_states ≡ some c
    → is_running i ≡ true
busy-running tag c i o e = ground (arith, o.busy, lookup-nonempty tag c i.collective_coms_states)
  where
    lookup-nonempty :
        (u : ℕ) (d : CollectiveCommunicationState) (m : List (ℕ × CollectiveCommunicationState))
        → lookup u m ≡ some d
        → (length m == 0) ≡ false
    lookup-nonempty u d [] h = absurd (ground arith)
    lookup-nonempty u d (x ∷ m) h = ground arith

perform_step-passes :
    (g tag : ℕ) (i : ClientInfo)
    → InfoOk i
    → (if is_member g i then at_tag tag vote_initiate_collective_comms i else true) ≡ true
    → passes (perform_step g tag) i ≡ true
unfolding perform_step
perform_step-passes g tag i o h = elim (Bool-cases (is_member g i)) [
  | inr r ↦ ground arith
  | inl a ↦ elim (Option-cases (lookup tag i.collective_coms_states)) [
    | inl e ↦ absurd (ground arith)
    | inr (c, e) ↦ let run = busy-running tag c i o e in ground arith
  ]
]

complete_step-passes :
    (g tag : ℕ) (i : ClientInfo)
    → InfoOk i
    → (if is_member g i then at_tag tag vote_complete_collective_comms i else true) ≡ true
    → passes (complete_step g tag) i ≡ true
unfolding complete_step
complete_step-passes g tag i o h = elim (Bool-cases (is_member g i)) [
  | inr r ↦ ground arith
  | inl a ↦ elim (Option-cases (lookup tag i.collective_coms_states)) [
    | inl e ↦ absurd (ground arith)
    | inr (c, e) ↦ let run = busy-running tag c i o e in ground arith
  ]
]

pub syncing-accepted :
    (st : ConnectionState) (m : Infos)
    → is_pending_state st ≡ false
    → Oks m
    → all
        (λ i. if i.connection_state == st then is_accepted i.connection_phase else true)
        (values m)
      ≡ true
syncing-accepted st [] e o = refl
syncing-accepted st ((k, i) ∷ m) e o =
    ground (arith, state_beq_iff i.connection_state st, o.0.pending, syncing-accepted st m e o.1)

module _ (s : MasterState) (v : Inv s) where
  -- In a state that satisfies the invariant, the transition to the optimization of the topology
  -- succeeds whenever its consensus holds.
  pub transition_to_topology_optimization-consensus :
      optimize_topology_consensus s ≡ true → (transition_to_topology_optimization_phase s).1 ≡ true
  unfolding transition_to_topology_optimization_phase optimize_topology_consensus
  transition_to_topology_optimization-consensus h = visit-passes optimize_step s.client_info (
      all-Oks (voted_or_registered vote_optimize_topology) (passes optimize_step) s.client_info
        (λ i o p. optimize_step-passes i p) v.clients
        (sym (
            global_consensus-all vote_optimize_topology s v.consistent.once v.consistent.keyed
              v.consistent.same_size)
          ∙ h))

  -- In a state that satisfies the invariant, the end of the optimization of the topology, failed
  -- or not, succeeds whenever its consensus holds.
  pub end_topology_optimization-consensus :
      (failed : Bool)
      → topology_optimization_complete_consensus s ≡ true
      → (end_topology_optimization_phase failed s).1 ≡ true
  unfolding end_topology_optimization_phase topology_optimization_complete_consensus
  end_topology_optimization-consensus failed h =
      visit-passes (end_optimize_step failed) s.client_info (
        all-Oks (voted_or_registered vote_complete_topology_optimization)
          (passes (end_optimize_step failed)) s.client_info
          (λ i o p. end_optimize_step-passes failed i p) v.clients
          (sym (
              global_consensus-all vote_complete_topology_optimization s v.consistent.once
                v.consistent.keyed v.consistent.same_size)
            ∙ h))

  -- In a state that satisfies the invariant, the transition that starts a collective operation
  -- succeeds whenever its consensus holds.
  pub transition_to_perform-consensus :
      (g tag : ℕ)
      → collective_comms_initiate_consensus g tag s ≡ true
      → (transition_to_perform_collective_comms_phase g tag s).1 ≡ true
  unfolding transition_to_perform_collective_comms_phase
  transition_to_perform-consensus g tag h = visit-passes (perform_step g tag) s.client_info (
      all-Oks (λ i. if is_member g i then at_tag tag vote_initiate_collective_comms i else true)
        (passes (perform_step g tag)) s.client_info (perform_step-passes g tag) v.clients
        (sym (collective_consensus-all g tag s).0 ∙ h))

  -- In a state that satisfies the invariant, the transition that ends a collective operation
  -- succeeds whenever its consensus holds, so that the failure that the handler logs as a bug does
  -- not occur.
  pub transition_to_complete-consensus :
      (g tag : ℕ)
      → collective_comms_complete_consensus g tag s ≡ true
      → (transition_to_collective_comms_complete_phase g tag s).1 ≡ true
  unfolding transition_to_collective_comms_complete_phase
  transition_to_complete-consensus g tag h = visit-passes (complete_step g tag) s.client_info (
      all-Oks (λ i. if is_member g i then at_tag tag vote_complete_collective_comms i else true)
        (passes (complete_step g tag)) s.client_info (complete_step-passes g tag) v.clients
        (sym (collective_consensus-all g tag s).1 ∙ h))

  -- In a state that satisfies the invariant, the end of the synchronization of shared state
  -- succeeds whenever the consensus of the group holds.
  pub end_shared_state_sync-consensus :
      (g : ℕ)
      → sync_shared_state_complete_consensus g s ≡ true
      → (end_shared_state_sync_phase g s).1 ≡ true
  unfolding end_shared_state_sync_phase sync_shared_state_complete_consensus
  end_shared_state_sync-consensus g h =
      let done : (visit (end_sync_step g) s.client_info).1 ≡ true =
        visit-passes (end_sync_step g) s.client_info (
          all-Oks
            (λ i.
              if is_member g i then i.connection_state == vote_complete_shared_state_sync else true)
            (passes (end_sync_step g)) s.client_info (λ i o p. end_sync_step-passes g i p) v.clients
            (group_consensus-members vote_complete_shared_state_sync g
              (get_or [] g s.votes_sync_shared_state_complete) (values s.client_info)
              (syncing-accepted vote_complete_shared_state_sync s.client_info refl v.clients) h)) in
      rw (done, end_shared_state_sync_phase) refl

-- ===== src/Master/Invariant/Establish.antt =====
-- The start and the end of the establishment of p2p connections keep the invariant.
use pccl.Common.{ℕ, ◌≡◌, refl, sym, ◌∙◌, true, false, nat_eq, arith, Bool-cases, inl, inr}
use pccl.Client.{
  ClientInfo, ConnectionState, is_accepted, state_eq, state_beq, coll_eq, vote_accept_new_peers,
  vote_no_new_peers_establish_p2p_connections,
}
use pccl.Master.State.{MasterState}
use pccl.Master.Consensus.{
  voted_or_registered, accept_new_peers_consensus, no_accept_new_peers_consensus,
}
use pccl.Master.Consensus.Laws.{global_consensus-all}
use pccl.Master.Phases.{connect_all, connect_accepted, transition_to_p2p_establishment_phase}
use pccl.Master.Invariant.{Inv}
use pccl.Master.Invariant.Sets.{votes_for}
use pccl.Master.Invariant.Loops.{InfoOk}
use pccl.Master.Invariant.Turn.{Acts, loop-Inv}

module _ (s : MasterState) (v : Inv s) where
  connect_all-InfoOk :
      (i : ClientInfo)
      → InfoOk i
      → voted_or_registered vote_accept_new_peers i ≡ true
      → InfoOk (connect_all i)
  unfolding state_beq
  connect_all-InfoOk i o h = record {
    tags_once = o.tags_once;
    busy = ground (arith, o.busy, o.pending);
    pending = λ _. refl;
  }

  connect_accepted-InfoOk :
      (i : ClientInfo)
      → InfoOk i
      → voted_or_registered vote_no_new_peers_establish_p2p_connections i ≡ true
      → InfoOk (connect_accepted i)
  unfolding state_beq
  connect_accepted-InfoOk i o h = elim (Bool-cases (is_accepted i.connection_phase)) [
    | inl a ↦ rw a (record {
      tags_once = o.tags_once;
      busy = ground (arith, o.busy, o.pending);
      pending = λ _. refl;
    })
    | inr r ↦ rw r o
  ]

  connect_all-Acts :
      (st : ConnectionState) (g : ℕ)
      → Acts s
          (transition_to_p2p_establishment_phase true s).0
          connect_all
          (voted_or_registered vote_accept_new_peers)
          st
          g
  unfolding transition_to_p2p_establishment_phase votes_for state_beq
  connect_all-Acts vote_accept_new_peers g = inr (refl, λ i o h. ground arith)
  connect_all-Acts _ g = inl (refl, λ i o h. ground (arith, o.pending))

  connect_accepted-Acts :
      (st : ConnectionState) (g : ℕ)
      → Acts s
          (transition_to_p2p_establishment_phase false s).0
          connect_accepted
          (voted_or_registered vote_no_new_peers_establish_p2p_connections)
          st
          g
  unfolding transition_to_p2p_establishment_phase votes_for state_beq
  connect_accepted-Acts vote_no_new_peers_establish_p2p_connections g =
      inr (refl, λ i o h. ground (arith, o.pending))
  connect_accepted-Acts _ g = inl (refl, λ i o h. ground (arith, o.pending))

  -- The start of an establishment phase, after its consensus.
  pub transition_true-Inv :
      accept_new_peers_consensus s ≡ true → Inv (transition_to_p2p_establishment_phase true s).0
  unfolding transition_to_p2p_establishment_phase accept_new_peers_consensus
  transition_true-Inv h =
      loop-Inv s _ connect_all (voted_or_registered vote_accept_new_peers) v
        (record { uuid = λ i. refl; address = λ i. refl }) refl
        (sym (
            global_consensus-all vote_accept_new_peers s v.consistent.once v.consistent.keyed
              v.consistent.same_size)
          ∙ h)
        refl refl connect_all-InfoOk connect_all-Acts

  pub transition_false-Inv :
      no_accept_new_peers_consensus s ≡ true → Inv (transition_to_p2p_establishment_phase false s).0
  unfolding transition_to_p2p_establishment_phase no_accept_new_peers_consensus
  transition_false-Inv h =
      loop-Inv s _ connect_accepted
        (voted_or_registered vote_no_new_peers_establish_p2p_connections) v
        (record { uuid = λ i. ground arith; address = λ i. ground arith }) refl
        (sym (
            global_consensus-all vote_no_new_peers_establish_p2p_connections s v.consistent.once
              v.consistent.keyed v.consistent.same_size)
          ∙ h)
        refl refl connect_accepted-InfoOk connect_accepted-Acts

-- ===== src/Master/Outcomes.antt =====
-- When a vote is accepted.
use pccl.Common.{
  ℕ, ◌≡◌, refl, ap, ◌∙◌, Bool, true, false, none, some, ◌==◌, nat_eq, lookup, has, arith,
  Option-cases, inl, inr,
}
use pccl.Client.{
  ClientInfo, ConnectionState, state_eq, coll_eq, vote_accept_new_peers,
  vote_no_new_peers_establish_p2p_connections, vote_optimize_topology,
  vote_complete_topology_optimization, vote_complete_shared_state_sync, optimize_topology,
}
use pccl.Master.State.{MasterState}
use pccl.Master.Votes.{
  voter, may_establish, may_optimize, may_complete_sync, vote_establish_p2p_connections,
  vote_to_optimize_topology, vote_topology_optimization_complete, vote_dist_shared_state_complete,
}
use pccl.Master.Invariant.{Inv}
use pccl.Master.Invariant.Sets.{casts, votes_for, is_vote, not_vote}
use pccl.Master.Invariant.Maps.{Keyed-lookup}
use pccl.Master.Invariant.Cast.{
  voter-some, Quiet, may_establish-Quiet, may_optimize-Quiet, optimizing-Quiet,
  may_complete_sync-Quiet,
}

-- Whether the guards of a vote let the client through.
abbrev pub may_vote : ℕ → (ConnectionState → Bool) → MasterState → Bool
may_vote u allowed s = elim (voter u allowed s) [ none ↦ false | some i ↦ true ]

module _ (s : MasterState) (v : Inv s) where
  -- A client whose state allows a vote has not cast it yet.
  not-voted :
      (u : ℕ) (allowed : ConnectionState → Bool) (i : ClientInfo) (st : ConnectionState)
      → Quiet allowed
      → voter u allowed s ≡ some i
      → is_vote st ≡ true
      → has i.client_uuid (votes_for st i.peer_group s) ≡ false
  not-voted u allowed i st quiet e vt =
      let (known, accepted, ok) = voter-some u allowed s i e in
      let mine : i.client_uuid ≡ u = Keyed-lookup u s.client_info i v.consistent.keyed known in
      let other : (i.connection_state == st) ≡ false =
        not_vote i.connection_state st (quiet i.connection_state ok).0 vt in
      let none_yet : casts st i.peer_group (lookup u s.client_info) ≡ false =
        ap (casts st i.peer_group) known ∙ ground arith in
      ap (λ w. has w (votes_for st i.peer_group s)) mine ∙ (v.votes st i.peer_group u ∙ none_yet)

  pub establish-may_vote :
      (u : ℕ) (b : Bool) → (vote_establish_p2p_connections u b s).1 ≡ may_vote u may_establish s
  unfolding vote_establish_p2p_connections votes_for
  establish-may_vote u true = elim (Option-cases (voter u may_establish s)) [
    | inl e ↦ ground arith
    | inr (i, e) ↦
        let new = not-voted u may_establish i vote_accept_new_peers may_establish-Quiet e refl in
        ground arith
  ]
  establish-may_vote u false = elim (Option-cases (voter u may_establish s)) [
    | inl e ↦ ground arith
    | inr (i, e) ↦
        let new =
          not-voted u may_establish i vote_no_new_peers_establish_p2p_connections
            may_establish-Quiet e refl in
        ground arith
  ]

  optimize-may_vote : (u : ℕ) → (vote_to_optimize_topology u s).1 ≡ may_vote u may_optimize s
  unfolding vote_to_optimize_topology votes_for
  optimize-may_vote u = elim (Option-cases (voter u may_optimize s)) [
    | inl e ↦ ground arith
    | inr (i, e) ↦
        let new = not-voted u may_optimize i vote_optimize_topology may_optimize-Quiet e refl in
        ground arith
  ]

  complete-may_vote :
      (u : ℕ)
      → (vote_topology_optimization_complete u s).1 ≡ may_vote u (λ c. c == optimize_topology) s
  unfolding vote_topology_optimization_complete votes_for
  complete-may_vote u = elim (Option-cases (voter u (λ c. c == optimize_topology) s)) [
    | inl e ↦ ground arith
    | inr (i, e) ↦
        let new =
          not-voted u (λ c. c == optimize_topology) i vote_complete_topology_optimization
            optimizing-Quiet e refl in
        ground arith
  ]

  dist-may_vote : (u : ℕ) → (vote_dist_shared_state_complete u s).1 ≡ may_vote u may_complete_sync s
  unfolding vote_dist_shared_state_complete votes_for
  dist-may_vote u = elim (Option-cases (voter u may_complete_sync s)) [
    | inl e ↦ ground arith
    | inr (i, e) ↦
        let new =
          not-voted u may_complete_sync i vote_complete_shared_state_sync may_complete_sync-Quiet e
            refl in
        ground arith
  ]

  -- In a state that satisfies the invariant, the votes on establishing connections, on the start
  -- and the end of the optimization of the topology, and on the end of the synchronization of
  -- shared state are accepted exactly if the client is known, accepted and in a state that allows
  -- the vote; that its vote is there already, which the code also checks, does not occur.
  pub vote-may_vote :
      (u : ℕ) (b : Bool)
      → ((vote_establish_p2p_connections u b s).1 ≡ may_vote u may_establish s)
        × ((vote_to_optimize_topology u s).1 ≡ may_vote u may_optimize s)
        × ((vote_topology_optimization_complete u s).1 ≡ may_vote u (λ c. c == optimize_topology) s)
        × ((vote_dist_shared_state_complete u s).1 ≡ may_vote u may_complete_sync s)
  vote-may_vote u b =
      (establish-may_vote u b, optimize-may_vote u, complete-may_vote u, dist-may_vote u)

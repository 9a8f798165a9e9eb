-- ===== src/Master/Invariant/Voting.antt =====
-- Every vote keeps the invariant, whether it is accepted or refused.
use pccl.Common.{
  ℕ, ◌≡◌, refl, Bool, true, [], ◌==◌, nat_eq, contains, get_or, add, arith, Bool-cases,
  Option-cases, inl, inr, insert-Unique, length-insert_new, get_or-insert, nat_beq_iff,
  lookup-contains, length-insert_old,
}
use pccl.Client.{
  ClientInfo, is_query_vote, state_eq, state_beq, coll_eq, coll_beq, idle, vote_accept_new_peers,
  vote_no_new_peers_establish_p2p_connections, vote_optimize_topology,
  vote_complete_topology_optimization, vote_sync_shared_state, vote_complete_shared_state_sync,
  collective_communications_running, optimize_topology, vote_initiate_collective_comms,
  perform_collective_comms, vote_complete_collective_comms, vote_query_pending_peers,
}
use pccl.Master.State.{MasterState, SyncStrategy}
use pccl.Master.Votes.{
  voter, put_state, put_collective, may_establish, may_optimize, may_complete_sync, may_initiate,
  vote_establish_p2p_connections, vote_query_waiting_peers_pending, vote_to_optimize_topology,
  vote_topology_optimization_complete, vote_to_sync_shared_state, vote_dist_shared_state_complete,
  vote_collective_comms_initiate, vote_collective_comms_complete,
}
use pccl.Master.Consensus.{at_tag}
use pccl.Master.Invariant.{Inv}
use pccl.Master.Invariant.Sets.{votes_for}
use pccl.Master.Invariant.Loops.{Oks-lookup}
use pccl.Master.Invariant.Cast.{
  cast-Inv, quiet-Inv, voter-some, may_establish-Quiet, may_optimize-Quiet, optimizing-Quiet,
  idle-Quiet, may_complete_sync-Quiet,
}

pub vote_establish-Inv :
    (u : ℕ) (b : Bool) (s : MasterState) → Inv s → Inv (vote_establish_p2p_connections u b s).0
unfolding vote_establish_p2p_connections state_beq votes_for
vote_establish-Inv u b s v = elim (Option-cases (voter u may_establish s)) [
  | inl e ↦ rw (e, vote_establish_p2p_connections) v
  | inr (i, e) ↦ elim (Bool-cases b) [
    | inl new ↦
        rw (e, new, vote_establish_p2p_connections)
          (cast-Inv s _ u may_establish i vote_accept_new_peers v may_establish-Quiet e refl refl
            refl refl (λ st g. ground arith))
    | inr old ↦
        rw (e, old, vote_establish_p2p_connections)
          (cast-Inv s _ u may_establish i vote_no_new_peers_establish_p2p_connections v
            may_establish-Quiet e refl refl refl refl (λ st g. ground arith))
  ]
]

pub vote_optimize-Inv : (u : ℕ) (s : MasterState) → Inv s → Inv (vote_to_optimize_topology u s).0
unfolding vote_to_optimize_topology state_beq votes_for
vote_optimize-Inv u s v = elim (Option-cases (voter u may_optimize s)) [
  | inl e ↦ rw (e, vote_to_optimize_topology) v
  | inr (i, e) ↦
      rw (e, vote_to_optimize_topology)
        (cast-Inv s _ u may_optimize i vote_optimize_topology v may_optimize-Quiet e refl refl refl
          refl (λ st g. ground arith))
]

pub vote_complete-Inv :
    (u : ℕ) (s : MasterState) → Inv s → Inv (vote_topology_optimization_complete u s).0
unfolding vote_topology_optimization_complete state_beq votes_for
vote_complete-Inv u s v = elim (Option-cases (voter u (λ c. c == optimize_topology) s)) [
  | inl e ↦ rw (e, vote_topology_optimization_complete) v
  | inr (i, e) ↦
      rw (e, vote_topology_optimization_complete)
        (cast-Inv s _ u (λ c. c == optimize_topology) i vote_complete_topology_optimization v
          optimizing-Quiet e refl refl refl refl (λ st g. ground arith))
]

pub vote_sync-Inv :
    (u : ℕ) (strategy : SyncStrategy) (s : MasterState)
    → Inv s
    → Inv (vote_to_sync_shared_state u strategy s).0
unfolding vote_to_sync_shared_state state_beq votes_for
vote_sync-Inv u strategy s v = elim (Option-cases (voter u (λ c. c == idle) s)) [
  | inl e ↦ rw (e, vote_to_sync_shared_state) v
  | inr (i, e) ↦
      cast-Inv s (vote_to_sync_shared_state u strategy s).0 u (λ c. c == idle) i
        vote_sync_shared_state v idle-Quiet e refl (ground arith) (ground arith) (ground arith)
        (λ st g. ground (
          arith,
          nat_beq_iff i.peer_group g,
          get_or-insert [] i.peer_group g
              (add i.client_uuid (get_or [] i.peer_group s.votes_sync_shared_state))
              s.votes_sync_shared_state,
        ))
]

pub vote_dist-Inv : (u : ℕ) (s : MasterState) → Inv s → Inv (vote_dist_shared_state_complete u s).0
unfolding vote_dist_shared_state_complete state_beq votes_for
vote_dist-Inv u s v = elim (Option-cases (voter u may_complete_sync s)) [
  | inl e ↦ rw (e, vote_dist_shared_state_complete) v
  | inr (i, e) ↦
      rw (e, vote_dist_shared_state_complete)
        (cast-Inv s _ u may_complete_sync i vote_complete_shared_state_sync v
          may_complete_sync-Quiet e refl refl refl refl
          (λ st g. ground (
            arith,
            nat_beq_iff i.peer_group g,
            get_or-insert [] i.peer_group g
                (add i.client_uuid (get_or [] i.peer_group s.votes_sync_shared_state_complete))
                s.votes_sync_shared_state_complete,
          )))
]

pub vote_query-Inv :
    (u : ℕ) (s : MasterState) → Inv s → Inv (vote_query_waiting_peers_pending u s).0
unfolding vote_query_waiting_peers_pending votes_for
vote_query-Inv u s v = elim (Option-cases (voter u (λ c. true) s)) [
  | inl e ↦ rw (e, vote_query_waiting_peers_pending) v
  | inr (i, e) ↦ elim (Bool-cases (is_query_vote i.vote_query)) [
    | inl twice ↦ rw (e, twice, vote_query_waiting_peers_pending) v
    | inr first ↦
        let known = (voter-some u (λ c. true) s i e).0 in
        let ok = Oks-lookup s.client_info u i v.clients known in
        rw (e, first, vote_query_waiting_peers_pending)
          (quiet-Inv s _ u i (λ j. record j { vote_query = vote_query_pending_peers }) v known
            (λ j. refl) (λ j. refl) (λ j. refl) (λ st h. refl)
            (record { tags_once = ok.tags_once; busy = ok.busy; pending = ok.pending }) refl refl
            refl (λ st g. ground arith))
  ]
]

pub vote_collective_comms_initiate-Inv :
    (u tag : ℕ) (s : MasterState) → Inv s → Inv (vote_collective_comms_initiate u tag s).0
unfolding vote_collective_comms_initiate votes_for state_beq
vote_collective_comms_initiate-Inv u tag s v = elim (Option-cases (voter u may_initiate s)) [
  | inl e ↦ rw (e, vote_collective_comms_initiate) v
  | inr (i, e) ↦ elim (Bool-cases (contains tag i.collective_coms_states)) [
    | inl busy ↦ rw (e, busy, vote_collective_comms_initiate) v
    | inr free ↦
        let (known, accepted, ok) = voter-some u may_initiate s i e in
        let o = Oks-lookup s.client_info u i v.clients known in
        rw (e, free, vote_collective_comms_initiate)
          (quiet-Inv s _ u i
            (λ j.
              put_collective tag vote_initiate_collective_comms
                (put_state collective_communications_running j))
            v known (λ j. refl) (λ j. refl) (λ j. refl) (λ st h. ground arith)
            (record {
              tags_once =
                  insert-Unique tag vote_initiate_collective_comms i.collective_coms_states
                    o.tags_once;
              busy = ground (
                arith,
                length-insert_new tag vote_initiate_collective_comms i.collective_coms_states free,
              );
              pending = λ h. ground arith;
            })
            refl refl refl (λ st g. ground arith))
  ]
]

contains_at :
    (tag : ℕ) (i : ClientInfo)
    → at_tag tag perform_collective_comms i ≡ true
    → contains tag i.collective_coms_states ≡ true
contains_at tag i h = elim (Bool-cases (contains tag i.collective_coms_states)) [
  | inl c ↦ c
  | inr c ↦ ground (arith, lookup-contains tag i.collective_coms_states c)
]

pub vote_collective_comms_complete-Inv :
    (u tag : ℕ) (s : MasterState) → Inv s → Inv (vote_collective_comms_complete u tag s).0
unfolding vote_collective_comms_complete votes_for coll_beq
vote_collective_comms_complete-Inv u tag s v = elim (Option-cases (voter u (λ c. true) s)) [
  | inl e ↦ rw (e, vote_collective_comms_complete) v
  | inr (i, e) ↦ elim (Bool-cases (at_tag tag perform_collective_comms i)) [
    | inl busy ↦
        let known = (voter-some u (λ c. true) s i e).0 in
        let o = Oks-lookup s.client_info u i v.clients known in
        quiet-Inv s (vote_collective_comms_complete u tag s).0 u i
          (put_collective tag vote_complete_collective_comms) v known (λ j. refl) (λ j. refl)
          (λ j. refl) (λ st h. refl)
          (record {
            tags_once =
                insert-Unique tag vote_complete_collective_comms i.collective_coms_states
                  o.tags_once;
            busy = ground (
              arith,
              o.busy,
              contains_at tag i busy,
              length-insert_old tag vote_complete_collective_comms i.collective_coms_states,
            );
            pending = o.pending;
          })
          (ground arith) (ground arith) (ground arith) (λ st g. ground arith)
    | inr other ↦
        let same : (vote_collective_comms_complete u tag s).0 ≡ s = ground arith in rw same v
  ]
]

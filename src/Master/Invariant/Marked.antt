-- ===== src/Master/Invariant/Marked.antt =====
-- The report of a client on its connections keeps the invariant.
use pccl.Common.{
  has, modify, ℕ, ◌≡◌, refl, sym, ap, ◌∙◌, Bool, true, false, not, List, [], some, ◌==◌, nat_eq,
  lookup, get_or, insert, length, arith, Bool-cases, Option-cases, inl, inr,
}
use pccl.Net.{socket_eq}
use pccl.Client.{
  ClientInfo, ConnectionState, state_eq, state_beq, state_beq_iff, coll_eq, connecting_to_peers,
  connecting_to_peers_failed, waiting_for_other_peers,
}
use pccl.Master.State.{MasterState}
use pccl.Master.Votes.{put_state}
use pccl.Master.Invariant.Cast.{quiet-Inv}
use pccl.Master.Invariant.{Inv}
use pccl.Master.Invariant.Sets.{votes_for, casts}
use pccl.Master.Invariant.Loops.{Oks-lookup, is_pending_state}
use pccl.Master.Ring.{set_ring_topology, build_reachable_ring_topology}
use pccl.Master.Reports.{mark_p2p_connections_established, add_unreachable}

-- The invariant speaks of the clients and the votes only.
pub same-Inv :
    (s t : MasterState)
    → Inv s
    → t.client_info ≡ s.client_info
    → t.client_uuids ≡ s.client_uuids
    → t.uuid_clients ≡ s.uuid_clients
    → ((st : ConnectionState) (g : ℕ) → votes_for st g t ≡ votes_for st g s)
    → Inv t
same-Inv s t v em ea eu ev = record {
  consistent = rw (em, ea, eu) v.consistent;
  votes = λ st g u.
      ap (has u) (ev st g) ∙ (v.votes st g u ∙ ap (λ m. casts st g (lookup u m)) (sym em));
  clients = rw em v.clients;
}

module _ (s : MasterState) (v : Inv s) (u : ℕ) (i : ClientInfo)
    (known : lookup u s.client_info ≡ some i) where
  -- A client that was connecting reports the end of it.
  report-Inv :
      (st : ConnectionState) (t : MasterState)
      → i.connection_state ≡ connecting_to_peers
      → is_pending_state st ≡ true
      → t.client_info ≡ modify u (put_state st) s.client_info
      → t.client_uuids ≡ s.client_uuids
      → t.uuid_clients ≡ s.uuid_clients
      → ((w : ConnectionState) (g : ℕ) → votes_for w g t ≡ votes_for w g s)
      → Inv t
  unfolding state_beq
  report-Inv st t e p et ea eu ev =
      let ok = Oks-lookup s.client_info u i v.clients known in
      quiet-Inv s t u i (put_state st) v known (λ j. refl) (λ j. refl) (λ j. refl)
        (λ w h. ground arith)
        (record {
          tags_once = ok.tags_once;
          busy = ok.busy ∙ ap not (ground arith);
          pending = λ r. p;
        })
        et ea eu ev

-- What setting a ring leaves as it was.
record RingOnly (s t : MasterState) : Type 0 where
  same_info : t.client_info ≡ s.client_info
  same_uuids : t.client_uuids ≡ s.client_uuids
  same_addresses : t.uuid_clients ≡ s.uuid_clients
  same_votes : (st : ConnectionState) (g : ℕ) → votes_for st g t ≡ votes_for st g s

set_ring-RingOnly :
    (g : ℕ) (ring : List ℕ) (optimal : Bool) (s : MasterState)
    → RingOnly s (set_ring_topology g ring optimal s).0
unfolding set_ring_topology votes_for
set_ring-RingOnly g ring optimal s = record {
  same_info = ground arith;
  same_uuids = ground arith;
  same_addresses = ground arith;
  same_votes = λ st k. ground arith;
}

pub set_ring_topology-Inv :
    (g : ℕ) (ring : List ℕ) (optimal : Bool) (s : MasterState)
    → Inv s
    → Inv (set_ring_topology g ring optimal s).0
set_ring_topology-Inv g ring optimal s v =
    let r = set_ring-RingOnly g ring optimal s in
    same-Inv s (set_ring_topology g ring optimal s).0 v r.same_info r.same_uuids r.same_addresses
      r.same_votes

abbrev put_failed : ℕ → MasterState → MasterState
put_failed u t = record t {
  client_info = modify u (put_state connecting_to_peers_failed) t.client_info;
}

put_failed-votes :
    (u : ℕ) (t : MasterState) (st : ConnectionState) (g : ℕ)
    → votes_for st g (put_failed u t) ≡ votes_for st g t
unfolding votes_for
put_failed-votes u t st g = ground arith

pub mark_p2p-Inv :
    (u : ℕ) (success : Bool) (failed : List ℕ) (s : MasterState)
    → Inv s
    → Inv (mark_p2p_connections_established u success failed s).0
unfolding mark_p2p_connections_established votes_for
mark_p2p-Inv u success failed s v = elim (Option-cases (lookup u s.client_info)) [
  | inl e ↦ rw (e, mark_p2p_connections_established) v
  | inr (i, e) ↦
      let unreachable = add_unreachable s.client_info failed (get_or [] u s.unreachability_map) in
      let marked = record s { unreachability_map = insert u unreachable s.unreachability_map } in
      let vm : Inv marked = same-Inv s marked v refl refl refl (λ st g. ground arith) in
      elim (Bool-cases (i.connection_state == connecting_to_peers)) [
        | inr other ↦ rw (e, other, mark_p2p_connections_established) v
        | inl here ↦
            let state : i.connection_state ≡ connecting_to_peers =
              ground (arith, state_beq_iff i.connection_state connecting_to_peers) in
            elim (Bool-cases success) [
              | inl good ↦
                  rw (e, here, good, mark_p2p_connections_established)
                    (report-Inv s v u i e waiting_for_other_peers _ state refl refl refl refl
                      (λ st g. ground arith))
              | inr bad ↦ elim (Bool-cases (length unreachable == length s.client_info)) [
                | inl every ↦ rw (e, here, bad, every, mark_p2p_connections_established) vm
                | inr some_left ↦
                    elim (Option-cases (build_reachable_ring_topology i.peer_group marked)) [
                      | inl stuck ↦
                          rw (e, here, bad, some_left, stuck, mark_p2p_connections_established) vm
                      | inr (ring, way) ↦
                          let r = set_ring-RingOnly i.peer_group ring false marked in
                          rw (e, here, bad, some_left, way, mark_p2p_connections_established)
                            (report-Inv marked vm u i e connecting_to_peers_failed
                              (put_failed u (set_ring_topology i.peer_group ring false marked).0)
                              state refl
                              (ap (modify u (put_state connecting_to_peers_failed)) r.same_info)
                              r.same_uuids r.same_addresses
                              (λ st g. put_failed-votes u _ st g ∙ r.same_votes st g))
                    ]
              ]
            ]
      ]
]

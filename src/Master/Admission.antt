-- ===== src/Master/Admission.antt =====
-- When a registration is accepted.
use pccl.Common.{
  modify, lookup-modify, ==-refl, lookup-insert, ℕ, ◌≡◌, refl, ap, ◌∙◌, Bool, true, ◌&&◌, not, [],
  ◌∷◌, none, some, ◌==◌, nat_eq, nat_beq_iff, lookup, contains, values, all, length, arith,
  Bool-cases, inl, inr,
}
use pccl.Net.{SocketAddress, socket_eq}
use pccl.Client.{
  VariablePorts, ClientInfo, state_eq, state_beq, coll_eq, idle, vote_accept_new_peers,
}
use pccl.Master.State.{MasterState}
use pccl.Master.Loop.{Infos}
use pccl.Master.Consensus.{voted_or_registered, accept_new_peers_consensus}
use pccl.Master.Consensus.Laws.{global_consensus-all}
use pccl.Master.Votes.{vote_establish_p2p_connections, put_state}
use pccl.Master.Invariant.Voting.{vote_establish-Inv}
use pccl.Master.Registry.{
  fresh_info, accept_info, locality_conflict, enter, admit_first, register_client,
}
use pccl.Master.Invariant.{Inv}
use pccl.Master.Votes.{voter, set_state, may_establish}
use pccl.Master.Outcomes.{establish-may_vote}
use pccl.Master.Invariant.Members.{accept_first, accept_first-Inv, enter-Inv}

-- The only client, after two changes.
all-single :
    (p : ClientInfo → Bool) (f g : ClientInfo → ClientInfo) (u : ℕ) (i : ClientInfo) (m : Infos)
    → length m ≡ 1
    → lookup u m ≡ some i
    → all p (values (modify u f (modify u g m))) ≡ p (f (g i))
all-single p f g u i [] h e = cc
all-single p f g u i ((k, x) ∷ []) h e = ground arith
all-single p f g u i ((k, x) ∷ y ∷ m) h e = absurd (ground arith)

-- The first client is alone, so that its vote is a consensus.
first-consensus :
    (u : ℕ) (i : ClientInfo) (s : MasterState)
    → Inv s
    → lookup u s.client_info ≡ some i
    → i.connection_state ≡ idle
    → length s.client_uuids ≡ 1
    → (voter u may_establish (accept_first u i s) ≡ some (accept_info i))
    → accept_new_peers_consensus (vote_establish_p2p_connections u true (accept_first u i s)).0
      ≡ true
unfolding accept_new_peers_consensus vote_establish_p2p_connections state_beq
first-consensus u i s v known calm one may =
    let voted = (vote_establish_p2p_connections u true (accept_first u i s)).0 in
    let vv : Inv voted =
      vote_establish-Inv u true (accept_first u i s) (accept_first-Inv u i s v known) in
    let changed : voted.client_info
        ≡ set_state u vote_accept_new_peers (modify u accept_info s.client_info) =
      ground arith in
    let size : length s.client_info ≡ 1 = omega (arith, v.consistent.same_size) in
    global_consensus-all vote_accept_new_peers voted vv.consistent.once vv.consistent.keyed
      vv.consistent.same_size
    ∙ (ap (λ m. all (voted_or_registered vote_accept_new_peers) (values m)) changed
        ∙ all-single (voted_or_registered vote_accept_new_peers) (put_state vote_accept_new_peers)
            accept_info u i s.client_info size known)

admit_first-true :
    (u : ℕ) (i : ClientInfo) (s : MasterState)
    → Inv s
    → lookup u s.client_info ≡ some i
    → i.connection_state ≡ idle
    → length s.client_uuids ≡ 1
    → (admit_first u i s).1 ≡ true
unfolding admit_first state_beq
admit_first-true u i s v known calm one =
    let accepted = accept_first u i s in
    let va : Inv accepted = accept_first-Inv u i s v known in
    let found : lookup u accepted.client_info ≡ some (accept_info i) =
      ground (arith, lookup-modify u u accept_info s.client_info, ==-refl u) in
    let may : voter u may_establish accepted ≡ some (accept_info i) = ground arith in
    let cast : (vote_establish_p2p_connections u true accepted).1 ≡ true =
      establish-may_vote accepted va u true ∙ ground arith in
    let agreed = first-consensus u i s v known calm one may in rw (cast, agreed, admit_first) refl

-- In a state that satisfies the invariant, and with a uuid that no client has, a registration is
-- refused exactly if the address is registered already or local and remote clients would mix; the
-- first client's own vote and consensus do not fail.
pub register_client-accepted :
    (a : SocketAddress) (ports : VariablePorts) (g u : ℕ) (s : MasterState)
    → Inv s
    → lookup u s.client_info ≡ none
    → (register_client a ports g u s).1
      ≡ (not (locality_conflict a s) && not (contains a s.client_uuids))
unfolding register_client
register_client-accepted a ports g u s v hu = elim (Bool-cases (locality_conflict a s)) [
  | inl clash ↦ rw (clash, register_client) refl
  | inr fits ↦ elim (Bool-cases (contains a s.client_uuids)) [
    | inl twice ↦ rw (fits, twice, register_client) refl
    | inr new ↦
        let i = fresh_info a ports g u in
        let entered = enter a u i s in
        let ve : Inv entered = enter-Inv s v a ports g u new hu in
        elim (Bool-cases (length entered.client_uuids == 1)) [
          | inl first ↦
              rw (fits, new, first, register_client)
                (admit_first-true u i entered ve
                  (unfold enter in ground (arith, ==-refl u, lookup-insert u u i s.client_info))
                  refl (ground (arith, nat_beq_iff (length entered.client_uuids) 1)))
          | inr later ↦ rw (fits, new, later, register_client) refl
        ]
  ]
]

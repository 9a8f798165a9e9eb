-- ===== src/Master/Invariant/Members.antt =====
-- Clients that join and leave keep the invariant.
use pccl.Common.{
  modify, ==-refl, contains-lookup, lookup-insert, remove, ℕ, ◌≡◌, refl, true, false, [], none,
  some, ◌==◌, nat_eq, nat_beq_iff, lookup, contains, get_or, length, arith, contains-some,
  Bool-cases, Option-cases, inl, inr, get_or-insert,
}
use pccl.Net.{SocketAddress, socket_eq}
use pccl.Client.{VariablePorts, ClientInfo, state_eq, state_beq, coll_eq}
use pccl.Master.State.{MasterState}
use pccl.Master.Consensus.{accept_new_peers_consensus}
use pccl.Master.Phases.{on_peer_accepted}
use pccl.Master.Votes.{vote_establish_p2p_connections}
use pccl.Master.Invariant.Cast.{quiet-Inv}
use pccl.Master.Invariant.Voting.{vote_establish-Inv}
use pccl.Master.Registry.{
  fresh_info, accept_info, locality_conflict, enter, admit_first, register_client, forget_client,
  unregister_client,
}
use pccl.Master.Invariant.Establish.{transition_true-Inv}
use pccl.Master.Invariant.{Inv}
use pccl.Master.Invariant.Sets.{votes_for, insert-VotesMatch, erase-VotesMatch}
use pccl.Master.Invariant.Loops.{InfoOk, Oks-insert, Oks-erase, Oks-lookup}
use pccl.Master.Invariant.Maps.{insert-IsConsistent, erase-IsConsistent}

module _ (s : MasterState) (v : Inv s) where
  fresh-InfoOk :
      (a : SocketAddress) (ports : VariablePorts) (g u : ℕ) → InfoOk (fresh_info a ports g u)
  unfolding state_beq
  fresh-InfoOk a ports g u = record { tags_once = tt; busy = refl; pending = λ r. refl }

  pub enter-Inv :
      (a : SocketAddress) (ports : VariablePorts) (g u : ℕ)
      → contains a s.client_uuids ≡ false
      → lookup u s.client_info ≡ none
      → Inv (enter a u (fresh_info a ports g u) s)
  unfolding enter votes_for
  enter-Inv a ports g u ha hu = record {
    consistent =
        insert-IsConsistent s.client_info s.client_uuids s.uuid_clients v.consistent a u
          (fresh_info a ports g u) ha hu refl refl;
    votes =
        insert-VotesMatch s (enter a u (fresh_info a ports g u) s) v.votes u
          (fresh_info a ports g u) hu refl refl (λ st g'. ground arith);
    clients =
        Oks-insert u (fresh_info a ports g u) s.client_info (fresh-InfoOk a ports g u) v.clients;
  }

  -- A client that leaves.
  forget-Inv :
      (a : SocketAddress) (u : ℕ) (i : ClientInfo)
      → lookup a s.client_uuids ≡ some u
      → lookup u s.client_info ≡ some i
      → Inv (forget_client a u i s)
  unfolding forget_client votes_for
  forget-Inv a u i ha hu = record {
    consistent =
        erase-IsConsistent s.client_info s.client_uuids s.uuid_clients v.consistent a u i ha hu;
    votes =
        erase-VotesMatch s (forget_client a u i s) v.votes u i hu v.consistent.once refl (λ st g.
          ground (
            arith,
            nat_beq_iff i.peer_group g,
            get_or-insert [] i.peer_group g
                (remove u (get_or [] i.peer_group s.votes_sync_shared_state))
                s.votes_sync_shared_state,
            get_or-insert [] i.peer_group g
                (remove u (get_or [] i.peer_group s.votes_sync_shared_state_complete))
                s.votes_sync_shared_state_complete,
          ));
    clients = Oks-erase u s.client_info v.clients;
  }

  known_client :
      (a : SocketAddress) (u : ℕ)
      → lookup a s.client_uuids ≡ some u
      → (contains u s.uuid_clients ≡ true) × ¬ (lookup u s.client_info ≡ none)
  known_client a u h =
      let back : lookup u s.uuid_clients ≡ some a = (v.consistent.inverse a u).0 h in
      (contains-some u a s.uuid_clients back, λ e. ground (arith, v.consistent.address_of u))

  pub unregister-Inv : (a : SocketAddress) → Inv (unregister_client a s).0
  unfolding unregister_client
  unregister-Inv a = elim (Option-cases (lookup a s.client_uuids)) [
    | inl e ↦ rw (e, unregister_client) v
    | inr (u, e) ↦
        let (there, missing) = known_client a u e in
        elim (Option-cases (lookup u s.client_info)) [
          | inl gone ↦ absurd (missing gone)
          | inr (i, stays) ↦ rw (e, there, stays, unregister_client) (forget-Inv a u i e stays)
        ]
  ]

  -- In a state that satisfies the invariant, a client is unregistered exactly if its address is
  -- registered; the two inconsistencies that the code checks for do not occur.
  pub unregister-contains :
      (a : SocketAddress) → (unregister_client a s).1 ≡ contains a s.client_uuids
  unfolding unregister_client
  unregister-contains a = elim (Option-cases (lookup a s.client_uuids)) [
    | inl e ↦ ground (arith, contains-lookup a s.client_uuids e)
    | inr (u, e) ↦
        let (there, missing) = known_client a u e in
        elim (Option-cases (lookup u s.client_info)) [
          | inl gone ↦ absurd (missing gone)
          | inr (i, stays) ↦ ground (arith, contains-some a u s.client_uuids e)
        ]
  ]

-- The state in which the first client casts its vote.
abbrev pub accept_first : ℕ → ClientInfo → MasterState → MasterState
accept_first u i s = record s {
  client_info = modify u accept_info s.client_info;
  bandwidth_store = on_peer_accepted (accept_info i) s.bandwidth_store;
}

pub accept_first-Inv :
    (u : ℕ) (i : ClientInfo) (s : MasterState)
    → Inv s
    → lookup u s.client_info ≡ some i
    → Inv (accept_first u i s)
unfolding votes_for
accept_first-Inv u i s v known =
    let ok = Oks-lookup s.client_info u i v.clients known in
    quiet-Inv s (accept_first u i s) u i accept_info v known (λ j. refl) (λ j. refl) (λ j. refl)
      (λ st h. refl)
      (record { tags_once = ok.tags_once; busy = ok.busy; pending = λ r. absurd (ground arith) })
      refl refl refl (λ st g. ground arith)

-- The first client, once it is entered.
admit_first-Inv :
    (u : ℕ) (i : ClientInfo) (s : MasterState)
    → Inv s
    → lookup u s.client_info ≡ some i
    → Inv (admit_first u i s).0
unfolding admit_first
admit_first-Inv u i s v known =
    let accepted = accept_first u i s in
    let va : Inv accepted = accept_first-Inv u i s v known in
    let voted = (vote_establish_p2p_connections u true accepted).0 in
    let vv : Inv voted = vote_establish-Inv u true accepted va in
    elim (Bool-cases (vote_establish_p2p_connections u true accepted).1) [
      | inl done ↦ elim (Bool-cases (accept_new_peers_consensus voted)) [
        | inl all_agree ↦ rw (done, all_agree, admit_first) (transition_true-Inv voted vv all_agree)
        | inr not_all ↦ rw (done, not_all, admit_first) vv
      ]
      | inr refused ↦ rw (refused, admit_first) vv
    ]

pub register-Inv :
    (a : SocketAddress) (ports : VariablePorts) (g u : ℕ) (s : MasterState)
    → Inv s
    → lookup u s.client_info ≡ none
    → Inv (register_client a ports g u s).0
unfolding register_client
register-Inv a ports g u s v hu = elim (Bool-cases (locality_conflict a s)) [
  | inl clash ↦ rw (clash, register_client) v
  | inr fits ↦ elim (Bool-cases (contains a s.client_uuids)) [
    | inl twice ↦ rw (fits, twice, register_client) v
    | inr new ↦
        let i = fresh_info a ports g u in
        let entered = enter a u i s in
        let ve : Inv entered = enter-Inv s v a ports g u new hu in
        elim (Bool-cases (length entered.client_uuids == 1)) [
          | inl first ↦
              rw (fits, new, first, register_client)
                (admit_first-Inv u i entered ve
                  (unfold enter in ground (arith, ==-refl u, lookup-insert u u i s.client_info)))
          | inr later ↦ rw (fits, new, later, register_client) ve
        ]
  ]
]

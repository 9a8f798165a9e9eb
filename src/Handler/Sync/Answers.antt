-- ===== src/Handler/Sync/Answers.antt =====
-- Which peer `findBestSharedStateTxPeer` names, and what the members are told.
use mathlib.Core.Option.{some-injective}
use pccl.Common.{
  ℕ, ◌≡◌, refl, sym, ap, ◌∙◌, ==-refl, Bool, true, false, ◌&&◌, List, [], ◌∷◌, Option, none, some,
  if◌then◌else◌, ◌==◌, nat_eq, lookup, arith, Bool-cases, Option-cases, inl, inr, contains, Unique,
  nat_beq_iff, subst,
}
use pccl.Net.{SocketAddress, socket_eq, socket_beq_iff}
use pccl.Client.{ClientInfo, state_eq, state_beq_iff, distribute_shared_state, request_shared_state}
use pccl.Master.State.{MasterState, swap_entries, get_client_entry_set}
use pccl.Master.Consensus.{is_member}
use pccl.Master.SharedState.{bool_beq}
use pccl.Handler.{M2CPacket, SyncResponse, sync_shared_state}
use pccl.Handler.Sent.{sent}
use pccl.Handler.Answer.{find_best_shared_state_tx_peer, answer_members, is_syncing, response_to}

-- Whether a client stands in a list under an address.
abbrev pub lists : ℕ → SocketAddress → List (ℕ × SocketAddress) → Bool
lists u a [] = false
lists u a ((v, b) ∷ es) = if v == u && b == a then true else lists u a es

-- A client that stands in the list, is a member of the group, and distributes.
pub record Distributes (g : ℕ) (s : MasterState) (es : List (ℕ × SocketAddress)) (v : ℕ)
    (b : SocketAddress) (j : ClientInfo) : Type 0 where
  pub listed : lists v b es ≡ true
  pub known : lookup v s.client_info ≡ some j
  pub of_group : is_member g j ≡ true
  pub serves : (j.connection_state == distribute_shared_state) ≡ true

abbrev pub shared_state_address : SocketAddress → ClientInfo → SocketAddress
shared_state_address b j = record {
  inet = b.inet;
  port = j.variable_ports.shared_dist_state_listen_port;
}

pub record Source (g : ℕ) (s : MasterState) (es : List (ℕ × SocketAddress)) (a : SocketAddress)
    : Type 0 where
  pub peer : ℕ
  pub filed : SocketAddress
  pub info : ClientInfo
  pub distributes : Distributes g s es peer filed info
  pub address : a ≡ shared_state_address filed info

-- Where there is an address, it is that of a client that distributes, and where there is none, no
-- client does.
abbrev pub Told : ℕ → MasterState → List (ℕ × SocketAddress) → Option SocketAddress → Type 0
Told g s es none = (v : ℕ) (b : SocketAddress) (j : ClientInfo) → ¬ Distributes g s es v b j
Told g s es (some a) = Source g s es a

module _ (g : ℕ) (s : MasterState) (u : ℕ) (a : SocketAddress) (es : List (ℕ × SocketAddress)) where
  extend :
      (v : ℕ) (b : SocketAddress) (j : ClientInfo)
      → Distributes g s es v b j
      → Distributes g s ((u, a) ∷ es) v b j
  extend v b j d = record {
    listed = longer (u == v && a == b);
    known = d.known;
    of_group = d.of_group;
    serves = d.serves;
  }
    where
      longer : (here : Bool) → (if here then true else lists v b es) ≡ true
      longer true = refl
      longer false = d.listed

  -- The first client of a list does not distribute.
  passed_over :
      (o : Option SocketAddress)
      → ((j : ClientInfo)
          → lookup u s.client_info ≡ some j
          → (is_member g j && j.connection_state == distribute_shared_state) ≡ false)
      → Told g s es o
      → Told g s ((u, a) ∷ es) o
  passed_over none idle told = λ v b j d. elim (Bool-cases (u == v)) [
    | inl here ↦
        let same = (nat_beq_iff u v).0 here in
        let known : lookup u s.client_info ≡ some j =
          ap (λ w. lookup w s.client_info) same ∙ d.known in
        absurd (ground (arith, idle j known, d.of_group, d.serves))
    | inr there ↦ told v b j (record {
      listed = ground (arith, d.listed);
      known = d.known;
      of_group = d.of_group;
      serves = d.serves;
    })
  ]
  passed_over (some x) idle told = record {
    peer = told.peer;
    filed = told.filed;
    info = told.info;
    distributes = extend told.peer told.filed told.info told.distributes;
    address = told.address;
  }

find_best-Told :
    (g : ℕ) (s : MasterState) (es : List (ℕ × SocketAddress))
    → Told g s es (find_best_shared_state_tx_peer g s es)
unfolding find_best_shared_state_tx_peer
find_best-Told g s [] = λ v b j d. cc
find_best-Told g s ((u, a) ∷ es) = elim (Option-cases (lookup u s.client_info)) [
  | inl e ↦
      rw (find_best_shared_state_tx_peer, e)
        (passed_over g s u a es _ (λ j f. cc) (find_best-Told g s es))
  | inr (i, e) ↦
      elim (Bool-cases (is_member g i && i.connection_state == distribute_shared_state)) [
        | inl good ↦
            rw (find_best_shared_state_tx_peer, e, good)
              (record {
                peer = u;
                filed = a;
                info = i;
                distributes = record {
                  listed = rw (==-refl u, ==-refl a) refl;
                  known = e;
                  of_group = ground (arith, good);
                  serves = ground (arith, good);
                };
                address = refl;
              })
        | inr bad ↦
            rw (find_best_shared_state_tx_peer, e, bad)
              (passed_over g s u a es _
                (λ j f.
                  subst
                    (λ x. (is_member g x && x.connection_state == distribute_shared_state) ≡ false)
                    (some-injective i j (sym e ∙ f)) bad)
                (find_best-Told g s es))
      ]
]

response_to-address :
    (g u : ℕ) (i : ClientInfo) (s : MasterState) (r : SyncResponse)
    → (i.connection_state == request_shared_state) ≡ true
    → response_to g u i s ≡ some r
    → find_best_shared_state_tx_peer i.peer_group s (get_client_entry_set s) ≡ r.distributor_address
unfolding response_to
response_to-address g u i s r outdated e =
    elim (Option-cases (find_best_shared_state_tx_peer i.peer_group s (get_client_entry_set s))) [
      | inl nobody ↦ ground (arith, nobody)
      | inr (best, found) ↦ ground (arith, found)
    ]

-- A member whose state is outdated is told as the peer to fetch from, at its address with its port
-- for shared state, one that is listed with entries in its group, a client, accepted and
-- distributing; it is told no peer only if there is none. The member itself is none of these, so
-- it is not sent to itself.
pub response_to-Told :
    (g u : ℕ) (i : ClientInfo) (s : MasterState) (r : SyncResponse)
    → lookup u s.client_info ≡ some i
    → i.connection_state ≡ request_shared_state
    → response_to g u i s ≡ some r
    → Told i.peer_group s (get_client_entry_set s) r.distributor_address
      × ((b : SocketAddress) (j : ClientInfo)
          → ¬ Distributes i.peer_group s (get_client_entry_set s) u b j)
response_to-Told g u i s r f outdated e =
    let es = get_client_entry_set s in
    let asks : (i.connection_state == request_shared_state) ≡ true =
      (state_beq_iff i.connection_state request_shared_state).1 outdated in
    (
      subst (Told i.peer_group s es) (response_to-address g u i s r asks e)
          (find_best-Told i.peer_group s es),
      λ b j d.
          let same = some-injective i j (sym f ∙ d.known) in
          let serving : i.connection_state ≡ distribute_shared_state =
            ap (λ x. x.connection_state) same
            ∙ (state_beq_iff j.connection_state distribute_shared_state).0 d.serves in
          absurd cc,
    )

-- An answer that the client's state is outdated, or that it is not.
abbrev pub is_answer : Bool → M2CPacket → Bool
is_answer outdated (sync_shared_state r) = bool_beq r.is_outdated outdated
is_answer outdated _ = false

response_to-outdated :
    (g u : ℕ) (i : ClientInfo) (s : MasterState) (r : SyncResponse)
    → response_to g u i s ≡ some r
    → r.is_outdated ≡ (i.connection_state == request_shared_state)
unfolding response_to
response_to-outdated g u i s r e = ground (arith, r.is_outdated)

module _ (g : ℕ) (s : MasterState) (a : SocketAddress) (outdated : Bool) where
  answers_absent :
      (cu : List (SocketAddress × ℕ))
      → contains a cu ≡ false
      → sent a (is_answer outdated) (answer_members g s (swap_entries cu)).0 ≡ 0
  unfolding answer_members
  answers_absent [] h = refl
  answers_absent ((b, w) ∷ cu) h = ground (arith, answers_absent cu)

  -- At the start of a synchronization, if no answer lacks a hash type and no address is filed
  -- twice, a registered client is sent exactly one answer that says what its state is, outdated
  -- where it requests the shared state and else not outdated, if it is a synchronizing member of
  -- the group, and none otherwise.
  pub answer_members-sent :
      (cu : List (SocketAddress × ℕ)) (u : ℕ) (i : ClientInfo)
      → Unique cu
      → lookup a cu ≡ some u
      → lookup u s.client_info ≡ some i
      → (answer_members g s (swap_entries cu)).1 ≡ true
      → sent a (is_answer outdated) (answer_members g s (swap_entries cu)).0 ≡ (
          if is_syncing g i && bool_beq (i.connection_state == request_shared_state) outdated
          then 1
          else 0)
  unfolding answer_members
  answer_members-sent [] u i o e f done = cc
  answer_members-sent ((b, w) ∷ cu) u i o e f done =
      let none_later = answers_absent cu in
      elim (Bool-cases (b == a)) [
        | inl here ↦ ground (arith, socket_beq_iff b a, none_later, response_to-outdated g u i s)
        | inr later ↦ ground (arith, answer_members-sent cu u i o.1)
      ]

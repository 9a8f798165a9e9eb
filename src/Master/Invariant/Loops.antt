-- ===== src/Master/Invariant/Loops.antt =====
-- Loops over all clients.
use pccl.Common.{
  ℕ, ◌≡◌, Bool, true, false, not, [], ◌∷◌, Option, none, some, ◌==◌, nat_eq, lookup, Unique, length,
  map_values, all, values, modify, insert, erase, arith, Bool-cases, Option-cases, inl, inr, subst,
  refl, ◌∙◌, ap, lookup-map_values, ◌⊎◌,
}
use pccl.Client.{
  ClientInfo, ConnectionState, is_accepted, state_eq, idle, connecting_to_peers,
  connecting_to_peers_failed, waiting_for_other_peers, collective_communications_running,
}
use pccl.Master.State.{MasterState}
use pccl.Master.Invariant.Sets.{votes_for, casts, VotesMatch}
use pccl.Master.Loop.{Infos, visit}

abbrev pub is_running : ClientInfo → Bool
is_running i = i.connection_state == collective_communications_running

-- The states of a client that is not accepted yet.
abbrev pub is_pending_state : ConnectionState → Bool
is_pending_state idle = true
is_pending_state connecting_to_peers = true
is_pending_state connecting_to_peers_failed = true
is_pending_state waiting_for_other_peers = true
is_pending_state _ = false

-- A client takes part in operations exactly while its state says so.
pub record InfoOk (i : ClientInfo) : Type 0 where
  pub tags_once : Unique i.collective_coms_states
  pub busy : (length i.collective_coms_states == 0) ≡ not (is_running i)
  pub pending : is_accepted i.connection_phase ≡ false → is_pending_state i.connection_state ≡ true

abbrev pub Oks : Infos → Type 0
Oks [] = Unit
Oks ((k, i) ∷ m) = InfoOk i × Oks m

abbrev pub run_step : (ClientInfo → Option ClientInfo) → ClientInfo → ClientInfo
run_step f i = elim (f i) [ none ↦ i | some j ↦ j ]

abbrev pub passes : (ClientInfo → Option ClientInfo) → ClientInfo → Bool
passes f i = elim (f i) [ none ↦ false | some j ↦ true ]

-- A loop that is not left early has changed every client.
pub visit-true :
    (f : ClientInfo → Option ClientInfo) (m : Infos)
    → (visit f m).1 ≡ true
    → ((visit f m).0 ≡ map_values (run_step f) m) × (all (passes f) (values m) ≡ true)
unfolding visit
visit-true f [] h = (refl, refl)
visit-true f ((k, i) ∷ m) h = ground (arith, visit-true f m)

-- A loop whose body never stops is not left early.
pub visit-passes :
    (f : ClientInfo → Option ClientInfo) (m : Infos)
    → all (passes f) (values m) ≡ true
    → (visit f m).1 ≡ true
unfolding visit
visit-passes f [] h = refl
visit-passes f ((k, i) ∷ m) h = ground (arith, visit-passes f m)

pub all-lookup :
    (p : ClientInfo → Bool) (m : Infos) (u : ℕ) (i : ClientInfo)
    → all p (values m) ≡ true
    → lookup u m ≡ some i
    → p i ≡ true
all-lookup p [] u i h e = cc
all-lookup p ((k, x) ∷ m) u i h e = ground (arith, all-lookup p m u i)

pub Oks-lookup : (m : Infos) (u : ℕ) (i : ClientInfo) → Oks m → lookup u m ≡ some i → InfoOk i
Oks-lookup [] u i o e = cc
Oks-lookup ((k, x) ∷ m) u i o e = elim (Bool-cases (k == u)) [
  | inl here ↦ let same : x ≡ i = ground arith in subst InfoOk same o.0
  | inr later ↦ Oks-lookup m u i o.1 (ground arith)
]

pub Oks-map_values :
    (f : ClientInfo → ClientInfo) (p : ClientInfo → Bool) (m : Infos)
    → ((i : ClientInfo) → InfoOk i → p i ≡ true → InfoOk (f i))
    → all p (values m) ≡ true
    → Oks m
    → Oks (map_values f m)
Oks-map_values f p [] keep h o = tt
Oks-map_values f p ((k, i) ∷ m) keep h o =
    (keep i o.0 (ground arith), Oks-map_values f p m keep (ground arith) o.1)

pub Oks-modify :
    (f : ClientInfo → ClientInfo) (u : ℕ) (i : ClientInfo) (m : Infos)
    → lookup u m ≡ some i
    → InfoOk (f i)
    → Oks m
    → Oks (modify u f m)
Oks-modify f u i [] e k o = tt
Oks-modify f u i ((j, x) ∷ m) e k o = elim (Bool-cases (j == u)) [
  | inl here ↦ let same : i ≡ x = ground arith in rw here (subst (λ y. InfoOk (f y)) same k, o.1)
  | inr later ↦ rw later (o.0, Oks-modify f u i m (ground arith) k o.1)
]

pub Oks-insert : (u : ℕ) (i : ClientInfo) (m : Infos) → InfoOk i → Oks m → Oks (insert u i m)
Oks-insert u i [] k o = (k, tt)
Oks-insert u i ((j, x) ∷ m) k o = elim (Bool-cases (j == u)) [
  | inl here ↦ rw here (k, o.1)
  | inr later ↦ rw later (o.0, Oks-insert u i m k o.1)
]

pub Oks-erase : (u : ℕ) (m : Infos) → Oks m → Oks (erase u m)
Oks-erase u [] o = tt
Oks-erase u ((j, x) ∷ m) o = elim (Bool-cases (j == u)) [
  | inl here ↦ rw here o.1
  | inr later ↦ rw later (o.0, Oks-erase u m o.1)
]

-- How a loop that changes every client acts on the sets of votes: a set stays, and no client
-- enters or leaves its state; or it is cleared, and no client is left in its state.
pub loop-VotesMatch :
    (s t : MasterState) (f : ClientInfo → ClientInfo) (p : ClientInfo → Bool)
    → t.client_info ≡ map_values f s.client_info
    → all p (values s.client_info) ≡ true
    → Oks s.client_info
    → ((st : ConnectionState) (g : ℕ)
        → ((votes_for st g t ≡ votes_for st g s)
            × ((i : ClientInfo)
                → InfoOk i
                → p i ≡ true
                → casts st g (some (f i)) ≡ casts st g (some i)))
          ⊎ ((votes_for st g t ≡ [])
              × ((i : ClientInfo) → InfoOk i → p i ≡ true → casts st g (some (f i)) ≡ false)))
    → VotesMatch s
    → VotesMatch t
loop-VotesMatch s t f p et h o act v st g u =
    let found = ap (lookup u) et ∙ lookup-map_values u f s.client_info in
    elim (Option-cases (lookup u s.client_info)) [
      | inl e ↦ elim (act st g) [
        | inl (same, keep) ↦ ground (arith, v st g u)
        | inr (clear, leave) ↦ ground arith
      ]
      | inr (i, e) ↦
          let ok = Oks-lookup s.client_info u i o e in
          let pi = all-lookup p s.client_info u i h e in
          elim (act st g) [
            | inl (same, keep) ↦ ground (arith, v st g u, keep i ok pi)
            | inr (clear, leave) ↦ ground (arith, leave i ok pi)
          ]
    ]

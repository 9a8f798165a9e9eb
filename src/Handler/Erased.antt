-- ===== src/Handler/Erased.antt =====
-- The tags that the end of a collective operation erases, and erases once more.
use pccl.Common.{
  ℕ, ◌≡◌, refl, sym, ap, ◌∙◌, subst, Bool, true, false, not, List, [], ◌∷◌, some, if◌then◌else◌,
  ◌==◌, nat_eq, ==-refl, lookup, contains, erase, modify, map_values, values, all, Unique, arith,
  Bool-cases, Option-cases, inl, inr, lookup-erase, contains-lookup,
}
use pccl.Net.{SocketAddress}
use pccl.Client.{ClientInfo, CollectiveCommunicationState, state_eq, coll_eq}
use pccl.Master.State.{MasterState}
use pccl.Master.Loop.{Infos}
use pccl.Master.Consensus.{is_member}
use pccl.Master.Phases.{complete_step, transition_to_collective_comms_complete_phase}
use pccl.Master.Invariant.{Inv}
use pccl.Master.Invariant.Loops.{InfoOk, Oks, run_step, passes, visit-true, all-lookup}
use pccl.Handler.Collective.{is_done_member, erase_tags}

-- A member of the group that takes no part in the operation.
abbrev pub is_clear : ℕ → ℕ → ClientInfo → Bool
is_clear g tag i = if is_member g i then not (contains tag i.collective_coms_states) else true

contains-erase :
    (tag : ℕ) (m : List (ℕ × CollectiveCommunicationState))
    → Unique m
    → contains tag (erase tag m) ≡ false
contains-erase tag m once =
    contains-lookup tag (erase tag m) (lookup-erase tag tag m once ∙ rw (==-refl tag) refl)

complete_step-is_clear :
    (g tag : ℕ) (i : ClientInfo)
    → InfoOk i
    → passes (complete_step g tag) i ≡ true
    → is_clear g tag (run_step (complete_step g tag) i) ≡ true
unfolding complete_step
complete_step-is_clear g tag i o h =
    ground (arith, contains-erase tag i.collective_coms_states o.tags_once)

visited-is_clear :
    (g tag : ℕ) (m : Infos)
    → Oks m
    → all (passes (complete_step g tag)) (values m) ≡ true
    → all (is_clear g tag) (values (map_values (run_step (complete_step g tag)) m)) ≡ true
visited-is_clear g tag [] o h = refl
visited-is_clear g tag ((k, i) ∷ m) o h =
    ground (arith, complete_step-is_clear g tag i o.0, visited-is_clear g tag m o.1)

-- No member takes part in the operation once its end is done.
pub complete-is_clear :
    (g tag : ℕ) (s : MasterState)
    → Inv s
    → (transition_to_collective_comms_complete_phase g tag s).1 ≡ true
    → all
        (is_clear g tag)
        (values (transition_to_collective_comms_complete_phase g tag s).0.client_info)
      ≡ true
unfolding transition_to_collective_comms_complete_phase
complete-is_clear g tag s v done =
    let (same, pass) = visit-true (complete_step g tag) s.client_info done in
    ap (λ m. all (is_clear g tag) (values m)) same
    ∙ visited-is_clear g tag s.client_info v.clients pass

erase-absent :
    (tag : ℕ) (m : List (ℕ × CollectiveCommunicationState))
    → contains tag m ≡ false
    → erase tag m ≡ m
erase-absent tag [] h = refl
erase-absent tag ((k, c) ∷ m) h = ground (arith, erase-absent tag m)

modify-same :
    (f : ClientInfo → ClientInfo) (u : ℕ) (i : ClientInfo) (m : Infos)
    → lookup u m ≡ some i
    → f i ≡ i
    → modify u f m ≡ m
modify-same f u i [] e h = refl
modify-same f u i ((k, x) ∷ m) e h = elim (Bool-cases (k == u)) [
  | inl here ↦
      let same : x ≡ i = ground arith in
      rw here (ap (λ y. (k, y) ∷ m) (subst (λ y. f y ≡ y) (sym same) h))
  | inr later ↦ rw later (ap (λ r. (k, x) ∷ r) (modify-same f u i m (ground arith) h))
]

-- The handler's own erasing of the tag, after the transition, changes nothing.
pub erase_tags-same :
    (g tag : ℕ) (es : List (ℕ × SocketAddress)) (s : MasterState)
    → all (is_clear g tag) (values s.client_info) ≡ true
    → erase_tags g tag es s ≡ s
unfolding erase_tags
erase_tags-same g tag [] s clear = refl
erase_tags-same g tag ((u, a) ∷ es) s clear = elim (Option-cases (lookup u s.client_info)) [
  | inl e ↦ rw (e, erase_tags) (erase_tags-same g tag es s clear)
  | inr (i, e) ↦ elim (Bool-cases (is_done_member g i)) [
    | inr skipped ↦ rw (e, skipped, erase_tags) (erase_tags-same g tag es s clear)
    | inl done ↦
        let free : contains tag i.collective_coms_states ≡ false =
          ground (arith, all-lookup (is_clear g tag) s.client_info u i clear e) in
        let same =
          modify-same
            (λ j. record j { collective_coms_states = erase tag j.collective_coms_states }) u i
            s.client_info e
            (ap (λ m. record i { collective_coms_states = m })
              (erase-absent tag i.collective_coms_states free)) in
        rw (e, done, erase_tags)
          (ap (λ m. erase_tags g tag es (record s { client_info = m })) same
            ∙ erase_tags-same g tag es s clear)
  ]
]

-- In a state that satisfies the invariant, after a successful transition to the end of an
-- operation the handler's own erasing of the tag from the clients, for any list of entries,
-- changes nothing.
pub complete-erase_tags :
    (g tag : ℕ) (es : List (ℕ × SocketAddress)) (s : MasterState)
    → Inv s
    → (transition_to_collective_comms_complete_phase g tag s).1 ≡ true
    → erase_tags g tag es (transition_to_collective_comms_complete_phase g tag s).0
      ≡ (transition_to_collective_comms_complete_phase g tag s).0
complete-erase_tags g tag es s v done =
    erase_tags-same g tag es (transition_to_collective_comms_complete_phase g tag s).0
      (complete-is_clear g tag s v done)

-- ===== src/Master/Invariant/Partial.antt =====
-- Loops that are left early.
use pccl.Common.{
  ◌++◌, modify, ==-refl, ℕ, ◌≡◌, refl, sym, ap, ◌∙◌, Bool, true, false, ◌||◌, [], ◌∷◌, Option, some,
  ◌==◌, nat_eq, nat_beq_iff, lookup, contains, Unique, arith, Option-cases, inl, inr, subst,
}
use pccl.Net.{socket_eq}
use pccl.Client.{ClientInfo, ConnectionState, state_eq, state_beq, coll_eq}
use pccl.Master.State.{MasterState}
use pccl.Master.Loop.{Infos, visit}
use pccl.Master.Phases.{established_step, transition_to_p2p_connections_established_phase}
use pccl.Master.Invariant.Turn.{KeepsClient}
use pccl.Master.Invariant.Cast.{quiet-Inv}
use pccl.Master.Invariant.{Inv}
use pccl.Master.Invariant.Sets.{is_vote, votes_for}
use pccl.Master.Invariant.Loops.{InfoOk, Oks-lookup, run_step, passes}
use pccl.Master.Invariant.Marked.{same-Inv}
use pccl.Master.Invariant.Established.{
  client_step, visit_with-visit, client_uuid-kept, socket_address-kept, client_step-InfoOk,
  client_step-without_store,
}

split-once :
    (pre m : Infos) (k : ℕ) (i : ClientInfo) → Unique (pre ++ (k, i) ∷ m) → contains k pre ≡ false
split-once [] m k i o = refl
split-once ((j, x) ∷ pre) m k i o = ground (
  arith,
  split-once pre m k i o.1,
  contains-append j pre ((k, i) ∷ m),
  ==-refl k,
  nat_beq_iff j k,
)
  where
    contains-append :
        (w : ℕ) (xs ys : Infos) → contains w (xs ++ ys) ≡ (contains w xs || contains w ys)
    contains-append w [] ys = refl
    contains-append w ((z, y) ∷ xs) ys = ground (arith, contains-append w xs ys)

module _ (f : ClientInfo → ClientInfo) (k : ℕ) (i : ClientInfo) (m : Infos) where
  modify-at :
      (pre : Infos) → contains k pre ≡ false → modify k f (pre ++ (k, i) ∷ m) ≡ pre ++ (k, f i) ∷ m
  modify-at [] h = ground (arith, ==-refl k)
  modify-at ((j, x) ∷ pre) h = ground (arith, modify-at pre)

  lookup-at : (pre : Infos) → contains k pre ≡ false → lookup k (pre ++ (k, i) ∷ m) ≡ some i
  lookup-at [] h = ground (arith, ==-refl k)
  lookup-at ((j, x) ∷ pre) h = ground (arith, lookup-at pre)

append-one : (pre m : Infos) (x : ℕ × ClientInfo) → (pre ++ x ∷ []) ++ m ≡ pre ++ x ∷ m
append-one [] m x = refl
append-one (y ∷ pre) m x = ap (λ r. y ∷ r) (append-one pre m x)

abbrev with_info : MasterState → Infos → MasterState
with_info s m = record s { client_info = m }

with_info-votes :
    (s : MasterState) (m n : Infos) (st : ConnectionState) (g : ℕ)
    → votes_for st g (with_info s m) ≡ votes_for st g (with_info s n)
unfolding votes_for
with_info-votes s m n st g = ground arith

-- A body that moves no client into or out of the state of a vote.
record KeepsVotes (f : ClientInfo → Option ClientInfo) : Type 0 where
  client : KeepsClient (run_step f)
  group : (i : ClientInfo) → (run_step f i).peer_group ≡ i.peer_group
  ok : (i : ClientInfo) → InfoOk i → passes f i ≡ true → InfoOk (run_step f i)
  votes :
      (i : ClientInfo) (st : ConnectionState)
      → is_vote st ≡ true
      → ((run_step f i).connection_state == st) ≡ (i.connection_state == st)

module _ (f : ClientInfo → Option ClientInfo) (k : KeepsVotes f) (s : MasterState) where
  step-Inv :
      (pre m : Infos) (u : ℕ) (i j : ClientInfo)
      → f i ≡ some j
      → Inv (with_info s (pre ++ (u, i) ∷ m))
      → Inv (with_info s (pre ++ (u, j) ∷ m))
  step-Inv pre m u i j e v =
      let before = with_info s (pre ++ (u, i) ∷ m) in
      let new = split-once pre m u i v.consistent.once in
      let known = lookup-at (run_step f) u i m pre new in
      let to : run_step f i ≡ j = ground arith in
      let pass : passes f i ≡ true = ground arith in
      quiet-Inv before (with_info s (pre ++ (u, j) ∷ m)) u i (run_step f) v known k.client.uuid
        k.client.address k.group (k.votes i)
        (k.ok i (Oks-lookup (pre ++ (u, i) ∷ m) u i v.clients known) pass)
        (ap (λ x. pre ++ (u, x) ∷ m) (sym to) ∙ sym (modify-at (run_step f) u i m pre new)) refl
        refl (with_info-votes s _ _)

  -- A loop that is left early has done its work on the clients before, which keeps the invariant.
  visit-partial :
      (pre m : Infos) → Inv (with_info s (pre ++ m)) → Inv (with_info s (pre ++ (visit f m).0))
  unfolding visit
  visit-partial pre [] v = v
  visit-partial pre ((u, i) ∷ m) v = elim (Option-cases (f i)) [
    | inl e ↦ rw (e, visit) v
    | inr (j, e) ↦
        let moved = step-Inv pre m u i j e v in
        let later =
          visit-partial (pre ++ (u, j) ∷ []) m
            (subst (λ n. Inv (with_info s n)) (sym (append-one pre m (u, j))) moved) in
        let same : visit f ((u, i) ∷ m) ≡ ((u, j) ∷ (visit f m).0, (visit f m).1) =
          rw (e, visit) refl in
        subst (λ n. Inv (with_info s n))
          (append-one pre (visit f m).0 (u, j) ∙ ap (λ r. pre ++ r.0) (sym same)) later
  ]

module _ (s : MasterState) (v : Inv s) where
  client_step-KeepsVotes : (failure : Bool) → KeepsVotes (client_step s v failure)
  unfolding established_step state_beq
  client_step-KeepsVotes failure = record {
    client = record {
      uuid = client_uuid-kept s v failure;
      address = socket_address-kept s v failure;
    };
    group = λ i. ground arith;
    ok = client_step-InfoOk s v failure;
    votes = λ i st h. ground arith;
  }

  -- The end of the establishment phase keeps the invariant also where it fails half way.
  pub transition_to_established-Inv :
      (failure : Bool) → Inv (transition_to_p2p_connections_established_phase failure s).0
  unfolding transition_to_p2p_connections_established_phase votes_for
  transition_to_established-Inv failure =
      let (infos, all_done) =
        visit_with-visit (established_step failure) (client_step s v failure)
          (client_step-without_store s v failure) s.client_info s.bandwidth_store in
      same-Inv (with_info s (visit (client_step s v failure) s.client_info).0) _
        (visit-partial (client_step s v failure) (client_step-KeepsVotes failure) s [] s.client_info
          v)
        infos refl refl (λ st g. ground arith)

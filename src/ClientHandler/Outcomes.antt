-- ===== src/ClientHandler/Outcomes.antt =====
-- What the one who waits for a collective operation can meet: `joinAsyncReduce`.
use pccl.Common.{
  ℕ, ◌≡◌, refl, sym, ◌∙◌, ap, subst, Bool, true, false, List, Option, none, some, if◌then◌else◌,
  ◌==◌, nat_eq, lookup, contains-some, Bool-cases, inl, inr, has, nat_beq_iff,
}
use pccl.ClientState.{running, is_collective_coms_op_running}
use pccl.ClientHandler.{ClientHandler, Attempt, request_and_establish_p2p_connections}
use pccl.ClientHandler.Async.{
  end_reduce, join_async_reduce, Awaited, returned, waiting, undefined, Course, task_value, recover,
  after_establishing,
}
use pccl.ClientHandler.Join.{OpsInv, runs}
use pccl.ClientHandler.Kept.{ops, Keeps, request_and_establish_p2p_connections-Keeps}
use pccl.ClientHandler.Ended.{freed, known_revision, judged_by_value}

-- What the one who waits for an ended task with this value can meet: the call returns the value, in
-- a state where the tag is free and every other tag runs as before; or the task failed, the
-- connections are those of the launch, and the attempts that are given do not conclude.
abbrev pub Outcome :
    Bool → List Attempt → Bool → ℕ → ClientHandler → ClientHandler → Awaited → Type 0
Outcome is_open attempts value tag h ended (returned ok next) =
    (ok ≡ value)
    × ((t : ℕ)
        → is_collective_coms_op_running t next.client_state
          ≡ (if tag == t then false else is_collective_coms_op_running t h.client_state))
Outcome is_open attempts value tag h ended waiting =
    (value ≡ false)
    × (lookup tag h.client_state.collective_coms_connection_revisions ≡ some h.connection_revision)
    × (request_and_establish_p2p_connections is_open attempts (freed tag ended) ≡ none)
Outcome is_open attempts value tag h ended undefined = ⊥

module _ (is_open : Bool) (attempts : List Attempt) (tag : ℕ) (h ended : ClientHandler)
    (revision : ℕ) (same_revision : ended.connection_revision ≡ h.connection_revision)
    (known : lookup tag h.client_state.collective_coms_connection_revisions ≡ some revision)
    (running_after : (t : ℕ)
      → is_collective_coms_op_running t (freed tag ended).client_state
        ≡ (if tag == t then false else is_collective_coms_op_running t h.client_state)) where
  established_Outcome :
      (r : Option (Bool × ClientHandler))
      → request_and_establish_p2p_connections is_open attempts (freed tag ended) ≡ r
      → Keeps (ops (freed tag ended)) r
      → revision ≡ h.connection_revision
      → Outcome is_open attempts false tag h ended (after_establishing r)
  established_Outcome none e k rev = (refl, known ∙ ap some rev, e)
  established_Outcome (some (ok, next)) e k rev =
      (refl, λ t. ap (λ o. has t o.0) k ∙ running_after t)

  value_Outcome :
      (value : Bool)
      → Outcome is_open attempts value tag h ended (
          if value
          then returned true (freed tag ended)
          else recover is_open attempts (freed tag ended) (some revision))
  value_Outcome true = (refl, running_after)
  value_Outcome false = elim (Bool-cases (ended.connection_revision == revision)) [
    | inl same ↦ rw same (
        established_Outcome _ refl
          (request_and_establish_p2p_connections-Keeps is_open attempts (freed tag ended))
          (sym ((nat_beq_iff ended.connection_revision revision).0 same) ∙ same_revision))
    | inr changed ↦ rw changed (refl, running_after)
  ]

-- In a state where the maps of operations are in order and an operation's task runs, once the task
-- has ended, joinAsyncReduce either returns exactly whether the task succeeded, in a state where
-- the tag no longer runs and every other tag runs exactly if it did before; or it has not
-- returned, and then the task failed, the connections are those of the operation's launch, and the
-- attempts that are given to make them anew do not conclude. It never reads an empty optional.
pub join_async_reduce-Outcome :
    (is_open : Bool) (attempts : List Attempt) (tag : ℕ) (ring : List ℕ) (c : Course)
    (h : ClientHandler)
    → OpsInv (ops h)
    → runs tag h ≡ some running
    → let ended = end_reduce tag ring c h in
      Outcome is_open attempts
        (task_value ring h.client_state.assigned_uuid c)
        tag
        h
        ended
        (join_async_reduce is_open attempts tag ended)
unfolding end_reduce
join_async_reduce-Outcome is_open attempts tag ring c h v r =
    let s = h.client_state in
    let ended = end_reduce tag ring c h in
    let value = task_value ring s.assigned_uuid c in
    let there = contains-some tag running s.running_collective_ops r in
    let (revision, known) = known_revision tag s (v.revised tag there) in
    let (judged, after) = judged_by_value is_open attempts tag ring c h v r in
    subst (Outcome is_open attempts value tag h ended)
      (sym (
        judged
        ∙ ap
            (λ o.
              if value
              then returned true (freed tag ended)
              else recover is_open attempts (freed tag ended) o)
            known))
      (value_Outcome is_open attempts tag h ended revision refl known after value)

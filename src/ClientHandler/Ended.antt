-- ===== src/ClientHandler/Ended.antt =====
-- How a collective operation ends for the one who waits for it: `joinAsyncReduce`.
use pccl.Common.{
  ℕ, ◌≡◌, refl, sym, ◌∙◌, ap, subst, Bool, true, false, List, Option, none, some, if◌then◌else◌,
  ◌==◌, nat_eq, lookup, insert, contains, arith, lookup-insert, has-remove, contains-some,
  contains-lookup, Bool-cases, Option-cases, inl, inr,
}
use pccl.ClientState.{
  ClientState, TaskState, running, finished, join_launched, end_collective_coms_op,
  is_collective_coms_op_running, is_failure,
}
use pccl.ClientHandler.{ClientHandler, Attempt}
use pccl.ClientHandler.Async.{
  end_reduce, join_async_reduce, Awaited, returned, waiting, undefined, Course, task_value, recover,
  judge, after_join, after_establishing, in_state,
}
use pccl.ClientHandler.Join.{
  OpsInv, ops_of, runs, end_task-OpsInv, freed-OpsInv, end_collective_coms_op-ended,
}
use pccl.ClientHandler.Kept.{ops, Keeps, request_and_establish_p2p_connections-Keeps}

-- A call that returns leaves the maps in order, and none reads an empty optional.
abbrev pub Sound : Awaited → Type 0
Sound waiting = Unit
Sound undefined = ⊥
Sound (returned ok h) = OpsInv (ops h)

pub known_revision :
    (tag : ℕ) (s : ClientState)
    → contains tag s.collective_coms_connection_revisions ≡ true
    → (r : ℕ) × (lookup tag s.collective_coms_connection_revisions ≡ some r)
known_revision tag s c = elim (Option-cases (lookup tag s.collective_coms_connection_revisions)) [
  | inl missing ↦
      let none_there = contains-lookup tag s.collective_coms_connection_revisions missing in
      absurd cc
  | inr found ↦ found
]

module _ (is_open : Bool) (attempts : List Attempt) where
  after_establishing-Sound :
      (h : ClientHandler) (r : Option (Bool × ClientHandler))
      → OpsInv (ops h)
      → Keeps (ops h) r
      → Sound (after_establishing r)
  after_establishing-Sound h none v k = tt
  after_establishing-Sound h (some (ok, next)) v k = subst OpsInv (sym k) v

  recover-Sound :
      (h : ClientHandler) (revision : ℕ)
      → OpsInv (ops h)
      → Sound (recover is_open attempts h (some revision))
  recover-Sound h revision v = elim (Bool-cases (h.connection_revision == revision)) [
    | inl same ↦ rw same (
        after_establishing-Sound h _ v
          (request_and_establish_p2p_connections-Keeps is_open attempts h))
    | inr changed ↦ rw changed v
  ]

  judge-Sound :
      (tag : ℕ) (h : ClientHandler) (failure : Option Bool)
      → (r : ℕ) × (lookup tag h.client_state.collective_coms_connection_revisions ≡ some r)
      → OpsInv (ops h)
      → Sound (judge is_open attempts tag h failure)
  judge-Sound tag h none known v = v
  judge-Sound tag h (some true) (r, known) v = rw known (recover-Sound h r v)
  judge-Sound tag h (some false) known v = v

  joined-Sound :
      (tag : ℕ) (h : ClientHandler) (task : Option TaskState)
      → runs tag h ≡ task
      → OpsInv (ops h)
      → Sound (after_join is_open attempts tag h (join_launched tag h.client_state task))
  joined-Sound tag h none e v = v
  joined-Sound tag h (some running) e v = tt
  joined-Sound tag h (some finished) e v =
      let s = h.client_state in
      let there = contains-some tag finished s.running_collective_ops e in
      let revision : (r : ℕ) × (lookup tag s.collective_coms_connection_revisions ≡ some r) =
        known_revision tag s (v.revised tag there) in
      let ended = end_collective_coms_op-ended tag s v there in
      rw ended (
        judge-Sound tag _ _ revision
          (subst (λ x. OpsInv (ops_of x.1)) ended (freed-OpsInv tag s v there)))

  pub join_async_reduce-Sound :
      (tag : ℕ) (h : ClientHandler)
      → OpsInv (ops h)
      → Sound (join_async_reduce is_open attempts tag h)
  unfolding join_async_reduce
  join_async_reduce-Sound tag h v = joined-Sound tag h (runs tag h) refl v

-- The state after the end of an operation.
abbrev pub freed : ℕ → ClientHandler → ClientHandler
freed tag h = in_state h (end_collective_coms_op tag h.client_state).1

pub freed-running :
    (tag t : ℕ) (h : ClientHandler)
    → OpsInv (ops h)
    → contains tag h.client_state.running_collective_ops ≡ true
    → is_collective_coms_op_running t (freed tag h).client_state
      ≡ (if tag == t then false else is_collective_coms_op_running t h.client_state)
freed-running tag t h v there =
    rw (end_collective_coms_op-ended tag h.client_state v there)
      (has-remove tag t h.client_state.running_collective_coms_ops_tags)

-- The end of an operation changes neither what is filed of its result nor the revisions.
freed-ops :
    (tag : ℕ) (h : ClientHandler)
    → OpsInv (ops h)
    → contains tag h.client_state.running_collective_ops ≡ true
    → ((ops (freed tag h)).2 ≡ (ops h).2) × ((ops (freed tag h)).3 ≡ (ops h).3)
freed-ops tag h v there =
    let ended = end_collective_coms_op-ended tag h.client_state v there in
    (ap (λ x. (ops_of x.1).2) ended, ap (λ x. (ops_of x.1).3) ended)

join_finished :
    (is_open : Bool) (attempts : List Attempt) (tag n : ℕ) (h : ClientHandler)
    → OpsInv (ops h)
    → runs tag h ≡ some finished
    → lookup tag h.client_state.running_reduce_tasks_failure_states ≡ some n
    → join_async_reduce is_open attempts tag h
      ≡ judge is_open attempts tag (freed tag h) (some (n == 0))
unfolding join_async_reduce
join_finished is_open attempts tag n h v e filed =
    let there = contains-some tag finished h.client_state.running_collective_ops e in
    ap (λ task. after_join is_open attempts tag h (join_launched tag h.client_state task)) e
    ∙ ap (λ state. judge is_open attempts tag (freed tag h) (is_failure state))
        (ap (lookup tag) (freed-ops tag h v there).1 ∙ filed)

-- By the value of the task: what the call does.
pub judged_by_value :
    (is_open : Bool) (attempts : List Attempt) (tag : ℕ) (ring : List ℕ) (c : Course)
    (h : ClientHandler)
    → OpsInv (ops h)
    → runs tag h ≡ some running
    → let ended = end_reduce tag ring c h in
      let revision = lookup tag h.client_state.collective_coms_connection_revisions in
      (join_async_reduce is_open attempts tag ended ≡ (
        if task_value ring h.client_state.assigned_uuid c
        then returned true (freed tag ended)
        else recover is_open attempts (freed tag ended) revision))
      × ((t : ℕ)
          → is_collective_coms_op_running t (freed tag ended).client_state
            ≡ (if tag == t then false else is_collective_coms_op_running t h.client_state))
unfolding end_reduce
judged_by_value is_open attempts tag ring c h v r =
    let s = h.client_state in
    let value = task_value ring s.assigned_uuid c in
    let ended = end_reduce tag ring c h in
    let v' = end_task-OpsInv tag value s r v in
    let e : runs tag ended ≡ some finished = found tag finished s.running_collective_ops in
    let there = contains-some tag finished ended.client_state.running_collective_ops e in
    let filed = found tag (if value then 1 else 0) s.running_reduce_tasks_failure_states in
    let kept = ap (lookup tag) (freed-ops tag ended v' there).0 in
    (
      join_finished is_open attempts tag _ ended v' e filed
          ∙ (judged value
              ∙ ap
                  (λ o.
                    if value
                    then returned true (freed tag ended)
                    else recover is_open attempts (freed tag ended) o)
                  kept),
      λ t. freed-running tag t ended v' there,
    )
  where
    found : {V : Type 0} (k : ℕ) (x : V) (m : List (ℕ × V)) → lookup k (insert k x m) ≡ some x
    found k x m = ground (arith, lookup-insert k k x m)

    judged :
        (b : Bool)
        → let h' = freed tag (end_reduce tag ring c h) in
          let state : ℕ = if b then 1 else 0 in
          judge is_open attempts tag h' (some (state == 0)) ≡ (
            if b
            then returned true h'
            else recover is_open attempts h'
                (lookup tag h'.client_state.collective_coms_connection_revisions))
    judged true = refl
    judged false = refl

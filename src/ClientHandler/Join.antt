-- ===== src/ClientHandler/Join.antt =====
-- The collective operations that a client runs: what its maps have in common, and how one ends.
use pccl.Common.{
  ℕ, ◌≡◌, refl, sym, ◌∙◌, Bool, true, false, List, [], ◌∷◌, Option, none, some, if◌then◌else◌, ◌==◌,
  nat_eq, ltb, lookup, contains, insert, erase, has, remove, Unique, arith, nat_beq_iff, has-add,
  has-remove, contains-insert, lookup-insert, lookup-erase, erase-Unique, insert-Unique,
  contains-some, Bool-cases, inl, inr,
}
use pccl.ClientState.{ClientState, TaskState, running, finished, end_collective_coms_op, end_task}
use pccl.ClientHandler.{ClientHandler}
use pccl.ClientHandler.Async.{all_reduce_async}

-- What is filed of a tag: a task that runs has no result, one that has ended has one.
abbrev pub agrees : Option TaskState → Option ℕ → Bool
agrees none state = true
agrees (some running) (some state) = state == 2
agrees (some finished) (some state) = ltb state 2
agrees (some task) none = false

-- The maps of the operations, of a client's state.
abbrev pub Ops : Type 0
Ops = List ℕ × List (ℕ × TaskState) × List (ℕ × ℕ) × List (ℕ × ℕ)

abbrev pub ops_of : ClientState → Ops
ops_of s = (
  s.running_collective_coms_ops_tags, s.running_collective_ops,
  s.collective_coms_connection_revisions, s.running_reduce_tasks_failure_states,
)

-- The tags that run are those that have a task; of each the revision is known.
pub record OpsInv (o : Ops) : Type 0 where
  pub same : (t : ℕ) → has t o.0 ≡ contains t o.1
  pub unique : Unique o.1
  pub revised : (t : ℕ) → contains t o.1 ≡ true → contains t o.2 ≡ true
  pub filed : (t : ℕ) → agrees (lookup t o.1) (lookup t o.3) ≡ true

abbrev pub runs : ℕ → ClientHandler → Option TaskState
runs tag h = lookup tag h.client_state.running_collective_ops

agrees-insert :
    (tag t : ℕ) (a : TaskState) (n : ℕ) (ops : List (ℕ × TaskState)) (states : List (ℕ × ℕ))
    → agrees (some a) (some n) ≡ true
    → agrees (lookup t ops) (lookup t states) ≡ true
    → agrees (lookup t (insert tag a ops)) (lookup t (insert tag n states)) ≡ true
agrees-insert tag t a n ops states this other =
    rw (lookup-insert tag t a ops, lookup-insert tag t n states) (choose (tag == t))
  where
    choose :
        (b : Bool)
        → agrees (if b then some a else lookup t ops) (if b then some n else lookup t states) ≡ true
    choose true = this
    choose false = other

contains-erase :
    {V : Type 0} (k j : ℕ) (m : List (ℕ × V))
    → Unique m
    → contains j (erase k m) ≡ (if k == j then false else contains j m)
contains-erase k j [] u = ground arith
contains-erase k j ((i, w) ∷ m) u =
    ground (arith, contains-erase k j m u.1, nat_beq_iff k j, nat_beq_iff i k, nat_beq_iff i j, u.0)

pub all_reduce_async-OpsInv :
    (tag : ℕ) (h : ClientHandler)
    → OpsInv (ops_of h.client_state)
    → OpsInv (ops_of (all_reduce_async tag h).1.client_state)
unfolding all_reduce_async
all_reduce_async-OpsInv tag h v =
    let s = h.client_state in
    elim (Bool-cases (has tag s.running_collective_coms_ops_tags)) [
      | inl old ↦ rw old v
      | inr new ↦
          let free : contains tag s.running_collective_ops ≡ false = sym (v.same tag) ∙ new in
          rw (new, free)
            (record {
              same = λ t. grind (
                arith,
                has-add tag t s.running_collective_coms_ops_tags,
                contains-insert tag t running s.running_collective_ops,
                v.same t,
              );
              unique = insert-Unique tag running s.running_collective_ops v.unique;
              revised = λ t k. grind (
                arith,
                v.revised t,
                contains-insert tag t running s.running_collective_ops,
                contains-insert tag t h.connection_revision s.collective_coms_connection_revisions,
              );
              filed = λ t.
                  agrees-insert tag t running 2 s.running_collective_ops
                    s.running_reduce_tasks_failure_states refl (v.filed t);
            })
    ]

pub end_task-OpsInv :
    (tag : ℕ) (value : Bool) (s : ClientState)
    → lookup tag s.running_collective_ops ≡ some running
    → OpsInv (ops_of s)
    → OpsInv (ops_of (end_task tag value s))
end_task-OpsInv tag value s r v =
    let there = contains-some tag running s.running_collective_ops r in
    let kept = λ (t : ℕ). contains-insert tag t finished s.running_collective_ops in
    record {
      same = λ t. grind (arith, kept t, v.same t, there, nat_beq_iff tag t);
      unique = insert-Unique tag finished s.running_collective_ops v.unique;
      revised = λ t k. v.revised t (grind (arith, kept t, there, nat_beq_iff tag t));
      filed = λ t.
          agrees-insert tag t finished (if value then 1 else 0) s.running_collective_ops
            s.running_reduce_tasks_failure_states (ended value) (v.filed t);
    }
  where
    ended : (b : Bool) → agrees (some finished) (some (if b then 1 else 0)) ≡ true
    ended true = refl
    ended false = refl

-- The end of an operation that has a task, which is never a failure.
pub end_collective_coms_op-ended :
    (tag : ℕ) (s : ClientState)
    → OpsInv (ops_of s)
    → contains tag s.running_collective_ops ≡ true
    → end_collective_coms_op tag s ≡ (
      true,
      record s {
        running_collective_coms_ops_tags = remove tag s.running_collective_coms_ops_tags;
        running_collective_ops = erase tag s.running_collective_ops;
      },
    )
end_collective_coms_op-ended tag s v c = rw (v.same tag, c) refl

pub freed-OpsInv :
    (tag : ℕ) (s : ClientState)
    → OpsInv (ops_of s)
    → contains tag s.running_collective_ops ≡ true
    → OpsInv (ops_of (end_collective_coms_op tag s).1)
freed-OpsInv tag s v c =
    let kept = λ (t : ℕ). contains-erase tag t s.running_collective_ops v.unique in
    rw (end_collective_coms_op-ended tag s v c) (record {
      same =
          λ t. grind (arith, kept t, has-remove tag t s.running_collective_coms_ops_tags, v.same t);
      unique = erase-Unique tag s.running_collective_ops v.unique;
      revised = λ t k. v.revised t (grind (arith, kept t));
      filed = λ t. rw (lookup-erase tag t s.running_collective_ops v.unique) (gone t (tag == t));
    })
  where
    gone :
        (t : ℕ) (b : Bool)
        → agrees
            (if b then none else lookup t s.running_collective_ops)
            (lookup t s.running_reduce_tasks_failure_states)
          ≡ true
    gone t true = refl
    gone t false = v.filed t

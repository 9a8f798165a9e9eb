-- ===== src/ClientHandler/Others.antt =====
-- A collective operation that ends while others run: `joinAsyncReduce`.
use pccl.Common.{
  ℕ, ◌≡◌, ◌≢◌, refl, ◌∙◌, ap, subst, Bool, true, false, List, [], ◌∷◌, ◌∷◌, Option, none, some,
  if◌then◌else◌, ◌==◌, nat_eq, lookup, has, arith, contains-some, Bool-cases, inl, inr, not,
  nat_beq_iff,
}
use pccl.ClientState.{
  TaskState, running, finished, join_launched, is_collective_coms_op_running,
  is_any_collective_coms_op_running, is_empty, has_collective_coms_op_failed,
}
use pccl.ClientHandler.{ClientHandler, Attempt, request_and_establish_p2p_connections}
use pccl.ClientHandler.Async.{
  join_async_reduce, Awaited, returned, waiting, undefined, recover, judge, after_join,
}
use pccl.ClientHandler.Join.{OpsInv, runs}
use pccl.ClientHandler.Kept.{ops}
use pccl.ClientHandler.Ended.{freed, freed-running}

-- A call that returns leaves the connections as they are.
abbrev pub Steady : ClientHandler → Awaited → Type 0
Steady h waiting = Unit
Steady h undefined = Unit
Steady h (returned ok next) =
    (next.connection_revision ≡ h.connection_revision)
    × (next.p2p_connections_tx ≡ h.p2p_connections_tx)
    × (next.p2p_connections_rx ≡ h.p2p_connections_rx)

not_empty : (t : ℕ) (ts : List ℕ) → has t ts ≡ true → is_empty ts ≡ false
not_empty t [] h = cc
not_empty t (x ∷ xs) h = refl

busy-refused :
    (is_open : Bool) (attempts : List Attempt) (h : ClientHandler)
    → is_any_collective_coms_op_running h.client_state ≡ true
    → request_and_establish_p2p_connections is_open attempts h ≡ some (false, h)
unfolding request_and_establish_p2p_connections
busy-refused is_open attempts h busy = refused h.accepted is_open _ _ busy
  where
    refused :
        (accepted opened busy : Bool) (r : Option (Bool × ClientHandler))
        → busy ≡ true
        → (if not accepted
            then some (false, h)
            else if not opened
            then some (false, h)
            else if busy
            then some (false, h)
            else r)
          ≡ some (false, h)
    refused false opened busy r e = refl
    refused true false busy r e = refl
    refused true true true r e = refl
    refused true true false r e = cc

module _ (is_open : Bool) (attempts : List Attempt) (h : ClientHandler)
    (busy : is_any_collective_coms_op_running h.client_state ≡ true) where
  recover-Steady : (revision : Option ℕ) → Steady h (recover is_open attempts h revision)
  recover-Steady none = tt
  recover-Steady (some revision) = elim (Bool-cases (h.connection_revision == revision)) [
    | inl same ↦ rw (same, busy-refused is_open attempts h busy) (refl, refl, refl)
    | inr changed ↦ rw changed (refl, refl, refl)
  ]

  judge-Steady : (tag : ℕ) (failure : Option Bool) → Steady h (judge is_open attempts tag h failure)
  judge-Steady tag none = (refl, refl, refl)
  judge-Steady tag (some true) =
      recover-Steady (lookup tag h.client_state.collective_coms_connection_revisions)
  judge-Steady tag (some false) = (refl, refl, refl)

-- In a state where the maps of operations are in order and another operation runs,
-- joinAsyncReduce, if it returns, leaves the connections and their revision as they are: of
-- several operations that fail at once, only the last that is awaited has the connections made
-- anew.
pub join_async_reduce-others :
    (is_open : Bool) (attempts : List Attempt) (tag other : ℕ) (h next : ClientHandler) (ok : Bool)
    → OpsInv (ops h)
    → tag ≢ other
    → is_collective_coms_op_running other h.client_state ≡ true
    → join_async_reduce is_open attempts tag h ≡ returned ok next
    → (next.connection_revision ≡ h.connection_revision)
      × (next.p2p_connections_tx ≡ h.p2p_connections_tx)
      × (next.p2p_connections_rx ≡ h.p2p_connections_rx)
unfolding join_async_reduce
join_async_reduce-others is_open attempts tag other h next ok v differ runs_on e =
    subst (Steady h) e (steady (runs tag h) refl)
  where
    steady :
        (task : Option TaskState)
        → runs tag h ≡ task
        → Steady h (after_join is_open attempts tag h (join_launched tag h.client_state task))
    steady none r = (refl, refl, refl)
    steady (some running) r = tt
    steady (some finished) r =
        let there = contains-some tag finished h.client_state.running_collective_ops r in
        let still : is_collective_coms_op_running other (freed tag h).client_state ≡ true =
          freed-running tag other h v there ∙ grind (arith, nat_beq_iff tag other) in
        let busy : is_any_collective_coms_op_running (freed tag h).client_state ≡ true =
          ap not
            (not_empty other (freed tag h).client_state.running_collective_coms_ops_tags still) in
        judge-Steady is_open attempts (freed tag h) busy tag
          (has_collective_coms_op_failed tag (freed tag h).client_state)

-- ===== src/Handler/Sync/Settled.antt =====
-- The checks of the members before a synchronization, after which its transition cannot fail.
use pccl.Common.{
  ℕ, ◌≡◌, refl, sym, ap, ◌∙◌, Bool, true, false, not, [], ◌∷◌, Option, none, some, if◌then◌else◌,
  ◌==◌, nat_eq, nat_beq_iff, lookup, contains, Unique, values, all, arith, Bool-cases, inl, inr,
  subst, contains-some, get_or,
}
use mathlib.Core.Option
use pccl.Net.{SocketAddress, socket_eq}
use pccl.Client.{ClientInfo, state_eq, state_beq, vote_sync_shared_state}
use pccl.Master.State.{MasterState, SharedStateMismatchStatus, get_client_entry_set, swap_entries}
use pccl.Master.Loop.{Infos, visit}
use pccl.Master.Consensus.{is_member, sync_shared_state_consensus}
use pccl.Master.Consensus.Laws.{group_consensus-members}
use pccl.Master.Phases.{
  get_shared_state_mismatch_status, sync_step, transition_to_shared_state_sync_phase,
}
use pccl.Master.Audit.{check_mask_shared_state_mismatches}
use pccl.Master.Progress.{syncing-accepted}
use pccl.Master.Invariant.{Inv}
use pccl.Master.Invariant.Loops.{InfoOk, Oks-lookup, passes, visit-passes, all-lookup}
use pccl.Master.Invariant.Maps.{Addresses, Keyed-lookup}
use pccl.Master.Invariant.Bookkeeping.{check_mask-Inv}
use pccl.Handler.Sync.{find_mismatch, is_key_mismatch}

-- A status that the loop over the members lets pass.
abbrev is_settled : Option SharedStateMismatchStatus → Bool
is_settled none = false
is_settled (some status) = not (is_key_mismatch status)

find_mismatch-settled :
    (closes : SocketAddress → Bool) (g : ℕ) (s : MasterState) (cu : Addresses) (a : SocketAddress)
    (u : ℕ) (i : ClientInfo)
    → find_mismatch closes g s (swap_entries cu) ≡ none
    → lookup a cu ≡ some u
    → lookup u s.client_info ≡ some i
    → is_member g i ≡ true
    → is_settled (get_shared_state_mismatch_status u s) ≡ true
unfolding find_mismatch
find_mismatch-settled closes g s [] a u i none_found e f m = cc
find_mismatch-settled closes g s ((b, w) ∷ cu) a u i none_found e f m =
    ground (arith, find_mismatch-settled closes g s cu a u i)

sync_step-passes :
    (g : ℕ) (s : MasterState) (i : ClientInfo)
    → InfoOk i
    → (if is_member g i then i.connection_state == vote_sync_shared_state else true) ≡ true
    → (is_member g i ≡ true → is_settled (get_shared_state_mismatch_status i.client_uuid s) ≡ true)
    → passes (sync_step g s) i ≡ true
unfolding sync_step state_beq
sync_step-passes g s i o h settled = ground (arith, o.pending)

lookup-all :
    (p : ClientInfo → Bool) (m : Infos)
    → Unique m
    → ((u : ℕ) (i : ClientInfo) → lookup u m ≡ some i → p i ≡ true)
    → all p (values m) ≡ true
lookup-all p [] u h = refl
lookup-all p ((k, i) ∷ m) u h =
    let later : (w : ℕ) (j : ClientInfo) → lookup w m ≡ some j → p j ≡ true = λ w j e.
      elim (Bool-cases (k == w)) [
        | inr other ↦ h w j (rw other e)
        | inl here ↦
            let fresh : contains w m ≡ false =
              subst (λ n. contains n m ≡ false) ((nat_beq_iff k w).0 here) u.0 in
            absurd (ground (arith, contains-some w j m e))
      ] in
    ground (arith, h k i, nat_beq_iff k k, lookup-all p m u.1 later)

module _ (closes : SocketAddress → Bool) (g : ℕ) (s t : MasterState) (v : Inv s) (w : Inv t)
    (same : t.client_info ≡ s.client_info) where
  member_settled :
      find_mismatch closes g t (get_client_entry_set t) ≡ none
      → (u : ℕ) (i : ClientInfo) → lookup u t.client_info ≡ some i
      → is_member g i ≡ true
      → is_settled (get_shared_state_mismatch_status i.client_uuid t) ≡ true
  unfolding get_client_entry_set
  member_settled found u i e m =
      let filed = Keyed-lookup u t.client_info i w.consistent.keyed e in
      let known : lookup u t.uuid_clients ≡ some i.socket_address =
        sym (w.consistent.address_of u) ∙ ap (Option.map (λ j. j.socket_address)) e in
      rw filed (
        find_mismatch-settled closes g t t.client_uuids i.socket_address u i found
          ((w.consistent.inverse i.socket_address u).1 known) e m)

  -- After the checks of the group's members the transition of the phase succeeds.
  settled_passes :
      sync_shared_state_consensus g s ≡ true
      → find_mismatch closes g t (get_client_entry_set t) ≡ none
      → (transition_to_shared_state_sync_phase g t).1 ≡ true
  unfolding sync_shared_state_consensus transition_to_shared_state_sync_phase get_client_entry_set
  settled_passes agreed found =
      let is_voter : ClientInfo → Bool =
        λ i. if is_member g i then i.connection_state == vote_sync_shared_state else true in
      let voted : all is_voter (values s.client_info) ≡ true =
        group_consensus-members vote_sync_shared_state g (get_or [] g s.votes_sync_shared_state)
          (values s.client_info)
          (syncing-accepted vote_sync_shared_state s.client_info refl v.clients) agreed in
      let done : (visit (sync_step g t) t.client_info).1 ≡ true =
        visit-passes (sync_step g t) t.client_info (
          lookup-all (passes (sync_step g t)) t.client_info w.consistent.once (λ u i e.
            sync_step-passes g t i (Oks-lookup t.client_info u i w.clients e)
              (all-lookup is_voter s.client_info u i voted (ground arith))
              (λ m. member_settled found u i e m))) in
      rw (done, transition_to_shared_state_sync_phase) refl

check_mask-client_info :
    (g : ℕ) (s t : MasterState) (done : Bool)
    → check_mask_shared_state_mismatches g s ≡ some (t, done)
    → t.client_info ≡ s.client_info
unfolding check_mask_shared_state_mismatches
check_mask-client_info g s t done e = ground arith

-- In a state that satisfies the invariant, where the group agrees to synchronize, the comparison
-- of the members' entries with the mask succeeds and the handler's loop over the members finds
-- nobody to kick, the transition to the synchronization succeeds, so that the failure that the
-- handler logs as a bug does not occur.
pub transition_to_sync-consensus :
    (closes : SocketAddress → Bool) (g : ℕ) (s t : MasterState)
    → Inv s
    → sync_shared_state_consensus g s ≡ true
    → check_mask_shared_state_mismatches g s ≡ some (t, true)
    → find_mismatch closes g t (get_client_entry_set t) ≡ none
    → (transition_to_shared_state_sync_phase g t).1 ≡ true
transition_to_sync-consensus closes g s t v agreed e found =
    settled_passes closes g s t v (check_mask-Inv g s t true e v)
      (check_mask-client_info g s t true e) agreed found

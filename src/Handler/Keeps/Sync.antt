-- ===== src/Handler/Keeps/Sync.antt =====
-- The start of the synchronization of shared state keeps the invariant.
use pccl.Common.{
  ℕ, ◌≡◌, ◌∙◌, Bool, true, false, ◌&&◌, List, Option, none, some, ◌==◌, nat_eq, lookup, arith,
  Bool-cases, Option-cases, inl, inr, subst,
}
use pccl.Net.{SocketAddress, socket_eq}
use pccl.Client.{state_eq, vote_sync_shared_state}
use pccl.Master.State.{MasterState, SyncStrategy, find_client_uuid, get_client_entry_set}
use pccl.Master.Votes.{vote_to_sync_shared_state}
use pccl.Master.Consensus.{is_member, sync_shared_state_consensus}
use pccl.Master.SharedState.{
  Entries, elect_shared_state_mask, is_new_revision_legal, vote_shared_state_mask,
}
use pccl.Master.Audit.{check_mask_shared_state_mismatches}
use pccl.Master.Invariant.{Inv}
use pccl.Master.Invariant.Sync.{transition_to_shared_state_sync-Inv}
use pccl.Master.Invariant.Voting.{vote_sync-Inv}
use pccl.Master.Invariant.Bookkeeping.{
  new_revision-Inv, vote_mask-Inv, elect_mask-Inv, check_mask-Inv,
}
use pccl.Handler.{Handler, Action}
use pccl.Handler.Connected.{any_client}
use pccl.Handler.Sync.{
  find_mismatch, start_sync, is_refused, check_sync_shared_state_consensus,
  handle_sync_shared_state,
}
use pccl.Handler.Sync.Settled.{transition_to_sync-consensus}

-- The state of a result, where there is one, satisfies the invariant.
abbrev pub Stays : {R : Type 0} → (R → Handler) → Option R → Type 0
Stays state none = Unit
Stays state (some r) = Inv (state r).server_state

pub elect_mask-consensus :
    (g : ℕ) (s : MasterState)
    → sync_shared_state_consensus g (elect_shared_state_mask g s).0
      ≡ sync_shared_state_consensus g s
unfolding elect_shared_state_mask sync_shared_state_consensus
elect_mask-consensus g s = ground arith

start_sync-Inv :
    (closes : SocketAddress → Bool) (g : ℕ) (s : MasterState) (h : Handler)
    → Inv s
    → sync_shared_state_consensus g s ≡ true
    → check_mask_shared_state_mismatches g s ≡ some (h.server_state, true)
    → Inv (start_sync closes g h).0.server_state
unfolding start_sync
start_sync-Inv closes g s h v agreed e =
    let t = h.server_state in
    let w = check_mask-Inv g s t true e v in
    elim (Option-cases (find_mismatch closes g t (get_client_entry_set t))) [
      | inr ((ok, out), found) ↦ rw (found, start_sync) w
      | inl found ↦
          rw (found, start_sync)
            (transition_to_shared_state_sync-Inv t w g
              (transition_to_sync-consensus closes g s t v agreed e found))
    ]

pub check_sync-Stays :
    (closes : SocketAddress → Bool) (g : ℕ) (h : Handler)
    → Inv h.server_state
    → Stays (λ r. r.0) (check_sync_shared_state_consensus closes g h)
unfolding check_sync_shared_state_consensus
check_sync-Stays closes g h v =
    let s = h.server_state in
    let mask = elect_shared_state_mask g s in
    let waiting =
      any_client (λ i. is_member g i && i.connection_state == vote_sync_shared_state) s
        (get_client_entry_set s) in
    let kept = elect_mask-Inv g s v in
    elim (Bool-cases waiting) [
      | inr idle ↦ rw (idle, check_sync_shared_state_consensus) v
      | inl some_wait ↦ elim (Bool-cases (sync_shared_state_consensus g s)) [
        | inr split ↦ rw (some_wait, split, check_sync_shared_state_consensus) v
        | inl agreed ↦ elim (Bool-cases mask.1) [
          | inr no_mask ↦ rw (some_wait, agreed, no_mask, check_sync_shared_state_consensus) kept
          | inl elected ↦ elim (Option-cases (check_mask_shared_state_mismatches g mask.0)) [
            | inl undefined ↦
                rw (some_wait, agreed, elected, undefined, check_sync_shared_state_consensus) tt
            | inr ((t, false), e) ↦
                rw (some_wait, agreed, elected, e, check_sync_shared_state_consensus)
                  (check_mask-Inv g mask.0 t false e kept)
            | inr ((t, true), e) ↦
                rw (some_wait, agreed, elected, e, check_sync_shared_state_consensus)
                  (start_sync-Inv closes g mask.0 (record h { server_state = t }) kept
                    (elect_mask-consensus g s ∙ agreed) e)
          ]
        ]
      ]
    ]

pub handle_sync-Stays :
    (closes : SocketAddress → Bool) (a : SocketAddress) (revision : ℕ) (strategy : SyncStrategy)
    (hashes : Entries) (h : Handler)
    → Inv h.server_state
    → Stays (λ r. r.0) (handle_sync_shared_state closes a revision strategy hashes h)
unfolding handle_sync_shared_state
handle_sync-Stays closes a revision strategy hashes h v =
    elim (Option-cases (find_client_uuid a h.server_state)) [
      | inl unknown ↦ rw (unknown, handle_sync_shared_state) v
      | inr (u, known) ↦ elim (Option-cases (lookup u h.server_state.client_info)) [
        | inl missing ↦ rw (known, missing, handle_sync_shared_state) v
        | inr (i, e) ↦ elim (Option-cases (is_new_revision_legal u revision h.server_state)) [
          | inl undefined ↦ rw (known, e, undefined, handle_sync_shared_state) tt
          | inr ((s, status), legal) ↦
              let kept = new_revision-Inv u revision h.server_state s status legal v in
              let voted = vote_to_sync_shared_state u strategy s in
              let cast = vote_sync-Inv u strategy s kept in
              let next = record h { server_state = vote_shared_state_mask u hashes voted.0 } in
              let stays =
                check_sync-Stays closes i.peer_group next (vote_mask-Inv u hashes voted.0 cast) in
              elim (Bool-cases (is_refused status)) [
                | inl refused ↦ rw (known, e, legal, refused, handle_sync_shared_state) kept
                | inr r ↦ elim (Bool-cases voted.1) [
                  | inr c ↦ rw (known, e, legal, r, c, handle_sync_shared_state) cast
                  | inl c ↦
                      elim (Option-cases
                        (check_sync_shared_state_consensus closes i.peer_group next)) [
                          | inl undefined ↦
                              rw (known, e, legal, r, c, undefined, handle_sync_shared_state) tt
                          | inr (result, done) ↦
                              rw (known, e, legal, r, c, done, handle_sync_shared_state)
                                (subst (Stays (λ q. q.0)) done stays)
                        ]
                ]
              ]
        ]
      ]
    ]

-- A client's vote to synchronize shared state keeps the invariant wherever the model of the
-- handler has a result, that is, where the code's behaviour is defined: with the vote refused,
-- accepted or the last one of the group, and with a failure or a kick in the checks that follow.
pub handle_sync-Inv :
    (closes : SocketAddress → Bool) (a : SocketAddress) (revision : ℕ) (strategy : SyncStrategy)
    (hashes : Entries) (h next : Handler) (out : List Action)
    → handle_sync_shared_state closes a revision strategy hashes h ≡ some (next, out)
    → Inv h.server_state
    → Inv next.server_state
handle_sync-Inv closes a revision strategy hashes h next out e v =
    subst (Stays (λ r. r.0)) e (handle_sync-Stays closes a revision strategy hashes h v)

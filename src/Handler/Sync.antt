-- ===== src/Handler/Sync.antt =====
-- The start of the synchronization of shared state: `checkSyncSharedStateConsensus`,
-- `handleSyncSharedState`. Whether closing a connection succeeds is the argument `closes`, since the
-- code stops where it does not. `none` is what the code leaves undefined.
pub mod Answers
pub mod Settled
use pccl.Common.{
  ℕ, Bool, true, false, ◌&&◌, ◌||◌, not, List, [], ◌∷◌, ◌++◌, map, Option, none, some,
  if◌then◌else◌, ◌==◌, nat_eq, lookup,
}
use pccl.Net.{SocketAddress, socket_eq}
use pccl.Client.{
  ClientInfo, state_eq, vote_sync_shared_state, distribute_shared_state, request_shared_state,
}
use pccl.Master.State.{
  MasterState, HashType, SyncStrategy, enforce_popular, tx_only, SharedStateMismatchStatus,
  key_set_mismatch, revision_increment_violation, get_client_entry_set, find_client_uuid,
  get_shared_state_sync_strategy,
}
use pccl.Master.Votes.{vote_to_sync_shared_state}
use pccl.Master.Consensus.{is_member, sync_shared_state_consensus}
use pccl.Master.Phases.{get_shared_state_mismatch_status, transition_to_shared_state_sync_phase}
use pccl.Master.SharedState.{
  Entries, elect_shared_state_mask, is_new_revision_legal, vote_shared_state_mask,
}
use pccl.Master.Audit.{
  check_mask_shared_state_mismatches, get_outdated_shared_state_keys, get_shared_state_entry_hash,
  get_shared_state_entry_hash_type,
}
use pccl.Handler.{Handler, Action, send, kick, SyncResponse, sync_shared_state}
use pccl.Handler.Connected.{any_client}
use pccl.Handler.Answer.{
  find_best_shared_state_tx_peer, hash_types_of, response_to, is_syncing, answer_members,
}

abbrev pub is_key_mismatch : SharedStateMismatchStatus → Bool
is_key_mismatch key_set_mismatch = true
is_key_mismatch _ = false

-- The first member without a status, or with other keys than the mask, ends the check: whether it
-- succeeds, and the kick.
unfoldable pub find_mismatch :
    (SocketAddress → Bool)
    → ℕ
    → MasterState
    → List (ℕ × SocketAddress)
    → Option (Bool × List Action)
find_mismatch closes g s [] = none
find_mismatch closes g s ((u, a) ∷ es) =
    let rest = find_mismatch closes g s es in
    elim (lookup u s.client_info) [
      | none ↦ rest
      | some i ↦
          if is_member g i
          then elim (get_shared_state_mismatch_status u s) [
            | none ↦ some (false, [])
            | some status ↦ if is_key_mismatch status then some (closes a, kick a ∷ []) else rest
          ]
          else rest
    ]

abbrev pub is_tx_only : Option SyncStrategy → Bool
is_tx_only (some tx_only) = true
is_tx_only _ = false

abbrev pub is_enforce_popular : Option SyncStrategy → Bool
is_enforce_popular (some enforce_popular) = true
is_enforce_popular _ = false

-- Kicks the members that pass the test, until a connection cannot be closed.
unfoldable pub kick_members :
    (SocketAddress → Bool)
    → ℕ
    → (ℕ → ClientInfo → Bool)
    → MasterState
    → List (ℕ × SocketAddress)
    → List Action × Bool
kick_members closes g p s [] = ([], true)
kick_members closes g p s ((u, a) ∷ es) =
    let (out, ok) = kick_members closes g p s es in
    elim (lookup u s.client_info) [
      | none ↦ (out, ok)
      | some i ↦
          if is_member g i && p u i
          then (if closes a then (kick a ∷ out, ok) else (kick a ∷ [], false))
          else (out, ok)
    ]

-- Whether a member declares, or does not declare, to enforce the popular state.
unfoldable pub any_enforces : Bool → ℕ → MasterState → List (ℕ × SocketAddress) → Bool
any_enforces wanted g s [] = false
any_enforces wanted g s ((u, a) ∷ es) =
    let rest = any_enforces wanted g s es in
    let enforces = is_enforce_popular (get_shared_state_sync_strategy u s) in
    elim (lookup u s.client_info) [
      | none ↦ rest
      | some i ↦ if is_member g i && (if wanted then enforces else not enforces) then true else rest
    ]

-- After the transition: kicks, and the answers.
unfoldable pub announce_sync : (SocketAddress → Bool) → ℕ → MasterState → List Action × Bool
unfolding kick_members any_enforces answer_members
announce_sync closes g s =
    let es = get_client_entry_set s in
    let (kicked, ok) =
      kick_members closes g
        (λ u i.
          i.connection_state == request_shared_state
          && is_tx_only (get_shared_state_sync_strategy u s))
        s es in
    let mixed = any_enforces true g s es && any_enforces false g s es in
    let (others, all_closed) : List Action × Bool =
      if mixed
      then kick_members closes g
          (λ u i. not (is_enforce_popular (get_shared_state_sync_strategy u s))) s es
      else ([], true) in
    let (answers, answered) = answer_members g s es in
    if ok
    then (if all_closed
        then (kicked ++ (others ++ answers), answered)
        else (kicked ++ others, false))
    else (kicked, false)

-- After the comparison with the mask: the first member that does not fit is kicked, or the
-- synchronization starts.
unfoldable pub start_sync : (SocketAddress → Bool) → ℕ → Handler → Handler × List Action × Bool
unfolding find_mismatch announce_sync
start_sync closes g h =
    let moved = transition_to_shared_state_sync_phase g h.server_state in
    let announced = announce_sync closes g moved.0 in
    elim (find_mismatch closes g h.server_state (get_client_entry_set h.server_state)) [
      | some (ok, out) ↦ (h, out, ok)
      | none ↦ (
        record h { server_state = moved.0 },
        if moved.1 then announced.0 else [],
        moved.1 && announced.1,
      )
    ]

unfoldable pub check_sync_shared_state_consensus :
    (SocketAddress → Bool) → ℕ → Handler → Option (Handler × List Action × Bool)
unfolding start_sync any_client
check_sync_shared_state_consensus closes g h =
    let s = h.server_state in
    let at : MasterState → Handler = λ t. record h { server_state = t } in
    let elected = elect_shared_state_mask g s in
    let waiting =
      any_client (λ i. is_member g i && i.connection_state == vote_sync_shared_state) s
        (get_client_entry_set s) in
    if waiting
    then (if sync_shared_state_consensus g s
        then (if elected.1
            then elim (check_mask_shared_state_mismatches g elected.0) [
              | none ↦ none
              | some (t, masked) ↦
                  some (if masked then start_sync closes g (at t) else (at t, [], false))
            ]
            else some (at elected.0, [], false))
        else some (h, [], true))
    else some (h, [], false)

-- A failed check makes the master kick the whole group.
unfoldable pub kick_group : ℕ → MasterState → List (ℕ × SocketAddress) → List Action
kick_group g s [] = []
kick_group g s ((u, a) ∷ es) =
    let rest = kick_group g s es in
    elim (lookup u s.client_info) [
      | none ↦ rest
      | some i ↦ if is_member g i then kick a ∷ rest else rest
    ]

abbrev pub is_refused : SharedStateMismatchStatus → Bool
is_refused revision_increment_violation = true
is_refused key_set_mismatch = true
is_refused _ = false

unfoldable pub handle_sync_shared_state :
    (SocketAddress → Bool)
    → SocketAddress
    → ℕ
    → SyncStrategy
    → Entries
    → Handler
    → Option (Handler × List Action)
unfolding check_sync_shared_state_consensus kick_group
handle_sync_shared_state closes a revision strategy hashes h =
    elim (find_client_uuid a h.server_state) [
      | none ↦ some (h, kick a ∷ [])
      | some u ↦ elim (lookup u h.server_state.client_info) [
        | none ↦ some (h, [])
        | some i ↦ elim (is_new_revision_legal u revision h.server_state) [
          | none ↦ none
          | some (s, status) ↦
              let voted = vote_to_sync_shared_state u strategy s in
              let next = record h { server_state = vote_shared_state_mask u hashes voted.0 } in
              if is_refused status
              then some (record h { server_state = s }, kick a ∷ [])
              else if voted.1
              then elim (check_sync_shared_state_consensus closes i.peer_group next) [
                | none ↦ none
                | some (done, out, ok) ↦ some (
                  done,
                  out
                      ++ (if ok
                          then []
                          else kick_group i.peer_group done.server_state
                              (get_client_entry_set done.server_state)),
                )
              ]
              else some (record h { server_state = voted.0 }, kick a ∷ [])
        ]
      ]
    ]

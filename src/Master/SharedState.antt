-- ===== src/Master/SharedState.antt =====
-- The election of the shared state mask, and each client's comparison with it.
pub mod Election
use pccl.Common.{
  ℕ, suc, ◌+◌, ◌-◌, ◌≡◌, refl, ◌%◌, ◌^◌, Bool, true, false, ◌&&◌, ◌||◌, not, List, [], ◌∷◌, ◌++◌,
  map, Option, none, some, if◌then◌else◌, ◌==◌, Eq, nat_eq, text_eq, lookup, contains, get_or,
  insert, values, length, ltb, add, ◌↔◌, arith,
}
use text.Mathlib.TextEquality.{eq_iff}
use pccl.Client.{ClientInfo, CollectiveCommunicationState}
use pccl.Master.State.{
  MasterState, PerPeer, SharedStateHashEntry, SharedStateMismatchStatus, HashType, SyncStrategy,
  hash_simple, hash_crc32, enforce_popular, rx_only, tx_only, successful_match, key_set_mismatch,
  content_hash_mismatch, revision_outdated, revision_increment_violation,
}
use pccl.Master.Phases.{get_shared_state_mismatch_status}
use pccl.Master.Consensus.{in_group}

abbrev pub Entries : Type 0
Entries = List SharedStateHashEntry

abbrev pub hash_type_beq : HashType → HashType → Bool
hash_type_beq hash_simple hash_simple = true
hash_type_beq hash_crc32 hash_crc32 = true
hash_type_beq _ _ = false

abbrev pub bool_beq : Bool → Bool → Bool
bool_beq true b = b
bool_beq false b = not b

unfoldable pub entry_beq : SharedStateHashEntry → SharedStateHashEntry → Bool
entry_beq a b =
    a.key == b.key
    && (a.hash == b.hash
        && (hash_type_beq a.hash_type b.hash_type
            && (a.data_size == b.data_size
                && (a.data_type == b.data_type
                    && bool_beq a.allow_content_inequality b.allow_content_inequality))))

unfoldable pub entries_beq : Entries → Entries → Bool
unfolding entry_beq
entries_beq [] [] = true
entries_beq (x ∷ xs) (y ∷ ys) = entry_beq x y && entries_beq xs ys
entries_beq _ _ = false

-- The revision test of `isNewRevisionLegal`. An unknown client makes the code read through the
-- `end()` iterator: `none`.
abbrev pub revision_status : ℕ → ℕ → SharedStateMismatchStatus
revision_status expected revision =
    if expected == 0
    then successful_match
    else if ltb revision expected
    then revision_outdated
    else if ltb expected revision
    then revision_increment_violation
    else successful_match

abbrev pub set_status : ℕ → ℕ → SharedStateMismatchStatus → MasterState → MasterState
set_status g u status s = record s {
  shared_state_statuses =
      insert g (insert u status (get_or [] g s.shared_state_statuses)) s.shared_state_statuses;
}

unfoldable pub is_new_revision_legal :
    ℕ → ℕ → MasterState → Option (MasterState × SharedStateMismatchStatus)
is_new_revision_legal u revision s = elim (lookup u s.client_info) [
  | none ↦ none
  | some i ↦
      let expected = get_or 0 i.peer_group s.next_shared_state_revision in
      let status = revision_status expected revision in
      let resumed = record s {
        next_shared_state_revision =
            if expected == 0 && not (revision == 0)
            then insert i.peer_group revision s.next_shared_state_revision
            else s.next_shared_state_revision;
      } in
      some (set_status i.peer_group u status resumed, status)
]

abbrev is_rx_only : SyncStrategy → Bool
is_rx_only rx_only = true
is_rx_only _ = false

abbrev pub emplace_back {ℓ} : {A : Type ℓ} → ℕ → A → List (ℕ × List A) → List (ℕ × List A)
emplace_back g a m = insert g (get_or [] g m ++ a ∷ []) m

-- A client with no recorded strategy counts as `enforce_popular`, the enum's first value.
unfoldable pub vote_shared_state_mask : ℕ → Entries → MasterState → MasterState
vote_shared_state_mask u entries s = elim (lookup u s.client_info) [
  | none ↦ s
  | some i ↦
      let strategy = get_or enforce_popular u s.shared_state_sync_strategies in
      record s {
        shared_state_sync_strategies = insert u strategy s.shared_state_sync_strategies;
        shared_state_mask_candidates =
            if is_rx_only strategy
            then s.shared_state_mask_candidates
            else emplace_back i.peer_group (u, entries) s.shared_state_mask_candidates;
        shared_state_entries = emplace_back i.peer_group (u, entries) s.shared_state_entries;
      }
]

-- A priority p, an `int` from -2 to 1, is written p + 2.
pub record ElectionStats : Type 0 where
  pub num_votes : ℕ
  pub priority : ℕ

abbrev pub priority_of : SharedStateMismatchStatus → ℕ
priority_of successful_match = 3
priority_of revision_outdated = 0
priority_of _ = 1

-- `election_stats[entry_list]`, a fresh entry with no vote and priority 0; the last vote for a
-- list with a known status decides its priority.
abbrev pub cast_vote : Option SharedStateMismatchStatus → ElectionStats → ElectionStats
cast_vote none t = record t { num_votes = suc t.num_votes }
cast_vote (some status) t = record { num_votes = suc t.num_votes; priority = priority_of status }

abbrev pub Poll : Type 0
Poll = List (Entries × ElectionStats)

unfoldable pub count_vote : Option SharedStateMismatchStatus → Entries → Poll → Poll
unfolding entries_beq
count_vote status entries [] =
    (entries, cast_vote status (record { num_votes = 0; priority = 2 })) ∷ []
count_vote status entries ((c, t) ∷ p) =
    if entries_beq c entries
    then (c, cast_vote status t) ∷ p
    else (c, t) ∷ count_vote status entries p

unfoldable pub count_votes : MasterState → PerPeer Entries → Poll → Poll
unfolding count_vote get_shared_state_mismatch_status
count_votes s [] poll = poll
count_votes s ((u, entries) ∷ cs) poll =
    count_votes s cs (count_vote (get_shared_state_mismatch_status u s) entries poll)

unfoldable pub max_priority : Poll → ℕ → ℕ
max_priority [] best = best
max_priority ((c, t) ∷ p) best = max_priority p (if ltb best t.priority then t.priority else best)

-- The first of the candidates of that priority with the most votes, and those votes.
unfoldable pub most_votes : ℕ → Poll → Entries → ℕ → Entries × ℕ
most_votes top [] winner votes = (winner, votes)
most_votes top ((c, t) ∷ p) winner votes =
    let better = t.priority == top && ltb votes t.num_votes in
    most_votes top p (if better then c else winner) (if better then t.num_votes else votes)

unfoldable pub winner_of : Poll → Entries × ℕ
unfolding max_priority most_votes
winner_of poll = most_votes (max_priority poll 0) poll [] 0

unfoldable pub elect_shared_state_mask : ℕ → MasterState → MasterState × Bool
unfolding count_votes winner_of
elect_shared_state_mask g s =
    let (winner, votes) =
      winner_of (count_votes s (get_or [] g s.shared_state_mask_candidates) []) in
    if votes == 0
    then (s, false)
    else (record s { shared_state_mask = insert g winner s.shared_state_mask }, true)

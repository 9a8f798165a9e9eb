-- ===== src/Master/Audit.antt =====
-- The comparison of each client's entries with the elected mask, and what is asked of it afterwards.
pub mod Compare
use pccl.Common.{
  Text, ℕ, suc, ◌+◌, ◌-◌, ◌≡◌, refl, ◌%◌, ◌^◌, Bool, true, false, ◌&&◌, ◌||◌, not, List, [], ◌∷◌,
  ◌++◌, map, Option, none, some, if◌then◌else◌, ◌==◌, Eq, nat_eq, text_eq, lookup, contains, get_or,
  insert, values, length, ltb, add, ◌↔◌, arith,
}
use text.Mathlib.TextEquality.{eq_iff}
use pccl.Client.{ClientInfo, CollectiveCommunicationState}
use pccl.Master.State.{
  MasterState, PerPeer, SharedStateHashEntry, SharedStateMismatchStatus, HashType, SyncStrategy,
  hash_simple, hash_crc32, enforce_popular, rx_only, tx_only, successful_match, key_set_mismatch,
  content_hash_mismatch, revision_outdated, revision_increment_violation,
}
use pccl.Master.Phases.{get_shared_state_mismatch_status}
use pccl.Master.Consensus.{in_group}
use pccl.Master.SharedState.{Entries, emplace_back, bool_beq, hash_type_beq}

-- What the comparison writes for one group.
pub record Audit : Type 0 where
  pub hashes : List (Text × ℕ)
  pub hash_types : List (Text × HashType)
  pub dirty_keys : PerPeer (List Text)

abbrev pub same_shape : SharedStateHashEntry → SharedStateHashEntry → Bool
same_shape m e =
    m.key == e.key
    && (bool_beq m.allow_content_inequality e.allow_content_inequality
        && (m.data_type == e.data_type && hash_type_beq m.hash_type e.hash_type))

abbrev pub note_dirty : ℕ → SharedStateHashEntry → Audit → Audit
note_dirty u m a = record {
  hashes = insert m.key m.hash a.hashes;
  hash_types = insert m.key m.hash_type a.hash_types;
  dirty_keys = emplace_back u m.key a.dirty_keys;
}

-- The loop over the mask, from the status so far. An entry list that is too short makes the code
-- read `entries[i]` out of bounds: `none`.
unfoldable pub compare_entries :
    ℕ
    → Entries
    → Entries
    → SharedStateMismatchStatus
    → Audit
    → Option (SharedStateMismatchStatus × Audit)
compare_entries u [] es status a = some (status, a)
compare_entries u (m ∷ ms) [] status a = none
compare_entries u (m ∷ ms) (e ∷ es) status a =
    let rest =
      compare_entries u ms es (if m.hash == e.hash then status else content_hash_mismatch)
        (if m.hash == e.hash then a else note_dirty u m a) in
    if same_shape m e then rest else some (key_set_mismatch, a)

abbrev pub is_audited : SharedStateMismatchStatus → Bool
is_audited successful_match = true
is_audited revision_outdated = true
is_audited _ = false

abbrev pub is_match : SharedStateMismatchStatus → Bool
is_match successful_match = true
is_match _ = false

abbrev pub Statuses : Type 0
Statuses = PerPeer SharedStateMismatchStatus

unfoldable pub audit_clients :
    Entries → PerPeer Entries → Statuses → Audit → Option (Statuses × Audit)
unfolding compare_entries
audit_clients mask [] statuses a = some (statuses, a)
audit_clients mask ((u, es) ∷ cs) statuses a =
    let old = get_or successful_match u statuses in
    let skip = audit_clients mask cs statuses a in
    let visit : Option (Statuses × Audit) = elim (compare_entries u mask es successful_match a) [
      | none ↦ none
      | some (status, b) ↦
          audit_clients mask cs (if is_match old then insert u status statuses else statuses) b
    ] in
    if is_audited old then visit else skip

unfoldable pub check_mask_shared_state_mismatches : ℕ → MasterState → Option (MasterState × Bool)
unfolding audit_clients
check_mask_shared_state_mismatches g s =
    let mask = get_or [] g s.shared_state_mask in
    let a : Audit = record {
      hashes = get_or [] g s.shared_state_hashes;
      hash_types = get_or [] g s.shared_state_hash_types;
      dirty_keys = get_or [] g s.shared_state_dirty_keys;
    } in
    let result =
      audit_clients mask (get_or [] g s.shared_state_entries) (get_or [] g s.shared_state_statuses)
        a in
    if length mask == 0 then some (s, false) else elim result [
      | none ↦ none
      | some (statuses, b) ↦ some (
        record s {
          shared_state_statuses = insert g statuses s.shared_state_statuses;
          shared_state_hashes = insert g b.hashes s.shared_state_hashes;
          shared_state_hash_types = insert g b.hash_types s.shared_state_hash_types;
          shared_state_dirty_keys = insert g b.dirty_keys s.shared_state_dirty_keys;
        },
        true,
      )
    ]

unfoldable pub get_shared_state_revision : ℕ → MasterState → ℕ
get_shared_state_revision g s = get_or 0 g s.next_shared_state_revision

unfoldable pub get_outdated_shared_state_keys : ℕ → MasterState → List Text
get_outdated_shared_state_keys u s = elim (lookup u s.client_info) [
  | none ↦ []
  | some i ↦ get_or [] u (get_or [] i.peer_group s.shared_state_dirty_keys)
]

unfoldable pub get_shared_state_entry_hash : ℕ → Text → MasterState → ℕ
get_shared_state_entry_hash g key s = get_or 0 key (get_or [] g s.shared_state_hashes)

unfoldable pub get_shared_state_entry_hash_type : ℕ → Text → MasterState → Option HashType
get_shared_state_entry_hash_type g key s = lookup key (get_or [] g s.shared_state_hash_types)

unfoldable pub get_shared_state_keys : ℕ → MasterState → List Text
get_shared_state_keys g s = map (λ e. e.key) (get_or [] g s.shared_state_mask)

abbrev add_tags : List (ℕ × CollectiveCommunicationState) → List ℕ → List ℕ
add_tags [] acc = acc
add_tags ((t, c) ∷ m) acc = add_tags m (add t acc)

unfoldable pub ongoing_tags : ℕ → List ClientInfo → List ℕ → List ℕ
ongoing_tags g [] acc = acc
ongoing_tags g (i ∷ is) acc =
    ongoing_tags g is (if in_group g i then add_tags i.collective_coms_states acc else acc)

unfoldable pub get_ongoing_collective_comms_op_tags : ℕ → MasterState → List ℕ
unfolding ongoing_tags
get_ongoing_collective_comms_op_tags g s = ongoing_tags g (values s.client_info) []

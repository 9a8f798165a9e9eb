-- ===== src/Master/Audit/Compare.antt =====
-- The comparison of a client's entries with the elected mask.
use pccl.Common.{
  ℕ, ◌≤◌, ◌≡◌, refl, Bool, true, false, [], ◌∷◌, ◌++◌, none, some, if◌then◌else◌, ◌==◌, nat_eq,
  text_eq, ==-refl, length, arith, Bool-cases, inl, inr,
}
use pccl.Master.State.{
  SharedStateHashEntry, SharedStateMismatchStatus, HashType, hash_simple, hash_crc32,
  content_hash_mismatch,
}
use pccl.Master.SharedState.{Entries, hash_type_beq, bool_beq}
use pccl.Master.Audit.{Audit, compare_entries, same_shape, note_dirty}

hash_type_beq_refl : (h : HashType) → hash_type_beq h h ≡ true
hash_type_beq_refl hash_simple = refl
hash_type_beq_refl hash_crc32 = refl

bool_beq_refl : (b : Bool) → bool_beq b b ≡ true
bool_beq_refl true = refl
bool_beq_refl false = refl

same_shape_refl : (m : SharedStateHashEntry) → same_shape m m ≡ true
same_shape_refl m = ground (
  arith,
  ==-refl m.key,
  bool_beq_refl m.allow_content_inequality,
  ==-refl m.data_type,
  hash_type_beq_refl m.hash_type,
)

-- A client whose entries agree with the mask as far as they go, but end before it, makes the
-- comparison read past the end of its list, whatever the status and the audit so far.
pub compare_entries-short :
    (u : ℕ) (es : Entries) (m : SharedStateHashEntry) (ms : Entries)
    (status : SharedStateMismatchStatus) (a : Audit)
    → compare_entries u (es ++ m ∷ ms) es status a ≡ none
unfolding compare_entries
compare_entries-short u [] m ms status a = refl
compare_entries-short u (e ∷ es) m ms status a =
    rw (same_shape_refl e, compare_entries) (compare_entries-short u es m ms _ _)

-- A list of entries at least as long as the mask is compared without reading past its end.
pub compare_entries-long :
    (u : ℕ) (ms es : Entries) (status : SharedStateMismatchStatus) (a : Audit)
    → length ms ≤ length es
    → ¬ (compare_entries u ms es status a ≡ none)
unfolding compare_entries
compare_entries-long u [] es status a h e = cc
compare_entries-long u (m ∷ ms) [] status a h e = omega arith
compare_entries-long u (m ∷ ms) (x ∷ es) status a h e = elim (Bool-cases (same_shape m x)) [
  | inl same ↦
      compare_entries-long u ms es (if m.hash == x.hash then status else content_hash_mismatch)
        (if m.hash == x.hash then a else note_dirty u m a) (omega arith)
        (rw (same, compare_entries) at e)
  | inr other ↦ ground arith
]

-- A list of entries that is the mask itself keeps the status, and adds nothing to the audit.
pub compare_entries_self :
    (u : ℕ) (ms : Entries) (status : SharedStateMismatchStatus) (a : Audit)
    → compare_entries u ms ms status a ≡ some (status, a)
unfolding compare_entries
compare_entries_self u [] status a = refl
compare_entries_self u (m ∷ ms) status a =
    ground (arith, same_shape_refl m, ==-refl m.hash, compare_entries_self u ms status a)

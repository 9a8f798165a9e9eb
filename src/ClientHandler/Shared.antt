-- ===== src/ClientHandler/Shared.antt =====
-- What a client gives out: `handleSharedStateRequest`.
use mathlib.Core.Option
use native.Mathlib.Nat.{mod-add-mod}
use pccl.Common.{
  ℕ, ◌+◌, ◌%◌, ◌^◌, ◌≡◌, refl, ap, ◌∙◌, Bool, true, false, List, [], ◌∷◌, Option, none, some,
  if◌then◌else◌, text_eq, Text, map, arith, Option-cases, inl, inr,
}
use pccl.ClientState.{ClientState, SharedState, SharedStateEntry, track_shared_state_tx_bytes}
use pccl.ClientHandler.{ClientHandler}
use pccl.ClientHandler.Share.{
  SharedStateResponse, success, shared_state_not_distributed, find_entry, collect_entries, respond,
  handle_shared_state_request,
}

abbrev pub total_size : List SharedStateEntry → ℕ
total_size [] = 0
total_size (e ∷ es) = e.data_size + total_size es

-- The entries have the keys that were asked for, and their sizes are counted.
abbrev pub Collected : List Text → ℕ → Option (List SharedStateEntry) → ℕ → Type 0
Collected keys before none after = Unit
Collected keys before (some es) after =
    (map (λ e. e.key) es ≡ keys) × (after % 2 ^ 64 ≡ (before + total_size es) % 2 ^ 64)

find_entry-key :
    (key : Text) (es : List SharedStateEntry) (e : SharedStateEntry)
    → find_entry key es ≡ some e
    → e.key ≡ key
unfolding find_entry
find_entry-key key [] e h = cc
find_entry-key key (x ∷ xs) e h = grind (arith, find_entry-key key xs e, text_eq.decides x.key key)

with_entry :
    (e : SharedStateEntry) (key : Text) (keys : List Text) (before after : ℕ)
    (entries : Option (List SharedStateEntry))
    → e.key ≡ key
    → Collected keys ((before + e.data_size) % 2 ^ 64) entries after
    → Collected (key ∷ keys) before (Option.map (λ es. e ∷ es) entries) after
with_entry e key keys before after none k c = tt
with_entry e key keys before after (some es) k c = (
  ap (λ x. x ∷ map (λ e. e.key) es) k ∙ ap (λ xs. key ∷ xs) c.0,
  c.1
      ∙ (mod-add-mod (before + e.data_size) (2 ^ 64) (total_size es)
          ∙ ap (λ n. n % 2 ^ 64) (add_assoc before e.data_size (total_size es))),
)
  where
    add_assoc : (a b c : ℕ) → a + b + c ≡ a + (b + c)
    add_assoc a b c = omega arith

collect_entries-Collected :
    (shared_state : SharedState) (keys : List Text) (s : ClientState)
    → let r = collect_entries shared_state keys s in
      Collected keys s.shared_state_sync_tx_bytes r.0 r.1.shared_state_sync_tx_bytes
unfolding collect_entries
collect_entries-Collected shared_state [] s =
    (refl, ap (λ n. n % 2 ^ 64) (add_zero s.shared_state_sync_tx_bytes))
  where
    add_zero : (a : ℕ) → a ≡ a + 0
    add_zero a = omega arith
collect_entries-Collected shared_state (key ∷ keys) s =
    elim (Option-cases (find_entry key shared_state.entries)) [
      | inl e ↦ rw (collect_entries, e) tt
      | inr (found, e) ↦
          rw (collect_entries, e)
            (with_entry found key keys s.shared_state_sync_tx_bytes _ _
              (find_entry-key key shared_state.entries found e)
              (collect_entries-Collected shared_state keys
                (track_shared_state_tx_bytes found.data_size s)))
    ]

-- An answer to a request for shared state whose status is success is given only while the shared
-- state is synchronized; its entries have the keys that were asked for, in that order, and the
-- count of the bytes grows by their sizes, in 64 bits.
pub handle_shared_state_request-Collected :
    (keys : List Text) (h : ClientHandler)
    → let r = handle_shared_state_request keys h in
      r.0.status ≡ success
      → (h.client_state.is_syncing_shared_state ≡ true)
        × Collected keys h.client_state.shared_state_sync_tx_bytes
            (some r.0.entries_to_send)
            r.1.client_state.shared_state_sync_tx_bytes
unfolding handle_shared_state_request
handle_shared_state_request-Collected keys h =
    let s = h.client_state in
    let r = collect_entries s.current_shared_state keys s in
    answered s.is_syncing_shared_state r.0 r.1
      (collect_entries-Collected s.current_shared_state keys s)
  where
    answered :
        (syncing : Bool) (entries : Option (List SharedStateEntry)) (after : ClientState)
        → Collected keys h.client_state.shared_state_sync_tx_bytes entries
            after.shared_state_sync_tx_bytes
        → let r : SharedStateResponse × ClientHandler =
            if syncing
            then (
              respond h.client_state.current_shared_state.revision entries,
              record h { client_state = after },
            )
            else (
              record { status = shared_state_not_distributed; revision = 0; entries_to_send = [] },
              h,
            ) in
          r.0.status ≡ success
          → (syncing ≡ true)
            × Collected keys h.client_state.shared_state_sync_tx_bytes
                (some r.0.entries_to_send)
                r.1.client_state.shared_state_sync_tx_bytes
    answered true none after c e = cc
    answered true (some entries) after c e = (refl, c)
    answered false entries after c e = cc

-- ===== src/ClientHandler/Share.antt =====
-- A client that gives out its shared state: handleSharedStateRequest of
-- ccoip/src/cpp/ccoip_client_handler.cpp, up to the data that it sends.
use mathlib.Core.Option
use pccl.Common.{ℕ, List, [], ◌∷◌, Option, none, some, if◌then◌else◌, ◌==◌, text_eq, Text}
use pccl.ClientState.{ClientState, SharedStateEntry, SharedState, track_shared_state_tx_bytes}
use pccl.ClientHandler.{ClientHandler}

pub data SharedStateResponseStatus : Type 0 where
  success shared_state_not_distributed : SharedStateResponseStatus
  not_in_shared_state_distribution_mode unknown_shared_state_key : SharedStateResponseStatus

-- The status and the revision, and the entries that are sent: of each the packet has the key and
-- the size, and the data follows.
pub record SharedStateResponse : Type 0 where
  pub status : SharedStateResponseStatus
  pub revision : ℕ
  pub entries_to_send : List SharedStateEntry

unfoldable pub find_entry : Text → List SharedStateEntry → Option SharedStateEntry
find_entry key [] = none
find_entry key (e ∷ es) = if e.key == key then some e else find_entry key es

-- The loop over the requested keys, whose entries are counted as it goes. None: a key is unknown.
unfoldable pub collect_entries :
    SharedState → List Text → ClientState → Option (List SharedStateEntry) × ClientState
unfolding find_entry
collect_entries shared_state [] s = (some [], s)
collect_entries shared_state (key ∷ keys) s = elim (find_entry key shared_state.entries) [
  | none ↦ (none, s)
  | some e ↦
      let rest = collect_entries shared_state keys (track_shared_state_tx_bytes e.data_size s) in
      (Option.map (λ es. e ∷ es) rest.0, rest.1)
]

abbrev pub respond : ℕ → Option (List SharedStateEntry) → SharedStateResponse
respond revision none = record {
  status = unknown_shared_state_key;
  revision = revision;
  entries_to_send = [];
}
respond revision (some entries) = record {
  status = success;
  revision = revision;
  entries_to_send = entries;
}

unfoldable pub handle_shared_state_request :
    List Text → ClientHandler → SharedStateResponse × ClientHandler
unfolding collect_entries
handle_shared_state_request keys h =
    let s = h.client_state in
    let collected = collect_entries s.current_shared_state keys s in
    if s.is_syncing_shared_state
    then (
      respond s.current_shared_state.revision collected.0,
      record h { client_state = collected.1 },
    )
    else (record { status = shared_state_not_distributed; revision = 0; entries_to_send = [] }, h)

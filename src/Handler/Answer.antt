-- ===== src/Handler/Answer.antt =====
-- What the members of a group are told at the start of a synchronization:
-- `findBestSharedStateTxPeer`, and the answers of `checkSyncSharedStateConsensus`.
use pccl.Common.{
  Text, ℕ, Bool, true, false, ◌&&◌, ◌||◌, List, [], ◌∷◌, map, Option, none, some, if◌then◌else◌,
  ◌==◌, nat_eq, lookup,
}
use pccl.Net.{SocketAddress, socket_eq}
use pccl.Client.{ClientInfo, state_eq, distribute_shared_state, request_shared_state}
use pccl.Master.State.{MasterState, HashType, get_client_entry_set}
use pccl.Master.Consensus.{is_member}
use pccl.Master.Audit.{
  get_outdated_shared_state_keys, get_shared_state_entry_hash, get_shared_state_entry_hash_type,
}
use pccl.Handler.{Action, send, SyncResponse, sync_shared_state}

-- `findBestSharedStateTxPeer`: the first of the group that distributes.
unfoldable pub find_best_shared_state_tx_peer :
    ℕ → MasterState → List (ℕ × SocketAddress) → Option SocketAddress
find_best_shared_state_tx_peer g s [] = none
find_best_shared_state_tx_peer g s ((u, a) ∷ es) =
    let rest = find_best_shared_state_tx_peer g s es in
    elim (lookup u s.client_info) [
      | none ↦ rest
      | some i ↦
          if is_member g i && i.connection_state == distribute_shared_state
          then some
              (record { inet = a.inet; port = i.variable_ports.shared_dist_state_listen_port })
          else rest
    ]

unfoldable pub hash_types_of : ℕ → List Text → MasterState → Option (List HashType)
hash_types_of g [] s = some []
hash_types_of g (key ∷ keys) s = elim (get_shared_state_entry_hash_type g key s) [
  | none ↦ none
  | some t ↦ elim (hash_types_of g keys s) [ none ↦ none | some ts ↦ some (t ∷ ts) ]
]

-- The answer to one member; none where a hash has no type.
unfoldable pub response_to : ℕ → ℕ → ClientInfo → MasterState → Option SyncResponse
unfolding find_best_shared_state_tx_peer hash_types_of
response_to g u i s =
    let nothing : SyncResponse = record {
      is_outdated = i.connection_state == request_shared_state;
      distributor_address = none;
      outdated_keys = [];
      expected_hashes = [];
      expected_hash_types = [];
    } in
    let keys = get_outdated_shared_state_keys u s in
    if i.connection_state == request_shared_state
    then elim (find_best_shared_state_tx_peer i.peer_group s (get_client_entry_set s)) [
      | none ↦ some nothing
      | some best ↦ elim (hash_types_of g keys s) [
        | none ↦ none
        | some types ↦ some (record {
          is_outdated = true;
          distributor_address = some best;
          outdated_keys = keys;
          expected_hashes = map (λ key. get_shared_state_entry_hash g key s) keys;
          expected_hash_types = types;
        })
      ]
    ]
    else some nothing

abbrev pub is_syncing : ℕ → ClientInfo → Bool
is_syncing g i =
    is_member g i
    && (i.connection_state == distribute_shared_state || i.connection_state == request_shared_state)

unfoldable pub answer_members : ℕ → MasterState → List (ℕ × SocketAddress) → List Action × Bool
unfolding response_to
answer_members g s [] = ([], true)
answer_members g s ((u, a) ∷ es) =
    let (out, ok) = answer_members g s es in
    elim (lookup u s.client_info) [
      | none ↦ (out, ok)
      | some i ↦
          if is_syncing g i
          then elim (response_to g u i s) [
            | none ↦ ([], false)
            | some r ↦ (send a (sync_shared_state r) ∷ out, ok)
          ]
          else (out, ok)
    ]

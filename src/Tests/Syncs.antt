-- ===== src/Tests/Syncs.antt =====
-- The start of a synchronization at the state of the first client.
use pccl.Common.{text_beq, ℕ, ◌≡◌, lookup, refl, Bool, true, List, [], ◌∷◌, none, some, nat_eq}
use pccl.Net.{SocketAddress, socket_eq, inet_beq, socket_beq, is_local_address, is_loopback}
use pccl.Client.{
  state_beq, coll_beq, ClientInfo, ConnectionState, peer_accepted, distribute_shared_state,
  request_shared_state, no_vote_initiated_query_pending_peers,
}
use pccl.Master.State.{
  MasterState, enforce_popular, initial, swap_entries, get_client_entry_set, find_client_uuid,
}
use pccl.Master.Votes.{vote_to_sync_shared_state}
use pccl.Master.Consensus.{sync_shared_state_consensus, group_consensus}
use pccl.Master.Phases.{
  transition_to_p2p_connections_established_phase, transition_to_shared_state_sync_phase,
  get_shared_state_mismatch_status,
}
use pccl.Master.SharedState.{elect_shared_state_mask, vote_shared_state_mask, is_new_revision_legal}
use pccl.Master.Audit.{get_outdated_shared_state_keys, check_mask_shared_state_mismatches}
use pccl.Master.Registry.{register_client}
use pccl.Master.Reports.{mark_p2p_connections_established}
use pccl.Master.Invariant.{Inv}
use pccl.Master.Invariant.Voting.{vote_sync-Inv}
use pccl.Master.Invariant.Bookkeeping.{vote_mask-Inv, elect_mask-Inv}
use pccl.Master.Steps.{Reachable-Inv}
use pccl.Handler.{Handler, Action, SyncResponse}
use pccl.Handler.Answer.{find_best_shared_state_tx_peer, answer_members, response_to, hash_types_of}
use pccl.Handler.Sync.{find_mismatch, handle_sync_shared_state}
use pccl.Handler.Sent.{sent}
use pccl.Handler.Sync.Answers.{is_answer, Told, Distributes, response_to-Told, answer_members-sent}
use pccl.Handler.Sync.Settled.{transition_to_sync-consensus}
use pccl.Handler.Keeps.Sync.{handle_sync-Inv}
use pccl.Tests.{home, home2, ports, ready, ready-Reachable}
use pccl.Tests.Shared.{weight}
use pccl.Tests.Handlers.{at}

abbrev pub accepts : SocketAddress → Bool
accepts a = true

abbrev elected : MasterState
elected =
    (elect_shared_state_mask 0 (
      vote_shared_state_mask 7 (weight ∷ [])
        (vote_to_sync_shared_state 7 enforce_popular ready).0)).0

abbrev audited : MasterState
audited = elim (check_mask_shared_state_mismatches 0 elected) [ none ↦ elected | some r ↦ r.0 ]

elected-Inv : Inv elected
elected-Inv = elect_mask-Inv 0 _ (
    vote_mask-Inv 7 (weight ∷ []) _
      (vote_sync-Inv 7 enforce_popular ready (Reachable-Inv ready ready-Reachable)))

abbrev outcome : Handler × List Action
outcome = elim (handle_sync_shared_state accepts home 0 enforce_popular (weight ∷ []) (at ready)) [
  | none ↦ (at ready, [])
  | some r ↦ r
]

elected-agreed : sync_shared_state_consensus 0 elected ≡ true
unfolding sync_shared_state_consensus group_consensus elect_shared_state_mask vote_shared_state_mask
    vote_to_sync_shared_state transition_to_p2p_connections_established_phase
    mark_p2p_connections_established register_client state_beq coll_beq is_local_address is_loopback
    text_beq
elected-agreed = refl

elected-audited : check_mask_shared_state_mismatches 0 elected ≡ some (audited, true)
unfolding check_mask_shared_state_mismatches elect_shared_state_mask vote_shared_state_mask
    vote_to_sync_shared_state transition_to_p2p_connections_established_phase
    mark_p2p_connections_established register_client state_beq coll_beq is_local_address is_loopback
    text_beq
elected-audited = refl

audited-settled : find_mismatch accepts 0 audited (get_client_entry_set audited) ≡ none
unfolding find_mismatch get_client_entry_set get_shared_state_mismatch_status
    check_mask_shared_state_mismatches elect_shared_state_mask vote_shared_state_mask
    vote_to_sync_shared_state transition_to_p2p_connections_established_phase
    mark_p2p_connections_established register_client state_beq coll_beq is_local_address is_loopback
    text_beq
audited-settled = refl

transition_to_sync-consensus_example : (transition_to_shared_state_sync_phase 0 audited).1 ≡ true
transition_to_sync-consensus_example =
    transition_to_sync-consensus accepts 0 elected audited elected-Inv elected-agreed
      elected-audited audited-settled

outcome-defined :
    handle_sync_shared_state accepts home 0 enforce_popular (weight ∷ []) (at ready)
    ≡ some (outcome.0, outcome.1)
unfolding handle_sync_shared_state find_client_uuid is_new_revision_legal
    check_mask_shared_state_mismatches elect_shared_state_mask vote_shared_state_mask
    vote_to_sync_shared_state transition_to_p2p_connections_established_phase
    mark_p2p_connections_established register_client state_beq coll_beq is_local_address is_loopback
    text_beq socket_beq inet_beq get_client_entry_set sync_shared_state_consensus
outcome-defined = refl

handle_sync-Inv_run : Inv outcome.0.server_state
handle_sync-Inv_run =
    handle_sync-Inv accepts home 0 enforce_popular (weight ∷ []) (at ready) outcome.0 outcome.1
      outcome-defined (Reachable-Inv ready ready-Reachable)

abbrev peer : ℕ → SocketAddress → ConnectionState → ClientInfo
peer u a st = record {
  client_uuid = u;
  connection_phase = peer_accepted;
  connection_state = st;
  vote_query = no_vote_initiated_query_pending_peers;
  collective_coms_states = [];
  socket_address = a;
  variable_ports = ports;
  peer_group = 0;
}

-- One peer distributes, and one requests.
abbrev exchange : MasterState
exchange = record initial {
  client_uuids = (home2, 8) ∷ (home, 7) ∷ [];
  uuid_clients = (8, home2) ∷ (7, home) ∷ [];
  client_info =
      (8, peer 8 home2 request_shared_state) ∷ (7, peer 7 home distribute_shared_state) ∷ [];
}

abbrev answer : SyncResponse
answer = record {
  is_outdated = true;
  distributor_address = some (record { inet = home.inet; port = 2 });
  outdated_keys = [];
  expected_hashes = [];
  expected_hash_types = [];
}

exchange-answer : response_to 0 8 (peer 8 home2 request_shared_state) exchange ≡ some answer
unfolding response_to hash_types_of find_best_shared_state_tx_peer state_beq get_client_entry_set
    get_outdated_shared_state_keys
exchange-answer = refl

response_to-Told_example :
    Told 0 exchange (get_client_entry_set exchange) answer.distributor_address
    × ((b : SocketAddress) (j : ClientInfo)
        → ¬ Distributes 0 exchange (get_client_entry_set exchange) 8 b j)
response_to-Told_example =
    response_to-Told 0 8 (peer 8 home2 request_shared_state) exchange answer refl refl
      exchange-answer

home2-known : lookup home2 exchange.client_uuids ≡ some 8
unfolding socket_beq inet_beq
home2-known = refl

exchange-answered : (answer_members 0 exchange (swap_entries exchange.client_uuids)).1 ≡ true
unfolding answer_members response_to hash_types_of find_best_shared_state_tx_peer state_beq
    get_client_entry_set get_outdated_shared_state_keys
exchange-answered = refl

answer_members-sent_example :
    sent home2 (is_answer true) (answer_members 0 exchange (swap_entries exchange.client_uuids)).0
    ≡ 1
unfolding state_beq socket_beq inet_beq
answer_members-sent_example =
    answer_members-sent 0 exchange home2 true exchange.client_uuids 8
      (peer 8 home2 request_shared_state) (refl, (refl, tt)) home2-known refl exchange-answered

-- ===== src/Master/Consensus.antt =====
-- Whether all clients have voted: the `…Consensus` members.
pub mod Laws
use pccl.Common.{
  ℕ, Bool, true, false, ◌&&◌, ◌||◌, not, List, [], ◌∷◌, Option, none, some, if◌then◌else◌, ◌==◌,
  nat_eq, lookup, get_or, values, length, count, all,
}
use pccl.Client.{
  ClientInfo, ConnectionState, CollectiveCommunicationState, is_accepted, is_query_vote, state_eq,
  coll_eq, vote_accept_new_peers, vote_no_new_peers_establish_p2p_connections, connecting_to_peers,
  connecting_to_peers_failed, waiting_for_other_peers, vote_optimize_topology,
  vote_complete_topology_optimization, vote_sync_shared_state, vote_complete_shared_state_sync,
  vote_initiate_collective_comms, perform_collective_comms, vote_complete_collective_comms,
}
use pccl.Master.State.{MasterState, collect}

-- Voted, or not yet accepted and so without a vote.
abbrev pub voted_or_registered : ConnectionState → ClientInfo → Bool
voted_or_registered st i = i.connection_state == st || not (is_accepted i.connection_phase)

-- The set of the voting peers is as large as the map of the clients.
unfoldable pub global_consensus : ConnectionState → MasterState → Bool
global_consensus st s =
    length (collect (voted_or_registered st) (λ i. i.client_uuid) (values s.client_info) [])
    == length s.client_uuids

unfoldable pub accept_new_peers_consensus : MasterState → Bool
unfolding global_consensus
accept_new_peers_consensus = global_consensus vote_accept_new_peers

unfoldable pub no_accept_new_peers_consensus : MasterState → Bool
unfolding global_consensus
no_accept_new_peers_consensus = global_consensus vote_no_new_peers_establish_p2p_connections

unfoldable pub optimize_topology_consensus : MasterState → Bool
unfolding global_consensus
optimize_topology_consensus = global_consensus vote_optimize_topology

unfoldable pub topology_optimization_complete_consensus : MasterState → Bool
unfolding global_consensus
topology_optimization_complete_consensus = global_consensus vote_complete_topology_optimization

unfoldable pub query_pending_peers_consensus : MasterState → Bool
query_pending_peers_consensus s =
    not (length s.client_info == 0)
    && all (λ i. if is_accepted i.connection_phase then is_query_vote i.vote_query else true)
        (values s.client_info)

abbrev pub is_done_connecting : ClientInfo → Bool
is_done_connecting i =
    i.connection_state == waiting_for_other_peers
    || i.connection_state == connecting_to_peers_failed

abbrev pub is_connecting : ClientInfo → Bool
is_connecting i =
    i.connection_state == waiting_for_other_peers
    || (i.connection_state == connecting_to_peers
        || i.connection_state == connecting_to_peers_failed)

unfoldable pub p2p_connections_establish_consensus : MasterState → Bool
p2p_connections_establish_consensus s =
    let voting = count is_done_connecting (values s.client_info) in
    let connecting = count is_connecting (values s.client_info) in
    if voting == 0 && connecting == 0 then false else voting == connecting

abbrev pub in_group : ℕ → ClientInfo → Bool
in_group g i = i.peer_group == g

-- The counts of a group, and the set of its votes as a cross-check.
unfoldable pub group_consensus : ConnectionState → ℕ → List ℕ → List ClientInfo → Bool
group_consensus st g votes is =
    let voting = count (λ i. in_group g i && i.connection_state == st) is in
    let accepted = count (λ i. in_group g i && is_accepted i.connection_phase) is in
    if voting == length votes then voting == accepted else false

unfoldable pub sync_shared_state_consensus : ℕ → MasterState → Bool
unfolding group_consensus
sync_shared_state_consensus g s =
    group_consensus vote_sync_shared_state g (get_or [] g s.votes_sync_shared_state)
      (values s.client_info)

unfoldable pub sync_shared_state_complete_consensus : ℕ → MasterState → Bool
unfolding group_consensus
sync_shared_state_complete_consensus g s =
    group_consensus vote_complete_shared_state_sync g
      (get_or [] g s.votes_sync_shared_state_complete) (values s.client_info)

abbrev pub is_member : ℕ → ClientInfo → Bool
is_member g i = is_accepted i.connection_phase && i.peer_group == g

abbrev pub at_tag : ℕ → CollectiveCommunicationState → ClientInfo → Bool
at_tag tag c i = elim (lookup tag i.collective_coms_states) [ none ↦ false | some d ↦ d == c ]

unfoldable pub collective_consensus : CollectiveCommunicationState → ℕ → ℕ → List ClientInfo → Bool
collective_consensus c g tag is =
    count (λ i. is_member g i && at_tag tag c i) is == count (is_member g) is

unfoldable pub collective_comms_initiate_consensus : ℕ → ℕ → MasterState → Bool
unfolding collective_consensus
collective_comms_initiate_consensus g tag s =
    collective_consensus vote_initiate_collective_comms g tag (values s.client_info)

unfoldable pub collective_comms_complete_consensus : ℕ → ℕ → MasterState → Bool
unfolding collective_consensus
collective_comms_complete_consensus g tag s =
    collective_consensus vote_complete_collective_comms g tag (values s.client_info)

unfoldable pub is_collective_operation_running : ℕ → ℕ → MasterState → Bool
is_collective_operation_running g tag s =
    pccl.Common.any (λ i. in_group g i && at_tag tag perform_collective_comms i)
      (values s.client_info)

-- ===== src/Tests/Handlers.antt =====
-- The theorems on the handlers at the states of the first client.
use pccl.Common.{◌≡◌, refl, true, false, [], ◌∷◌, some, if◌then◌else◌, nat_eq, lookup}
use pccl.Net.{socket_eq, inet_beq, socket_beq, is_local_address, is_loopback}
use pccl.Client.{
  ClientInfo, state_beq, coll_beq, peer_accepted, collective_communications_running,
  vote_complete_collective_comms, no_vote_initiated_query_pending_peers,
}
use pccl.Master.State.{MasterState, initial}
use pccl.Master.Votes.{vote_collective_comms_initiate, vote_collective_comms_complete}
use pccl.Master.Phases.{
  transition_to_p2p_connections_established_phase, transition_to_perform_collective_comms_phase,
  transition_to_collective_comms_complete_phase, is_collective_comms_operation_aborted,
}
use pccl.Master.Registry.{register_client}
use pccl.Master.Reports.{mark_p2p_connections_established}
use pccl.Master.Invariant.{Inv}
use pccl.Master.Progress.{transition_to_complete-consensus}
use pccl.Master.Steps.{Reachable-Inv, initial-Inv}
use pccl.Handler.{Handler}
use pccl.Handler.Collective.{
  check_collective_comms_complete_consensus, handle_collective_comms_complete,
  handle_collective_comms_initiate, handle_sync_shared_state_complete, handle_check_peers_pending,
  erase_tags,
}
use pccl.Handler.Establish.{handle_establish_p2p_connections, handle_request_session_join}
use pccl.Handler.Connected.{handle_p2p_connections_established}
use pccl.Handler.Erased.{complete-erase_tags}
use pccl.Handler.Sent.{sent, is_abort, is_complete, check_complete-sent}
use pccl.Handler.Keeps.Establish.{handle_establish-Inv, handle_join-Inv, handle_connected-Inv}
use pccl.Handler.Keeps.Collective.{
  handle_initiate-Inv, handle_complete-Inv, handle_pending-Inv, handle_sync_complete-Inv,
}
use pccl.Tests.{
  home, ports, joined, ready, performing, finishing, joined-Reachable, ready-Reachable,
  performing-Reachable, finishing-Reachable, finishing-agreed,
}

abbrev pub at : MasterState → Handler
at s = record {
  server_state = s;
  peer_dropped = false;
  previous_p2p_connection_info = [];
  topology_optimization_tasks = [];
}

abbrev finisher : ClientInfo
finisher = record {
  client_uuid = 7;
  connection_phase = peer_accepted;
  connection_state = collective_communications_running;
  vote_query = no_vote_initiated_query_pending_peers;
  collective_coms_states = (5, vote_complete_collective_comms) ∷ [];
  socket_address = home;
  variable_ports = ports;
  peer_group = 0;
}

finishing-known : lookup home finishing.client_uuids ≡ some 7
unfolding vote_collective_comms_complete transition_to_perform_collective_comms_phase
    vote_collective_comms_initiate transition_to_p2p_connections_established_phase
    mark_p2p_connections_established register_client state_beq coll_beq is_local_address is_loopback
    socket_beq inet_beq
finishing-known = refl

finishing-info : lookup 7 finishing.client_info ≡ some finisher
unfolding vote_collective_comms_complete transition_to_perform_collective_comms_phase
    vote_collective_comms_initiate transition_to_p2p_connections_established_phase
    mark_p2p_connections_established register_client state_beq coll_beq is_local_address is_loopback
finishing-info = refl

check_complete-sent_example :
    (sent home (is_abort 5) (check_collective_comms_complete_consensus 0 5 (at finishing)).1
      ≡ (if is_collective_comms_operation_aborted 0 5 finishing then 0 else 1))
    × (sent home (is_complete 5) (check_collective_comms_complete_consensus 0 5 (at finishing)).1
        ≡ 1)
check_complete-sent_example =
    check_complete-sent 0 5 home 7 finisher (at finishing)
      (Reachable-Inv finishing finishing-Reachable) finishing-agreed finishing-known finishing-info
      refl

handle_complete-Inv_run :
    Inv (handle_collective_comms_complete home 5 true (at performing)).0.server_state
handle_complete-Inv_run =
    handle_complete-Inv home 5 true (at performing) (Reachable-Inv performing performing-Reachable)

handle_connected-Inv_run :
    Inv (handle_p2p_connections_established home false [] (at joined)).0.server_state
handle_connected-Inv_run =
    handle_connected-Inv home false [] (at joined) (Reachable-Inv joined joined-Reachable)

handle_join-Inv_run : Inv (handle_request_session_join home ports 0 7 (at initial)).0.server_state
handle_join-Inv_run = handle_join-Inv home ports 0 7 (at initial) initial-Inv refl

handle_establish-Inv_run :
    Inv (handle_establish_p2p_connections home true (at ready)).0.server_state
handle_establish-Inv_run =
    handle_establish-Inv home true (at ready) (Reachable-Inv ready ready-Reachable)

handle_initiate-Inv_run : Inv (handle_collective_comms_initiate home 5 (at ready)).0.server_state
handle_initiate-Inv_run =
    handle_initiate-Inv home 5 (at ready) (Reachable-Inv ready ready-Reachable)

handle_sync_complete-Inv_run :
    Inv (handle_sync_shared_state_complete home (at ready)).0.server_state
handle_sync_complete-Inv_run =
    handle_sync_complete-Inv home (at ready) (Reachable-Inv ready ready-Reachable)

handle_pending-Inv_run : Inv (handle_check_peers_pending home (at ready)).0.server_state
handle_pending-Inv_run = handle_pending-Inv home (at ready) (Reachable-Inv ready ready-Reachable)

complete-erase_tags_example :
    erase_tags 0 5 ((7, home) ∷ []) (transition_to_collective_comms_complete_phase 0 5 finishing).0
    ≡ (transition_to_collective_comms_complete_phase 0 5 finishing).0
complete-erase_tags_example =
    complete-erase_tags 0 5 ((7, home) ∷ []) finishing (Reachable-Inv finishing finishing-Reachable)
      (transition_to_complete-consensus finishing (Reachable-Inv finishing finishing-Reachable) 0 5
        finishing-agreed)

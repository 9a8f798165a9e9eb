-- ===== src/Tests/Departure.antt =====
-- A client that leaves during an operation, and a vote to optimize the topology.
use pccl.Common.{◌≡◌, refl, List, [], none, some, nat_eq}
use pccl.Net.{socket_beq, inet_beq, is_local_address, is_loopback}
use pccl.Client.{state_beq, coll_beq}
use pccl.Master.State.{find_client_uuid, get_client_entry_set}
use pccl.Master.Votes.{vote_collective_comms_initiate}
use pccl.Master.Phases.{
  transition_to_p2p_connections_established_phase, transition_to_perform_collective_comms_phase,
}
use pccl.Master.Consensus.{query_pending_peers_consensus, no_accept_new_peers_consensus}
use pccl.Master.Registry.{register_client, unregister_client}
use pccl.Master.Reports.{mark_p2p_connections_established}
use pccl.Master.Invariant.{Inv}
use pccl.Master.Steps.{Reachable-Inv}
use pccl.Handler.{Handler, Action}
use pccl.Handler.Sync.{check_sync_shared_state_consensus}
use pccl.Handler.Disconnect.{on_client_disconnect}
use pccl.Handler.Topology.{handle_optimize_topology}
use pccl.Handler.Keeps.Disconnect.{on_client_disconnect-Inv}
use pccl.Handler.Keeps.Topology.{handle_optimize-Inv}
use pccl.Tests.{home, ready, performing, ready-Reachable, performing-Reachable}
use pccl.Tests.Handlers.{at}
use pccl.Tests.Syncs.{accepts}

abbrev departure : Handler × List Action
departure = elim (on_client_disconnect accepts home (at performing)) [
  | none ↦ (at performing, [])
  | some r ↦ r
]

departure-defined :
    on_client_disconnect accepts home (at performing) ≡ some (departure.0, departure.1)
unfolding on_client_disconnect check_sync_shared_state_consensus unregister_client find_client_uuid
    transition_to_perform_collective_comms_phase vote_collective_comms_initiate
    transition_to_p2p_connections_established_phase mark_p2p_connections_established register_client
    state_beq coll_beq is_local_address is_loopback socket_beq inet_beq get_client_entry_set
    query_pending_peers_consensus no_accept_new_peers_consensus
departure-defined = refl

on_client_disconnect-Inv_run : Inv departure.0.server_state
on_client_disconnect-Inv_run =
    on_client_disconnect-Inv accepts home (at performing) departure.0 departure.1 departure-defined
      (Reachable-Inv performing performing-Reachable)

handle_optimize-Inv_run : Inv (handle_optimize_topology home (at ready)).0.server_state
handle_optimize-Inv_run = handle_optimize-Inv home (at ready) (Reachable-Inv ready ready-Reachable)

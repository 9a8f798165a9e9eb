-- ===== src/Tests/Master.antt =====
-- The theorems on the bookkeeping at concrete states.
use pccl.Common.{
  ℕ, ◌≡◌, refl, true, false, ◌&&◌, ◌||◌, not, [], ◌∷◌, if◌then◌else◌, ◌==◌, nat_eq, contains,
  values, length, count, all,
}
use pccl.Net.{socket_eq, inet_eq}
use pccl.Client.{
  peer_accepted, no_vote_initiated_query_pending_peers, ClientInfo, state_beq, state_eq,
  is_accepted, vote_initiate_collective_comms, vote_complete_collective_comms,
  vote_optimize_topology, vote_complete_shared_state_sync, optimize_topology,
}
use pccl.Master.State.{MasterState, initial}
use pccl.Master.Votes.{
  vote_establish_p2p_connections, vote_to_optimize_topology, vote_topology_optimization_complete,
  vote_dist_shared_state_complete, may_establish, may_optimize, may_complete_sync,
}
use pccl.Master.Consensus.{
  collective_comms_initiate_consensus, collective_comms_complete_consensus, global_consensus,
  voted_or_registered, is_member, at_tag, group_consensus, in_group,
}
use pccl.Master.Consensus.Laws.{global_consensus-all, collective_consensus-all, group_consensus-all}
use pccl.Master.Phases.{
  transition_to_perform_collective_comms_phase, transition_to_collective_comms_complete_phase,
  transition_to_topology_optimization_phase, end_topology_optimization_phase,
  abort_collective_comms_operation, is_collective_comms_operation_aborted,
}
use pccl.Master.Registry.{register_client, unregister_client, locality_conflict}
use pccl.Master.Invariant.{Inv}
use pccl.Master.Invariant.Members.{unregister-contains}
use pccl.Master.Abort.{abort-is_aborted, complete-is_aborted}
use pccl.Master.Outcomes.{may_vote, vote-may_vote}
use pccl.Master.Admission.{register_client-accepted}
use pccl.Master.Progress.{
  transition_to_perform-consensus, transition_to_complete-consensus,
  transition_to_topology_optimization-consensus, end_topology_optimization-consensus,
}
use pccl.Master.Steps.{Reachable-Inv, initial-Inv}
use pccl.Tests.Runs.{
  asking, asking-Reachable, asking-agreed, optimized, optimized-Reachable, optimized-agreed,
}
use pccl.Tests.{
  home, ports, ready, voting, finishing, ready-Reachable, voting-Reachable, finishing-Reachable,
  voting-agreed, finishing-agreed,
}

Reachable-Inv_example : Inv finishing
Reachable-Inv_example = Reachable-Inv finishing finishing-Reachable

-- All three invariants hold of the state with one client that is ready.
abbrev ready-ok : Inv ready
ready-ok = Reachable-Inv ready ready-Reachable

global_consensus-all_example :
    global_consensus vote_optimize_topology ready
    ≡ all (voted_or_registered vote_optimize_topology) (values ready.client_info)
global_consensus-all_example =
    global_consensus-all vote_optimize_topology ready ready-ok.consistent.once
      ready-ok.consistent.keyed ready-ok.consistent.same_size

collective_consensus-all_example :
    (collective_comms_initiate_consensus 0 5 voting
      ≡ all
          (λ i. if is_member 0 i then at_tag 5 vote_initiate_collective_comms i else true)
          (values voting.client_info))
    × (collective_comms_complete_consensus 0 5 voting
        ≡ all
            (λ i. if is_member 0 i then at_tag 5 vote_complete_collective_comms i else true)
            (values voting.client_info))
collective_consensus-all_example = collective_consensus-all 0 5 voting

-- A member of group 0 that has received the shared state.
abbrev synced_client : ClientInfo
synced_client = record {
  client_uuid = 7;
  connection_phase = peer_accepted;
  connection_state = vote_complete_shared_state_sync;
  vote_query = no_vote_initiated_query_pending_peers;
  collective_coms_states = [];
  socket_address = home;
  variable_ports = ports;
  peer_group = 0;
}

synced_client-counted :
    length {A = ℕ} (7 ∷ [])
    ≡ count
        (λ i. in_group 0 i && i.connection_state == vote_complete_shared_state_sync)
        (synced_client ∷ [])
unfolding state_beq
synced_client-counted = refl

synced_client-accepted :
    all
      (λ i.
        if i.connection_state == vote_complete_shared_state_sync
        then is_accepted i.connection_phase
        else true)
      (synced_client ∷ [])
    ≡ true
unfolding state_beq
synced_client-accepted = refl

group_consensus-all_example :
    group_consensus vote_complete_shared_state_sync 0 (7 ∷ []) (synced_client ∷ [])
    ≡ all
        (λ i. if is_member 0 i then i.connection_state == vote_complete_shared_state_sync else true)
        (synced_client ∷ [])
group_consensus-all_example =
    group_consensus-all vote_complete_shared_state_sync 0 (7 ∷ []) (synced_client ∷ [])
      synced_client-accepted synced_client-counted

transition_to_perform-consensus_example :
    (transition_to_perform_collective_comms_phase 0 5 voting).1 ≡ true
transition_to_perform-consensus_example =
    transition_to_perform-consensus voting (Reachable-Inv voting voting-Reachable) 0 5 voting-agreed

transition_to_complete-consensus_example :
    (transition_to_collective_comms_complete_phase 0 5 finishing).1 ≡ true
transition_to_complete-consensus_example =
    transition_to_complete-consensus finishing (Reachable-Inv finishing finishing-Reachable) 0 5
      finishing-agreed

transition_to_topology_optimization-consensus_run :
    (transition_to_topology_optimization_phase asking).1 ≡ true
transition_to_topology_optimization-consensus_run =
    transition_to_topology_optimization-consensus asking (Reachable-Inv asking asking-Reachable)
      asking-agreed

end_topology_optimization-consensus_run : (end_topology_optimization_phase false optimized).1 ≡ true
end_topology_optimization-consensus_run =
    end_topology_optimization-consensus optimized (Reachable-Inv optimized optimized-Reachable)
      false optimized-agreed

vote-may_vote_example :
    ((vote_establish_p2p_connections 7 true ready).1 ≡ may_vote 7 may_establish ready)
    × ((vote_to_optimize_topology 7 ready).1 ≡ may_vote 7 may_optimize ready)
    × ((vote_topology_optimization_complete 7 ready).1
        ≡ may_vote 7 (λ c. c == optimize_topology) ready)
    × ((vote_dist_shared_state_complete 7 ready).1 ≡ may_vote 7 may_complete_sync ready)
vote-may_vote_example = vote-may_vote ready ready-ok 7 true

register_client-accepted_example :
    (register_client home ports 0 7 initial).1
    ≡ (not (locality_conflict home initial) && not (contains home initial.client_uuids))
register_client-accepted_example = register_client-accepted home ports 0 7 initial initial-Inv refl

unregister-contains_example : (unregister_client home ready).1 ≡ contains home ready.client_uuids
unregister-contains_example = unregister-contains ready ready-ok home

abort-is_aborted_run :
    ((abort_collective_comms_operation 0 5 ready).1
      ≡ not (is_collective_comms_operation_aborted 0 5 ready))
    × (is_collective_comms_operation_aborted 0 6 (abort_collective_comms_operation 0 5 ready).0 ≡ (
        is_collective_comms_operation_aborted 0 6 ready || (◌==◌ {A = ℕ} 0 0 && ◌==◌ {A = ℕ} 5 6)))
abort-is_aborted_run = abort-is_aborted 0 5 0 6 ready

abbrev aborted_once : MasterState
aborted_once = record initial {
  collective_comms_op_abort_states = (0, (5, true) ∷ (6, true) ∷ []) ∷ [];
}

aborted_once-done : (transition_to_collective_comms_complete_phase 0 5 aborted_once).1 ≡ true
unfolding transition_to_collective_comms_complete_phase
aborted_once-done = refl

complete-is_aborted_run :
    is_collective_comms_operation_aborted 0 6
      (transition_to_collective_comms_complete_phase 0 5 aborted_once).0
    ≡ (if ◌==◌ {A = ℕ} 0 0 && ◌==◌ {A = ℕ} 5 6
        then false
        else is_collective_comms_operation_aborted 0 6 aborted_once)
complete-is_aborted_run =
    complete-is_aborted 0 5 0 6 aborted_once (refl, (refl, tt)) aborted_once-done

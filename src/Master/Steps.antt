-- ===== src/Master/Steps.antt =====
-- The operations of the master's bookkeeping as steps, each under the test after which the handler
-- calls it (ccoip/src/cpp/ccoip_master_handler.cpp).
use pccl.Common.{ℕ, ◌≡◌, refl, Bool, true, false, List, none, some, nat_eq, lookup, arith, ◌∙◌}
use pccl.Net.{SocketAddress, socket_eq}
use pccl.Client.{VariablePorts}
use pccl.Bandwidth.{BandwidthEntry}
use pccl.Master.State.{
  MasterState, get_client_entry_set, SyncStrategy, SharedStateMismatchStatus, initial,
  get_next_collective_op_seq_nr,
}
use pccl.Master.SharedState.{
  Entries, is_new_revision_legal, vote_shared_state_mask, elect_shared_state_mask,
}
use pccl.Master.Audit.{check_mask_shared_state_mismatches}
use pccl.Master.Invariant.Bookkeeping.{
  reset_query-Inv, next_seq_nr-Inv, abort-Inv, new_revision-Inv, vote_mask-Inv, elect_mask-Inv,
  check_mask-Inv, store_bandwidth-Inv, mark_unreachable-Inv,
}
use pccl.Master.Votes.{
  vote_establish_p2p_connections, vote_query_waiting_peers_pending, vote_to_optimize_topology,
  vote_topology_optimization_complete, vote_to_sync_shared_state, vote_dist_shared_state_complete,
  vote_collective_comms_initiate, vote_collective_comms_complete, reset_vote_query_pending_peers,
}
use pccl.Master.Consensus.{
  sync_shared_state_consensus, accept_new_peers_consensus, no_accept_new_peers_consensus,
  optimize_topology_consensus, topology_optimization_complete_consensus,
  sync_shared_state_complete_consensus, collective_comms_initiate_consensus,
  collective_comms_complete_consensus,
}
use pccl.Master.Phases.{
  transition_to_p2p_establishment_phase, transition_to_p2p_connections_established_phase,
  transition_to_topology_optimization_phase, end_topology_optimization_phase,
  transition_to_shared_state_sync_phase, end_shared_state_sync_phase,
  transition_to_perform_collective_comms_phase, transition_to_collective_comms_complete_phase,
  abort_collective_comms_operation,
}
use pccl.Master.Registry.{register_client, unregister_client}
use pccl.Master.Ring.{set_ring_topology}
use pccl.Master.Reports.{
  store_peer_bandwidth, mark_bandwidth_entry_unreachable, mark_p2p_connections_established,
}
use pccl.Master.Invariant.{Inv}
use pccl.Master.Invariant.Sets.{votes_for}
use pccl.Master.Invariant.Voting.{
  vote_establish-Inv, vote_query-Inv, vote_optimize-Inv, vote_complete-Inv, vote_sync-Inv,
  vote_dist-Inv, vote_collective_comms_initiate-Inv, vote_collective_comms_complete-Inv,
}
use pccl.Master.Invariant.Establish.{transition_true-Inv, transition_false-Inv}
use pccl.Master.Invariant.Partial.{transition_to_established-Inv}
use pccl.Master.Invariant.Optimize.{
  transition_to_topology_optimization-Inv, end_topology_optimization-Inv,
}
use pccl.Master.Invariant.Sync.{transition_to_shared_state_sync-Inv, end_shared_state_sync-Inv}
use pccl.Master.Invariant.Collective.{transition_to_perform-Inv, transition_to_complete-Inv}
use pccl.Master.Invariant.Members.{register-Inv, unregister-Inv}
use pccl.Master.Invariant.Marked.{mark_p2p-Inv, set_ring_topology-Inv}
use pccl.Master.Progress.{
  transition_to_topology_optimization-consensus, end_topology_optimization-consensus,
  transition_to_perform-consensus, transition_to_complete-consensus,
  end_shared_state_sync-consensus,
}
use pccl.Handler.Sync.{find_mismatch}
use pccl.Handler.Keeps.Sync.{elect_mask-consensus}
use pccl.Handler.Sync.Settled.{transition_to_sync-consensus}

pub data Step : MasterState → MasterState → Type 0 where
  -- The uuid is drawn at random; that no client has it yet is the code's assumption.
  register :
      (a : SocketAddress) (ports : VariablePorts) (g u : ℕ) (s : MasterState)
      → lookup u s.client_info ≡ none
      → Step s (register_client a ports g u s).0
  unregister : (a : SocketAddress) (s : MasterState) → Step s (unregister_client a s).0
  vote_establish :
      (u : ℕ) (accept_new_peers : Bool) (s : MasterState)
      → Step s (vote_establish_p2p_connections u accept_new_peers s).0
  vote_query : (u : ℕ) (s : MasterState) → Step s (vote_query_waiting_peers_pending u s).0
  vote_optimize : (u : ℕ) (s : MasterState) → Step s (vote_to_optimize_topology u s).0
  vote_optimized : (u : ℕ) (s : MasterState) → Step s (vote_topology_optimization_complete u s).0
  vote_sync :
      (u : ℕ) (strategy : SyncStrategy) (s : MasterState)
      → Step s (vote_to_sync_shared_state u strategy s).0
  vote_synced : (u : ℕ) (s : MasterState) → Step s (vote_dist_shared_state_complete u s).0
  vote_initiate : (u tag : ℕ) (s : MasterState) → Step s (vote_collective_comms_initiate u tag s).0
  vote_complete : (u tag : ℕ) (s : MasterState) → Step s (vote_collective_comms_complete u tag s).0
  mark_established :
      (u : ℕ) (success : Bool) (failed_peers : List ℕ) (s : MasterState)
      → Step s (mark_p2p_connections_established u success failed_peers s).0
  accept_peers :
      (s : MasterState)
      → accept_new_peers_consensus s ≡ true
      → Step s (transition_to_p2p_establishment_phase true s).0
  establish :
      (s : MasterState)
      → no_accept_new_peers_consensus s ≡ true
      → Step s (transition_to_p2p_establishment_phase false s).0
  established :
      (failure : Bool) (s : MasterState)
      → Step s (transition_to_p2p_connections_established_phase failure s).0
  optimize :
      (s : MasterState)
      → optimize_topology_consensus s ≡ true
      → Step s (transition_to_topology_optimization_phase s).0
  optimized :
      (failed : Bool) (s : MasterState)
      → topology_optimization_complete_consensus s ≡ true
      → Step s (end_topology_optimization_phase failed s).0
  sync :
      (closes : SocketAddress → Bool) (g : ℕ) (s t : MasterState)
      → sync_shared_state_consensus g s ≡ true
      → (elect_shared_state_mask g s).1 ≡ true
      → check_mask_shared_state_mismatches g (elect_shared_state_mask g s).0 ≡ some (t, true)
      → find_mismatch closes g t (get_client_entry_set t) ≡ none
      → Step s (transition_to_shared_state_sync_phase g t).0
  synced :
      (g : ℕ) (s : MasterState)
      → sync_shared_state_complete_consensus g s ≡ true
      → Step s (end_shared_state_sync_phase g s).0
  perform :
      (g tag : ℕ) (s : MasterState)
      → collective_comms_initiate_consensus g tag s ≡ true
      → Step s (transition_to_perform_collective_comms_phase g tag s).0
  complete :
      (g tag : ℕ) (s : MasterState)
      → collective_comms_complete_consensus g tag s ≡ true
      → Step s (transition_to_collective_comms_complete_phase g tag s).0
  set_ring :
      (g : ℕ) (ring : List ℕ) (optimal : Bool) (s : MasterState)
      → Step s (set_ring_topology g ring optimal s).0
  reset_queries : (s : MasterState) → Step s (reset_vote_query_pending_peers s)
  next_seq_nr : (s : MasterState) → Step s (get_next_collective_op_seq_nr s).0
  abort : (g tag : ℕ) (s : MasterState) → Step s (abort_collective_comms_operation g tag s).0
  new_revision :
      (u revision : ℕ) (s t : MasterState) (status : SharedStateMismatchStatus)
      → is_new_revision_legal u revision s ≡ some (t, status)
      → Step s t
  vote_mask :
      (u : ℕ) (entries : Entries) (s : MasterState) → Step s (vote_shared_state_mask u entries s)
  elect_mask : (g : ℕ) (s : MasterState) → Step s (elect_shared_state_mask g s).0
  check_mask :
      (g : ℕ) (s t : MasterState) (done : Bool)
      → check_mask_shared_state_mismatches g s ≡ some (t, done)
      → Step s t
  report_bandwidth : (from to bw : ℕ) (s : MasterState) → Step s (store_peer_bandwidth from to bw s)
  mark_unreachable :
      (g : ℕ) (entry : BandwidthEntry) (s : MasterState)
      → Step s (mark_bandwidth_entry_unreachable g entry s)

pub step-Inv : (s t : MasterState) → Step s t → Inv s → Inv t
step-Inv _ _ (register a ports g u s new) v = register-Inv a ports g u s v new
step-Inv _ _ (unregister a s) v = unregister-Inv s v a
step-Inv _ _ (vote_establish u b s) v = vote_establish-Inv u b s v
step-Inv _ _ (vote_query u s) v = vote_query-Inv u s v
step-Inv _ _ (vote_optimize u s) v = vote_optimize-Inv u s v
step-Inv _ _ (vote_optimized u s) v = vote_complete-Inv u s v
step-Inv _ _ (vote_sync u strategy s) v = vote_sync-Inv u strategy s v
step-Inv _ _ (vote_synced u s) v = vote_dist-Inv u s v
step-Inv _ _ (vote_initiate u tag s) v = vote_collective_comms_initiate-Inv u tag s v
step-Inv _ _ (vote_complete u tag s) v = vote_collective_comms_complete-Inv u tag s v
step-Inv _ _ (mark_established u b failed s) v = mark_p2p-Inv u b failed s v
step-Inv _ _ (accept_peers s h) v = transition_true-Inv s v h
step-Inv _ _ (establish s h) v = transition_false-Inv s v h
step-Inv _ _ (established failure s) v = transition_to_established-Inv s v failure
step-Inv _ _ (optimize s h) v =
    transition_to_topology_optimization-Inv s v
      (transition_to_topology_optimization-consensus s v h)
step-Inv _ _ (optimized failed s h) v =
    end_topology_optimization-Inv s v failed (end_topology_optimization-consensus s v failed h)
step-Inv _ _ (sync closes g s t agreed elected masked none_found) v =
    let chosen = (elect_shared_state_mask g s).0 in
    let v' = elect_mask-Inv g s v in
    let agreed' : sync_shared_state_consensus g chosen ≡ true = elect_mask-consensus g s ∙ agreed in
    transition_to_shared_state_sync-Inv t (check_mask-Inv g chosen t true masked v') g
      (transition_to_sync-consensus closes g chosen t v' agreed' masked none_found)
step-Inv _ _ (synced g s h) v =
    end_shared_state_sync-Inv s v g (end_shared_state_sync-consensus s v g h)
step-Inv _ _ (perform g tag s h) v =
    transition_to_perform-Inv s v g tag (transition_to_perform-consensus s v g tag h)
step-Inv _ _ (complete g tag s h) v =
    transition_to_complete-Inv s v g tag (transition_to_complete-consensus s v g tag h)
step-Inv _ _ (set_ring g ring optimal s) v = set_ring_topology-Inv g ring optimal s v
step-Inv _ _ (reset_queries s) v = reset_query-Inv s v
step-Inv _ _ (next_seq_nr s) v = next_seq_nr-Inv s v
step-Inv _ _ (abort g tag s) v = abort-Inv g tag s v
step-Inv _ _ (new_revision u revision s t status e) v = new_revision-Inv u revision s t status e v
step-Inv _ _ (vote_mask u entries s) v = vote_mask-Inv u entries s v
step-Inv _ _ (elect_mask g s) v = elect_mask-Inv g s v
step-Inv _ _ (check_mask g s t done e) v = check_mask-Inv g s t done e v
step-Inv _ _ (report_bandwidth from to bw s) v = store_bandwidth-Inv from to bw s v
step-Inv _ _ (mark_unreachable g entry s) v = mark_unreachable-Inv g entry s v

-- The states that steps lead to from the start.
pub data Reachable : MasterState → Type 0 where
  start : Reachable initial
  next : (s t : MasterState) → Reachable s → Step s t → Reachable t

pub initial-Inv : Inv initial
unfolding votes_for
initial-Inv = record {
  consistent = record {
    once = tt;
    keyed = tt;
    address_once = tt;
    uuid_once = tt;
    address_of = λ u. refl;
    inverse = λ a u. ((λ e. cc), (λ e. cc));
    same_size = refl;
  };
  votes = λ st g u. ground arith;
  clients = tt;
}

-- In every state that the operations of the master's bookkeeping lead to from the start, each
-- under the test after which the handler calls it and each new client under a uuid that no client
-- has, the maps of addresses, uuids and clients are in one-to-one correspondence, each of the six
-- sets of votes holds exactly the clients that are in the state of that vote (of that group, where
-- there is a set for each), no tag stands twice in a client's operations, a client has operations
-- exactly while it is in the state for them, and a client that is not accepted is idle or
-- establishing connections.
pub Reachable-Inv : (s : MasterState) → Reachable s → Inv s
Reachable-Inv _ start = initial-Inv
Reachable-Inv _ (next s t r e) = step-Inv s t e (Reachable-Inv s r)

-- ===== src/Client.antt =====
-- What the master knows of a client: the enums and `ClientInfo` of
-- ccoip/internal_include/ccoip_master_state.hpp.
use pccl.Common.{
  ℕ, ◌≡◌, refl, sym, ap, ◌∙◌, Bool, true, false, List, Eq, ◌==◌, nat_eq, nat_beq_iff, ◌↔◌, arith,
  if◌then◌else◌,
}
use pccl.Net.{SocketAddress}

pub data ConnectionPhase : Type 0 where
  peer_registered peer_accepted : ConnectionPhase

pub data ConnectionState : Type 0 where
  idle vote_accept_new_peers vote_no_new_peers_establish_p2p_connections : ConnectionState
  connecting_to_peers connecting_to_peers_failed waiting_for_other_peers : ConnectionState
  vote_optimize_topology optimize_topology optimize_topology_failed : ConnectionState
  vote_complete_topology_optimization vote_sync_shared_state : ConnectionState
  distribute_shared_state request_shared_state : ConnectionState
  vote_complete_shared_state_sync collective_communications_running : ConnectionState

pub data CollectiveCommunicationState : Type 0 where
  vote_initiate_collective_comms perform_collective_comms : CollectiveCommunicationState
  vote_complete_collective_comms : CollectiveCommunicationState

pub data VoteQueryHasPendingPeers : Type 0 where
  no_vote_initiated_query_pending_peers vote_query_pending_peers : VoteQueryHasPendingPeers

pub record VariablePorts : Type 0 where
  pub p2p_listen_port : ℕ
  pub shared_dist_state_listen_port : ℕ
  pub bandwidth_benchmark_listen_port : ℕ

pub record ClientInfo : Type 0 where
  pub client_uuid : ℕ
  pub connection_phase : ConnectionPhase
  pub connection_state : ConnectionState
  pub vote_query : VoteQueryHasPendingPeers
  pub collective_coms_states : List (ℕ × CollectiveCommunicationState)
  pub socket_address : SocketAddress
  pub variable_ports : VariablePorts
  pub peer_group : ℕ

abbrev pub is_accepted : ConnectionPhase → Bool
is_accepted peer_registered = false
is_accepted peer_accepted = true

abbrev pub is_query_vote : VoteQueryHasPendingPeers → Bool
is_query_vote no_vote_initiated_query_pending_peers = false
is_query_vote vote_query_pending_peers = true

-- The enumerator's value, by which C++ compares.
unfoldable pub index : ConnectionState → ℕ
index idle = 0
index vote_accept_new_peers = 1
index vote_no_new_peers_establish_p2p_connections = 2
index connecting_to_peers = 3
index connecting_to_peers_failed = 4
index waiting_for_other_peers = 5
index vote_optimize_topology = 6
index optimize_topology = 7
index optimize_topology_failed = 8
index vote_complete_topology_optimization = 9
index vote_sync_shared_state = 10
index distribute_shared_state = 11
index request_shared_state = 12
index vote_complete_shared_state_sync = 13
index collective_communications_running = 14

of_index : ℕ → ConnectionState
of_index n =
    let s = λ (k : ℕ) (a b : ConnectionState). if n == k then a else b in
    s 0 idle (
      s 1 vote_accept_new_peers (
        s 2 vote_no_new_peers_establish_p2p_connections (
          s 3 connecting_to_peers (
            s 4 connecting_to_peers_failed (
              s 5 waiting_for_other_peers (
                s 6 vote_optimize_topology (
                  s 7 optimize_topology (
                    s 8 optimize_topology_failed (
                      s 9 vote_complete_topology_optimization (
                        s 10 vote_sync_shared_state (
                          s 11 distribute_shared_state (
                            s 12 request_shared_state (
                              s 13 vote_complete_shared_state_sync
                                collective_communications_running)))))))))))))

of_index-index : (s : ConnectionState) → of_index (index s) ≡ s
unfolding of_index index
of_index-index idle = refl
of_index-index _ = refl

unfoldable pub state_beq : ConnectionState → ConnectionState → Bool
unfolding index
state_beq a b = index a == index b

pub state_beq_iff : (a b : ConnectionState) → (state_beq a b ≡ true) ↔ (a ≡ b)
unfolding state_beq
state_beq_iff a b = (
  λ h.
      sym (of_index-index a)
      ∙ ap of_index ((nat_beq_iff (index a) (index b)).0 h)
      ∙ of_index-index b,
  λ p. (nat_beq_iff (index a) (index b)).1 (ap index p),
)

instance abbrev pub state_eq : Eq ConnectionState
state_eq = record { equal = state_beq; decides = state_beq_iff }

unfoldable pub coll_beq : CollectiveCommunicationState → CollectiveCommunicationState → Bool
coll_beq vote_initiate_collective_comms vote_initiate_collective_comms = true
coll_beq perform_collective_comms perform_collective_comms = true
coll_beq vote_complete_collective_comms vote_complete_collective_comms = true
coll_beq _ _ = false

pub coll_beq_iff : (a b : CollectiveCommunicationState) → (coll_beq a b ≡ true) ↔ (a ≡ b)
unfolding coll_beq
coll_beq_iff a b = ground arith

instance abbrev pub coll_eq : Eq CollectiveCommunicationState
coll_eq = record { equal = coll_beq; decides = coll_beq_iff }

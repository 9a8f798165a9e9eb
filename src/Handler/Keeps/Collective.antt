-- ===== src/Handler/Keeps/Collective.antt =====
-- The handlers of collective operations, of pending peers and of shared state keep the invariant.
use pccl.Common.{
  ℕ, sym, subst, Bool, true, false, List, nat_eq, lookup, Bool-cases, Option-cases, inl, inr,
}
use pccl.Net.{SocketAddress, socket_eq}
use pccl.Client.{state_eq}
use pccl.Master.State.{get_client_entry_set}
use pccl.Master.Votes.{
  vote_collective_comms_initiate, vote_collective_comms_complete, vote_query_waiting_peers_pending,
  vote_dist_shared_state_complete,
}
use pccl.Master.Consensus.{
  collective_comms_initiate_consensus, collective_comms_complete_consensus,
  query_pending_peers_consensus, sync_shared_state_complete_consensus,
}
use pccl.Master.Phases.{transition_to_collective_comms_complete_phase}
use pccl.Master.Invariant.{Inv}
use pccl.Master.Invariant.Voting.{
  vote_query-Inv, vote_dist-Inv, vote_collective_comms_initiate-Inv,
  vote_collective_comms_complete-Inv,
}
use pccl.Master.Invariant.Sync.{end_shared_state_sync-Inv}
use pccl.Master.Invariant.Collective.{transition_to_perform-Inv, transition_to_complete-Inv}
use pccl.Master.Progress.{
  transition_to_perform-consensus, transition_to_complete-consensus,
  end_shared_state_sync-consensus,
}
use pccl.Handler.{Handler, Action, in_own_group}
use pccl.Handler.Collective.{
  check_collective_comms_initiate_consensus, check_collective_comms_complete_consensus,
  handle_collective_comms_initiate, report_abort, finish_collective_comms,
  handle_collective_comms_complete, check_query_peers_pending_consensus, handle_check_peers_pending,
  check_sync_shared_state_complete_consensus, handle_sync_shared_state_complete,
}
use pccl.Master.Invariant.Bookkeeping.{next_seq_nr-Inv, abort-Inv, reset_query-Inv}
use pccl.Handler.Erased.{complete-is_clear, erase_tags-same}
use pccl.Handler.Keeps.{Keeps, handle_vote-Inv}

pub check_initiate-Inv : (g tag : ℕ) → Keeps (check_collective_comms_initiate_consensus g tag)
unfolding check_collective_comms_initiate_consensus
check_initiate-Inv g tag h v =
    elim (Bool-cases (collective_comms_initiate_consensus g tag h.server_state)) [
      | inr split ↦ rw (split, check_collective_comms_initiate_consensus) v
      | inl agreed ↦
          let done = transition_to_perform-consensus h.server_state v g tag agreed in
          rw (agreed, done, check_collective_comms_initiate_consensus)
            (next_seq_nr-Inv _ (transition_to_perform-Inv h.server_state v g tag done))
    ]

pub report_abort-Inv : (g tag : ℕ) (b : Bool) → Keeps (report_abort g tag b)
unfolding report_abort
report_abort-Inv g tag true h v = abort-Inv g tag h.server_state v
report_abort-Inv g tag false h v = v

pub check_complete-Inv : (g tag : ℕ) → Keeps (check_collective_comms_complete_consensus g tag)
unfolding check_collective_comms_complete_consensus
check_complete-Inv g tag h v =
    elim (Bool-cases (collective_comms_complete_consensus g tag h.server_state)) [
      | inr split ↦ rw (split, check_collective_comms_complete_consensus) v
      | inl agreed ↦
          let done = transition_to_complete-consensus h.server_state v g tag agreed in
          let moved = (transition_to_collective_comms_complete_phase g tag h.server_state).0 in
          rw (agreed, done, check_collective_comms_complete_consensus)
            (subst Inv
              (sym (
                erase_tags-same g tag (get_client_entry_set moved) moved
                  (complete-is_clear g tag h.server_state v done)))
              (transition_to_complete-Inv h.server_state v g tag done))
    ]

pub check_query-Inv : Keeps check_query_peers_pending_consensus
unfolding check_query_peers_pending_consensus
check_query-Inv h v = elim (Bool-cases (query_pending_peers_consensus h.server_state)) [
  | inr split ↦ rw (split, check_query_peers_pending_consensus) v
  | inl agreed ↦ rw (agreed, check_query_peers_pending_consensus) (reset_query-Inv h.server_state v)
]

pub check_sync_complete-Inv : (g : ℕ) → Keeps (check_sync_shared_state_complete_consensus g)
unfolding check_sync_shared_state_complete_consensus
check_sync_complete-Inv g h v =
    elim (Bool-cases (sync_shared_state_complete_consensus g h.server_state)) [
      | inr split ↦ rw (split, check_sync_shared_state_complete_consensus) v
      | inl agreed ↦
          rw (agreed, check_sync_shared_state_complete_consensus)
            (end_shared_state_sync-Inv h.server_state v g
              (end_shared_state_sync-consensus h.server_state v g agreed))
    ]

-- What follows a vote, for the group of the client that cast it.
in_own_group-Inv :
    (check : ℕ → Handler → Handler × List Action)
    → ((g : ℕ) → Keeps (check g))
    → (u : ℕ) → Keeps (in_own_group check u)
unfolding in_own_group
in_own_group-Inv check k u h v = elim (Option-cases (lookup u h.server_state.client_info)) [
  | inl e ↦ rw (e, in_own_group) v
  | inr (i, e) ↦ rw (e, in_own_group) (k i.peer_group h v)
]

finish-Inv :
    (tag : ℕ) (was_aborted : Bool) (g : ℕ) → Keeps (finish_collective_comms tag was_aborted g)
unfolding finish_collective_comms
finish-Inv tag was_aborted g h v =
    check_complete-Inv g tag (report_abort g tag was_aborted h).0
      (report_abort-Inv g tag was_aborted h v)

-- A vote for a collective operation, and its start after the last vote, keep the invariant.
pub handle_initiate-Inv :
    (a : SocketAddress) (tag : ℕ) (h : Handler)
    → Inv h.server_state
    → Inv (handle_collective_comms_initiate a tag h).0.server_state
unfolding handle_collective_comms_initiate
handle_initiate-Inv a tag =
    handle_vote-Inv a (λ u. vote_collective_comms_initiate u tag)
      (in_own_group (λ g. check_collective_comms_initiate_consensus g tag))
      (λ u s v. vote_collective_comms_initiate-Inv u tag s v)
      (in_own_group-Inv (λ g. check_collective_comms_initiate_consensus g tag)
        (λ g. check_initiate-Inv g tag))

-- A client's vote for the end of an operation, with or without the report of an abort, whether it
-- is refused, accepted or the last one that the group waits for, keeps the invariant.
pub handle_complete-Inv :
    (a : SocketAddress) (tag : ℕ) (was_aborted : Bool) (h : Handler)
    → Inv h.server_state
    → Inv (handle_collective_comms_complete a tag was_aborted h).0.server_state
unfolding handle_collective_comms_complete
handle_complete-Inv a tag was_aborted =
    handle_vote-Inv a (λ u. vote_collective_comms_complete u tag)
      (in_own_group (finish_collective_comms tag was_aborted))
      (λ u s v. vote_collective_comms_complete-Inv u tag s v)
      (in_own_group-Inv (finish_collective_comms tag was_aborted) (finish-Inv tag was_aborted))

-- A query for pending peers, and the answer after the last client asked, keep the invariant.
pub handle_pending-Inv :
    (a : SocketAddress) (h : Handler)
    → Inv h.server_state
    → Inv (handle_check_peers_pending a h).0.server_state
unfolding handle_check_peers_pending
handle_pending-Inv a =
    handle_vote-Inv a vote_query_waiting_peers_pending (λ u. check_query_peers_pending_consensus)
      vote_query-Inv (λ u. check_query-Inv)

-- A vote for the end of the synchronization of shared state, and the end of that phase after the
-- last vote of the group, keep the invariant.
pub handle_sync_complete-Inv :
    (a : SocketAddress) (h : Handler)
    → Inv h.server_state
    → Inv (handle_sync_shared_state_complete a h).0.server_state
unfolding handle_sync_shared_state_complete
handle_sync_complete-Inv a =
    handle_vote-Inv a vote_dist_shared_state_complete
      (in_own_group check_sync_shared_state_complete_consensus) vote_dist-Inv
      (in_own_group-Inv check_sync_shared_state_complete_consensus check_sync_complete-Inv)

-- ===== src/Master/Invariant/Bookkeeping.antt =====
-- The operations that touch neither the connection states nor the votes.
use pccl.Common.{
  all, values, ℕ, ◌≡◌, refl, Bool, true, List, [], ◌∷◌, some, nat_eq, arith, Bool-cases, inl, inr,
}
use pccl.Client.{ClientInfo, is_accepted}
use pccl.Bandwidth.{BandwidthEntry}
use pccl.Master.State.{MasterState, SharedStateMismatchStatus, get_next_collective_op_seq_nr}
use pccl.Master.SharedState.{
  Entries, is_new_revision_legal, vote_shared_state_mask, elect_shared_state_mask,
}
use pccl.Master.Audit.{check_mask_shared_state_mismatches}
use pccl.Master.Votes.{reset_query, reset_vote_query_pending_peers}
use pccl.Master.Invariant.Loops.{InfoOk}
use pccl.Master.Invariant.Turn.{loop-Inv}
use pccl.Master.Phases.{abort_collective_comms_operation}
use pccl.Master.Reports.{store_peer_bandwidth, mark_bandwidth_entry_unreachable}
use pccl.Master.Invariant.{Inv}
use pccl.Master.Invariant.Sets.{votes_for}
use pccl.Master.Invariant.Marked.{same-Inv}

pub new_revision-Inv :
    (u revision : ℕ) (s t : MasterState) (status : SharedStateMismatchStatus)
    → is_new_revision_legal u revision s ≡ some (t, status)
    → Inv s
    → Inv t
unfolding is_new_revision_legal votes_for
new_revision-Inv u revision s t status e v =
    same-Inv s t v (ground arith) (ground arith) (ground arith) (λ st g. ground arith)

pub check_mask-Inv :
    (g : ℕ) (s t : MasterState) (done : Bool)
    → check_mask_shared_state_mismatches g s ≡ some (t, done)
    → Inv s
    → Inv t
unfolding check_mask_shared_state_mismatches votes_for
check_mask-Inv g s t done e v =
    same-Inv s t v (ground arith) (ground arith) (ground arith) (λ st k. ground arith)

pub vote_mask-Inv :
    (u : ℕ) (entries : Entries) (s : MasterState) → Inv s → Inv (vote_shared_state_mask u entries s)
unfolding vote_shared_state_mask votes_for
vote_mask-Inv u entries s v =
    same-Inv s (vote_shared_state_mask u entries s) v (ground arith) (ground arith) (ground arith)
      (λ st g. ground arith)

pub elect_mask-Inv : (g : ℕ) (s : MasterState) → Inv s → Inv (elect_shared_state_mask g s).0
unfolding elect_shared_state_mask votes_for
elect_mask-Inv g s v =
    same-Inv s (elect_shared_state_mask g s).0 v (ground arith) (ground arith) (ground arith)
      (λ st k. ground arith)

pub store_bandwidth-Inv :
    (from to bw : ℕ) (s : MasterState) → Inv s → Inv (store_peer_bandwidth from to bw s)
unfolding store_peer_bandwidth votes_for
store_bandwidth-Inv from to bw s v =
    same-Inv s (store_peer_bandwidth from to bw s) v (ground arith) (ground arith) (ground arith)
      (λ st g. ground arith)

pub mark_unreachable-Inv :
    (g : ℕ) (entry : BandwidthEntry) (s : MasterState)
    → Inv s
    → Inv (mark_bandwidth_entry_unreachable g entry s)
unfolding mark_bandwidth_entry_unreachable votes_for
mark_unreachable-Inv g entry s v =
    same-Inv s (mark_bandwidth_entry_unreachable g entry s) v (ground arith) (ground arith)
      (ground arith) (λ st k. ground arith)

pub next_seq_nr-Inv : (s : MasterState) → Inv s → Inv (get_next_collective_op_seq_nr s).0
unfolding get_next_collective_op_seq_nr votes_for
next_seq_nr-Inv s v = same-Inv s _ v refl refl refl (λ st g. ground arith)

pub abort-Inv :
    (g tag : ℕ) (s : MasterState) → Inv s → Inv (abort_collective_comms_operation g tag s).0
unfolding abort_collective_comms_operation votes_for
abort-Inv g tag s v =
    same-Inv s (abort_collective_comms_operation g tag s).0 v (ground arith) (ground arith)
      (ground arith) (λ st k. ground arith)

reset_query-InfoOk : (i : ClientInfo) → InfoOk i → InfoOk (reset_query i)
reset_query-InfoOk i o = elim (Bool-cases (is_accepted i.connection_phase)) [
  | inl a ↦ rw a (record { tags_once = o.tags_once; busy = o.busy; pending = o.pending })
  | inr r ↦ rw r o
]

all-true : (is : List ClientInfo) → all (λ i. true) is ≡ true
all-true [] = refl
all-true (i ∷ is) = all-true is

pub reset_query-Inv : (s : MasterState) → Inv s → Inv (reset_vote_query_pending_peers s)
unfolding reset_vote_query_pending_peers votes_for
reset_query-Inv s v =
    loop-Inv s (reset_vote_query_pending_peers s) reset_query (λ i. true) v
      (record { uuid = λ i. ground arith; address = λ i. ground arith }) refl
      (all-true (values s.client_info)) refl refl (λ i o h. reset_query-InfoOk i o)
      (λ st g. inl (ground arith, λ i o h. ground arith))

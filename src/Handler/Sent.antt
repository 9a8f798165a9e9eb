-- ===== src/Handler/Sent.antt =====
-- What each client is sent at the end of a collective operation.
use pccl.Common.{
  ℕ, suc, ◌+◌, ◌≡◌, refl, sym, ap, ◌∙◌, Bool, true, false, ◌&&◌, List, [], ◌∷◌, ◌++◌, some,
  if◌then◌else◌, ◌==◌, nat_eq, ==-refl, lookup, contains, Unique, arith, Bool-cases, Option-cases,
  inl, inr, lookup-map_values,
}
use mathlib.Core.Option
use pccl.Net.{SocketAddress, socket_eq, socket_beq_iff}
use pccl.Client.{ClientInfo, state_eq, state_beq, coll_eq, vote_complete_collective_comms}
use pccl.Master.State.{MasterState, get_client_entry_set, swap_entries}
use pccl.Master.Consensus.{is_member, at_tag, collective_comms_complete_consensus}
use pccl.Master.Consensus.Laws.{collective_consensus-all}
use pccl.Master.Phases.{
  complete_step, drop_collective, transition_to_collective_comms_complete_phase,
  is_collective_comms_operation_aborted,
}
use pccl.Master.Invariant.{Inv}
use pccl.Master.Invariant.Loops.{Oks-lookup, all-lookup, run_step, visit-true}
use pccl.Master.Progress.{transition_to_complete-consensus, busy-running}
use pccl.Handler.{
  Handler, Action, send, kick, M2CPacket, collective_comms_abort, collective_comms_complete,
  broadcast_to, broadcast,
}
use pccl.Handler.Collective.{
  is_running_member, is_done_member, send_collective_comms_abort_packets,
  check_collective_comms_complete_consensus,
}

-- How many of the actions send the address a packet of a kind.
abbrev pub sent : SocketAddress → (M2CPacket → Bool) → List Action → ℕ
sent a kind [] = 0
sent a kind (send b packet ∷ out) =
    let rest = sent a kind out in if b == a && kind packet then suc rest else rest
sent a kind (kick b ∷ out) = sent a kind out

abbrev pub is_abort : ℕ → M2CPacket → Bool
is_abort tag (collective_comms_abort t aborted) = t == tag
is_abort tag _ = false

abbrev pub is_complete : ℕ → M2CPacket → Bool
is_complete tag (collective_comms_complete t) = t == tag
is_complete tag _ = false

sent-append :
    (a : SocketAddress) (kind : M2CPacket → Bool) (xs ys : List Action)
    → sent a kind (xs ++ ys) ≡ sent a kind xs + sent a kind ys
sent-append a kind [] ys = omega arith
sent-append a kind (send b packet ∷ xs) ys = ground (arith, sent-append a kind xs ys)
sent-append a kind (kick b ∷ xs) ys = sent-append a kind xs ys

module _ (p : ClientInfo → Bool) (packet : M2CPacket) (s : MasterState) (a : SocketAddress)
    (kind : M2CPacket → Bool) where
  sent-absent :
      (cu : List (SocketAddress × ℕ))
      → contains a cu ≡ false
      → sent a kind (broadcast_to p packet s (swap_entries cu)) ≡ 0
  unfolding broadcast_to
  sent-absent [] h = refl
  sent-absent ((b, w) ∷ cu) h = ground (arith, sent-absent cu)

  -- A registered client that passes the test is sent the packet once.
  sent-broadcast :
      (cu : List (SocketAddress × ℕ)) (u : ℕ) (i : ClientInfo)
      → Unique cu
      → lookup a cu ≡ some u
      → lookup u s.client_info ≡ some i
      → p i ≡ true
      → sent a kind (broadcast_to p packet s (swap_entries cu)) ≡ (if kind packet then 1 else 0)
  unfolding broadcast_to
  sent-broadcast [] u i once e k t = cc
  sent-broadcast ((b, w) ∷ cu) u i once e k t = elim (Bool-cases (b == a)) [
    | inl here ↦
        let same : b ≡ a = ground (arith, socket_beq_iff b a) in
        let gone = sent-absent cu (ap (λ x. contains x cu) (sym same) ∙ once.0) in
        let it : w ≡ u = ground arith in
        let found : lookup w s.client_info ≡ some i = ap (λ x. lookup x s.client_info) it ∙ k in
        ground arith
    | inr later ↦ let rest = sent-broadcast cu u i once.1 (ground arith) k t in ground arith
  ]

module _ (g tag : ℕ) (a : SocketAddress) (u : ℕ) (i : ClientInfo) (h : Handler)
    (v : Inv h.server_state)
    (agreed : collective_comms_complete_consensus g tag h.server_state ≡ true)
    (known : lookup a h.server_state.client_uuids ≡ some u)
    (info : lookup u h.server_state.client_info ≡ some i) (member : is_member g i ≡ true) where
  voted : at_tag tag vote_complete_collective_comms i ≡ true
  voted =
      let every = sym (collective_consensus-all g tag h.server_state).1 ∙ agreed in
      ground (
        arith,
        all-lookup
            (λ j. if is_member g j then at_tag tag vote_complete_collective_comms j else true)
            h.server_state.client_info u i every info,
      )

  running : is_running_member g i ≡ true
  running = elim (Option-cases (lookup tag i.collective_coms_states)) [
    | inl e ↦ absurd (ground (arith, voted))
    | inr (c, e) ↦
        ground
          (arith, busy-running tag c i (Oks-lookup h.server_state.client_info u i v.clients info) e)
  ]

  ended : run_step (complete_step g tag) i ≡ drop_collective tag i
  unfolding complete_step
  ended = ground (arith, voted, running)

  moved_info :
      lookup u (transition_to_collective_comms_complete_phase g tag h.server_state).0.client_info
      ≡ some (drop_collective tag i)
  unfolding transition_to_collective_comms_complete_phase
  moved_info =
      let done = transition_to_complete-consensus h.server_state v g tag agreed in
      let (same, pass) = visit-true (complete_step g tag) h.server_state.client_info done in
      ap (lookup u) same
      ∙ (lookup-map_values u (run_step (complete_step g tag)) h.server_state.client_info
          ∙ (ap (Option.map (run_step (complete_step g tag))) info ∙ ap some ended))

  still_done : is_done_member g (drop_collective tag i) ≡ true
  unfolding state_beq
  still_done = ground (arith, running)

  abbrev moved : MasterState
  moved = (transition_to_collective_comms_complete_phase g tag h.server_state).0

  abbrev aborts : List Action
  aborts =
      if is_collective_comms_operation_aborted g tag h.server_state
      then []
      else send_collective_comms_abort_packets g tag false h.server_state

  output :
      (check_collective_comms_complete_consensus g tag h).1
      ≡ aborts ++ broadcast (is_done_member g) (collective_comms_complete tag) moved
  unfolding check_collective_comms_complete_consensus
  output =
      let done = transition_to_complete-consensus h.server_state v g tag agreed in
      rw (agreed, done, check_collective_comms_complete_consensus) refl

  sent_complete :
      (kind : M2CPacket → Bool)
      → sent a kind (broadcast (is_done_member g) (collective_comms_complete tag) moved)
        ≡ (if kind (collective_comms_complete tag) then 1 else 0)
  unfolding get_client_entry_set transition_to_collective_comms_complete_phase
  sent_complete kind =
      sent-broadcast (is_done_member g) (collective_comms_complete tag) moved a kind
        h.server_state.client_uuids u (drop_collective tag i) v.consistent.address_once known
        moved_info still_done

  sent-aborts :
      (kind : M2CPacket → Bool)
      → sent a kind aborts ≡ (
          if is_collective_comms_operation_aborted g tag h.server_state
          then 0
          else if kind (collective_comms_abort tag false)
          then 1
          else 0)
  unfolding get_client_entry_set send_collective_comms_abort_packets
  sent-aborts kind =
      elim (Bool-cases (is_collective_comms_operation_aborted g tag h.server_state)) [
        | inl before ↦ rw before refl
        | inr never ↦ rw never (
            sent-broadcast (is_running_member g) (collective_comms_abort tag false) h.server_state a
              kind h.server_state.client_uuids u i v.consistent.address_once known info running)
      ]

  -- In a state that satisfies the invariant, when all members of a group have voted for the end of
  -- an operation, each registered member of the group is sent the end of that operation once, and
  -- at that time an abort packet for it once if the operation was not aborted before, else none.
  pub check_complete-sent :
      (sent a (is_abort tag) (check_collective_comms_complete_consensus g tag h).1
        ≡ (if is_collective_comms_operation_aborted g tag h.server_state then 0 else 1))
      × (sent a (is_complete tag) (check_collective_comms_complete_consensus g tag h).1 ≡ 1)
  check_complete-sent =
      let ends = broadcast (is_done_member g) (collective_comms_complete tag) moved in
      (
        ap (sent a (is_abort tag)) output
            ∙ ground (
              arith,
              ==-refl tag,
              sent-append a (is_abort tag) aborts ends,
              sent-aborts (is_abort tag),
              sent_complete (is_abort tag),
            ),
        ap (sent a (is_complete tag)) output
            ∙ ground (
              arith,
              ==-refl tag,
              sent-append a (is_complete tag) aborts ends,
              sent-aborts (is_complete tag),
              sent_complete (is_complete tag),
            ),
      )

-- ===== src/Master/Invariant/Cast.antt =====
-- What a change of one client does to the invariant.
use pccl.Common.{
  ℕ, ◌≡◌, refl, sym, ap, ◌∙◌, Bool, true, false, ◌&&◌, not, some, if◌then◌else◌, ◌==◌, nat_eq,
  lookup, modify, add, arith,
}
use pccl.Client.{
  ClientInfo, ConnectionState, is_accepted, state_eq, state_beq, coll_eq, idle,
  collective_communications_running, optimize_topology,
}
use pccl.Master.State.{MasterState}
use pccl.Master.Votes.{voter, put_state, may_establish, may_optimize, may_complete_sync}
use pccl.Master.Invariant.{Inv}
use pccl.Master.Invariant.Sets.{votes_for, is_vote, concerns, cast-VotesMatch, quiet-VotesMatch}
use pccl.Master.Invariant.Loops.{InfoOk, Oks-modify, Oks-lookup, is_running}
use pccl.Master.Invariant.Maps.{modify-IsConsistent, Keyed-lookup}

pub voter-some :
    (u : ℕ) (allowed : ConnectionState → Bool) (s : MasterState) (i : ClientInfo)
    → voter u allowed s ≡ some i
    → (lookup u s.client_info ≡ some i)
      × (is_accepted i.connection_phase ≡ true)
      × (allowed i.connection_state ≡ true)
voter-some u allowed s i h = ground arith

-- An accepted client that runs no operation may be put in any other state.
pub put_state-InfoOk :
    (st : ConnectionState) (i : ClientInfo)
    → InfoOk i
    → is_accepted i.connection_phase ≡ true
    → is_running i ≡ false
    → (st == collective_communications_running) ≡ false
    → InfoOk (put_state st i)
put_state-InfoOk st i o a r n = record {
  tags_once = o.tags_once;
  busy = o.busy ∙ ap not (r ∙ sym n);
  pending = λ h. ground arith;
}

-- A state from which a vote may be cast is itself no state of a vote, nor that of an operation.
abbrev pub Quiet : (ConnectionState → Bool) → Type 0
Quiet allowed =
    (c : ConnectionState)
    → allowed c ≡ true
    → (is_vote c ≡ false) × ((c == collective_communications_running) ≡ false)

pub may_establish-Quiet : Quiet may_establish
unfolding state_beq
may_establish-Quiet c h = ground arith

pub may_optimize-Quiet : Quiet may_optimize
unfolding state_beq
may_optimize-Quiet c h = ground arith

pub optimizing-Quiet : Quiet (λ c. c == optimize_topology)
unfolding state_beq
optimizing-Quiet c h = ground arith

pub idle-Quiet : Quiet (λ c. c == idle)
unfolding state_beq
idle-Quiet c h = ground arith

pub may_complete_sync-Quiet : Quiet may_complete_sync
unfolding state_beq
may_complete_sync-Quiet c h = ground arith

-- The invariant after an accepted vote: the set of the vote grows by the client.
pub cast-Inv :
    (s t : MasterState) (u : ℕ) (allowed : ConnectionState → Bool) (i : ClientInfo)
    (to : ConnectionState)
    → Inv s
    → Quiet allowed
    → voter u allowed s ≡ some i
    → is_vote to ≡ true
    → t.client_info ≡ modify u (put_state to) s.client_info
    → t.client_uuids ≡ s.client_uuids
    → t.uuid_clients ≡ s.uuid_clients
    → ((st : ConnectionState) (g : ℕ)
        → votes_for st g t ≡ (
            if st == to && concerns st g i
            then add i.client_uuid (votes_for st g s)
            else votes_for st g s))
    → Inv t
cast-Inv s t u allowed i to v quiet e vt et ea eu grow =
    let (known, accepted, ok) = voter-some u allowed s i e in
    let (no_vote, calm) = quiet i.connection_state ok in
    record {
      consistent =
          rw (et, ea, eu)
            (modify-IsConsistent s.client_info s.client_uuids s.uuid_clients v.consistent
              (put_state to) (λ j. refl) (λ j. refl) u);
      votes =
          cast-VotesMatch s t v.votes u i known to
            (Keyed-lookup u s.client_info i v.consistent.keyed known) et vt no_vote grow;
      clients = rw et (
          Oks-modify (put_state to) u i s.client_info known
            (put_state-InfoOk to i (Oks-lookup s.client_info u i v.clients known) accepted calm
              (not_running to vt))
            v.clients);
    }
  where
    not_running :
        (c : ConnectionState) → is_vote c ≡ true → (c == collective_communications_running) ≡ false
    not_running c h = unfold state_beq in ground arith

-- The invariant after a change that touches no vote.
pub quiet-Inv :
    (s t : MasterState) (u : ℕ) (i : ClientInfo) (f : ClientInfo → ClientInfo)
    → Inv s
    → lookup u s.client_info ≡ some i
    → ((j : ClientInfo) → (f j).client_uuid ≡ j.client_uuid)
    → ((j : ClientInfo) → (f j).socket_address ≡ j.socket_address)
    → ((j : ClientInfo) → (f j).peer_group ≡ j.peer_group)
    → ((st : ConnectionState)
        → is_vote st ≡ true
        → ((f i).connection_state == st) ≡ (i.connection_state == st))
    → InfoOk (f i)
    → t.client_info ≡ modify u f s.client_info
    → t.client_uuids ≡ s.client_uuids
    → t.uuid_clients ≡ s.uuid_clients
    → ((st : ConnectionState) (g : ℕ) → votes_for st g t ≡ votes_for st g s)
    → Inv t
quiet-Inv s t u i f v e ku ka kg still ok et ea eu same = record {
  consistent =
      rw (et, ea, eu)
        (modify-IsConsistent s.client_info s.client_uuids s.uuid_clients v.consistent f ku ka u);
  votes = quiet-VotesMatch s t v.votes u i e f et (kg i) still same;
  clients = rw et (Oks-modify f u i s.client_info e ok v.clients);
}

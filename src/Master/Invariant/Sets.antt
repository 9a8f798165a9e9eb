-- ===== src/Master/Invariant/Sets.antt =====
-- The six sets of votes as one family, and how a set and the states of the clients change together.
use pccl.Common.{
  ℕ, ◌≡◌, ap, Bool, true, false, ◌&&◌, List, [], Option, none, some, if◌then◌else◌, ◌==◌, nat_eq,
  nat_beq_iff, lookup, get_or, insert, erase, modify, has, add, remove, Unique, arith,
  lookup-modify, lookup-erase, lookup-insert, has-add, has-remove,
}
use pccl.Client.{
  ClientInfo, ConnectionState, state_eq, state_beq_iff, state_beq, vote_accept_new_peers,
  vote_no_new_peers_establish_p2p_connections, vote_optimize_topology,
  vote_complete_topology_optimization, vote_sync_shared_state, vote_complete_shared_state_sync,
}
use pccl.Master.State.{MasterState}
use pccl.Master.Votes.{put_state}

-- The states in which a client stands in a set of votes.
abbrev pub is_vote : ConnectionState → Bool
is_vote vote_accept_new_peers = true
is_vote vote_no_new_peers_establish_p2p_connections = true
is_vote vote_optimize_topology = true
is_vote vote_complete_topology_optimization = true
is_vote vote_sync_shared_state = true
is_vote vote_complete_shared_state_sync = true
is_vote _ = false

-- The votes that are kept for each peer group.
abbrev pub is_grouped : ConnectionState → Bool
is_grouped vote_sync_shared_state = true
is_grouped vote_complete_shared_state_sync = true
is_grouped _ = false

-- The set of a vote, for a group where there is one for each.
unfoldable pub votes_for : ConnectionState → ℕ → MasterState → List ℕ
votes_for vote_accept_new_peers g s = s.votes_accept_new_peers
votes_for vote_no_new_peers_establish_p2p_connections g s = s.votes_establish_p2p_connections
votes_for vote_optimize_topology g s = s.votes_optimize_topology
votes_for vote_complete_topology_optimization g s = s.votes_complete_topology_optimization
votes_for vote_sync_shared_state g s = get_or [] g s.votes_sync_shared_state
votes_for vote_complete_shared_state_sync g s = get_or [] g s.votes_sync_shared_state_complete
votes_for _ g s = []

abbrev pub concerns : ConnectionState → ℕ → ClientInfo → Bool
concerns st g i = if is_grouped st then i.peer_group == g else true

abbrev pub casts : ConnectionState → ℕ → Option ClientInfo → Bool
casts st g none = false
casts st g (some i) = is_vote st && (concerns st g i && i.connection_state == st)

-- Each set holds exactly the clients that are in the state of its vote, of its group.
abbrev pub VotesMatch : MasterState → Type 0
VotesMatch s =
    (st : ConnectionState) (g u : ℕ)
    → has u (votes_for st g s) ≡ casts st g (lookup u s.client_info)

pub not_vote : (c st : ConnectionState) → is_vote c ≡ false → is_vote st ≡ true → (c == st) ≡ false
unfolding state_beq
not_vote c st h k = ground arith

module _ (s t : MasterState) (v : VotesMatch s) where
  module _ (u : ℕ) (i : ClientInfo) (e : lookup u s.client_info ≡ some i) where
    -- The client u casts the vote `to`: that set grows by it, the others stay.
    pub cast-VotesMatch :
        (to : ConnectionState)
        → i.client_uuid ≡ u
        → t.client_info ≡ modify u (put_state to) s.client_info
        → is_vote to ≡ true
        → is_vote i.connection_state ≡ false
        → ((st : ConnectionState) (g : ℕ)
            → votes_for st g t ≡ (
                if st == to && concerns st g i
                then add i.client_uuid (votes_for st g s)
                else votes_for st g s))
        → VotesMatch t
    cast-VotesMatch to eu et vt vi grow st g w = ground (
      arith,
      ap (lookup w) et,
      lookup-modify u w (put_state to) s.client_info,
      grow st g,
      has-add i.client_uuid w (votes_for st g s),
      v st g w,
      nat_beq_iff u w,
      state_beq_iff st to,
      state_beq_iff to st,
      not_vote i.connection_state st vi,
    )

    -- The client u changes, but not its being in the state of a vote.
    pub quiet-VotesMatch :
        (f : ClientInfo → ClientInfo)
        → t.client_info ≡ modify u f s.client_info
        → (f i).peer_group ≡ i.peer_group
        → ((st : ConnectionState)
            → is_vote st ≡ true
            → ((f i).connection_state == st) ≡ (i.connection_state == st))
        → ((st : ConnectionState) (g : ℕ) → votes_for st g t ≡ votes_for st g s)
        → VotesMatch t
    quiet-VotesMatch f et eg k same st g w = ground (
      arith,
      ap (lookup w) et,
      lookup-modify u w f s.client_info,
      same st g,
      v st g w,
      nat_beq_iff u w,
      k st,
    )

    -- The client u leaves, and is taken out of every set that it can be in.
    pub erase-VotesMatch :
        Unique s.client_info
        → t.client_info ≡ erase u s.client_info
        → ((st : ConnectionState) (g : ℕ)
            → votes_for st g t
              ≡ (if concerns st g i then remove u (votes_for st g s) else votes_for st g s))
        → VotesMatch t
    erase-VotesMatch once et shrink st g w = ground (
      arith,
      ap (lookup w) et,
      lookup-erase u w s.client_info once,
      shrink st g,
      has-remove u w (votes_for st g s),
      v st g w,
      nat_beq_iff u w,
    )

  -- A client that was not there enters, in no state of a vote.
  pub insert-VotesMatch :
      (u : ℕ) (i : ClientInfo)
      → lookup u s.client_info ≡ none
      → t.client_info ≡ insert u i s.client_info
      → is_vote i.connection_state ≡ false
      → ((st : ConnectionState) (g : ℕ) → votes_for st g t ≡ votes_for st g s)
      → VotesMatch t
  insert-VotesMatch u i e et vi same st g w = ground (
    arith,
    ap (lookup w) et,
    lookup-insert u w i s.client_info,
    same st g,
    v st g w,
    nat_beq_iff u w,
    not_vote i.connection_state st vi,
  )

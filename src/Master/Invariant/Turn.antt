-- ===== src/Master/Invariant/Turn.antt =====
-- What a loop over all clients does to the invariant.
use pccl.Common.{
  ℕ, ◌≡◌, sym, ◌∙◌, ◌⊎◌, Bool, true, false, [], Option, some, ◌==◌, nat_eq, map_values, values, all,
  subst,
}
use pccl.Client.{
  ClientInfo, ConnectionState, is_accepted, state_eq, coll_eq, collective_communications_running,
}
use pccl.Master.State.{MasterState}
use pccl.Master.Loop.{visit}
use pccl.Master.Votes.{put_state}
use pccl.Master.Invariant.Cast.{put_state-InfoOk}
use pccl.Master.Invariant.{Inv}
use pccl.Master.Invariant.Sets.{votes_for, casts}
use pccl.Master.Invariant.Loops.{
  InfoOk, Oks-map_values, is_running, run_step, passes, visit-true, loop-VotesMatch,
}
use pccl.Master.Invariant.Maps.{map_values-IsConsistent}

-- A body of a loop keeps who the client is.
pub record KeepsClient (f : ClientInfo → ClientInfo) : Type 0 where
  pub uuid : (i : ClientInfo) → (f i).client_uuid ≡ i.client_uuid
  pub address : (i : ClientInfo) → (f i).socket_address ≡ i.socket_address

-- What a loop does to one set of votes: nothing, or it clears it.
abbrev pub Acts :
    MasterState
    → MasterState
    → (ClientInfo → ClientInfo)
    → (ClientInfo → Bool)
    → ConnectionState
    → ℕ
    → Type 0
Acts s t f p st g =
    ((votes_for st g t ≡ votes_for st g s)
      × ((i : ClientInfo) → InfoOk i → p i ≡ true → casts st g (some (f i)) ≡ casts st g (some i)))
    ⊎ ((votes_for st g t ≡ [])
        × ((i : ClientInfo) → InfoOk i → p i ≡ true → casts st g (some (f i)) ≡ false))

pub loop-Inv :
    (s t : MasterState) (f : ClientInfo → ClientInfo) (p : ClientInfo → Bool)
    → Inv s
    → KeepsClient f
    → t.client_info ≡ map_values f s.client_info
    → all p (values s.client_info) ≡ true
    → t.client_uuids ≡ s.client_uuids
    → t.uuid_clients ≡ s.uuid_clients
    → ((i : ClientInfo) → InfoOk i → p i ≡ true → InfoOk (f i))
    → ((st : ConnectionState) (g : ℕ) → Acts s t f p st g)
    → Inv t
loop-Inv s t f p v k et h ea eu ok act = record {
  consistent =
      rw (et, ea, eu)
        (map_values-IsConsistent s.client_info s.client_uuids s.uuid_clients v.consistent f k.uuid
          k.address);
  votes = loop-VotesMatch s t f p et h v.clients act v.votes;
  clients = rw et (Oks-map_values f p s.client_info ok h v.clients);
}

-- A body of a loop that leaves the client as it is, or settles it in another state.
pub unmoved :
    (f : ClientInfo → Option ClientInfo) (i : ClientInfo)
    → InfoOk i
    → run_step f i ≡ i
    → InfoOk (run_step f i)
unmoved f i o e = subst InfoOk (sym e) o

pub settled :
    (to : ConnectionState) (f : ClientInfo → Option ClientInfo) (i : ClientInfo)
    → InfoOk i
    → run_step f i ≡ put_state to i
    → is_accepted i.connection_phase ≡ true
    → is_running i ≡ false
    → (to == collective_communications_running) ≡ false
    → InfoOk (run_step f i)
settled to f i o e a r n = subst InfoOk (sym e) (put_state-InfoOk to i o a r n)

module _ (s : MasterState) (v : Inv s) where
  -- The invariant after a loop that was not left early.
  pub visit-Inv :
      (t : MasterState) (f : ClientInfo → Option ClientInfo)
      → KeepsClient (run_step f)
      → t.client_info ≡ (visit f s.client_info).0
      → (visit f s.client_info).1 ≡ true
      → t.client_uuids ≡ s.client_uuids
      → t.uuid_clients ≡ s.uuid_clients
      → ((i : ClientInfo) → InfoOk i → passes f i ≡ true → InfoOk (run_step f i))
      → ((st : ConnectionState) (g : ℕ) → Acts s t (run_step f) (passes f) st g)
      → Inv t
  visit-Inv t f k et done ea eu ok act =
      let (same, pass) = visit-true f s.client_info done in
      loop-Inv s t (run_step f) (passes f) v k (et ∙ same) pass ea eu ok act

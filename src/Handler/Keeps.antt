-- ===== src/Handler/Keeps.antt =====
-- Every modelled handler keeps the invariant of the master's bookkeeping.
pub mod Establish
pub mod Collective
pub mod Sync
pub mod Disconnect
pub mod Topology
pub mod Optimize
pub mod Dispatch
use pccl.Common.{
  ℕ, ◌≡◌, refl, Bool, true, false, List, [], ◌∷◌, Option, none, some, if◌then◌else◌, nat_eq, lookup,
  arith, Bool-cases, Option-cases, inl, inr,
}
use pccl.Net.{SocketAddress, socket_eq}
use pccl.Master.State.{MasterState, find_client_uuid, get_local_world_size}
use pccl.Master.Invariant.{Inv}
use pccl.Master.Invariant.Marked.{set_ring_topology-Inv}
use pccl.Master.Ring.{
  get_ring_topology, set_ring_topology, is_topology_dirty, build_basic_ring_topology,
}
use pccl.Handler.{Handler, Action, handle_vote}

-- What an operation of the handler keeps.
abbrev pub Keeps : (Handler → Handler × List Action) → Type 0
Keeps f = (h : Handler) → Inv h.server_state → Inv (f h).0.server_state

pub get_ring_topology-Inv :
    (g : ℕ) (b : Bool) (s : MasterState) → Inv s → Inv (get_ring_topology g b s).0
unfolding get_ring_topology
get_ring_topology-Inv g b s v =
    elim (Bool-cases (
      is_topology_dirty (pccl.Common.get_or [] g s.ring_topologies) s.client_info
        (get_local_world_size g b s))) [
          | inl dirty ↦
              rw (dirty, get_ring_topology)
                (set_ring_topology-Inv g (build_basic_ring_topology g s) false s v)
          | inr clean ↦ rw (clean, get_ring_topology) v
        ]

-- A vote and what follows it.
pub handle_vote-Inv :
    (a : SocketAddress) (vote : ℕ → MasterState → MasterState × Bool)
    (next : ℕ → Handler → Handler × List Action)
    → ((u : ℕ) (s : MasterState) → Inv s → Inv (vote u s).0)
    → ((u : ℕ) → Keeps (next u))
    → Keeps (handle_vote a vote next)
unfolding handle_vote
handle_vote-Inv a vote next kv kn h v = elim (Option-cases (find_client_uuid a h.server_state)) [
  | inl e ↦ rw (e, handle_vote) v
  | inr (u, e) ↦ elim (Bool-cases (vote u h.server_state).1) [
    | inl cast ↦
        rw (e, cast, handle_vote)
          (kn u (record h { server_state = (vote u h.server_state).0 }) (kv u h.server_state v))
    | inr refused ↦ rw (e, refused, handle_vote) (kv u h.server_state v)
  ]
]

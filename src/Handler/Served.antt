-- ===== src/Handler/Served.antt =====
-- The master as it serves its clients: what its event loop and its thread pool do, one after another.
use pccl.Common.{ℕ, ◌≡◌, ◌<◌, ap, false, Bool, List, [], none, some, lookup, nat_eq, length, take}
use pccl.Net.{SocketAddress}
use pccl.Packets.{C2MPacket}
use pccl.Packets.FromClient.{write_packet}
use pccl.Packets.FromClient.RoundTrip.{Fits, receive-take}
use pccl.Topology.{Solver}
use pccl.Master.State.{initial}
use pccl.Master.Invariant.{Inv}
use pccl.Master.Steps.{initial-Inv}
use pccl.Handler.{Handler, Action}
use pccl.Handler.Disconnect.{on_client_disconnect}
use pccl.Handler.Optimize.{advance}
use pccl.Handler.Dispatch.{Environment, handled, terminated, on_read, on_client_read}
use pccl.Handler.Keeps.Disconnect.{on_client_disconnect-Inv}
use pccl.Handler.Keeps.Optimize.{advance-Inv}
use pccl.Handler.Keeps.Dispatch.{on_client_read-Inv}

abbrev pub initial_handler : Handler
initial_handler = record {
  server_state = initial;
  peer_dropped = false;
  previous_p2p_connection_info = [];
  topology_optimization_tasks = [];
}

-- One event: bytes of a client, a client that leaves, or a step of a task of the thread pool.
pub data Serves : Handler → Handler → Type 0 where
  reads :
      (env : Environment) (a : SocketAddress) (bytes : List ℕ) (h next : Handler)
      (out : List Action)
      → on_client_read env a bytes h ≡ handled next out
      → lookup env.new_uuid h.server_state.client_info ≡ none
      → Serves h next
  loses :
      (closes : SocketAddress → Bool) (a : SocketAddress) (h next : Handler) (out : List Action)
      → on_client_disconnect closes a h ≡ some (next, out)
      → Serves h next
  optimizes :
      (solver : Solver) (cost : ℕ → ℕ) (g : ℕ) (h : Handler) → Serves h (advance solver cost g h)

pub data Served : Handler → Type 0 where
  starts : Served initial_handler
  goes_on : (h next : Handler) → Served h → Serves h next → Served next

serves-Inv : (h next : Handler) → Serves h next → Inv h.server_state → Inv next.server_state
serves-Inv _ _ (reads env a bytes h next out e fresh) v =
    on_client_read-Inv env a bytes h next out e v fresh
serves-Inv _ _ (loses closes a h next out e) v = on_client_disconnect-Inv closes a h next out e v
serves-Inv _ _ (optimizes solver cost g h) v = advance-Inv solver cost g h v

-- In every state that the master reaches from its start by any sequence of events - bytes of any
-- length and content from any address, where a client that joins is given a uuid that no client
-- has; connections that are lost; and steps of the tasks that look for better rings, between any
-- two of the other events and with any solver - the invariant of the bookkeeping holds: the maps
-- correspond, and the sets of votes hold exactly the clients in the state of that vote.
pub Served-Inv : (h : Handler) → Served h → Inv h.server_state
Served-Inv _ starts = initial-Inv
Served-Inv _ (goes_on h next r e) = serves-Inv h next e (Served-Inv h r)

-- A client's packet that is cut short by a byte or more, its length being right for what is left
-- of it, ends the master by an exception that nothing catches, whatever the state.
pub on_client_read-take :
    (env : Environment) (a : SocketAddress) (p : C2MPacket) (n : ℕ) (h : Handler)
    → Fits p
    → n < length (write_packet p)
    → on_client_read env a (take n (write_packet p)) h ≡ terminated
unfolding on_client_read on_read
on_client_read-take env a p n h fits short = ap (on_read env a h) (receive-take p n fits short)

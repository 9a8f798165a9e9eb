-- ===== src/Handler/Keeps/Dispatch.antt =====
-- Whatever a client sends, the invariant is kept.
use pccl.Common.{ℕ, ◌≡◌, List, Option, none, some, lookup, nat_eq, subst}
use pccl.Net.{SocketAddress}
use pccl.Packets.{
  C2MPacket, request_session_registration, request_establish_p2p_connections,
  report_p2p_connections, check_peers_pending, vote_optimize, report_peer_bandwidth,
  optimize_topology_work_complete, request_sync_shared_state, dist_shared_state_complete,
  initiate_collective_comms, complete_collective_comms,
}
use pccl.PacketBuffer.{Reading, read, out_of_range, refused, unnamed}
use pccl.Packets.FromClient.{receive}
use pccl.Master.Invariant.{Inv}
use pccl.Handler.{Handler, Action}
use pccl.Handler.Sync.{handle_sync_shared_state}
use pccl.Handler.Dispatch.{
  Outcome, handled, terminated, undetermined, if_determined, Environment, handle_packet, on_read,
  on_client_read,
}
use pccl.Handler.Keeps.Establish.{handle_establish-Inv, handle_join-Inv, handle_connected-Inv}
use pccl.Handler.Keeps.Collective.{
  handle_initiate-Inv, handle_complete-Inv, handle_pending-Inv, handle_sync_complete-Inv,
}
use pccl.Handler.Keeps.Sync.{Stays, handle_sync-Stays}
use pccl.Handler.Keeps.Topology.{handle_optimize-Inv, handle_report-Inv}
use pccl.Handler.Keeps.Optimize.{handle_work_complete-Inv}

-- The state after an outcome, where there is one, satisfies the invariant.
abbrev Sound : Outcome → Type 0
Sound (handled h out) = Inv h.server_state
Sound terminated = Unit
Sound undetermined = Unit

if_determined-Sound :
    (r : Option (Handler × List Action)) → Stays (λ r. r.0) r → Sound (if_determined r)
if_determined-Sound none h = tt
if_determined-Sound (some r) h = h

module _ (env : Environment) (a : SocketAddress) (h : Handler) (v : Inv h.server_state)
    (fresh : lookup env.new_uuid h.server_state.client_info ≡ none) where
  handle_packet-Sound : (p : C2MPacket) → Sound (handle_packet env a p h)
  unfolding handle_packet
  handle_packet-Sound (request_session_registration ports group) =
      handle_join-Inv a ports group env.new_uuid h v fresh
  handle_packet-Sound (request_establish_p2p_connections accept) = handle_establish-Inv a accept h v
  handle_packet-Sound (report_p2p_connections success failed) =
      handle_connected-Inv a success failed h v
  handle_packet-Sound check_peers_pending = handle_pending-Inv a h v
  handle_packet-Sound vote_optimize = handle_optimize-Inv a h v
  handle_packet-Sound (report_peer_bandwidth to bandwidth) = handle_report-Inv a to bandwidth h v
  handle_packet-Sound optimize_topology_work_complete =
      handle_work_complete-Inv env.solver env.cost a h v
  handle_packet-Sound (request_sync_shared_state revision strategy hashes) =
      if_determined-Sound (handle_sync_shared_state env.closes a revision strategy hashes h)
        (handle_sync-Stays env.closes a revision strategy hashes h v)
  handle_packet-Sound dist_shared_state_complete = handle_sync_complete-Inv a h v
  handle_packet-Sound (initiate_collective_comms tag count data_type op) =
      handle_initiate-Inv a tag h v
  handle_packet-Sound (complete_collective_comms tag was_aborted) =
      handle_complete-Inv a tag was_aborted h v

  on_read-Sound : (r : Reading (Option C2MPacket)) → Sound (on_read env a h r)
  unfolding on_read
  on_read-Sound (read none rest) = v
  on_read-Sound (read (some p) rest) = handle_packet-Sound p
  on_read-Sound refused = v
  on_read-Sound out_of_range = tt
  on_read-Sound unnamed = tt

-- Bytes keep it.
pub on_client_read-Inv :
    (env : Environment) (a : SocketAddress) (bytes : List ℕ) (h next : Handler) (out : List Action)
    → on_client_read env a bytes h ≡ handled next out
    → Inv h.server_state
    → lookup env.new_uuid h.server_state.client_info ≡ none
    → Inv next.server_state
unfolding on_client_read
on_client_read-Inv env a bytes h next out e v fresh =
    subst Sound e
      (on_read-Sound env a h v fresh (receive (record { data_ = bytes; read_index_ = 0 })))

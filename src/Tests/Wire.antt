-- ===== src/Tests/Wire.antt =====
-- Packets on the wire, and the master that reads them.
use pccl.Common.{
  ℕ, ◌≡◌, refl, true, false, List, [], ◌∷◌, ◌++◌, none, some, nat_eq, take, arith, ap,
}
use pccl.Net.{socket_eq}
use pccl.PacketBuffer.{read, out_of_range, write_integral, write_all, read_unsigned, read_integral}
use pccl.PacketBuffer.Reads.{at}
use pccl.Packets.{
  C2MPacket, M2CPacket, request_session_registration, report_p2p_connections,
  collective_comms_commence, p2p_connections_established,
}
use pccl.Packets.FromClient.{receive}
use pccl.Packets.FromClient as FromClient
use pccl.Packets.FromClient.RoundTrip.{receive-write_packet, receive-take}
use pccl.Packets.FromMaster.{parse_packet}
use pccl.Packets.FromMaster as FromMaster
use pccl.Packets.FromMaster.RoundTrip.{parse_packet-write_packet}
use pccl.QueuedSocket.{QueuedSocket, receive_turn, receive_packet, delivered, threw}
use pccl.QueuedSocket.Delivery.{NoneWaits, receive_packet-write_packet, receive_packet-take}
use pccl.Topology.{Solver}
use pccl.ServerSocket.{empty_buffer, on_chunks, ltv_packets}
use pccl.ServerSocket.Stream.{concat, Delivered, on_chunks-Delivered}
use pccl.Master.Invariant.{Inv}
use pccl.Handler.{Handler}
use pccl.Handler.Establish.{handle_request_session_join}
use pccl.Handler.Dispatch.{Environment, handled, terminated, handle_packet, on_client_read, on_read}
use pccl.Handler.Served.{
  initial_handler, Served, starts, goes_on, reads, Served-Inv, on_client_read-take,
}
use pccl.Tests.{home, ports}

abbrev no_solver : Solver
no_solver = record {
  tsp_asymmetric_solve = λ edges. none;
  tsp_asymmetric_improve_solution = λ edges tour. none;
}

abbrev env : Environment
env = record { closes = λ a. true; new_uuid = 7; solver = no_solver; cost = λ bandwidth. 1 }

abbrev join : C2MPacket
join = request_session_registration ports 0

abbrev report : C2MPacket
report = report_p2p_connections false (9 ∷ [])

receive-write_packet_example :
    receive (at [] (FromClient.write_packet report ++ (1 ∷ [])))
    ≡ read (some report) (at (FromClient.write_packet report) (1 ∷ []))
receive-write_packet_example = receive-write_packet report (1 ∷ []) (omega arith, (omega arith, tt))

receive-take_run : receive (at [] (take 12 (FromClient.write_packet report))) ≡ out_of_range
unfolding write_integral FromClient.serialize
receive-take_run = receive-take report 12 (omega arith, (omega arith, tt)) (omega arith)

abbrev established : M2CPacket
established = p2p_connections_established true (7 ∷ 9 ∷ [])

parse_packet-write_packet_example :
    parse_packet 3 (at [] (FromMaster.write_packet established ++ []))
    ≡ read (some established) (at (FromMaster.write_packet established) [])
parse_packet-write_packet_example =
    parse_packet-write_packet established [] (omega arith, (omega arith, (omega arith, tt)))

-- A socket with a packet of another type in its queue.
abbrev socket : QueuedSocket
socket = record {
  running = true;
  recv_queue = FromMaster.write_packet (collective_comms_commence 5 0) ∷ [];
}

none_waits : NoneWaits 3 socket.recv_queue
unfolding write_integral FromMaster.serialize read_unsigned read_integral
none_waits = (refl, tt)

receive_packet-write_packet_example :
    receive_packet 3 (receive_turn (FromMaster.write_packet established) socket)
    ≡ delivered (some established) socket
unfolding write_integral FromMaster.serialize write_all
receive_packet-write_packet_example =
    receive_packet-write_packet established socket (omega arith, (omega arith, (omega arith, tt)))
      refl none_waits (omega arith)

receive_packet-take_example :
    receive_packet 3 (receive_turn (take 10 (FromMaster.write_packet established)) socket)
    ≡ threw socket
unfolding write_integral FromMaster.serialize write_all
receive_packet-take_example =
    receive_packet-take established 10 socket (omega arith, (omega arith, (omega arith, tt)))
      (omega arith) refl none_waits (omega arith)

on_client_read-take_example :
    on_client_read env home (take 3 (FromClient.write_packet join)) initial_handler ≡ terminated
unfolding write_integral FromClient.serialize
on_client_read-take_example =
    on_client_read-take env home join 3 initial_handler
      ((omega arith, omega arith, omega arith), omega arith) (omega arith)

-- The first client joins.
abbrev joined_handler : Handler
joined_handler = (handle_request_session_join home ports 0 7 initial_handler).0

joined-read :
    on_client_read env home (FromClient.write_packet join ++ []) initial_handler
    ≡ handled joined_handler (handle_request_session_join home ports 0 7 initial_handler).1
unfolding handle_packet on_client_read on_read
joined-read =
    ap (on_read env home initial_handler)
      (receive-write_packet join [] ((omega arith, omega arith, omega arith), omega arith))

joined-Served : Served joined_handler
joined-Served = goes_on initial_handler joined_handler starts (
    reads env home (FromClient.write_packet join ++ []) initial_handler joined_handler
      (handle_request_session_join home ports 0 7 initial_handler).1 joined-read refl)

Served-Inv_example : Inv joined_handler.server_state
Served-Inv_example = Served-Inv joined_handler joined-Served

abbrev sent : List (ℕ × List ℕ)
sent = (3, 1 ∷ []) ∷ (4, []) ∷ []

-- The first packet comes in two chunks, and the second one with the end of the first.
abbrev chunks : List (List ℕ)
chunks =
    (0 ∷ 0 ∷ 0 ∷ 0 ∷ 0 ∷ 0 ∷ 0 ∷ 3 ∷ 0 ∷ [])
    ∷ (3 ∷ 1 ∷ 0 ∷ 0 ∷ 0 ∷ 0 ∷ 0 ∷ 0 ∷ 0 ∷ 2 ∷ 0 ∷ 4 ∷ [])
    ∷ []

chunks-sent : concat chunks ≡ ltv_packets sent
unfolding concat ltv_packets write_integral
chunks-sent = refl

on_chunks-Delivered_example : Delivered sent chunks (on_chunks empty_buffer chunks)
on_chunks-Delivered_example =
    on_chunks-Delivered sent chunks (omega arith, (omega arith, tt)) chunks-sent

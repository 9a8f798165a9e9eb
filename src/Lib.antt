-- ===== src/Lib.antt =====
-- pccl, a library for collective communication with peers that come and go. A master process keeps
-- the clients of a run, counts their votes and moves them through phases; the clients reduce tensors
-- among themselves along a ring that the master hands out. This library models the master, from the
-- bytes of a connection to the packets that it answers, a client with its connections and operations,
-- and the reduction of all clients together:
--   ccoip/internal_include/ccoip_master_state.hpp and ccoip/src/cpp/ccoip_master_state.cpp, its
--   bookkeeping; ccoip/src/cpp/ccoip_master_handler.cpp, its answers to packets;
--   ccoip/src/cpp/bandwidth_store.cpp, the matrix of measured bandwidths;
--   ccoip/src/cpp/topolgy_optimizer.cpp, the search for a better ring;
--   ccoip/src/cpp/ccoip_packets.cpp and ccoip_packet_buffer.cpp, the packets as bytes;
--   tinysockets/src/server_socket.cpp, the packets as parts of a stream;
--   tinysockets/src/queued_client_socket.cpp, the packets that a client receives;
--   ccoip/src/cpp/ccoip_client_state.cpp and ccoip_client_handler.cpp, a client; and
--   ccoip/src/cpp/reduce.cpp, the reduction along the ring.
--
-- The parts and their files:
--   Common                   maps, sets, lists and tests that the parts share
--   Net                      addresses (ccoip/public_include/ccoip_inet.h, ccoip_inet_utils.hpp)
--   PacketBuffer             the buffers of bytes; its laws in PacketBuffer/Integers and /Reads
--   Packets                  the packets; Packets/FromClient and /FromMaster their bytes, with a
--                            RoundTrip each
--   ServerSocket             packets in a stream of chunks: ServerSocket/Frames one packet, /Chunks
--                            one chunk, /Stream all chunks of a connection
--   QueuedSocket             a client's packets of the master, and the queue that they wait in
--                            (with tinysockets/include/tinysockets.hpp); QueuedSocket/Delivery on it
--   Client                   the states of a client, ClientInfo (ccoip_master_state.hpp)
--   Bandwidth                BandwidthStore; its laws in Bandwidth/Laws
--   Topology                 TopologyOptimizer; Topology/Nodes on its input graph, /Optimized on the
--                            ring that it returns
--   Master/State             CCoIPMasterState as a record of its members, and its plain queries
--   Master/Votes             vote..., the votes of a client
--   Master/Consensus         ...Consensus, whether all have voted; their meaning in Consensus/Laws
--   Master/Loop              the loop over all clients with an early return
--   Master/Phases            transitionTo..., end...Phase; /Sync those of shared state, /Collective
--                            those of operations, and the abort flags
--   Master/Registry          registerClient, unregisterClient
--   Master/SharedState       revisions, and the mask's election; SharedState/Election on it
--   Master/Audit             the comparison with the mask; Audit/Compare on it
--   Master/Ring              the rings; Ring/Search and /Reachable on the search for a ring,
--                            /Members and /Order on the rings that are handed out
--   Master/Reports           the report on p2p connections, and the bandwidths
--   Master/Optimization      performTopologyOptimization
--   Master/Invariant         the invariant, and that each operation keeps it
--   Master/Progress          transitions after their consensus
--   Master/Outcomes, Master/Admission, Master/Abort
--                            when votes and clients are accepted, and the abort flags
--   Master/Steps             the operations as a step relation, and the states that it reaches
--   Handler                  CCoIPMasterHandler: Handler/Establish joining and the start of p2p
--                            connections, /Connected their end, /Collective operations, queries and
--                            the end of a synchronization, /Sync and /Answer its start, /Topology
--                            votes to optimize, /Optimize the end of an optimization and its
--                            tasks, /Disconnect a client that leaves, /Dispatch onClientRead; /Keeps,
--                            /Erased, /Sent, /Sync/Settled and /Sync/Answers on them; /Served the
--                            master's events as a step relation, and the states that it reaches
--   ClientState              CCoIPClientState, a client's own state
--   ClientHandler            CCoIPClientHandler: its connections to peers; ClientHandler/Async the
--                            collective operations, /Share requests for shared state; /Peers, /Pools,
--                            /Join, /Kept, /Ended, /Outcomes, /Others, /Shared on them; /Lived the
--                            client's events as a step relation
--   Reduce                   pipelineRingReduce of all ranks: Reduce/Modular the ring's arithmetic,
--                            /Scatter and /Gather its two phases, /Total the result as a loop over
--                            the ranks, /Boundaries the chunks
--   Tests                    concrete runs, and the theorems at them
--
-- How the code is modelled. A member function is a function from the state to the state, with a
-- Boolean beside it where the function returns one. A name follows the code's, in this language's
-- spelling: voteSyncSharedState is vote_to_sync_shared_state where a constructor of the client's state
-- has the name already, and getMissingBandwidthEntries of the state missing_bandwidth_entries. An
-- unordered map is a list of pairs in its order of iteration, a set a list: insertion writes in
-- place, or at the end. Reading `m[k]` puts a default in where k is missing; that is left out where
-- nothing can observe it. A uuid is the number that its 16 bytes spell. An address keeps the bytes of
-- its own family only. A text is the list of its bytes. A bandwidth, a double, is its bit pattern,
-- since it is only copied. A counter of 64 bits wraps. An election's priority p, from -2 to 1, is
-- p + 2. std::sort is a sorting by insertion under the code's comparison. What the code leaves undefined, an index past the end of a
-- vector or the end iterator read, is none. The random uuid of a new client is an argument, with the
-- hypothesis that no client has it. What a socket is told, sending a packet or closing a connection,
-- is a list of actions; that a send may fail is only logged by the code.
--
-- A buffer of bytes is a list with an index; a read gives a value and the buffer after it, or throws.
-- An exception that nothing catches ends the master, and is an outcome of its own; so is a value of an
-- enum that no enumerator names, where the model says no more. A task of the thread pool locks the
-- rings twice, to read the ring and to set the new one, and is two steps, which may stand between any
-- two events of the server's thread; where the code joins the task, both are done there. The TSP solver
-- and the cost of a bandwidth, a quotient of doubles, are parameters.
--
-- A client's calls take what the sockets give them as arguments: for each attempt to connect, the
-- packets that are received, how each socket of a pool comes about, and whether a packet is sent. A
-- call that needs more attempts than are given has not returned. The task of an operation ends in a
-- step of its own, in which what it meets on its way is one argument; a call that joins a task that
-- runs waits. The mutexes of the client's state are each held for one access, and are left out; so are
-- the tests for the main thread.
--
-- The reduction is a function of all ranks' buffers: in each step, every rank sends what it has at the
-- step's beginning to the next rank. Quantized data that is passed on is an exception: the code sends it
-- from the memory that the same step receives into, so what a send carries off is a parameter, a function
-- of the step, the rank and the data. The kernels are a parameter, a record of functions. A chunk's
-- elements are one value, since the kernels treat them alike; so are the pieces in which they are sent.
--
-- A call that asks a client's socket for a packet takes the queue as it is; a call that would wait for
-- another packet, or returns nothing, is one outcome, and an exception another.
--
-- The search for a ring recurses as deep as there are eligible peers, and that number is its fuel. The
-- loop over a chunk reads a byte or more in each turn, and the chunk's length is its fuel. All other
-- functions recurse on their lists.
--
-- Not modelled: the TSP solver, a submodule; the event loop of libuv; the mutex of the rings, of which
-- all locks are scoped to one call; logging. Of the client: the calls connect, syncSharedState and
-- optimizeTopology, its threads and its end. The packets between clients, their blocking sockets, the kernels,
-- and a reduction that fails or is aborted are not modelled.
pub mod Common
pub mod Net
pub mod PacketBuffer
pub mod Client
pub mod Bandwidth
pub mod Topology
pub mod Master
pub mod Packets
pub mod Reduce
pub mod ServerSocket
pub mod QueuedSocket
pub mod ClientState
pub mod ClientHandler
pub mod Handler
pub mod Tests

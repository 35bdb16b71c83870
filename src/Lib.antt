-- ===== src/Lib.antt =====
-- ffRDMA: message passing between processes over RDMA sockets, after MPI.
--
-- The parts and how they interact. A process parses the host map that it is given (src/fmpi.cc,
-- include/utils/decoder.hpp), numbers the processes (include/utils/rank_alg.hpp), and opens one
-- socket to every other process (src/process.cc). Communicators (include/comm.hpp) give the
-- processes of a group ranks of their own. The operations of src/mpi.cc send and receive messages
-- (rsocket/src/amessage.cpp) on the sockets of a communicator; the sockets are rsocket/src, whose
-- queue of messages is rsocket/src/queue.cpp.
--
-- Files. Common holds lists, options, Boolean tests and integers over the native numbers, and facts
-- on permutations.
--   Mpi.Machine: what one process computes with. AMessage is the struct of rsocket/include/amessage.h.
--     A run ends in a result with the state of the process, in a fault (undefined behaviour: NULL
--     dereferenced, a double free, an access out of range, signed overflow), or waits for ever.
--     The sockets are given by what they will do: the messages that each will yield, NULL among them,
--     and the statuses of the coming sends. send_, recv_ and irecv_ are read from
--     rsocket/src/rdma_socket.cpp as far as that: what the caller sees of them.
--   Mpi.Loop: the counted loops and total correctness; Mpi.Memory: memcpy and slices; Mpi.Steps: the
--     steps of Mpi.Machine on their normal paths; Mpi.Peers: a communicator with all its sockets.
--   Mpi.Rank: RDMA_GetOffsetRank. Mpi.PointToPoint: RDMA_Send, RDMA_Recv, RDMA_Irecv. Mpi.Bcast:
--     RDMA_Bcast, RDMA_Allgather, RDMA_Barrier. Mpi.Allgather: RDMA_Allgather_exp. Mpi.Alltoall:
--     RDMA_Alltoall. Mpi.Gather: RDMA_Gather and RDMA_Scatter. Mpi.Reduce: RDMA_Reduce and
--     RDMA_Allreduce. Mpi.Allgatherv: RDMA_Allgatherv_exp. All are functions of src/mpi.cc, with
--     the theorems in child modules. Mpi.Ring and Mpi.Fan describe the two schedules.
--   Queue: rsocket/src/queue.cpp over an explicit heap of nodes; the unlock of a freed queue is a fault.
--   Comm: include/comm.hpp and RdmaProcess::splitComm of src/process.cc; Comm.Members says what a
--     well-formed communicator is and what std::sort, a parameter, promises; Comm.Split what the
--     members of a new communicator are.
--   Rsocket: the reliable socket of rsocket/src, one thread on a connected Socket. Rsocket.Machine has
--     the fields of Socket and what the environment will do: the completions of each event, the
--     completions found without one, the results of the calls under TEST_Z and TEST_NZ, and whether
--     another thread holds close_lock. A failed check ends the run (die). Rsocket.Poll: poll_wc of
--     poll_wc.cpp and post_wr.cpp. Rsocket.Handle: recv_wc_handle and resolve_wr_queue.
--     Rsocket.Transfer: send_, irecv_ and recv_ of rdma_socket.cpp. Rsocket.Closing: send_close_md,
--     wait_for_close and close_handle. Rsocket.Start: buildConnection of init.cpp, and what calls
--     lead to. The other files hold their theorems.
--   Receiver: rsocket/src/receiver.cpp and AMessage_check_sndmore; the threads of the sockets take
--     turns, the last one of a thread being the NULL of recv_.
--   Args: include/utils/arg_parser.hpp. Api: parseArgs and RDMA_Init of src/fmpi.cc.
--   Process: RdmaProcess of include/process.hpp and src/process.cc, in the release build (without
--     FFRDMA_ERROR_CHECK). What the network does, the results of createConnectToServer and accept_,
--     is given by lists. Process.Retry is connectToServer, Process.RootComm, Process.Setup and
--     Process.Connects are setup, Process.Sockets is RDMA_Socket as Mpi.Peers asks for it, and
--     Process.Reconnect is RDMA_Reconnect.
--   Hostmap: Spliter and Decoder of include/utils/decoder.hpp and RankAlg of
--     include/utils/rank_alg.hpp. std::stoi is a parameter, none where it throws; std::map and std::set
--     are lists in ascending order. Hostmap.Split is Spliter, Hostmap.Decode is Decoder, with
--     Hostmap.Insert and Hostmap.Order on the map that it builds, and Hostmap.Ranks is RankAlg.
--
-- Numbers. A C int is an integer of Common.Int; products with a type's size are checked against the
-- range of 32 bits, and an overflow is a fault. What the machine does with two elements in RDMA_Reduce
-- is a parameter, and the sum of two may be undefined, which is a fault too. Sums of ranks are not, since they stay below twice
-- the number of processes.
--
-- Bounds and fuel. The loops of src/mpi.cc are counted. The loop of queue_destroy has fuel, one round
-- more than the queue has nodes, and the loops over the tokens of a Spliter two rounds more than the
-- text has characters; their theorems say that this is enough. The
-- loops of Rsocket have a round for each trylock, event or completion to come, and one more;
-- Rsocket.Fuel.Rounds says what a run of such a loop is without fuel.
--
-- Locks. The functions of a queue run under its lock, so each is one step; the loops of src/mpi.cc
-- run in one thread.
--
-- Not modelled: the calls of ibverbs and rdma_cm in rsocket/src (they are given by what they will
-- return), the event loops of accept_ and connect_, the TCP helpers of src/utils/socket.cc, logging,
-- include/utils/prettyprint.hpp, and the launcher tools/ffrun, which is a Go program.
-- listen_process, receiver_bind and receiver_close of rsocket/src/receiver.cpp, and RDMA_Comm_split
-- of src/fmpi.cc are not modelled.
pub mod Common
pub mod Mpi
pub mod Queue
pub mod Comm
pub mod Rsocket
pub mod Receiver
pub mod Process
pub mod Hostmap
pub mod Args
pub mod Api

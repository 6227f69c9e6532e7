-- ===== src/Lib.antt =====
-- C_RPC: a framework for remote procedure calls over coroutines, with a registration centre that a
-- Raft cluster replicates. This library models its core and proves what makes that core correct.
--
-- The program. Calls and their results travel as messages (source/rpc/rpc_protocol.h), whose content
-- the serializer (source/util/serializer.h) writes in network order; a socket
-- (source/socket/socket.cpp) takes a message off the connection. The nodes of the registration
-- centre (source/raft/raft_node.cpp) serve the two remote calls of Raft, raftVote and
-- appendEntries, run an election timer and a heartbeat timer, and replicate a log of registrations
-- (source/raft/raft_logger.h), which a coroutine applies to the table of addresses. All of a node runs
-- in coroutines, which a scheduler (source/coroutine/scheduler.cpp) puts onto threads and a mutex
-- (source/coroutine/coroutinesync.cpp) keeps apart.
--
-- The files.
-- Base: shared names, Boolean tests, lists over the native numbers, and how many numbers satisfy a
--   test.
-- Wire: source/util/serializer.h. Words has the byte orders of a little-endian host (htons and htonl
--   are the system's, by their documented behaviour on such a host). Buffer has `Buffer`, a state of
--   bytes and a position, with an exception monad for what throws; a loop that never ends is the
--   result `hang`. Serializer has the overloads of `operator<<` and `operator>>` by the type they
--   take, with the choice that overload resolution makes for a const and for a variable operand.
--   Structs has the five Raft types. Reads and RoundTrip say what a round trip is, and how round trips
--   chain; Prims and Containers prove them.
-- Protocol: `Message`. Protocol.Stream has `Socket::receive` against a list of events, which is
--   everything that `recv` finds from then on; a list that runs out while bytes are missing is the
--   result `hang`. Framing, Takes and Arrival are about the arrival of messages,
--   Decoding about reading them. Send has `Socket::send` against a list of what the kernel answers, and
--   the way of a message from socket to socket.
-- Tables: a table of addresses under names, a multimap as the list of its pairs in order, which the
--   registration centre, the nodes and the pool of a client keep. Order, Erase and Fill hold its
--   theorems.
-- Raft: Config has the types of source/raft/raft_config.h, Outcome the mutexes: a call ends with
--   a result, waits for a mutex for ever as seen by itself (`blocked`), or does what is undefined
--   (`fault`: it reads outside of a vector, or a variable without a value). Logger has `RaftLogger`, one
--   function for each method, and `apply_step` for a round of its coroutine; Indexed, Matching and
--   Applied hold its theorems. Node has `RaftNode`, the two remote calls and the election timer, Leader
--   the count of votes, the replication and the heartbeat, Service the handlers of clients and servers,
--   as sections of code between a lock and its unlock. Sections has the rules for a relation
--   that every section keeps; Kept, Quiet and Votes show what each section does to state, term and
--   vote. Steps puts the sections of one node into any order, Cluster those of all nodes, with the
--   elections that startElection has begun: a coroutine that asks another node for its vote has not
--   been answered, has an answer, or has counted it. Quorum is about majorities, Win about a candidate
--   that has one.
--   Service.Registers is about what is appended for a server, Service.Found about the way of a
--   registration through log and table to a client, Service.Redirect about nodes that do not lead.
-- Registry: source/rpc/rpc_register.cpp. `RpcRegister` has its table and the handlers that `handleMsg`
--   calls. Addresses is about adding and erasing, Exchange about what servers, the registration centre
--   and clients (the loop of source/rpc/rpc_client.cpp) send each other. Names has the handlers of
--   discovery and subscription, which no message reaches; Discovery and Subscription are about them.
-- Channel: source/coroutine/coroutinechannal.h. A call is made of sections that end with a wait or a
--   return; a coroutine that is woken runs the same section again. Runs puts sections into any order, and Wakes also counts those
--   that are woken.
-- Mutex: source/coroutine/coroutinesync.cpp between coroutines on several threads, as steps in any
--   order, with nested calls. Owner and Exclusion are about who is between `lock` and the first `unlock`
--   behind it, Nested about what a nested call gives up. The sections of Raft and of Channel are between the two.
-- Timer: source/coroutine/timer.h and timer.cpp. An event is a number into a store that the timer and
--   the holders of its pointer share; `m_time_events` is the set by the times of the events. Sets and
--   Order are about the set and its order, Expiry about the events that are due.
-- Scheduler: source/coroutine/scheduler.cpp, and the states of source/coroutine/coroutine.cpp. The
--   threads and what the coroutines do to the scheduler are steps in any order; the numbers behind those of
--   the threads are calls of addTask from elsewhere. A coroutine is woken when a parameter of the steps,
--   `may_wake`, allows it. Runs is about the queue, Due and Lost about the callbacks of the timer, Counted,
--   Threads and Stop about the end, Held, Once and Twice about a coroutine on two threads. In Due and Lost
--   getTaskFromTimer is one call that nothing interrupts; in the steps it is one for each access, which
--   Undisturbed puts together.
-- Rpc: Server and Functions have the table of functions of source/rpc/rpc_server.h and the answer to a
--   request, Client the request and the response of source/rpc/rpc_client.h, RemoteCall a call from one to
--   the other. A function is one of numbers to a number, as the tuple of arguments is read in the code;
--   Publish has registerFunc2Reg, RedirectRegister and deleteFunc2Reg of source/rpc/rpc_server.cpp,
--   against a list of what the waits for answers end with.
-- Session: source/rpc/rpc_session.h. The channels of responses are numbers into a store; a call is one
--   section where it does not wait. Awaited and Responses are about a response and the coroutine that
--   waits for it.
-- Pool: source/rpc/rpc_connection_pool.cpp. A session is a number; what `connect` returns for an address
--   is an argument. Addresses is about the table of addresses, Sessions about the choice of a session.
--
-- Numbers are natural numbers; a uint64_t that the source lets wrap is taken modulo 2^64. Sizes are
-- below 2^63, as vectors and strings are. An index of the log is bounded by the length of a vector, and
-- does not wrap. The loops are recursive on what is left of their range, or on the list of answers that
-- they get. On fuel are the loops that read until the end of a buffer (emplace_services,
-- append_services, read_results, for_each_name): each round takes a byte at least, so that one round
-- more than there are bytes is enough; and register_func2reg, which jumps back only where RedirectRegister returns
-- false, which it never does. apply_rounds takes the number of rounds of a coroutine that never ends.
-- The timers of a Raft node are their state (stopped or not) and their last interval, and random
-- intervals are arguments. `remote_ids` supposes that every connection has been set up.
--
-- Not modelled: output and logging, the vendored source/util/spdlog, the context switch, epoll and the
-- calls of the system, the start of servers and clients, the handlers of a Raft node that no message
-- reaches, handleServiceDelete, publish, which nothing calls, and the stack of 1 MB on which
-- Socket::receive has an array as long as a message.
mod Base
pub mod Wire
pub mod Protocol
pub mod Raft
pub mod Tables
pub mod Registry
pub mod Channel
pub mod Timer
pub mod Scheduler
pub mod Rpc
pub mod Pool
pub mod Session
pub mod Mutex

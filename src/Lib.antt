-- ===== src/Lib.antt =====
-- A model of the experiments of this repository, and of what makes them correct. Each experiment is
-- a small program of its own; the parts do not call one another, except within
-- epoll_vs_multithreaded_io.
--
-- Ring: the ring buffers for one pushing and one popping thread. `Ring/Locked` is
-- concurrency_spsc_ringbuffer_queue/locked_ring_buffer_spsc, whose calls run one after another
-- under a mutex, so that a list of calls is one order in which the threads get it. `Ring/Modular`
-- is concurrency_spsc_ringbuffer_queue/lockless_ring_buffer_spsc, with indices that stay below the
-- size; `Ring/Counter` is both programs of lockless_spsc_sequantial_vs_acquirerelease, with
-- counters that only grow. For these two, `try_push` and `try_pop` are modelled alone, and in the
-- child `Threads` both threads take turns at single accesses to the shared ring: `produce` is one
-- step of `push` with the `try_push` in it, `consume` one of `pop`, and `run` follows any schedule.
-- `Counter/Order` is the interface of a memory order, with a sequentially consistent and an
-- acquire/release instance: a load of the other thread's counter may return any value between the
-- one seen last and the present one, and `synchronised` says how many of its calls then come before
-- what follows. An access to the buffer, which is not atomic, is a data race and undefined where
-- the other thread's accesses to the cell do not come before it. `Ring/Queue` is the specification.
-- `Ring/Retry` and the children `Weights`, `Waiting` and `Finishing` are about threads that wait at
-- a full or an empty ring, and are brought on by the other one.
-- Mpmc: the queues. `Mpmc/Coarse` is fine_grained_vs_coarse_grained/coarse_grained/queue_mpmc.hpp
-- as a step relation for any number of threads: taking and releasing the mutex, the wait on the
-- condition variable with unasked wake-ups, `notify_one`; its child `Program` is the threads of
-- coarse_grained_queue.cpp beside it. `Mpmc/Fine` is
-- fine_grained_vs_coarse_grained/fine_grained/queue_mpmc.hpp, a linked list on the heap of
-- `Mpmc/Heap`: each call alone, and in the child `Threads` as a step relation in which `enqueue`
-- under one mutex and `dequeue` under the other interleave. Its child `Program` is
-- fine_grained_queue.cpp: `ProgramStep` is a step of `run_fine_grained`, which creates and joins
-- the threads, of the loop of a thread, with the barrier before it, or of a call, and `RunsFor`
-- counts the steps from `launch`. The threads' functions have no `return`, which leaves open what
-- follows their loop; here the thread then ends.
-- Counting: atomic_vs_mutex/atomic_vs_mutex.cpp, `AtomicCounter`, `MutexCounter` and
-- `run_counters`, for any number of threads and rounds.
-- Ticks: virtual_methods_vs_crtp, the two programs with their loops.
-- Sharing: false_sharing/false_sharing.cpp, the three threads and the layout of `struct dummy`.
-- Network: epoll_vs_multithreaded_io/network on Linux. `Network/System` is the interface to the
-- operating system, which is a parameter: its answers may depend on all calls made before, and the
-- calls are kept as a history. `Network/Socket` is socket.h and socket.cpp, `Network/Connection` is
-- tcp_connection.cpp and tcp_connector.cpp, `Network/Listener` is io_listener_epoll.cpp, and
-- `Network/Server` is tcp_server.cpp, the part that the two servers share. `Network/Partial` is
-- code that may be undefined, and `Network/Message` the texts and C functions of the test programs.
-- `Network/Reactor` is tcp_server_reactor.cpp; its children `Loop` and `Program` are the event loop
-- and `handleClient` and `main` of epoll_vs_multithreaded_io/server_reactor.cpp, where `loads` says
-- what the reactor thread finds in `m_isStopping` each time that it looks, and `ready` which events
-- `epoll_wait` stores. Its other children follow its invariant: what the system has open and
-- watches (`Kernel`), a client that leaves (`Leaving`), joins (`Joining`) or is served (`Serving`),
-- and a whole round (`Dispatch`). `Network/PerClient` is tcp_server_thread_per_client.cpp with
-- `handleClient` of epoll_vs_multithreaded_io/server_thread_per_client.cpp: the main thread, the
-- thread that accepts and a thread for each client share the server and `m_peerSocketsLock`, and
-- `run` follows any schedule of single steps. The thread of a client runs from its creation on,
-- before it is stored in `m_clientThreads`. Its child `Stopping` is `stop`, in which the main
-- thread sets the flag and joins the others while they take their steps; `Owners`, `Effort`,
-- `Nearing`, `Waiting`, `Awake`, `Moving` and `Ending` show how it comes to its end.
-- `Network/Automation` is the client threads of epoll_vs_multithreaded_io/client_automation.cpp in
-- the same manner, and its child `Program` is `main` beside them, which creates and joins them.
-- What these rely on is stated of the operating system: `GivesFresh`, `ReceivesAtMost` and
-- `EpollContract`, and `RefusesAll` where no server answers.
-- Common: tests, lists, integers, families of threads, and `Common/Rounds`: threads that bring a
-- measure down when each of them takes part in every round; Tests: the theorems at concrete inputs.
--
-- Behaviour that C++ leaves undefined is the result `none`: a read or write outside an array, an
-- overflow of a signed integer, an access to an address that holds no node, a read by the locked
-- ring of a cell that was never written, a data race on the buffer of the ring with counters. Loops
-- whose length is known are recursion on it. The loops of `push` and `pop` that retry are not run
-- to their end but taken a step at a time, so that no bound on the retries is needed: a schedule is
-- a list of threads, and where a thread waits for another, that it ends is stated of the schedules
-- that go through enough rounds in which each thread is picked. The loop of attempts to connect has
-- fuel, and what is stated of it is stated for every fuel. Machine integers keep their range:
-- `int_max` is 2 ^ 31 - 1, `int64_max` is 2 ^ 63 - 1, and a `long` has 64 bits.
--
-- Not modelled: the cast of an accepted socket to `TCPConnection*`, which is undefined and is taken
-- to leave the socket as it is; descriptors at or above FD_SETSIZE, which `select` writes out of
-- bounds; data races between the threads of the fine-grained queue, of the two servers and of the
-- test client, whose steps are taken one after another; calls of the operating system that never
-- return, since each call is one step; the joins of the main programs of the ring buffers, the
-- counters and the coarse-grained queue, the reading of numbers, the measuring of time and the
-- printing; the barrier of coarse_grained_queue.cpp, affinity and the names of threads; the logging
-- under TCP_DEBUG, error texts, and everything for Windows only.
pub mod Common
pub mod Ring
pub mod Mpmc
pub mod Counting
pub mod Ticks
pub mod Sharing
pub mod Network
pub mod Tests

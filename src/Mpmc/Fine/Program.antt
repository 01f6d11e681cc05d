-- ===== src/Mpmc/Fine/Program.antt =====
-- fine_grained_vs_coarse_grained/fine_grained/fine_grained_queue.cpp: the main thread creates the
-- writing and the reading threads and joins them; each waits at the barrier, and then calls `enqueue`
-- or `dequeue` a number of times.
pub mod Invariant
pub mod Measure
pub mod Finishing
pub mod Puts
pub mod Counts
use low_latency_experiments.Common.{ℕ, zero, suc, ◌+◌, ◌≤◌, ◌<◌, ◌≡◌, ◌≢◌}
use low_latency_experiments.Common.Threads.{assign}
use low_latency_experiments.Mpmc.Heap.{Ptr}
use low_latency_experiments.Mpmc.Fine.Threads.{outside, System, Step}
use low_latency_experiments.Mpmc.Fine.Threads
use low_latency_experiments.Mpmc.Fine.Threads.Labels.{goes_on, enqueues, dequeues, label, mover}

-- `ITERATION_TIMES`, `NUM_WRITE_THREADS` and `NUM_READ_THREADS`
abbrev pub iteration_times : ℕ
iteration_times = 1000

abbrev pub num_write_threads : ℕ
num_write_threads = 50

abbrev pub num_read_threads : ℕ
num_read_threads = 50

-- Where the function of a thread stands.
pub data Loop : Type 0 where
  not_created : Loop
  before_barrier : Loop  -- before `pthread_barrier_wait`
  at_barrier : Loop  -- in it
  round : (i : ℕ) → Loop  -- at the test of the loop, or in the call before the round `i`

-- Where `run_fine_grained` stands.
pub data Main : Type 0 where
  creating : (next : ℕ) → Main  -- before the `pthread_create` of this thread
  joining : (next : ℕ) → Main  -- before the `pthread_join` of this thread
  returned : Main

-- `arrived` is how many threads have called `pthread_barrier_wait`.
pub record Program : Type 0 where
  pub system : System ℕ
  pub arrived : ℕ
  pub loop : ℕ → Loop
  pub main : Main

module _ (writers readers iterations : ℕ) where
  -- One step of the main thread, of the loop of a thread, or of a call. The threads that write come
  -- first, the threads that read after them.
  pub data ProgramStep (p : Program) : Program → Type 0 where
    create_thread :
        (i : ℕ)
        → p.main ≡ creating i
        → i < writers + readers
        → ProgramStep p
            (record p { main = creating (suc i); loop = assign p.loop i before_barrier })
    all_created :
        p.main ≡ creating (writers + readers) → ProgramStep p (record p { main = joining 0 })
    arrive :
        (i : ℕ)
        → i < writers + readers
        → p.loop i ≡ before_barrier
        → ProgramStep p (record p { arrived = suc p.arrived; loop = assign p.loop i at_barrier })
    -- The barrier lets a thread go when as many have called it as it was set up for.
    leave_barrier :
        (i : ℕ)
        → i < writers + readers
        → p.loop i ≡ at_barrier
        → p.arrived ≡ writers + readers
        → ProgramStep p (record p { loop = assign p.loop i (round 0) })
    -- The threads that write enqueue the numbers of their rounds.
    write :
        (i : ℕ) {t : System ℕ} (st : Step p.system t)
        → mover st < writers
        → p.loop (mover st) ≡ round i
        → i < iterations
        → label st ≡ enqueues i
        → ProgramStep p (record p { system = t; loop = assign p.loop (mover st) (round (suc i)) })
    read :
        (i : ℕ) {t : System ℕ} (st : Step p.system t)
        → writers ≤ mover st
        → mover st < writers + readers
        → p.loop (mover st) ≡ round i
        → i < iterations
        → label st ≡ dequeues
        → ProgramStep p (record p { system = t; loop = assign p.loop (mover st) (round (suc i)) })
    call_goes_on :
        {t : System ℕ} (st : Step p.system t)
        → label st ≡ goes_on
        → ProgramStep p (record p { system = t })
    -- `pthread_join` of a thread whose function has returned.
    join_thread :
        (i : ℕ)
        → p.main ≡ joining i
        → i < writers + readers
        → p.loop i ≡ round iterations
        → p.system.pc i ≡ outside
        → ProgramStep p (record p { main = joining (suc i) })
    return_main :
        p.main ≡ joining (writers + readers) → ProgramStep p (record p { main = returned })

  -- `run_fine_grained`, with the queue that the start of the program has made.
  abbrev pub launch : (dummy : Ptr) → Program
  launch dummy = record {
    system = Threads.start ℕ dummy;
    arrived = 0;
    loop = λ i. not_created;
    main = creating 0;
  }

  -- The states after `k` steps.
  pub data RunsFor (dummy : Ptr) : ℕ → Program → Type 0 where
    launched : RunsFor dummy zero (launch dummy)
    stepped :
        {k : ℕ} {p q : Program} → RunsFor dummy k p → ProgramStep p q → RunsFor dummy (suc k) q

-- `main`
abbrev pub run_fine_grained : (dummy : Ptr) → Program
run_fine_grained = launch num_write_threads num_read_threads iteration_times

-- ===== src/Counting.antt =====
-- atomic_vs_mutex/atomic_vs_mutex.cpp: a counter that is an atomic, and a counter behind a mutex, each
-- incremented by many threads. A `long` has 64 bits.
pub mod AtomicCounter
pub mod MutexCounter
use low_latency_experiments.Common.{ℕ}

-- `TEST_RUN`, the number of threads.
abbrev pub test_run : ℕ
test_run = 10000

-- The rounds of the loop of each thread.
abbrev pub rounds : ℕ
rounds = 100

-- ===== src/Mpmc/Coarse/Program.antt =====
-- The threads of fine_grained_vs_coarse_grained/coarse_grained/coarse_grained_queue.cpp: some push a
-- number of values each, the others pop as often.
use low_latency_experiments.Common.{ℕ, suc, ◌+◌, ◌<◌, ◌≡◌, Bool, false, ltb, if◌then◌else◌}
use low_latency_experiments.Common.Threads.{assign}
use low_latency_experiments.Mpmc.Coarse.{outside, push_start, pop_start, System, Step}
use low_latency_experiments.Mpmc.Coarse
use low_latency_experiments.Mpmc.Coarse.Safety.{starts, by_itself}

-- `ITERATION_TIMES`, `NUM_WRITE_THREADS` and `NUM_READ_THREADS`
abbrev pub iteration_times : ℕ
iteration_times = 1000

abbrev pub num_write_threads : ℕ
num_write_threads = 50

abbrev pub num_read_threads : ℕ
num_read_threads = 50

-- The queue with its threads, and how many calls each thread has still to start.
pub record Program : Type 0 where
  pub system : System ℕ
  pub to_push : ℕ → ℕ
  pub to_pop : ℕ → ℕ

-- One step of one of `n` threads: the loops of `thread_coarse_grained_write` and
-- `thread_coarse_grained_read` start the next call, or a call goes on.
pub data ProgramStep (n : ℕ) (p : Program) : Program → Type 0 where
  write :
      (i k : ℕ)
      → i < n
      → p.system.pc i ≡ outside
      → p.to_push i ≡ suc k
      → ProgramStep n p (record p {
        system = record p.system { pc = assign p.system.pc i (push_start 1) };
        to_push = assign p.to_push i k;
      })
  read :
      (i k : ℕ)
      → i < n
      → p.system.pc i ≡ outside
      → p.to_pop i ≡ suc k
      → ProgramStep n p (record p {
        system = record p.system { pc = assign p.system.pc i pop_start };
        to_pop = assign p.to_pop i k;
      })
  go_on :
      {t : System ℕ} (st : Step n p.system t)
      → starts st ≡ false
      → ProgramStep n p (record p { system = t })

-- A thread wakes with no notification.
abbrev pub unasked : {n : ℕ} {p q : Program} → ProgramStep n p q → Bool
unasked (ProgramStep.go_on st e) = by_itself st
unasked _ = false

-- `run_fine_grained`, past the barrier: the first threads write, the others read.
abbrev pub launch : (writers iterations : ℕ) → Program
launch writers iterations = record {
  system = Coarse.start ℕ;
  to_push = λ i. if ltb i writers then iterations else 0;
  to_pop = λ i. if ltb i writers then 0 else iterations;
}

pub data ProgramReach (writers readers iterations : ℕ) : Program → Type 0 where
  launched : ProgramReach writers readers iterations (launch writers iterations)
  stepped :
      {p q : Program}
      → ProgramReach writers readers iterations p
      → ProgramStep (writers + readers) p q
      → ProgramReach writers readers iterations q

-- `main`
abbrev pub main : Program
main = launch num_write_threads iteration_times

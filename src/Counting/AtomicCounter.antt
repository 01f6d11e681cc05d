-- ===== src/Counting/AtomicCounter.antt =====
-- `AtomicCounter` of atomic_vs_mutex/atomic_vs_mutex.cpp, and `run_counters<AtomicCounter>`.
pub mod Calls
pub mod Totals
pub mod Finishing
use low_latency_experiments.Common.{ℕ, suc, ◌<◌, ◌≡◌}
use low_latency_experiments.Common.Int.{ℤ, pos, negsuc, int64_max, add_wrapping, to_int}
use low_latency_experiments.Common.Threads.{assign}

-- The constructor. A counter is its value.
abbrev pub init : ℤ
init = pos 0

-- `++value` on an atomic; its arithmetic wraps.
unfoldable pub increment : ℤ → ℤ
increment value = add_wrapping int64_max value (pos 1)

unfoldable pub decrement : ℤ → ℤ
decrement value = add_wrapping int64_max value (negsuc 0)

-- The result is an `int`, the value a `long`.
unfoldable pub get : ℤ → ℤ
get value = to_int value

-- The counter, and how many rounds each thread has left.
pub record System : Type 0 where
  pub value : ℤ
  pub left : ℕ → ℕ

-- One round of one of `n` threads: the increment is one indivisible access.
pub data Step (n : ℕ) (s : System) : System → Type 0 where
  round :
      (i k : ℕ)
      → i < n
      → s.left i ≡ suc k
      → Step n s (record { value = increment s.value; left = assign s.left i k })

-- `run_counters` starts `n` threads of `rounds` rounds each; a thread that is not yet created has
-- made no step.
pub data Reach (n rounds : ℕ) : System → Type 0 where
  started : Reach n rounds (record { value = init; left = λ i. rounds })
  later : {s t : System} → Reach n rounds s → Step n s t → Reach n rounds t

-- ===== src/Counting/MutexCounter.antt =====
-- `MutexCounter` of atomic_vs_mutex/atomic_vs_mutex.cpp, and `run_counters<MutexCounter>`. `Mutex` is
-- `std::mutex` outside Windows.
pub mod Invariant
pub mod Totals
pub mod Finishing
use low_latency_experiments.Common.{ℕ, suc, ◌<◌, ◌≡◌, Option, none, some}
use low_latency_experiments.Common.Int.{ℤ, pos, negsuc, int64_max, add_below}
use low_latency_experiments.Common.Threads.{assign}

-- The constructor. A counter is its value.
abbrev pub init : ℤ
init = pos 0

-- What `value++` computes from the value that it has read; a `long` that overflows is undefined.
unfoldable pub increment : ℤ → Option ℤ
increment value = add_below int64_max value (pos 1)

unfoldable pub decrement : ℤ → Option ℤ
decrement value = add_below int64_max value (negsuc 0)

-- Where a thread stands, with the rounds that it has left.
pub data Pc : Type 0 where
  between : (left : ℕ) → Pc  -- between two rounds
  locked : (left : ℕ) → Pc  -- the guard holds the mutex, before the read of `value`
  loaded : (left : ℕ) (value : ℤ) → Pc  -- before the write of `value`
  stored : (left : ℕ) → Pc  -- before the guard releases the mutex

pub record System : Type 0 where
  pub value : ℤ
  pub owner : Option ℕ
  pub pc : ℕ → Pc

-- One step of one of `n` threads.
pub data Step (n : ℕ) (s : System) : System → Type 0 where
  lock :
      (i k : ℕ)
      → i < n
      → s.pc i ≡ between (suc k)
      → s.owner ≡ none
      → Step n s (record s { owner = some i; pc = assign s.pc i (locked k) })
  load :
      (i k : ℕ)
      → i < n
      → s.pc i ≡ locked k
      → Step n s (record s { pc = assign s.pc i (loaded k s.value) })
  store :
      (i k : ℕ) (v w : ℤ)
      → i < n
      → s.pc i ≡ loaded k v
      → increment v ≡ some w
      → Step n s (record s { value = w; pc = assign s.pc i (stored k) })
  unlock :
      (i k : ℕ)
      → i < n
      → s.pc i ≡ stored k
      → Step n s (record s { owner = none; pc = assign s.pc i (between k) })

-- `run_counters` starts `n` threads of `rounds` rounds each.
pub data Reach (n rounds : ℕ) : System → Type 0 where
  started : Reach n rounds (record { value = init; owner = none; pc = λ i. between rounds })
  later : {s t : System} → Reach n rounds s → Step n s t → Reach n rounds t

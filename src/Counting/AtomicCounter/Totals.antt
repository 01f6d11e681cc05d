-- ===== src/Counting/AtomicCounter/Totals.antt =====
-- `run_counters<AtomicCounter>` counts every increment.
use low_latency_experiments.Common.{ℕ, ◌+◌, ◌*◌, ◌≤◌, ◌<◌, ◌≡◌, refl, arith, ap}
use low_latency_experiments.Common.Int.{pos, int64_max}
use low_latency_experiments.Common.Threads.{tally, tally-assign, tally_same}
use low_latency_experiments.Counting.AtomicCounter.{increment, System, round, Reach, started, later}

-- The rounds that a thread has left count for themselves.
abbrev pub itself : ℕ → ℕ
itself k = k

increment_lem : (m : ℕ) → m < int64_max → increment (pos m) ≡ pos (m + 1)
unfolding increment
increment_lem m h = ground arith

-- The increments made and those still to be made are all of them.
counted :
    {n rounds : ℕ} {s : System}
    → n * rounds ≤ int64_max
    → Reach n rounds s
    → (m : ℕ) × (s.value ≡ pos m) × (m + tally itself n s.left ≡ n * rounds)
counted {n} {rounds} few started =
    (0, refl, omega (arith, tally_same itself n rounds (λ i. rounds) (λ i lt. refl)))
counted {n} few (later {s} r (round i k lt e)) =
    let (m, v, total) = counted few r in
    let moved = tally-assign itself n i s.left k lt in
    (m + 1, rw v (increment_lem m (omega arith)), omega arith)

-- When none of the `n` threads has a round left, and all their rounds together fit a `long`, the
-- counter stands at the number of threads times the rounds of each, whatever the order in which
-- they ran.
pub all_counted :
    {n rounds : ℕ} {s : System}
    → n * rounds ≤ int64_max
    → Reach n rounds s
    → ((i : ℕ) → i < n → s.left i ≡ 0)
    → s.value ≡ pos (n * rounds)
all_counted {n} {rounds} {s} few r done =
    let (m, v, total) = counted few r in
    rw (v, ← total, tally_same itself n 0 s.left done) (ap pos (omega arith))

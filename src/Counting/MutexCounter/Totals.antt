-- ===== src/Counting/MutexCounter/Totals.antt =====
-- `run_counters<MutexCounter>` counts every increment.
use low_latency_experiments.Common.{ℕ, ◌*◌, ◌≤◌, ◌<◌, ◌≡◌, ap, ◌∙◌, true, some, arith}
use low_latency_experiments.Common.Int.{ℤ, pos, int64_max, fits, negsuc}
use low_latency_experiments.Common.Threads.{tally_same}
use low_latency_experiments.Counting.MutexCounter.{
  increment, decrement, between, loaded, System, Reach,
}
use low_latency_experiments.Counting.MutexCounter.Invariant.{pending, Reach-Inv}

-- Where `increment` is defined, `decrement` undoes it, and the other way round.
pub decrement-increment :
    (value result : ℤ)
    → fits int64_max value ≡ true
    → (increment value ≡ some result → decrement result ≡ some value)
      × (decrement value ≡ some result → increment result ≡ some value)
unfolding increment decrement
decrement-increment (pos n) result h = (λ e. ground arith, λ e. ground arith)
decrement-increment (negsuc n) result h = (λ e. ground arith, λ e. ground arith)

module _ {n rounds : ℕ} {s : System} (few : n * rounds ≤ int64_max) (r : Reach n rounds s) where
  -- If all rounds together fit a `long`: a thread that has read `value` under the guard and not yet
  -- written it holds its current value, so that no increment is lost.
  pub no_lost_update : (i k : ℕ) (v : ℤ) → s.pc i ≡ loaded k v → v ≡ s.value
  no_lost_update i k v e = let inv = Reach-Inv few r in ground (arith, inv.fresh i)

  -- When none of the `n` threads has a round left, and all their rounds together fit a `long`, the
  -- counter stands at the number of threads times the rounds of each, whatever the order in which
  -- they ran.
  pub all_counted_locked : ((i : ℕ) → i < n → s.pc i ≡ between 0) → s.value ≡ pos (n * rounds)
  all_counted_locked done =
      let inv = Reach-Inv few r in
      inv.value_made
      ∙ ap pos
          (omega (arith, inv.counted, tally_same pending n 0 s.pc (λ i lt. ap pending (done i lt))))

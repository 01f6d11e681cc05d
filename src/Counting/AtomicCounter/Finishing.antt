-- ===== src/Counting/AtomicCounter/Finishing.antt =====
-- `run_counters<AtomicCounter>` comes to its end.
use low_latency_experiments.Common.{
  ℕ, zero, suc, ◌+◌, ◌*◌, ◌≤◌, ◌<◌, ◌≡◌, ◌⊎◌, inl, inr, refl, arith, dec_lt,
}
use low_latency_experiments.Common.Int.{pos, int64_max}
use low_latency_experiments.Common.Threads.{
  tally, tally-assign, tally_same, tally_none, thread_of_tally,
}
use low_latency_experiments.Counting.AtomicCounter.{System, Step, round, Reach, started, later}
use low_latency_experiments.Counting.AtomicCounter.Totals.{itself, all_counted}

-- How many steps have been taken.
abbrev pub steps : {n rounds : ℕ} {s : System} → Reach n rounds s → ℕ
steps started = 0
steps (later r st) = suc (steps r)

steps_left :
    {n rounds : ℕ} {s : System} (r : Reach n rounds s)
    → steps r + tally itself n s.left ≡ n * rounds
steps_left {n} {rounds} started =
    omega (arith, tally_same itself n rounds (λ i. rounds) (λ i lt. refl))
steps_left {n} (later {s} r (round i k lt e)) =
    omega (arith, steps_left r, tally-assign itself n i s.left k lt, e)

module _ {n rounds : ℕ} {s : System} (few : n * rounds ≤ int64_max) (r : Reach n rounds s) where
  abbrev Moves : Type 0
  Moves = (t : System) × Step n s t

  round-Moves : (i k : ℕ) → i < n → s.left i ≡ k → 0 < k → Moves
  round-Moves i zero lt e more = absurd (omega arith)
  round-Moves i (suc k) lt e more = (_, round i k lt e)

  -- When all rounds together fit a `long`: in every state that the `n` threads can reach, however they
  -- take turns, either fewer than `n * rounds` increments have been made and another is possible, or
  -- just as many, no thread has a round left, and the counter stands at the number of threads times
  -- the rounds of each.
  pub counting_ends :
      (steps r ≤ n * rounds)
      × (((steps r < n * rounds) × Moves)
          ⊎ ((steps r ≡ n * rounds)
              × ((i : ℕ) → i < n → s.left i ≡ 0)
              × (s.value ≡ pos (n * rounds))))
  counting_ends = (
    omega (arith, steps_left r),
    elim (dec_lt 0 (tally itself n s.left)) [
      | yes left ↦
          let (i, lt, more) = thread_of_tally itself n s.left left in
          inl (omega (arith, steps_left r), round-Moves i (s.left i) lt refl more)
      | no none_left ↦
          let done : (i : ℕ) → i < n → s.left i ≡ 0 =
            (λ i lt. tally_none itself n i s.left (omega arith) lt) in
          inr (omega (arith, steps_left r), done, all_counted few r done)
    ],
  )

-- ===== src/Counting/MutexCounter/Finishing.antt =====
-- `run_counters<MutexCounter>` comes to its end.
use low_latency_experiments.Common.{
  ℕ, zero, suc, ◌+◌, ◌*◌, ◌≤◌, ◌<◌, ◌≡◌, ◌⊎◌, inl, inr, refl, ap, true, none, some, arith, dec_lt,
  Option-cases,
}
use low_latency_experiments.Common.Int.{pos, int64_max}
use low_latency_experiments.Common.Threads.{
  tally, tally-assign, tally_same, tally_none, thread_of_tally,
}
use low_latency_experiments.Counting.MutexCounter.{
  Pc, between, locked, loaded, stored, System, Step, lock, load, store, unlock, Reach, started,
  later,
}
use low_latency_experiments.Counting.MutexCounter.Invariant.{holds, Reach-Inv, store_defined}
use low_latency_experiments.Counting.MutexCounter.Totals.{all_counted_locked}

-- How many steps have been taken.
abbrev pub steps : {n rounds : ℕ} {s : System} → Reach n rounds s → ℕ
steps started = 0
steps (later r st) = suc (steps r)

-- The steps that a thread has still to take.
abbrev work : Pc → ℕ
work (between k) = 4 * k
work (locked k) = 4 * k + 3
work (loaded k v) = 4 * k + 2
work (stored k) = 4 * k + 1

-- Between taking the mutex and releasing it.
abbrev inside : Pc → ℕ
inside (between k) = 0
inside (locked k) = 1
inside (loaded k v) = 1
inside (stored k) = 1

held : (pc : Pc) → holds pc ≡ true → 0 < inside pc
held (between k) e = absurd (cc e)
held _ e = omega arith

one_step : {n : ℕ} {s t : System} → Step n s t → tally work n t.pc + 1 ≡ tally work n s.pc
one_step {n} {s} (lock i k lt e f) =
    omega (arith, tally-assign work n i s.pc (locked k) lt, ap work e)
one_step {n} {s} (load i k lt e) =
    omega (arith, tally-assign work n i s.pc (loaded k s.value) lt, ap work e)
one_step {n} {s} (store i k v w lt e f) =
    omega (arith, tally-assign work n i s.pc (stored k) lt, ap work e)
one_step {n} {s} (unlock i k lt e) =
    omega (arith, tally-assign work n i s.pc (between k) lt, ap work e)

steps_left :
    {n rounds : ℕ} {s : System} (r : Reach n rounds s)
    → steps r + tally work n s.pc ≡ 4 * (n * rounds)
steps_left {n} {rounds} started =
    omega (arith, tally_same work n (4 * rounds) (λ i. between rounds) (λ i lt. refl))
steps_left (later r st) = omega (arith, steps_left r, one_step st)

-- The mutex belongs to a thread that is between taking it and releasing it.
Reach-Owned :
    {n rounds : ℕ} {s : System}
    → Reach n rounds s
    → (j : ℕ) → s.owner ≡ some j
    → (j < n) × (holds (s.pc j) ≡ true)
Reach-Owned started j e = cc
Reach-Owned (later r (lock i k lt e f)) j o = ground (arith, lt)
Reach-Owned (later r (load i k lt e)) j o = ground (arith, Reach-Owned r j)
Reach-Owned (later r (store i k v w lt e f)) j o = ground (arith, Reach-Owned r j)
Reach-Owned (later r (unlock i k lt e)) j o = absurd (cc o)

module _ {n rounds : ℕ} {s : System} (few : n * rounds ≤ int64_max) (r : Reach n rounds s) where
  abbrev Moves : Type 0
  Moves = (t : System) × Step n s t

  inside-Moves : (i : ℕ) → i < n → (pc : Pc) → s.pc i ≡ pc → 0 < inside pc → Moves
  inside-Moves i lt (between k) e more = absurd (omega arith)
  inside-Moves i lt (locked k) e more = (_, load i k lt e)
  inside-Moves i lt (loaded k v) e more =
      (_, store i k v _ lt e (store_defined i k v (Reach-Inv few r) lt e))
  inside-Moves i lt (stored k) e more = (_, unlock i k lt e)

  between-Moves :
      (i : ℕ)
      → i < n
      → s.owner ≡ none
      → (pc : Pc) → s.pc i ≡ pc
      → inside pc ≡ 0
      → 0 < work pc
      → Moves
  between-Moves i lt free (between zero) e out more = absurd (omega arith)
  between-Moves i lt free (between (suc k)) e out more = (_, lock i k lt e free)
  between-Moves i lt free _ e out more = absurd (omega arith)

  idle : (pc : Pc) → work pc ≡ 0 → pc ≡ between 0
  idle (between zero) e = refl
  idle (between (suc k)) e = absurd (omega arith)
  idle _ e = absurd (omega arith)

  goes_on : (0 < tally work n s.pc) → Moves
  goes_on left = elim (dec_lt 0 (tally inside n s.pc)) [
    | yes some_inside ↦
        let (i, lt, more) = thread_of_tally inside n s.pc some_inside in
        inside-Moves i lt (s.pc i) refl more
    | no none_inside ↦ elim (Option-cases s.owner) [
      | inl free ↦
          let (i, lt, more) = thread_of_tally work n s.pc left in
          let out = tally_none inside n i s.pc (omega arith) lt in
          between-Moves i lt free (s.pc i) refl out more
      | inr (j, o) ↦
          let (lt, h) = Reach-Owned r j o in
          absurd (omega (arith, held (s.pc j) h, tally_none inside n j s.pc (omega arith) lt))
    ]
  ]

  -- When all rounds together fit a `long`: in every state that the `n` threads can reach, however they
  -- take turns, either fewer than `4 * (n * rounds)` steps have been taken and another is possible, or
  -- just as many, every thread is out of its loop, and the counter stands at the number of threads
  -- times the rounds of each.
  pub locked_counting_ends :
      (steps r ≤ 4 * (n * rounds))
      × (((steps r < 4 * (n * rounds)) × Moves)
          ⊎ ((steps r ≡ 4 * (n * rounds))
              × ((i : ℕ) → i < n → s.pc i ≡ between 0)
              × (s.value ≡ pos (n * rounds))))
  locked_counting_ends = (
    omega (arith, steps_left r),
    elim (dec_lt 0 (tally work n s.pc)) [
      | yes left ↦ inl (omega (arith, steps_left r), goes_on left)
      | no none_left ↦
          let done : (i : ℕ) → i < n → s.pc i ≡ between 0 =
            (λ i lt. idle (s.pc i) (tally_none work n i s.pc (omega arith) lt)) in
          inr (omega (arith, steps_left r), done, all_counted_locked few r done)
    ],
  )

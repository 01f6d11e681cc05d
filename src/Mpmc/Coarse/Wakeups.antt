-- ===== src/Mpmc/Coarse/Wakeups.antt =====
-- The steps of the coarse-grained queue and its sleeping threads.
use low_latency_experiments.Common.{
  ℕ, ◌≤◌, ◌<◌, ◌≡◌, ◌≢◌, ◌⊎◌, [], ◌∷◌, arith, length, length-append, ℕ_discrete, ◌+◌,
}
use low_latency_experiments.Common.Threads.{assign, tally, tally-assign, thread_of_tally}
use low_latency_experiments.Mpmc.Coarse.{
  Pc, outside, push_start, push_locked, push_done, push_notify, pop_start, pop_testing, pop_asleep,
  pop_woken, pop_front, pop_remove, pop_leave, System, Step,
}
use low_latency_experiments.Mpmc.Coarse.Invariant.{asleep, serving, Inv}

module _ {V : Type 0} where
  -- What a thread's move changes.
  moved :
      (n i : ℕ) (f : ℕ → Pc V) (p : Pc V)
      → i < n
      → (tally asleep n (assign f i p) + asleep (f i) ≡ tally asleep n f + asleep p)
        × (tally serving n (assign f i p) + serving (f i) ≡ tally serving n f + serving p)
  moved n i f p lt = (tally-assign asleep n i f p lt, tally-assign serving n i f p lt)

  nobody_asleep :
      (n : ℕ) (f : ℕ → Pc V) → ((j : ℕ) → j < n → f j ≢ pop_asleep) → tally asleep n f ≡ 0
  nobody_asleep n f none_asleep = elim (ℕ_discrete (tally asleep n f) 0) [
    | yes e ↦ e
    | no ne ↦
        let (j, lt, p) = thread_of_tally asleep n f (omega arith) in
        absurd (none_asleep j lt (ground arith))
  ]

  -- No wake-up is lost: while a thread sleeps, no more values wait than threads are on the way.
  pub Step-served :
      {n : ℕ} {s t : System V}
      → Step n s t
      → Inv n s
      → (tally asleep n t.pc ≡ 0) ⊎ (length t.queue ≤ tally serving n t.pc)
  Step-served {n} {s} (Step.call_push i v lt e) inv =
      ground (arith, inv.served, moved n i s.pc (push_start v) lt)
  Step-served {n} {s} (Step.push_lock i v lt e f) inv =
      ground (arith, inv.served, moved n i s.pc (push_locked v) lt)
  Step-served {n} {s} (Step.push_value i v lt e) inv =
      ground (arith, inv.served, moved n i s.pc push_done lt, length-append s.queue (v ∷ []))
  Step-served {n} {s} (Step.push_unlock i lt e) inv =
      ground (arith, inv.served, moved n i s.pc push_notify lt)
  Step-served {n} {s} (Step.notify_nobody i lt e none_asleep) inv =
      ground (arith, inv.served, moved n i s.pc outside lt, nobody_asleep n s.pc none_asleep)
  Step-served {n} {s} (Step.notify_sleeper i j lt lt' e f) inv = ground (
    arith,
    inv.served,
    moved n j (assign s.pc i outside) pop_woken lt',
    moved n i s.pc outside lt,
  )
  Step-served {n} {s} (Step.call_pop i lt e) inv =
      ground (arith, inv.served, moved n i s.pc pop_start lt)
  Step-served {n} {s} (Step.pop_lock i lt e f) inv =
      ground (arith, inv.served, moved n i s.pc pop_testing lt)
  Step-served {n} {s} (Step.wait_ready i lt e ne) inv =
      ground (arith, inv.served, moved n i s.pc pop_front lt)
  Step-served {n} {s} (Step.wait_sleep i lt e empty) inv =
      ground (arith, inv.served, moved n i s.pc pop_asleep lt)
  Step-served {n} {s} (Step.wake_unasked i lt e) inv =
      ground (arith, inv.served, moved n i s.pc pop_woken lt)
  Step-served {n} {s} (Step.wake_lock i lt e f) inv =
      ground (arith, inv.served, moved n i s.pc pop_testing lt)
  Step-served {n} {s} (Step.take_front i v vs lt e f) inv =
      ground (arith, inv.served, moved n i s.pc (pop_remove v) lt)
  Step-served {n} {s} (Step.remove_front i v w vs lt e f) inv =
      ground (arith, inv.served, moved n i s.pc (pop_leave v) lt)
  Step-served {n} {s} (Step.pop_unlock i v lt e) inv =
      ground (arith, inv.served, moved n i s.pc outside lt)

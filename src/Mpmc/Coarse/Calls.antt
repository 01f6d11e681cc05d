-- ===== src/Mpmc/Coarse/Calls.antt =====
-- How many pushes and pops of the coarse-grained queue are under way.
use low_latency_experiments.Common.{
  ℕ, ◌+◌, ◌≤◌, ◌<◌, ◌≡◌, ◌∷◌, [], false, arith, length, length-append,
}
use low_latency_experiments.Common.Threads.{assign, tally, tally-assign}
use low_latency_experiments.Mpmc.Coarse.{
  Pc, outside, push_start, push_locked, push_done, push_notify, pop_start, pop_testing, pop_asleep,
  pop_woken, pop_front, pop_remove, pop_leave, System, Step,
}
use low_latency_experiments.Mpmc.Coarse.Safety.{starts}

-- A push that has not put its value in the queue.
abbrev pub pushing : {V : Type 0} → Pc V → ℕ
pushing (push_start v) = 1
pushing (push_locked v) = 1
pushing _ = 0

-- A pop that has not taken its value.
abbrev pub popping : {V : Type 0} → Pc V → ℕ
popping pop_start = 1
popping pop_testing = 1
popping pop_asleep = 1
popping pop_woken = 1
popping pop_front = 1
popping (pop_remove v) = 1
popping _ = 0

module _ {V : Type 0} {n : ℕ} where
  moves :
      (i : ℕ) (f : ℕ → Pc V) (p : Pc V)
      → i < n
      → (tally pushing n (assign f i p) + pushing (f i) ≡ tally pushing n f + pushing p)
        × (tally popping n (assign f i p) + popping (f i) ≡ tally popping n f + popping p)
  moves i f p lt = (tally-assign pushing n i f p lt, tally-assign popping n i f p lt)

  -- What a step that starts no call keeps: the pushes made and under way, and the pops.
  pub Step-counts :
      {s t : System V} (st : Step n s t)
      → starts st ≡ false
      → (length t.pushed + tally pushing n t.pc ≡ length s.pushed + tally pushing n s.pc)
        × (length t.returned + tally popping n t.pc ≡ length s.returned + tally popping n s.pc)
  Step-counts {s} (Step.call_push i v lt e) f = absurd (cc f)
  Step-counts {s} (Step.push_lock i v lt e f) g = ground (arith, moves i s.pc (push_locked v) lt)
  Step-counts {s} (Step.push_value i v lt e) f =
      ground (arith, moves i s.pc push_done lt, length-append s.pushed (v ∷ []))
  Step-counts {s} (Step.push_unlock i lt e) f = ground (arith, moves i s.pc push_notify lt)
  Step-counts {s} (Step.notify_nobody i lt e a) f = ground (arith, moves i s.pc outside lt)
  Step-counts {s} (Step.notify_sleeper i j lt lt' e g) f =
      ground (arith, moves j (assign s.pc i outside) pop_woken lt', moves i s.pc outside lt)
  Step-counts {s} (Step.call_pop i lt e) f = absurd (cc f)
  Step-counts {s} (Step.pop_lock i lt e g) f = ground (arith, moves i s.pc pop_testing lt)
  Step-counts {s} (Step.wait_ready i lt e ne) f = ground (arith, moves i s.pc pop_front lt)
  Step-counts {s} (Step.wait_sleep i lt e q) f = ground (arith, moves i s.pc pop_asleep lt)
  Step-counts {s} (Step.wake_unasked i lt e) f = ground (arith, moves i s.pc pop_woken lt)
  Step-counts {s} (Step.wake_lock i lt e g) f = ground (arith, moves i s.pc pop_testing lt)
  Step-counts {s} (Step.take_front i v vs lt e q) f = ground (arith, moves i s.pc (pop_remove v) lt)
  Step-counts {s} (Step.remove_front i v w vs lt e q) f =
      ground (arith, moves i s.pc (pop_leave v) lt, length-append s.returned (v ∷ []))
  Step-counts {s} (Step.pop_unlock i v lt e) f = ground (arith, moves i s.pc outside lt)

  -- It lets no thread begin to pop.
  pub Step-popping :
      {s t : System V} (st : Step n s t)
      → starts st ≡ false
      → (j : ℕ) → popping (t.pc j) ≤ popping (s.pc j)
  Step-popping {s} (Step.call_push i v lt e) f j = absurd (cc f)
  Step-popping {s} (Step.push_lock i v lt e g) f j = ground arith
  Step-popping {s} (Step.push_value i v lt e) f j = ground arith
  Step-popping {s} (Step.push_unlock i lt e) f j = ground arith
  Step-popping {s} (Step.notify_nobody i lt e a) f j = ground arith
  Step-popping {s} (Step.notify_sleeper i k lt lt' e g) f j = ground arith
  Step-popping {s} (Step.call_pop i lt e) f j = absurd (cc f)
  Step-popping {s} (Step.pop_lock i lt e g) f j = ground arith
  Step-popping {s} (Step.wait_ready i lt e ne) f j = ground arith
  Step-popping {s} (Step.wait_sleep i lt e q) f j = ground arith
  Step-popping {s} (Step.wake_unasked i lt e) f j = ground arith
  Step-popping {s} (Step.wake_lock i lt e g) f j = ground arith
  Step-popping {s} (Step.take_front i v vs lt e q) f j = ground arith
  Step-popping {s} (Step.remove_front i v w vs lt e q) f j = ground arith
  Step-popping {s} (Step.pop_unlock i v lt e) f j = ground arith

-- ===== src/Mpmc/Coarse/Safety.antt =====
-- What holds in every reachable state of the coarse-grained queue.
use low_latency_experiments.Common.{
  ℕ, ◌<◌, ◌≡◌, ◌≢◌, inl, inr, refl, subst, List, [], ◌∷◌, ◌++◌, Bool, true, false, none, arith,
  length, Option-cases, List-cases, dec_lt,
}
use low_latency_experiments.Common.Threads.{tally, tally-le, thread_of_tally}
use low_latency_experiments.Mpmc.Coarse.{
  Pc, outside, push_start, push_locked, push_done, push_notify, pop_start, pop_testing, pop_asleep,
  pop_woken, pop_front, pop_remove, pop_leave, System, Step, Reach,
}
use low_latency_experiments.Mpmc.Coarse.Invariant.{holds, asleep, serving, Ready}
use low_latency_experiments.Mpmc.Coarse.Runs.{Reach-Inv}

-- The steps with which a thread starts a call.
abbrev pub starts : {V : Type 0} {n : ℕ} {s t : System V} → Step n s t → Bool
starts (Step.call_push i v lt e) = true
starts (Step.call_pop i lt e) = true
starts _ = false

-- These, and those with which it wakes with no notification.
abbrev pub by_itself : {V : Type 0} {n : ℕ} {s t : System V} → Step n s t → Bool
by_itself (Step.call_push i v lt e) = true
by_itself (Step.call_pop i lt e) = true
by_itself (Step.wake_unasked i lt e) = true
by_itself _ = false

-- A step with which no thread starts a call, nor wakes with no notification.
abbrev pub GoesOn : {V : Type 0} (n : ℕ) → System V → Type 0
GoesOn {V} n s = (t : System V) × (st : Step n s t) × (by_itself st ≡ false)

module _ {V : Type 0} {n : ℕ} {s : System V} (r : Reach n s) where
  -- In every reachable state no two threads are between taking the mutex and releasing it.
  pub mutual_exclusion : (i j : ℕ) → holds (s.pc i) ≡ true → holds (s.pc j) ≡ true → i ≡ j
  mutual_exclusion i j hi hj =
      let inv = Reach-Inv r in ground (arith, inv.exclusive i hi, inv.exclusive j hj)

  -- In every reachable state, where a thread is about to call `front()` the queue has a front.
  pub front_defined : (i : ℕ) → s.pc i ≡ pop_front → s.queue ≢ []
  front_defined i e = subst (Ready s.queue) e ((Reach-Inv r).ready i)

  -- In every reachable state, the value that a thread has copied from `front()` is the one that its
  -- `m_queue.pop()` will take away.
  pub front_removed : (i : ℕ) (v : V) → s.pc i ≡ pop_remove v → (vs : List V) × (s.queue ≡ v ∷ vs)
  front_removed i v e = subst (Ready s.queue) e ((Reach-Inv r).ready i)

  -- First in, first out, across all threads: in every reachable state the values returned and those
  -- in the queue are the values pushed, in the order in which they were pushed.
  pub fifo : s.returned ++ s.queue ≡ s.pushed
  fifo = (Reach-Inv r).in_order

  -- No wake-up is lost: in every reachable state in which a thread sleeps in `wait` and a value is
  -- in the queue, some thread is about to notify, or holds or wants the mutex in order to test the
  -- queue or take a value.
  pub no_lost_wakeup :
      (i : ℕ)
      → i < n
      → s.pc i ≡ pop_asleep
      → s.queue ≢ []
      → (j : ℕ) × (j < n) × (serving (s.pc j) ≡ 1)
  no_lost_wakeup i lt e ne =
      let inv = Reach-Inv r in
      let sleeping : 0 < tally asleep n s.pc = ground (arith, tally-le asleep n i s.pc lt) in
      let some_value : 0 < length s.queue = ground arith in
      let (j, below, p) = thread_of_tally serving n s.pc (omega (arith, inv.served)) in
      (j, below, ground arith)

  -- The thread with the mutex can go on.
  owner_moves : (p : Pc V) (i : ℕ) → i < n → s.pc i ≡ p → holds p ≡ true → GoesOn n s
  owner_moves (push_locked v) i lt e h = (_, Step.push_value i v lt e, refl)
  owner_moves push_done i lt e h = (_, Step.push_unlock i lt e, refl)
  owner_moves pop_testing i lt e h = elim (List-cases s.queue) [
    | inl empty ↦ (_, Step.wait_sleep i lt e empty, refl)
    | inr (v, vs, q) ↦ (_, Step.wait_ready i lt e (λ empty. cc (q, empty)), refl)
  ]
  owner_moves pop_front i lt e h = elim (List-cases s.queue) [
    | inl empty ↦ absurd (subst (Ready s.queue) e ((Reach-Inv r).ready i) empty)
    | inr (v, vs, q) ↦ (_, Step.take_front i v vs lt e q, refl)
  ]
  owner_moves (pop_remove v) i lt e h =
      let (vs, q) = subst (Ready s.queue) e ((Reach-Inv r).ready i) in
      (_, Step.remove_front i v v vs lt e q, refl)
  owner_moves (pop_leave v) i lt e h = (_, Step.pop_unlock i v lt e, refl)
  owner_moves outside i lt e h = cc
  owner_moves _ i lt e h = cc

  -- Whoever waits for the mutex: either it is free, or its owner can go on.
  lock_moves : (s.owner ≡ none → GoesOn n s) → GoesOn n s
  lock_moves free = elim (Option-cases s.owner) [
    | inl e ↦ free e
    | inr (k, e) ↦ let (h, lt) = (Reach-Inv r).held k e in owner_moves (s.pc k) k lt refl h
  ]

  notify_moves : (i : ℕ) → i < n → s.pc i ≡ push_notify → GoesOn n s
  notify_moves i lt e = elim (dec_lt 0 (tally asleep n s.pc)) [
    | yes p ↦
        let (j, below, q) = thread_of_tally asleep n s.pc p in
        (_, Step.notify_sleeper i j lt below e (ground arith), refl)
    | no z ↦ (
      _,
      Step.notify_nobody i lt e (λ j below f. ground (arith, tally-le asleep n j s.pc below)),
      refl,
    )
  ]

  call_moves : (p : Pc V) (i : ℕ) → i < n → s.pc i ≡ p → p ≢ outside → p ≢ pop_asleep → GoesOn n s
  call_moves outside i lt e out sleep = absurd (out refl)
  call_moves pop_asleep i lt e out sleep = absurd (sleep refl)
  call_moves (push_start v) i lt e out sleep =
      lock_moves (λ f. (_, Step.push_lock i v lt e f, refl))
  call_moves push_notify i lt e out sleep = notify_moves i lt e
  call_moves pop_start i lt e out sleep = lock_moves (λ f. (_, Step.pop_lock i lt e f, refl))
  call_moves pop_woken i lt e out sleep = lock_moves (λ f. (_, Step.wake_lock i lt e f, refl))
  call_moves (push_locked v) i lt e out sleep = owner_moves (push_locked v) i lt e refl
  call_moves push_done i lt e out sleep = owner_moves push_done i lt e refl
  call_moves pop_testing i lt e out sleep = owner_moves pop_testing i lt e refl
  call_moves pop_front i lt e out sleep = owner_moves pop_front i lt e refl
  call_moves (pop_remove v) i lt e out sleep = owner_moves (pop_remove v) i lt e refl
  call_moves (pop_leave v) i lt e out sleep = owner_moves (pop_leave v) i lt e refl

  -- No deadlock: in every reachable state in which some thread is in a call and not asleep in `wait`, a
  -- step is possible that carries on a call and is not a wake-up with no notification.
  pub no_deadlock : (i : ℕ) → i < n → s.pc i ≢ outside → s.pc i ≢ pop_asleep → GoesOn n s
  no_deadlock i lt out sleep = call_moves (s.pc i) i lt refl out sleep

-- ===== src/Mpmc/Coarse/Mutex.antt =====
-- The steps of the coarse-grained queue, the mutex and the values.
use low_latency_experiments.Common.{
  ℕ, ◌<◌, ◌≡◌, sym, ap, ◌∙◌, [], ◌∷◌, ◌++◌, append_assoc, true, some, arith, subst,
}
use low_latency_experiments.Mpmc.Coarse.{System, Step}
use low_latency_experiments.Mpmc.Coarse.Invariant.{holds, Ready, Inv}

module _ {V : Type 0} where
  -- The mutex has one owner.
  pub Step-exclusive :
      {n : ℕ} {s t : System V}
      → Step n s t
      → Inv n s
      → (k : ℕ) → holds (t.pc k) ≡ true
      → t.owner ≡ some k
  Step-exclusive (Step.call_push i v lt e) inv k h =
      ground (arith, inv.exclusive k, inv.exclusive i)
  Step-exclusive (Step.push_lock i v lt e f) inv k h =
      ground (arith, inv.exclusive k, inv.exclusive i)
  Step-exclusive (Step.push_value i v lt e) inv k h =
      ground (arith, inv.exclusive k, inv.exclusive i)
  Step-exclusive (Step.push_unlock i lt e) inv k h =
      ground (arith, inv.exclusive k, inv.exclusive i)
  Step-exclusive (Step.notify_nobody i lt e none_asleep) inv k h =
      ground (arith, inv.exclusive k, inv.exclusive i)
  Step-exclusive (Step.notify_sleeper i j lt lt' e f) inv k h =
      ground (arith, inv.exclusive k, inv.exclusive i, inv.exclusive j)
  Step-exclusive (Step.call_pop i lt e) inv k h = ground (arith, inv.exclusive k, inv.exclusive i)
  Step-exclusive (Step.pop_lock i lt e f) inv k h = ground (arith, inv.exclusive k, inv.exclusive i)
  Step-exclusive (Step.wait_ready i lt e ne) inv k h =
      ground (arith, inv.exclusive k, inv.exclusive i)
  Step-exclusive (Step.wait_sleep i lt e empty) inv k h =
      ground (arith, inv.exclusive k, inv.exclusive i)
  Step-exclusive (Step.wake_unasked i lt e) inv k h =
      ground (arith, inv.exclusive k, inv.exclusive i)
  Step-exclusive (Step.wake_lock i lt e f) inv k h =
      ground (arith, inv.exclusive k, inv.exclusive i)
  Step-exclusive (Step.take_front i v vs lt e f) inv k h =
      ground (arith, inv.exclusive k, inv.exclusive i)
  Step-exclusive (Step.remove_front i v w vs lt e f) inv k h =
      ground (arith, inv.exclusive k, inv.exclusive i)
  Step-exclusive (Step.pop_unlock i v lt e) inv k h =
      ground (arith, inv.exclusive k, inv.exclusive i)

  -- The owner is in the critical section.
  pub Step-held :
      {n : ℕ} {s t : System V}
      → Step n s t
      → Inv n s
      → (k : ℕ) → t.owner ≡ some k
      → (holds (t.pc k) ≡ true) × (k < n)
  Step-held (Step.call_push i v lt e) inv k h = ground (arith, inv.held k)
  Step-held (Step.push_lock i v lt e f) inv k h = ground (arith, inv.held k)
  Step-held (Step.push_value i v lt e) inv k h = ground (arith, inv.held k)
  Step-held (Step.push_unlock i lt e) inv k h = ground (arith, inv.held k)
  Step-held (Step.notify_nobody i lt e none_asleep) inv k h = ground (arith, inv.held k)
  Step-held (Step.notify_sleeper i j lt lt' e f) inv k h = ground (arith, inv.held k)
  Step-held (Step.call_pop i lt e) inv k h = ground (arith, inv.held k)
  Step-held (Step.pop_lock i lt e f) inv k h = ground (arith, inv.held k)
  Step-held (Step.wait_ready i lt e ne) inv k h = ground (arith, inv.held k)
  Step-held (Step.wait_sleep i lt e empty) inv k h = ground (arith, inv.held k)
  Step-held (Step.wake_unasked i lt e) inv k h = ground (arith, inv.held k)
  Step-held (Step.wake_lock i lt e f) inv k h = ground (arith, inv.held k)
  Step-held (Step.take_front i v vs lt e f) inv k h = ground (arith, inv.held k)
  Step-held (Step.remove_front i v w vs lt e f) inv k h = ground (arith, inv.held k)
  Step-held (Step.pop_unlock i v lt e) inv k h = ground (arith, inv.held k)

  -- No thread is told of a value that is not there.
  pub Step-ready :
      {n : ℕ} {s t : System V} → Step n s t → Inv n s → (k : ℕ) → Ready t.queue (t.pc k)
  Step-ready (Step.call_push i v lt e) inv k = ground (arith, inv.ready k)
  Step-ready (Step.push_lock i v lt e f) inv k = ground (arith, inv.ready k)
  Step-ready (Step.push_value i v lt e) inv k =
      ground (arith, inv.ready k, inv.exclusive k, inv.exclusive i)
  Step-ready (Step.push_unlock i lt e) inv k = ground (arith, inv.ready k)
  Step-ready (Step.notify_nobody i lt e none_asleep) inv k = ground (arith, inv.ready k)
  Step-ready (Step.notify_sleeper i j lt lt' e f) inv k = ground (arith, inv.ready k)
  Step-ready (Step.call_pop i lt e) inv k = ground (arith, inv.ready k)
  Step-ready (Step.pop_lock i lt e f) inv k = ground (arith, inv.ready k)
  Step-ready (Step.wait_ready i lt e ne) inv k = ground (arith, inv.ready k)
  Step-ready (Step.wait_sleep i lt e empty) inv k = ground (arith, inv.ready k)
  Step-ready (Step.wake_unasked i lt e) inv k = ground (arith, inv.ready k)
  Step-ready (Step.wake_lock i lt e f) inv k = ground (arith, inv.ready k)
  Step-ready (Step.take_front i v vs lt e f) inv k = ground (arith, inv.ready k)
  Step-ready (Step.remove_front i v w vs lt e f) inv k =
      ground (arith, inv.ready k, inv.exclusive k, inv.exclusive i)
  Step-ready (Step.pop_unlock i v lt e) inv k = ground (arith, inv.ready k)

  -- Values leave in the order in which they came.
  pub Step-in_order :
      {n : ℕ} {s t : System V} → Step n s t → Inv n s → t.returned ++ t.queue ≡ t.pushed
  Step-in_order (Step.call_push i v lt e) inv = inv.in_order
  Step-in_order (Step.push_lock i v lt e f) inv = inv.in_order
  Step-in_order {s = s} (Step.push_value i v lt e) inv =
      sym (append_assoc s.returned s.queue (v ∷ [])) ∙ ap (λ q. q ++ v ∷ []) inv.in_order
  Step-in_order (Step.push_unlock i lt e) inv = inv.in_order
  Step-in_order (Step.notify_nobody i lt e none_asleep) inv = inv.in_order
  Step-in_order (Step.notify_sleeper i j lt lt' e f) inv = inv.in_order
  Step-in_order (Step.call_pop i lt e) inv = inv.in_order
  Step-in_order (Step.pop_lock i lt e f) inv = inv.in_order
  Step-in_order (Step.wait_ready i lt e ne) inv = inv.in_order
  Step-in_order (Step.wait_sleep i lt e empty) inv = inv.in_order
  Step-in_order (Step.wake_unasked i lt e) inv = inv.in_order
  Step-in_order (Step.wake_lock i lt e f) inv = inv.in_order
  Step-in_order (Step.take_front i v vs lt e f) inv = inv.in_order
  Step-in_order {s = s} (Step.remove_front i v w vs lt e f) inv =
      let (us, g) = subst (Ready s.queue) e (inv.ready i) in
      let front : s.queue ≡ v ∷ vs = cc (f, g) in
      append_assoc s.returned (v ∷ []) vs ∙ (rw front at inv.in_order)
  Step-in_order (Step.pop_unlock i v lt e) inv = inv.in_order

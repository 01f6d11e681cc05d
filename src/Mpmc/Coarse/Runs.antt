-- ===== src/Mpmc/Coarse/Runs.antt =====
-- Every reachable state of the coarse-grained queue.
use low_latency_experiments.Common.{ℕ, inr, refl, arith}
use low_latency_experiments.Mpmc.Coarse.{
  Pc, outside, push_start, push_locked, push_done, push_notify, pop_start, pop_testing, pop_asleep,
  pop_woken, pop_front, pop_remove, pop_leave, System, Step, start, Reach,
}
use low_latency_experiments.Mpmc.Coarse
use low_latency_experiments.Mpmc.Coarse.Invariant.{Inv}
use low_latency_experiments.Mpmc.Coarse.Mutex.{Step-exclusive, Step-held, Step-ready, Step-in_order}
use low_latency_experiments.Mpmc.Coarse.Wakeups.{Step-served}

module _ {V : Type 0} where
  Step-Inv : {n : ℕ} {s t : System V} → Step n s t → Inv n s → Inv n t
  Step-Inv st inv = record {
    exclusive = Step-exclusive st inv;
    held = Step-held st inv;
    ready = Step-ready st inv;
    in_order = Step-in_order st inv;
    served = Step-served st inv;
  }

  start-Inv : (n : ℕ) → Inv n (start V)
  start-Inv n = record {
    exclusive = λ i h. cc;
    held = λ i e. cc;
    ready = λ i. tt;
    in_order = refl;
    served = inr (omega arith);
  }

  pub Reach-Inv : {n : ℕ} {s : System V} → Reach n s → Inv n s
  Reach-Inv {n} Coarse.here = start-Inv n
  Reach-Inv (Coarse.later r st) = Step-Inv st (Reach-Inv r)

-- ===== src/Ring/Counter/Runs.antt =====
-- Every schedule of the two threads of the ring with counters is defined and keeps the invariant.
use low_latency_experiments.Common.{ℕ, ◌≤◌, ◌≡◌, refl, List, [], ◌∷◌, some, arith, length}
use low_latency_experiments.Common.Int.{int_max}
use low_latency_experiments.Ring.Window.{Value}
use low_latency_experiments.Ring.Memory.{ring_buffer_size}
use low_latency_experiments.Ring.Counter.Order.{MemoryOrder}
use low_latency_experiments.Ring.Counter.Threads.{System, Thread, writer, reader, step, run, start}
use low_latency_experiments.Ring.Counter.Invariant.{Inv}
use low_latency_experiments.Ring.Counter.Pushing.{produce-Inv}
use low_latency_experiments.Ring.Counter.Popping.{consume-Inv}

module _ (order : MemoryOrder) {values : List Value} {n : ℕ} where
  -- One step of either thread is defined and keeps the invariant.
  pub step-Inv :
      (t : Thread) (i : ℕ) {s : System}
      → Inv values n s
      → (s' : System) × (step order (t, i) s ≡ some s') × Inv values n s'
  unfolding step
  step-Inv writer i {s} inv = produce-Inv order s.producer s.todo i inv
  step-Inv reader i {s} inv = consume-Inv order s.consumer s.pops i inv

  -- So does any schedule.
  pub run-Inv :
      (ts : List (Thread × ℕ)) {s : System}
      → Inv values n s
      → (s' : System) × (run order ts s ≡ some s') × Inv values n s'
  unfolding run
  run-Inv [] {s} inv = (s, refl, inv)
  run-Inv ((t, i) ∷ ts) {s} inv =
      let (s', stepped, inv') = step-Inv t i inv in rw stepped (run-Inv ts inv')

pub start-Inv :
    (memory values : List Value) (n : ℕ)
    → length memory ≡ ring_buffer_size
    → length values ≤ int_max
    → Inv values n (start memory values n)
start-Inv memory values n e few = record {
  few = few;
  valid = omega arith;
  read_seen = omega arith;
  write_seen = omega arith;
  read_le_seen = omega arith;
  producer_agrees = tt;
  consumer_agrees = tt;
  in_order = refl;
  pushes = omega arith;
  counted = omega arith;
}

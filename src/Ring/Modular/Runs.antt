-- ===== src/Ring/Modular/Runs.antt =====
-- Every schedule of the two threads of the modular ring is defined and keeps the invariant.
use low_latency_experiments.Common.{ℕ, ◌≡◌, refl, List, [], ◌∷◌, some, arith, length}
use low_latency_experiments.Ring.Window.{Value}
use low_latency_experiments.Ring.Memory.{ring_buffer_size}
use low_latency_experiments.Ring.Modular.Threads.{System, Thread, writer, reader, step, run, start}
use low_latency_experiments.Ring.Modular.Invariant.{Inv}
use low_latency_experiments.Ring.Modular.Pushing.{produce-Inv}
use low_latency_experiments.Ring.Modular.Popping.{consume-Inv}

module _ {values : List Value} {n : ℕ} where
  -- One step of either thread is defined and keeps the invariant.
  pub step-Inv :
      (t : Thread) {s : System}
      → Inv values n s
      → (s' : System) × (step t s ≡ some s') × Inv values n s'
  unfolding step
  step-Inv writer {s} inv = produce-Inv s.producer s.todo inv
  step-Inv reader {s} inv = consume-Inv s.consumer s.pops inv

  -- So does any schedule.
  pub run-Inv :
      (ts : List Thread) {s : System}
      → Inv values n s
      → (s' : System) × (run ts s ≡ some s') × Inv values n s'
  unfolding run
  run-Inv [] {s} inv = (s, refl, inv)
  run-Inv (t ∷ ts) {s} inv =
      let (s', stepped, inv') = step-Inv t inv in rw stepped (run-Inv ts inv')

pub start-Inv :
    (memory values : List Value) (n : ℕ)
    → length memory ≡ ring_buffer_size
    → Inv values n (start memory values n)
start-Inv memory values n e = record {
  valid = omega arith;
  producer_agrees = tt;
  consumer_agrees = tt;
  in_order = refl;
  counted = omega arith;
}

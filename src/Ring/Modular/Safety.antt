-- ===== src/Ring/Modular/Safety.antt =====
-- What holds in every interleaving of the two threads of the modular ring.
use low_latency_experiments.Common.{
  ℕ, ◌<◌, ◌≡◌, ◌≢◌, sym, ◌∙◌, List, ◌++◌, some, arith, length, subst, prefix-whole,
}
use low_latency_experiments.Ring.Window.{Value}
use low_latency_experiments.Ring.Memory.{ring_buffer_size}
use low_latency_experiments.Ring.Modular.{stored, contents}
use low_latency_experiments.Ring.Modular.Calls.{empty_iff}
use low_latency_experiments.Ring.Modular.Threads.{Producer, Consumer, System, Thread, run, start}
use low_latency_experiments.Ring.Modular.Invariant.{Inv, in_hand}
use low_latency_experiments.Ring.Modular.Runs.{run-Inv, start-Inv}

module _ (memory values : List Value) (n : ℕ) (new : length memory ≡ ring_buffer_size) where
  -- From a new ring, on every schedule no step is undefined, and the values popped, those in the
  -- ring, the one of the push under way and those still to be pushed make up the values of the
  -- pushing thread, in order.
  pub run_in_order :
      (ts : List Thread)
      → (s : System) × (run ts (start memory values n) ≡ some s)
        × (s.got ++ (contents s.ring ++ (in_hand s.producer ++ s.todo)) ≡ values)
  run_in_order ts =
      let (s, ran, inv) = run-Inv ts (start-Inv memory values n new) in (s, ran, inv.in_order)

  reached :
      (ts : List Thread) {s : System} → run ts (start memory values n) ≡ some s → Inv values n s
  reached ts {s} e =
      let (s', ran, inv) = run-Inv ts (start-Inv memory values n new) in
      let same : s' ≡ s = cc ran in subst (Inv values n) same inv

  -- From a new ring, on every schedule: whenever one thread is about to write a cell and the other
  -- to read one, the cells differ, and both lie in the buffer.
  pub no_race :
      (ts : List Thread) {s : System} {val : Value} {tail next head : ℕ}
      → run ts (start memory values n) ≡ some s
      → s.producer ≡ Producer.storing val tail next
      → s.consumer ≡ Consumer.loading head
      → (tail ≢ head) × (tail < length s.ring.buffer) × (head < length s.ring.buffer)
  no_race ts {s} {val} {tail} {next} {head} e p c =
      let inv = reached ts e in
      let pushing = rw p at inv.producer_agrees in
      let popping = rw c at inv.consumer_agrees in
      (
        λ same. apart inv (popping.1) (sym pushing.0 ∙ same ∙ popping.0),
        omega (arith, inv.valid, pushing.0),
        omega (arith, inv.valid, popping.0),
      )
    where
      apart : Inv values n s → 0 < stored s.ring → s.ring.write ≢ s.ring.read
      apart inv some_stored f = omega (arith, (empty_iff inv.valid).0 (sym f))

  -- From a new ring, on every schedule: when as many pops have returned as there were values, they
  -- have returned exactly these values, in order.
  pub all_received :
      (ts : List Thread) {s : System}
      → n ≡ length values
      → run ts (start memory values n) ≡ some s
      → s.consumer ≡ Consumer.between
      → s.pops ≡ 0
      → s.got ≡ values
  all_received ts {s} e ran c k =
      let inv = reached ts ran in
      let counted = rw (c, k) at inv.counted in
      prefix-whole s.got _ values inv.in_order (omega (arith, counted))

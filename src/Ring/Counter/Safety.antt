-- ===== src/Ring/Counter/Safety.antt =====
-- What holds in every interleaving of the two threads of the ring with counters.
use low_latency_experiments.Common.{
  ℕ, ◌+◌, ◌-◌, ◌%◌, ◌≤◌, ◌≡◌, ◌≢◌, sym, ap, ◌∙◌, subst, List, ◌++◌, some, arith, length,
  prefix-whole,
}
use low_latency_experiments.Common.Int.{int_max}
use low_latency_experiments.Ring.Window.{Value, add-mod-ne}
use low_latency_experiments.Ring.Memory.{ring_buffer_size}
use low_latency_experiments.Ring.Counter.{contents}
use low_latency_experiments.Ring.Counter.Order.{MemoryOrder}
use low_latency_experiments.Ring.Counter.Threads.{Producer, Consumer, System, Thread, run, start}
use low_latency_experiments.Ring.Counter.Invariant.{Inv, in_hand}
use low_latency_experiments.Ring.Counter.Runs.{run-Inv, start-Inv}

module _ (order : MemoryOrder) (memory values : List Value) (n : ℕ)
    (new : length memory ≡ ring_buffer_size) (few : length values ≤ int_max) where
  -- From a new ring, with at most 2 ^ 31 - 1 values to push, under any memory order in which a load
  -- synchronises with the stores that it counts: on every schedule no step is undefined, so that no
  -- access to the buffer races with one of the other thread, and the values popped, those in the ring,
  -- the one of the push under way and those still to be pushed make up the values of the pushing
  -- thread, in order.
  pub counter_run_in_order :
      (ts : List (Thread × ℕ))
      → (s : System) × (run order ts (start memory values n) ≡ some s)
        × (s.got ++ (contents s.ring ++ (in_hand s.producer ++ s.todo)) ≡ values)
  counter_run_in_order ts =
      let (s, ran, inv) = run-Inv order ts (start-Inv memory values n new few) in
      (s, ran, inv.in_order)

  reached :
      (ts : List (Thread × ℕ)) {s : System}
      → run order ts (start memory values n) ≡ some s
      → Inv values n s
  reached ts {s} e =
      let (s', ran, inv) = run-Inv order ts (start-Inv memory values n new few) in
      let same : s' ≡ s = cc ran in subst (Inv values n) same inv

  -- From a new ring, with at most 2 ^ 31 - 1 values to push, under any memory order and on every
  -- schedule: whenever one thread is about to write a cell and the other to read one, the cells differ.
  pub counter_no_race :
      (ts : List (Thread × ℕ)) {s : System} {val : Value} {tail next head : ℕ}
      → run order ts (start memory values n) ≡ some s
      → s.producer ≡ Producer.storing val tail next
      → s.consumer ≡ Consumer.loading head
      → tail % s.ring.size ≢ head % s.ring.size
  counter_no_race ts {s} {val} {tail} {next} {head} e p c =
      let inv = reached ts e in
      let pushing = rw p at inv.producer_agrees in
      let popping = rw c at inv.consumer_agrees in
      let apart : tail ≡ head + (tail - head) = omega (arith, pushing, popping, inv.write_seen) in
      λ same.
        add-mod-ne s.ring.size head (tail - head) (omega (arith, pushing, popping, inv.write_seen))
          (omega (arith, pushing, popping, inv.read_seen))
          (ap (λ k. k % s.ring.size) (sym apart) ∙ same)

  -- From a new ring, with at most 2 ^ 31 - 1 values to push, under any memory order and on every
  -- schedule: when as many pops have returned as there were values, they have returned exactly
  -- these values, in order.
  pub counter_all_received :
      (ts : List (Thread × ℕ)) {s : System}
      → n ≡ length values
      → run order ts (start memory values n) ≡ some s
      → s.consumer ≡ Consumer.between
      → s.pops ≡ 0
      → s.got ≡ values
  counter_all_received ts {s} e ran c k =
      let inv = reached ts ran in
      let counted = rw (c, k) at inv.counted in
      prefix-whole s.got _ values inv.in_order (omega (arith, counted))

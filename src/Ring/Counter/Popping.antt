-- ===== src/Ring/Counter/Popping.antt =====
-- The steps of the popping thread of the ring with counters.
use low_latency_experiments.Common.{
  lt→ltb, ℕ, zero, suc, ◌%◌, ◌≤◌, ◌≡◌, refl, List, [], ◌∷◌, some, arith, append_assoc,
  length-append, ℕ_discrete,
}
use low_latency_experiments.Ring.Window.{Value}
use low_latency_experiments.Ring.Memory.{load-in}
use low_latency_experiments.Ring.Counter.{Ring}
use low_latency_experiments.Ring.Counter.Order.{MemoryOrder}
use low_latency_experiments.Ring.Counter.Calls.{increment_lem, read_in, contents-popped}
use low_latency_experiments.Ring.Counter.Threads.{Producer, Consumer, System, consume}
use low_latency_experiments.Ring.Counter.Invariant.{Inv, system}
use low_latency_experiments.Ring.Counter.Frames.{ProducerAgrees-popped}

module _ (order : MemoryOrder) {values : List Value} {n : ℕ} where
  pub consume-Inv :
      (c : Consumer) (k i : ℕ) {r : Ring} {p : Producer} {vs : List Value} {sr sw : ℕ}
      {got : List Value}
      → Inv values n (system r p vs sr c k sw got)
      → (s' : System) × (consume order c k i (system r p vs sr c k sw got) ≡ some s')
        × Inv values n s'
  unfolding consume
  consume-Inv Consumer.between zero i inv = (_, refl, inv)
  consume-Inv Consumer.between (suc k) i inv = (
    _,
    refl,
    record {
      few = inv.few;
      valid = inv.valid;
      read_seen = inv.read_seen;
      write_seen = inv.write_seen;
      read_le_seen = inv.read_le_seen;
      producer_agrees = inv.producer_agrees;
      consumer_agrees = tt;
      in_order = inv.in_order;
      pushes = inv.pushes;
      counted = omega arith;
    },
  )
  consume-Inv Consumer.trying k i inv = (
    _,
    refl,
    record {
      few = inv.few;
      valid = inv.valid;
      read_seen = inv.read_seen;
      write_seen = inv.write_seen;
      read_le_seen = inv.read_le_seen;
      producer_agrees = inv.producer_agrees;
      consumer_agrees = refl;
      in_order = inv.in_order;
      pushes = inv.pushes;
      counted = inv.counted;
    },
  )
  consume-Inv (Consumer.testing head) k i {r} {p} {vs} {sr} {sw} {got} inv =
      elim (ℕ_discrete head write) [
        | yes e ↦ (
          system r p vs sr Consumer.trying k write got,
          ground arith,
          record {
            few = inv.few;
            valid = inv.valid;
            read_seen = inv.read_seen;
            write_seen = not_newer;
            read_le_seen = omega arith;
            producer_agrees = inv.producer_agrees;
            consumer_agrees = tt;
            in_order = inv.in_order;
            pushes = inv.pushes;
            counted = inv.counted;
          },
        )
        | no ne ↦ (
          system r p vs sr (Consumer.loading head) k write got,
          ground arith,
          record {
            few = inv.few;
            valid = inv.valid;
            read_seen = inv.read_seen;
            write_seen = not_newer;
            read_le_seen = omega arith;
            producer_agrees = inv.producer_agrees;
            consumer_agrees = (inv.consumer_agrees, omega (arith, not_older));
            in_order = inv.in_order;
            pushes = inv.pushes;
            counted = inv.counted;
          },
        )
      ]
    where
      write : ℕ
      write = order.observe sw r.write i

      not_newer : write ≤ r.write
      not_newer = order.not_newer sw r.write i inv.write_seen

      not_older : sw ≤ write
      not_older = order.not_older sw r.write i inv.write_seen
  consume-Inv (Consumer.loading head) k i {r} {sw = sw} inv =
      rw
        (
          inv.consumer_agrees.0,
          order.synchronises sw,
          lt→ltb _ _ inv.consumer_agrees.1,
          load-in r.buffer (r.read % r.size) (read_in inv.valid),
        )
        (
          _,
          refl,
          record {
            few = inv.few;
            valid = inv.valid;
            read_seen = inv.read_seen;
            write_seen = inv.write_seen;
            read_le_seen = inv.read_le_seen;
            producer_agrees = inv.producer_agrees;
            consumer_agrees = (refl, inv.consumer_agrees.1, refl);
            in_order = inv.in_order;
            pushes = inv.pushes;
            counted = inv.counted;
          },
        )
  consume-Inv (Consumer.releasing head v) k i {r} {p} {vs} {sr} {sw} {got} inv =
      rw (inv.consumer_agrees.0, increment_lem r.read (omega arith))
        (
          _,
          refl,
          record {
            few = inv.few;
            valid = omega arith;
            read_seen = omega arith;
            write_seen = inv.write_seen;
            read_le_seen = omega arith;
            producer_agrees = ProducerAgrees-popped _ p inv.valid inv.producer_agrees;
            consumer_agrees = tt;
            in_order = rw append_assoc (
                rw (contents-popped inv.valid (omega arith), inv.consumer_agrees.2) at
                  inv.in_order);
            pushes = inv.pushes;
            counted = omega (arith, length-append got (v ∷ []));
          },
        )

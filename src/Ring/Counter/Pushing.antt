-- ===== src/Ring/Counter/Pushing.antt =====
-- The steps of the pushing thread of the ring with counters.
use low_latency_experiments.Common.{
  lt→ltb, ℕ, ◌%◌, ◌≤◌, ◌≡◌, refl, List, [], ◌∷◌, some, arith, append_assoc, get_or-set_self,
  length-set, Bool-cases, inl, inr,
}
use low_latency_experiments.Common.Int.{pos}
use low_latency_experiments.Ring.Window.{Value}
use low_latency_experiments.Ring.Memory.{store-in}
use low_latency_experiments.Ring.Counter.{Ring, has_room}
use low_latency_experiments.Ring.Counter.Order.{MemoryOrder}
use low_latency_experiments.Ring.Counter.Calls.{
  increment_lem, write_in, contents-written, contents-advanced,
}
use low_latency_experiments.Ring.Counter.Threads.{Producer, Consumer, System, produce}
use low_latency_experiments.Ring.Counter.Invariant.{Inv, system}
use low_latency_experiments.Ring.Counter.Frames.{ConsumerAgrees-written, ConsumerAgrees-advanced}

module _ (order : MemoryOrder) {values : List Value} {n : ℕ} where
  pub produce-Inv :
      (p : Producer) (vs : List Value) (i : ℕ) {r : Ring} {sr : ℕ} {c : Consumer} {k sw : ℕ}
      {got : List Value}
      → Inv values n (system r p vs sr c k sw got)
      → (s' : System) × (produce order p vs i (system r p vs sr c k sw got) ≡ some s')
        × Inv values n s'
  unfolding produce
  produce-Inv Producer.between [] i inv = (_, refl, inv)
  produce-Inv Producer.between (v ∷ vs) i inv = (
    _,
    refl,
    record {
      few = inv.few;
      valid = inv.valid;
      read_seen = inv.read_seen;
      write_seen = inv.write_seen;
      read_le_seen = inv.read_le_seen;
      producer_agrees = tt;
      consumer_agrees = inv.consumer_agrees;
      in_order = inv.in_order;
      pushes = inv.pushes;
      counted = inv.counted;
    },
  )
  produce-Inv (Producer.trying v) vs i {r} inv = rw (increment_lem r.write (omega arith)) (
    _,
    refl,
    record {
      few = inv.few;
      valid = inv.valid;
      read_seen = inv.read_seen;
      write_seen = inv.write_seen;
      read_le_seen = inv.read_le_seen;
      producer_agrees = (refl, refl);
      consumer_agrees = inv.consumer_agrees;
      in_order = inv.in_order;
      pushes = inv.pushes;
      counted = inv.counted;
    },
  )
  produce-Inv (Producer.testing v tail next) vs i {r} {sr} {c} {k} {sw} {got} inv =
      elim (Bool-cases (has_room r.size tail read)) [
        | inl room ↦ rw room (
          _,
          refl,
          record {
            few = inv.few;
            valid = inv.valid;
            read_seen = not_newer;
            write_seen = inv.write_seen;
            read_le_seen = inv.read_le_seen;
            producer_agrees = (inv.producer_agrees.0, inv.producer_agrees.1, grind arith);
            consumer_agrees = inv.consumer_agrees;
            in_order = inv.in_order;
            pushes = inv.pushes;
            counted = inv.counted;
          },
        )
        | inr full ↦ rw full (
          _,
          refl,
          record {
            few = inv.few;
            valid = inv.valid;
            read_seen = not_newer;
            write_seen = inv.write_seen;
            read_le_seen = inv.read_le_seen;
            producer_agrees = tt;
            consumer_agrees = inv.consumer_agrees;
            in_order = inv.in_order;
            pushes = inv.pushes;
            counted = inv.counted;
          },
        )
      ]
    where
      read : ℕ
      read = order.observe sr r.read i

      not_newer : read ≤ r.read
      not_newer = order.not_newer sr r.read i inv.read_seen
  produce-Inv (Producer.storing v tail next) vs i {r} {sr} {c} inv =
      rw
        (
          inv.producer_agrees.0,
          order.synchronises sr,
          lt→ltb _ _ inv.producer_agrees.2,
          store-in r.buffer (r.write % r.size) v (write_in inv.valid),
        )
        (
          _,
          refl,
          record {
            few = inv.few;
            valid = omega (arith, length-set r.buffer (r.write % r.size) v);
            read_seen = inv.read_seen;
            write_seen = inv.write_seen;
            read_le_seen = inv.read_le_seen;
            producer_agrees = (
              inv.producer_agrees.1,
              inv.producer_agrees.2,
              get_or-set_self r.buffer (r.write % r.size) v (pos 0) (write_in inv.valid),
            );
            consumer_agrees =
                ConsumerAgrees-written c v inv.valid (omega arith) inv.write_seen
                  inv.consumer_agrees;
            in_order = rw (contents-written inv.valid v (omega arith)) inv.in_order;
            pushes = inv.pushes;
            counted = inv.counted;
          },
        )
  produce-Inv (Producer.publishing v next) vs i {r} {sr} {c} inv = rw inv.producer_agrees.0 (
    _,
    refl,
    record {
      few = inv.few;
      valid = omega arith;
      read_seen = inv.read_seen;
      write_seen = omega arith;
      read_le_seen = inv.read_le_seen;
      producer_agrees = tt;
      consumer_agrees = ConsumerAgrees-advanced _ c inv.valid inv.consumer_agrees;
      in_order = rw (contents-advanced inv.valid, inv.producer_agrees.2, append_assoc) inv.in_order;
      pushes = omega arith;
      counted = inv.counted;
    },
  )

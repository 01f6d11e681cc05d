-- ===== src/Ring/Modular/Pushing.antt =====
-- The steps of the pushing thread of the modular ring.
use low_latency_experiments.Common.{
  ℕ, ◌≡◌, refl, ◌∙◌, List, [], ◌∷◌, some, arith, append_assoc, get_or-set_self, length-set,
  ℕ_discrete,
}
use low_latency_experiments.Ring.Window.{Value}
use low_latency_experiments.Ring.Memory.{store-in}
use low_latency_experiments.Ring.Modular.{Ring}
use low_latency_experiments.Ring.Modular.Calls.{
  increment_lem, contents-written, contents-advanced, next-lt, room_of_ne,
}
use low_latency_experiments.Ring.Modular.Threads.{Producer, Consumer, System, produce}
use low_latency_experiments.Common.Int.{pos}
use low_latency_experiments.Ring.Modular.Invariant.{Inv, system}
use low_latency_experiments.Ring.Modular.Frames.{ConsumerAgrees-written, ConsumerAgrees-advanced}

module _ {values : List Value} {n : ℕ} where
  pub produce-Inv :
      (p : Producer) (vs : List Value) {r : Ring} {c : Consumer} {k : ℕ} {got : List Value}
      → Inv values n (system r p vs c k got)
      → (s' : System) × (produce p vs (system r p vs c k got) ≡ some s') × Inv values n s'
  unfolding produce
  produce-Inv Producer.between [] inv = (_, refl, inv)
  produce-Inv Producer.between (v ∷ vs) inv = (
    _,
    refl,
    record {
      valid = inv.valid;
      producer_agrees = tt;
      consumer_agrees = inv.consumer_agrees;
      in_order = inv.in_order;
      counted = inv.counted;
    },
  )
  produce-Inv (Producer.trying v) vs {r} inv =
      rw (increment_lem inv.valid r.write inv.valid.write_in) (
        _,
        refl,
        record {
          valid = inv.valid;
          producer_agrees = (refl, refl);
          consumer_agrees = inv.consumer_agrees;
          in_order = inv.in_order;
          counted = inv.counted;
        },
      )
  produce-Inv (Producer.testing v tail next) vs {r} {c} {k} {got} inv =
      elim (ℕ_discrete next r.read) [
        | yes e ↦ (
          system r (Producer.trying v) vs c k got,
          ground arith,
          record {
            valid = inv.valid;
            producer_agrees = tt;
            consumer_agrees = inv.consumer_agrees;
            in_order = inv.in_order;
            counted = inv.counted;
          },
        )
        | no ne ↦ (
          system r (Producer.storing v tail next) vs c k got,
          ground arith,
          record {
            valid = inv.valid;
            producer_agrees = (
              inv.producer_agrees.0,
              inv.producer_agrees.1,
              room_of_ne inv.valid (λ e. ne (inv.producer_agrees.1 ∙ e)),
            );
            consumer_agrees = inv.consumer_agrees;
            in_order = inv.in_order;
            counted = inv.counted;
          },
        )
      ]
  produce-Inv (Producer.storing v tail next) vs {r} {c} {k} {got} inv =
      rw (inv.producer_agrees.0, store-in r.buffer r.write v (omega arith))
        (
          _,
          refl,
          record {
            valid = omega (arith, length-set r.buffer r.write v);
            producer_agrees = (
              inv.producer_agrees.1,
              inv.producer_agrees.2,
              get_or-set_self r.buffer r.write v (pos 0) (omega arith),
            );
            consumer_agrees = ConsumerAgrees-written c v inv.valid inv.consumer_agrees;
            in_order = rw (contents-written inv.valid v) inv.in_order;
            counted = inv.counted;
          },
        )
  produce-Inv (Producer.publishing v next) vs {r} {c} {k} {got} inv = rw inv.producer_agrees.0 (
    _,
    refl,
    record {
      valid = omega (arith, next-lt inv.valid r.write);
      producer_agrees = tt;
      consumer_agrees =
          ConsumerAgrees-advanced c inv.valid inv.producer_agrees.1 inv.consumer_agrees;
      in_order =
          rw
            (contents-advanced inv.valid inv.producer_agrees.1, inv.producer_agrees.2, append_assoc)
            inv.in_order;
      counted = inv.counted;
    },
  )

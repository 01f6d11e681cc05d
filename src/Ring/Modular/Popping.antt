-- ===== src/Ring/Modular/Popping.antt =====
-- The steps of the popping thread of the modular ring.
use low_latency_experiments.Common.{
  ℕ, zero, suc, ◌≡◌, refl, ◌∙◌, List, [], ◌∷◌, some, arith, append_assoc, length-append, ℕ_discrete,
}
use low_latency_experiments.Ring.Window.{Value}
use low_latency_experiments.Ring.Memory.{load-in}
use low_latency_experiments.Ring.Modular.{Ring}
use low_latency_experiments.Ring.Modular.Calls.{
  increment_lem, contents-popped, next-lt, stored_pos_of_ne,
}
use low_latency_experiments.Ring.Modular.Threads.{Producer, Consumer, System, consume}
use low_latency_experiments.Ring.Modular.Invariant.{Inv, system}
use low_latency_experiments.Ring.Modular.Frames.{ProducerAgrees-popped}

module _ {values : List Value} {n : ℕ} where
  pub consume-Inv :
      (c : Consumer) (k : ℕ) {r : Ring} {p : Producer} {vs got : List Value}
      → Inv values n (system r p vs c k got)
      → (s' : System) × (consume c k (system r p vs c k got) ≡ some s') × Inv values n s'
  unfolding consume
  consume-Inv Consumer.between zero inv = (_, refl, inv)
  consume-Inv Consumer.between (suc k) inv = (
    _,
    refl,
    record {
      valid = inv.valid;
      producer_agrees = inv.producer_agrees;
      consumer_agrees = tt;
      in_order = inv.in_order;
      counted = omega arith;
    },
  )
  consume-Inv Consumer.trying k inv = (
    _,
    refl,
    record {
      valid = inv.valid;
      producer_agrees = inv.producer_agrees;
      consumer_agrees = refl;
      in_order = inv.in_order;
      counted = inv.counted;
    },
  )
  consume-Inv (Consumer.testing head) k {r} {p} {vs} {got} inv = elim (ℕ_discrete head r.write) [
    | yes e ↦ (
      system r p vs Consumer.trying k got,
      ground arith,
      record {
        valid = inv.valid;
        producer_agrees = inv.producer_agrees;
        consumer_agrees = tt;
        in_order = inv.in_order;
        counted = inv.counted;
      },
    )
    | no ne ↦ (
      system r p vs (Consumer.loading head) k got,
      ground arith,
      record {
        valid = inv.valid;
        producer_agrees = inv.producer_agrees;
        consumer_agrees =
            (inv.consumer_agrees, stored_pos_of_ne inv.valid (λ e. ne (inv.consumer_agrees ∙ e)));
        in_order = inv.in_order;
        counted = inv.counted;
      },
    )
  ]
  consume-Inv (Consumer.loading head) k {r} inv =
      rw (inv.consumer_agrees.0, load-in r.buffer r.read (omega arith))
        (
          _,
          refl,
          record {
            valid = inv.valid;
            producer_agrees = inv.producer_agrees;
            consumer_agrees = (refl, inv.consumer_agrees.1, refl);
            in_order = inv.in_order;
            counted = inv.counted;
          },
        )
  consume-Inv (Consumer.releasing head v) k {r} {p} {vs} {got} inv =
      rw (inv.consumer_agrees.0, increment_lem inv.valid r.read inv.valid.read_in)
        (
          _,
          refl,
          record {
            valid = omega (arith, next-lt inv.valid r.read);
            producer_agrees =
                ProducerAgrees-popped p inv.valid inv.consumer_agrees.1 inv.producer_agrees;
            consumer_agrees = tt;
            in_order = rw (append_assoc) (
                rw (contents-popped inv.valid inv.consumer_agrees.1, inv.consumer_agrees.2) at
                  inv.in_order);
            counted = omega (arith, length-append got (v ∷ []));
          },
        )

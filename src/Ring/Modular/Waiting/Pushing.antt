-- ===== src/Ring/Modular/Waiting/Pushing.antt =====
-- What each access of the pushing thread of the modular ring does to what both threads have still to do.
use low_latency_experiments.Common.{ℕ, ◌≡◌, refl, List, [], ◌∷◌, some, arith, ℕ_discrete, ◌∙◌, sym}
use low_latency_experiments.Common.Int.{pos}
use low_latency_experiments.Ring.Window.{Value}
use low_latency_experiments.Ring.Retry.{waits-le, waits_pos, waits_zero, waits_same}
use low_latency_experiments.Ring.Memory.{store-in}
use low_latency_experiments.Ring.Modular.{Ring}
use low_latency_experiments.Ring.Modular.Calls.{increment_lem, full_iff, stored-pushed, room_of_ne}
use low_latency_experiments.Ring.Modular.Threads.{Producer, Consumer, System, produce}
use low_latency_experiments.Ring.Modular.Invariant.{Inv, system}
use low_latency_experiments.Ring.Modular.Weights.{room}
use low_latency_experiments.Ring.Modular.Waiting.{Wrote}

module _ {values : List Value} {n : ℕ} where
  pub produce-Wrote :
      (p : Producer) (vs : List Value) {r : Ring} {c : Consumer} {k : ℕ} {got : List Value}
      → Inv values n (system r p vs c k got)
      → (s' : System) × (produce p vs (system r p vs c k got) ≡ some s')
        × Wrote (system r p vs c k got) s'
  unfolding produce
  produce-Wrote Producer.between [] inv = (
    _,
    refl,
    record {
      consumer_kept = refl;
      pops_kept = refl;
      more = omega arith;
      no_more_left = omega arith;
      brought_on = λ h. absurd (omega arith);
    },
  )
  produce-Wrote (Producer.between) (v ∷ vs) {r} inv = (
    _,
    refl,
    record {
      consumer_kept = refl;
      pops_kept = refl;
      more = omega arith;
      no_more_left = omega (arith, waits-le (room r) 4);
      brought_on = λ h. omega (arith, waits-le (room r) 4);
    },
  )
  produce-Wrote (Producer.trying v) vs {r} inv =
      rw (increment_lem inv.valid r.write inv.valid.write_in) (
        _,
        refl,
        record {
          consumer_kept = refl;
          pops_kept = refl;
          more = omega arith;
          no_more_left = omega (arith, waits_same (room r) 3 4);
          brought_on = λ h. omega (arith, waits_pos (room r) 3, waits_pos (room r) 4);
        },
      )
  produce-Wrote (Producer.testing v tail next) vs {r} {c} {k} {got} inv =
      elim (ℕ_discrete next r.read) [
        | yes e ↦
            let full = (full_iff inv.valid).0 (sym inv.producer_agrees.1 ∙ e) in
            (
              system r (Producer.trying v) vs c k got,
              ground arith,
              record {
                consumer_kept = refl;
                pops_kept = refl;
                more = omega arith;
                no_more_left = omega (
                  arith,
                  waits_zero (room r) 3 (omega arith),
                  waits_zero (room r) 4 (omega arith),
                );
                brought_on = λ h. absurd (omega (arith, full));
              },
            )
        | no ne ↦
            let free = room_of_ne inv.valid (λ e. ne (inv.producer_agrees.1 ∙ e)) in
            let counts = waits_pos (room r) 3 (omega (arith, free)) in
            (
              system r (Producer.storing v tail next) vs c k got,
              ground arith,
              record {
                consumer_kept = refl;
                pops_kept = refl;
                more = omega arith;
                no_more_left = omega (arith, counts);
                brought_on = λ h. omega (arith, counts);
              },
            )
      ]
  produce-Wrote (Producer.storing v tail next) vs {r} inv =
      rw (inv.producer_agrees.0, store-in r.buffer r.write v (omega arith))
        (
          _,
          refl,
          record {
            consumer_kept = refl;
            pops_kept = refl;
            more = omega arith;
            no_more_left = omega arith;
            brought_on = λ h. omega arith;
          },
        )
  produce-Wrote (Producer.publishing v next) vs {r} inv = rw inv.producer_agrees.0 (
    _,
    refl,
    record {
      consumer_kept = refl;
      pops_kept = refl;
      more = omega (arith, stored-pushed inv.valid (pos 0) inv.producer_agrees.1);
      no_more_left = omega arith;
      brought_on = λ h. omega arith;
    },
  )

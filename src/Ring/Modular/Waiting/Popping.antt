-- ===== src/Ring/Modular/Waiting/Popping.antt =====
-- What each access of the popping thread of the modular ring does to what both threads have still to do.
use low_latency_experiments.Common.{
  ℕ, zero, suc, ◌≡◌, refl, List, some, arith, ℕ_discrete, ◌∙◌, sym,
}
use low_latency_experiments.Ring.Window.{Value}
use low_latency_experiments.Ring.Retry.{waits-le, waits_pos, waits_zero, waits_same}
use low_latency_experiments.Ring.Memory.{load-in}
use low_latency_experiments.Ring.Modular.{Ring, stored}
use low_latency_experiments.Ring.Modular.Calls.{
  increment_lem, empty_iff, stored-popped, stored_pos_of_ne,
}
use low_latency_experiments.Ring.Modular.Threads.{Producer, Consumer, System, consume}
use low_latency_experiments.Ring.Modular.Invariant.{Inv, system}
use low_latency_experiments.Ring.Modular.Waiting.{Read}

module _ {values : List Value} {n : ℕ} where
  pub consume-Read :
      (c : Consumer) (k : ℕ) {r : Ring} {p : Producer} {vs got : List Value}
      → Inv values n (system r p vs c k got)
      → (s' : System) × (consume c k (system r p vs c k got) ≡ some s')
        × Read (system r p vs c k got) s'
  unfolding consume
  consume-Read Consumer.between zero inv = (
    _,
    refl,
    record {
      producer_kept = refl;
      todo_kept = refl;
      more = omega arith;
      no_more_left = omega arith;
      brought_on = λ h. absurd (omega arith);
    },
  )
  consume-Read Consumer.between (suc k) {r} inv = (
    _,
    refl,
    record {
      producer_kept = refl;
      todo_kept = refl;
      more = omega arith;
      no_more_left = omega (arith, waits-le (stored r) 4);
      brought_on = λ h. omega (arith, waits-le (stored r) 4);
    },
  )
  consume-Read Consumer.trying k {r} inv = (
    _,
    refl,
    record {
      producer_kept = refl;
      todo_kept = refl;
      more = omega arith;
      no_more_left = omega (arith, waits_same (stored r) 3 4);
      brought_on = λ h. omega (arith, waits_pos (stored r) 3, waits_pos (stored r) 4);
    },
  )
  consume-Read (Consumer.testing head) k {r} {p} {vs} {got} inv = elim (ℕ_discrete head r.write) [
    | yes e ↦
        let empty = (empty_iff inv.valid).0 (sym inv.consumer_agrees ∙ e) in
        (
          system r p vs Consumer.trying k got,
          ground arith,
          record {
            producer_kept = refl;
            todo_kept = refl;
            more = omega arith;
            no_more_left =
                omega (arith, waits_zero (stored r) 3 empty, waits_zero (stored r) 4 empty);
            brought_on = λ h. absurd (omega (arith, empty));
          },
        )
    | no ne ↦
        let some_stored = stored_pos_of_ne inv.valid (λ e. ne (inv.consumer_agrees ∙ e)) in
        let counts = waits_pos (stored r) 3 some_stored in
        (
          system r p vs (Consumer.loading head) k got,
          ground arith,
          record {
            producer_kept = refl;
            todo_kept = refl;
            more = omega arith;
            no_more_left = omega (arith, counts);
            brought_on = λ h. omega (arith, counts);
          },
        )
  ]
  consume-Read (Consumer.loading head) k {r} inv =
      rw (inv.consumer_agrees.0, load-in r.buffer r.read (omega arith))
        (
          _,
          refl,
          record {
            producer_kept = refl;
            todo_kept = refl;
            more = omega arith;
            no_more_left = omega arith;
            brought_on = λ h. omega arith;
          },
        )
  consume-Read (Consumer.releasing head v) k {r} inv =
      rw (inv.consumer_agrees.0, increment_lem inv.valid r.read inv.valid.read_in)
        (
          _,
          refl,
          record {
            producer_kept = refl;
            todo_kept = refl;
            more = omega (arith, stored-popped inv.valid inv.consumer_agrees.1);
            no_more_left = omega arith;
            brought_on = λ h. omega arith;
          },
        )

-- ===== src/Ring/Counter/Waiting/Pushing.antt =====
-- What each access of the pushing thread of the ring with counters does to what both threads have still to do.
use low_latency_experiments.Common.{
  lt→ltb, ℕ, ◌+◌, ◌%◌, ◌≤◌, ◌<◌, ◌≡◌, ◌⊎◌, inl, inr, refl, List, [], ◌∷◌, true, false, some, arith,
  dec_lt, Bool-cases,
}
use low_latency_experiments.Ring.Window.{Value}
use low_latency_experiments.Ring.Retry.{waits-le, waits_pos, waits_zero, waits_same}
use low_latency_experiments.Ring.Memory.{store-in}
use low_latency_experiments.Ring.Counter.{Ring, has_room}
use low_latency_experiments.Ring.Counter.Order.{MemoryOrder}
use low_latency_experiments.Ring.Counter.Calls.{increment_lem, write_in}
use low_latency_experiments.Ring.Counter.Threads.{Producer, Consumer, System, produce}
use low_latency_experiments.Ring.Counter.Invariant.{Inv, system}
use low_latency_experiments.Ring.Counter.Weights.{room}
use low_latency_experiments.Ring.Counter.Waiting.{CatchesUp, Wrote}

module _ (order : MemoryOrder) {values : List Value} {n : ℕ} where
  pub produce-Wrote :
      CatchesUp order
      → (p : Producer) (vs : List Value) (i : ℕ) {r : Ring} {sr : ℕ} {c : Consumer} {k sw : ℕ}
        {got : List Value}
      → Inv values n (system r p vs sr c k sw got)
      → r.write ≤ sr + r.size
      → (s' : System) × (produce order p vs i (system r p vs sr c k sw got) ≡ some s')
        × Wrote (system r p vs sr c k sw got) s'
  unfolding produce
  produce-Wrote catches Producer.between [] i inv tight = (
    _,
    refl,
    record {
      consumer_kept = refl;
      pops_kept = refl;
      tight = tight;
      more = omega arith;
      no_more_left = omega arith;
      brought_on = λ h. absurd (omega arith);
    },
  )
  produce-Wrote catches Producer.between (v ∷ vs) i {r} inv tight = (
    _,
    refl,
    record {
      consumer_kept = refl;
      pops_kept = refl;
      tight = tight;
      more = omega arith;
      no_more_left = omega (arith, waits-le (room r) 4);
      brought_on = λ h. omega (arith, waits-le (room r) 4);
    },
  )
  produce-Wrote catches (Producer.trying v) vs i {r} inv tight =
      rw (increment_lem r.write (omega arith)) (
        _,
        refl,
        record {
          consumer_kept = refl;
          pops_kept = refl;
          tight = tight;
          more = omega arith;
          no_more_left = omega (arith, waits_same (room r) 3 4);
          brought_on = λ h. omega (arith, waits_pos (room r) 3, waits_pos (room r) 4);
        },
      )
  produce-Wrote catches (Producer.testing v tail next) vs i {r} {sr} {c} {k} {sw} {got} inv tight =
      elim (Bool-cases (has_room r.size tail read)) [
        | inr full ↦
            let none_left : room r ≡ 0 = is_full full in
            rw full (
              _,
              refl,
              record {
                consumer_kept = refl;
                pops_kept = refl;
                tight = omega (arith, not_older, tight);
                more = omega arith;
                no_more_left =
                    omega (arith, waits_zero (room r) 3 none_left, waits_zero (room r) 4 none_left);
                brought_on = λ h. absurd (omega (arith, none_left));
              },
            )
        | inl free ↦
            let counts = waits_pos (room r) 3 (has_space free) in
            rw free (
              _,
              refl,
              record {
                consumer_kept = refl;
                pops_kept = refl;
                tight = omega (arith, not_older, tight);
                more = omega arith;
                no_more_left = omega (arith, counts);
                brought_on = λ h. omega (arith, counts);
              },
            )
      ]
    where
      read : ℕ
      read = order.observe sr r.read i

      not_older : sr ≤ read
      not_older = order.not_older sr r.read i inv.read_seen

      not_newer : read ≤ r.read
      not_newer = order.not_newer sr r.read i inv.read_seen

      has_space : has_room r.size tail read ≡ true → 0 < room r
      has_space free = ground (arith, inv.producer_agrees.0, not_newer, inv.valid.positive)

      behind : (sr ≡ r.read) ⊎ (sr < read)
      behind = elim (dec_lt sr r.read) [
        | yes lt ↦ inr (catches sr r.read i lt)
        | no ge ↦ inl (omega (arith, inv.read_seen))
      ]

      is_full : has_room r.size tail read ≡ false → room r ≡ 0
      is_full full =
          ground
            (arith, inv.producer_agrees.0, behind, not_older, not_newer, tight, inv.valid.positive)
  produce-Wrote catches (Producer.storing v tail next) vs i {r} {sr} inv tight =
      rw
        (
          inv.producer_agrees.0,
          order.synchronises sr,
          lt→ltb _ _ inv.producer_agrees.2,
          store-in r.buffer (r.write % r.size) v (write_in inv.valid),
        )
        (
          _,
          refl,
          record {
            consumer_kept = refl;
            pops_kept = refl;
            tight = tight;
            more = omega arith;
            no_more_left = omega arith;
            brought_on = λ h. omega arith;
          },
        )
  produce-Wrote catches (Producer.publishing v next) vs i {r} inv tight = rw inv.producer_agrees.0 (
    _,
    refl,
    record {
      consumer_kept = refl;
      pops_kept = refl;
      tight = omega (arith, inv.producer_agrees.1);
      more = omega arith;
      no_more_left = omega arith;
      brought_on = λ h. omega arith;
    },
  )

-- ===== src/Ring/Counter/Waiting/Popping.antt =====
-- What each access of the popping thread of the ring with counters does to what both threads have still to do.
use low_latency_experiments.Common.{
  lt→ltb, ℕ, zero, suc, ◌+◌, ◌%◌, ◌≤◌, ◌<◌, ◌≡◌, ◌≢◌, ◌⊎◌, inl, inr, refl, List, some, arith,
  ℕ_discrete, dec_lt,
}
use low_latency_experiments.Ring.Window.{Value}
use low_latency_experiments.Ring.Retry.{waits-le, waits_pos, waits_zero, waits_same}
use low_latency_experiments.Ring.Memory.{load-in}
use low_latency_experiments.Ring.Counter.{Ring, stored}
use low_latency_experiments.Ring.Counter.Order.{MemoryOrder}
use low_latency_experiments.Ring.Counter.Calls.{increment_lem, read_in}
use low_latency_experiments.Ring.Counter.Threads.{Producer, Consumer, System, consume}
use low_latency_experiments.Ring.Counter.Invariant.{Inv, system}
use low_latency_experiments.Ring.Counter.Waiting.{CatchesUp, Read}

module _ (order : MemoryOrder) {values : List Value} {n : ℕ} where
  pub consume-Read :
      CatchesUp order
      → (c : Consumer) (k i : ℕ) {r : Ring} {p : Producer} {vs : List Value} {sr sw : ℕ}
        {got : List Value}
      → Inv values n (system r p vs sr c k sw got)
      → r.write ≤ sr + r.size
      → (s' : System) × (consume order c k i (system r p vs sr c k sw got) ≡ some s')
        × Read (system r p vs sr c k sw got) s'
  unfolding consume
  consume-Read catches Consumer.between zero i inv tight = (
    _,
    refl,
    record {
      producer_kept = refl;
      todo_kept = refl;
      tight = tight;
      more = omega arith;
      no_more_left = omega arith;
      brought_on = λ h. absurd (omega arith);
    },
  )
  consume-Read catches Consumer.between (suc k) i {r} inv tight = (
    _,
    refl,
    record {
      producer_kept = refl;
      todo_kept = refl;
      tight = tight;
      more = omega arith;
      no_more_left = omega (arith, waits-le (stored r) 4);
      brought_on = λ h. omega (arith, waits-le (stored r) 4);
    },
  )
  consume-Read catches Consumer.trying k i {r} inv tight = (
    _,
    refl,
    record {
      producer_kept = refl;
      todo_kept = refl;
      tight = tight;
      more = omega arith;
      no_more_left = omega (arith, waits_same (stored r) 3 4);
      brought_on = λ h. omega (arith, waits_pos (stored r) 3, waits_pos (stored r) 4);
    },
  )
  consume-Read catches (Consumer.testing head) k i {r} {p} {vs} {sr} {sw} {got} inv tight =
      elim (ℕ_discrete head write) [
        | yes e ↦
            let empty : stored r ≡ 0 = is_empty e in
            (
              system r p vs sr Consumer.trying k write got,
              ground arith,
              record {
                producer_kept = refl;
                todo_kept = refl;
                tight = tight;
                more = omega arith;
                no_more_left =
                    omega (arith, waits_zero (stored r) 3 empty, waits_zero (stored r) 4 empty);
                brought_on = λ h. absurd (omega (arith, empty));
              },
            )
        | no ne ↦
            let counts = waits_pos (stored r) 3 (not_empty ne) in
            (
              system r p vs sr (Consumer.loading head) k write got,
              ground arith,
              record {
                producer_kept = refl;
                todo_kept = refl;
                tight = tight;
                more = omega arith;
                no_more_left = omega (arith, counts);
                brought_on = λ h. omega (arith, counts);
              },
            )
      ]
    where
      write : ℕ
      write = order.observe sw r.write i

      not_older : sw ≤ write
      not_older = order.not_older sw r.write i inv.write_seen

      not_newer : write ≤ r.write
      not_newer = order.not_newer sw r.write i inv.write_seen

      behind : (sw ≡ r.write) ⊎ (sw < write)
      behind = elim (dec_lt sw r.write) [
        | yes lt ↦ inr (catches sw r.write i lt)
        | no ge ↦ inl (omega (arith, inv.write_seen))
      ]

      is_empty : head ≡ write → stored r ≡ 0
      is_empty e =
          omega (arith, inv.consumer_agrees, inv.read_le_seen, behind, not_older, not_newer)

      not_empty : head ≢ write → 0 < stored r
      not_empty ne = elim (dec_lt 0 (stored r)) [
        | yes lt ↦ lt
        | no z ↦ absurd (
            ne (
              omega (
                arith, inv.consumer_agrees, inv.read_le_seen, not_older, not_newer,
                inv.valid.behind,
              )))
      ]
  consume-Read catches (Consumer.loading head) k i {r} {sw = sw} inv tight =
      rw
        (
          inv.consumer_agrees.0,
          order.synchronises sw,
          lt→ltb _ _ inv.consumer_agrees.1,
          load-in r.buffer (r.read % r.size) (read_in inv.valid),
        )
        (
          _,
          refl,
          record {
            producer_kept = refl;
            todo_kept = refl;
            tight = tight;
            more = omega arith;
            no_more_left = omega arith;
            brought_on = λ h. omega arith;
          },
        )
  consume-Read catches (Consumer.releasing head v) k i {r} inv tight =
      rw (inv.consumer_agrees.0, increment_lem r.read (omega arith))
        (
          _,
          refl,
          record {
            producer_kept = refl;
            todo_kept = refl;
            tight = tight;
            more = omega arith;
            no_more_left = omega arith;
            brought_on = λ h. omega arith;
          },
        )

-- ===== src/Ring/Counter/Bounded.antt =====
-- One call of the ring with counters, run alone, against the bounded queue.
use low_latency_experiments.Common.{
  ◌<◌, ◌≡◌, refl, ap, Bool, Option, true, false, none, some, arith, lt→ltb, length, dec_lt, [],
  eq-nil_of_length, length-set, ◌%◌, ◌≤◌,
}
use low_latency_experiments.Common.Int.{int_max}
use low_latency_experiments.Ring.Window.{Value, length-window}
use low_latency_experiments.Ring.Queue.{bounded_push, bounded_pop}
use low_latency_experiments.Ring.Counter.{Ring, try_push, try_pop, stored, contents}
use low_latency_experiments.Ring.Counter.Calls.{
  IsValid, pushed, popped, try_push-full, try_push-room, try_pop-empty, try_pop-some,
  contents-pushed, contents-popped,
}

module _ {r : Ring} (ok : IsValid r) where
  length-contents : length (contents r) ≡ stored r
  length-contents = length-window r.buffer r.size r.read (stored r)

  -- On a valid ring whose counter of pushes is below the largest `int`, `try_push` is defined and does
  -- what a queue of at most `size` values does: it appends its value, or returns false on a full ring
  -- and changes nothing. The ring stays valid.
  pub counter_try_push-bounded :
      (v : Value)
      → r.write < int_max
      → (b : Bool) × (r' : Ring) × (try_push r v ≡ some (b, r'))
        × ((b, contents r') ≡ bounded_push r.size (contents r) v)
        × IsValid r'
  counter_try_push-bounded v lt = elim (dec_lt (stored r) r.size) [
    | yes room ↦ (
      true,
      pushed ok v,
      try_push-room ok v lt room,
      rw (length-contents, lt→ltb (stored r) r.size room)
          (ap (λ q. (true, q)) (contents-pushed ok v room)),
      omega (arith, length-set r.buffer (r.write % r.size) v),
    )
    | no full ↦
        (false, r, try_push-full ok v lt (omega arith), rw length-contents (ground arith), ok)
  ]

  -- On a valid ring whose counter of pushes is at most the largest `int`, `try_pop` is defined and does
  -- what a queue does: it takes the first value, or returns false on an empty ring and changes
  -- nothing. The ring stays valid.
  pub counter_try_pop-bounded :
      r.write ≤ int_max
      → (o : Option Value) × (r' : Ring) × (try_pop r ≡ some (o, r'))
        × ((o, contents r') ≡ bounded_pop (contents r))
        × IsValid r'
  counter_try_pop-bounded le = elim (dec_lt 0 (stored r)) [
    | yes p ↦
        (_, popped ok, try_pop-some ok (omega arith) p, rw (contents-popped ok p) refl, omega arith)
    | no empty ↦
        let nothing : contents r ≡ [] =
          eq-nil_of_length (contents r) (omega (arith, length-contents)) in
        (none, r, try_pop-empty ok (omega arith), rw nothing refl, ok)
  ]

-- ===== src/Ring/Modular/Bounded.antt =====
-- One call of the modular ring, run alone, against the bounded queue.
use low_latency_experiments.Common.{
  ◌-◌, ◌≡◌, refl, ap, Bool, Option, true, false, none, some, arith, lt→ltb, length, dec_lt, [],
  eq-nil_of_length,
}
use low_latency_experiments.Ring.Window.{Value, length-window}
use low_latency_experiments.Ring.Queue.{bounded_push, bounded_pop}
use low_latency_experiments.Ring.Modular.{Ring, try_push, try_pop, stored, contents}
use low_latency_experiments.Ring.Modular.Calls.{
  IsValid, stored-lt, pushed, popped, try_push-full, try_push-room, try_pop-empty, try_pop-some,
  pushed-IsValid, popped-IsValid, contents-pushed, contents-popped,
}

module _ {r : Ring} (ok : IsValid r) where
  length-contents : length (contents r) ≡ stored r
  length-contents = length-window r.buffer r.size r.read (stored r)

  -- On a valid ring `try_push` is defined and does what a queue of at most `size - 1` values does: it
  -- appends its value, or returns false on a full ring and changes nothing. The ring stays valid.
  pub try_push-bounded :
      (v : Value)
      → (b : Bool) × (r' : Ring) × (try_push r v ≡ some (b, r'))
        × ((b, contents r') ≡ bounded_push (r.size - 1) (contents r) v)
        × IsValid r'
  try_push-bounded v = elim (dec_lt (stored r) (r.size - 1)) [
    | yes room ↦ (
      true,
      pushed ok v,
      try_push-room ok v room,
      rw (length-contents, lt→ltb (stored r) (r.size - 1) room)
          (ap (λ q. (true, q)) (contents-pushed ok v room)),
      pushed-IsValid ok v,
    )
    | no full ↦ (
      false,
      r,
      try_push-full ok v (omega (arith, stored-lt ok)),
      rw length-contents (ground arith),
      ok,
    )
  ]

  -- On a valid ring `try_pop` is defined and does what a queue does: it takes the first value, or
  -- returns false on an empty ring and changes nothing. The ring stays valid.
  pub try_pop-bounded :
      (o : Option Value) × (r' : Ring) × (try_pop r ≡ some (o, r'))
      × ((o, contents r') ≡ bounded_pop (contents r))
      × IsValid r'
  try_pop-bounded = elim (dec_lt 0 (stored r)) [
    | yes p ↦ (_, popped ok, try_pop-some ok p, rw (contents-popped ok p) refl, popped-IsValid ok)
    | no empty ↦
        let nothing : contents r ≡ [] =
          eq-nil_of_length (contents r) (omega (arith, length-contents)) in
        (none, r, try_pop-empty ok (omega arith), rw nothing refl, ok)
  ]

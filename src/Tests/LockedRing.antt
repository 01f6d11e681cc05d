-- ===== src/Tests/LockedRing.antt =====
-- The locked ring at concrete inputs.
use low_latency_experiments.Common.{◌+◌, ◌%◌, ◌≡◌, refl, [], ◌∷◌, some, arith}
use low_latency_experiments.Common.Int.{pos}
use low_latency_experiments.Ring.Window.{cell}
use low_latency_experiments.Ring.Memory.{store, load}
use low_latency_experiments.Ring.Queue.{push, pop, replies, rest}
use low_latency_experiments.Ring.Locked
use low_latency_experiments.Ring.Locked.{Ring, run}
use low_latency_experiments.Ring.Locked.Refine.{IsValid, contents, pushed, popped, run_refines}
use low_latency_experiments.Ring.Locked.Overrun.{push-full-pop, pop-empty-push}

-- A full ring of two cells.
abbrev full_ring : Ring
full_ring = record { write = 3; read = 1; size = 2; buffer = pos 6 ∷ pos 5 ∷ [] }

full_ring-IsValid : IsValid full_ring
full_ring-IsValid = omega arith

abbrev empty_ring : Ring
empty_ring = record { write = 3; read = 3; size = 2; buffer = pos 6 ∷ pos 5 ∷ [] }

empty_ring-IsValid : IsValid empty_ring
empty_ring-IsValid = omega arith

run_refines_example :
    (r' : Ring) × (run full_ring (pop ∷ push (pos 7) ∷ pop ∷ [])
      ≡ some (replies (contents full_ring) (pop ∷ push (pos 7) ∷ pop ∷ []), r'))
    × (contents r' ≡ rest (contents full_ring) (pop ∷ push (pos 7) ∷ pop ∷ []))
run_refines_example =
    run_refines (pop ∷ push (pos 7) ∷ pop ∷ []) full_ring-IsValid
      (omega arith, (omega arith, (omega arith, tt))) (omega arith)

push-full-pop_example :
    run full_ring (push (pos 7) ∷ pop ∷ []) ≡ some (pos 7 ∷ [], popped (pushed full_ring (pos 7)))
push-full-pop_example = push-full-pop (pos 7) full_ring-IsValid (omega arith) (omega arith)

pop-empty-push_example :
    run empty_ring (pop ∷ push (pos 7) ∷ pop ∷ [])
    ≡ some (
      cell empty_ring.buffer (3 % 2) ∷ cell empty_ring.buffer ((3 + 1) % 2) ∷ [],
      popped (pushed (popped empty_ring) (pos 7)),
    )
pop-empty-push_example =
    pop-empty-push (pos 7) empty_ring-IsValid (omega arith) (omega arith) (omega arith)
      (omega arith)

-- The value 7 is passed over: the second pop returns the stale 6.
stale_run :
    run empty_ring (pop ∷ push (pos 7) ∷ pop ∷ [])
    ≡ some
        (pos 5 ∷ pos 6 ∷ [], record { write = 4; read = 5; size = 2; buffer = pos 6 ∷ pos 7 ∷ [] })
unfolding run Locked.push Locked.pop store load
stale_run = refl

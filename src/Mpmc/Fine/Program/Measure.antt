-- ===== src/Mpmc/Fine/Program/Measure.antt =====
-- Every step of fine_grained_queue.cpp takes at least one of the steps that are left.
use low_latency_experiments.Common.{ℕ, suc, ◌+◌, ◌-◌, ◌*◌, ◌≤◌, ◌<◌, ◌≡◌, refl, ap, arith}
use low_latency_experiments.Common.Threads.{tally, tally-assign, tally_same}
use low_latency_experiments.Mpmc.Heap.{Ptr}
use low_latency_experiments.Mpmc.Fine.Threads.{Pc, System, Step}
use low_latency_experiments.Mpmc.Fine.Threads
use low_latency_experiments.Mpmc.Fine.Threads.Labels.{
  label, mover, target, pc-mover, call_left, call_left-target, brought,
}
use low_latency_experiments.Mpmc.Fine.Program.{
  Loop, not_created, before_barrier, at_barrier, round, Main, creating, joining, returned, Program,
  ProgramStep, RunsFor, launch,
}
use low_latency_experiments.Mpmc.Fine.Program
use low_latency_experiments.Mpmc.Fine.Program.Invariant.{threads, Inv, mover_in, run-Inv}

module _ (writers readers iterations : ℕ) where
  -- Six for each call that is still to be started.
  abbrev loop_left : Loop → ℕ
  loop_left not_created = 6 * iterations + 3
  loop_left before_barrier = 6 * iterations + 2
  loop_left at_barrier = 6 * iterations + 1
  loop_left (round i) = 6 * (iterations - i)

  abbrev main_left : Main → ℕ
  main_left (creating i) = threads writers readers iterations + 2
  main_left (joining i) = threads writers readers iterations - i + 1
  main_left returned = 0

  abbrev pub steps_left : Program → ℕ
  steps_left p =
      tally loop_left (threads writers readers iterations) p.loop
      + tally call_left (threads writers readers iterations) p.system.pc
      + main_left p.main

  call-tally :
      {s t : System ℕ} (st : Step s t)
      → mover st < threads writers readers iterations
      → tally call_left (threads writers readers iterations) t.pc
        < tally call_left (threads writers readers iterations) s.pc + brought (label st)
  call-tally {s} {t} st lt = omega (
    arith,
    ap (tally call_left (threads writers readers iterations)) (pc-mover st),
    tally-assign call_left (threads writers readers iterations) (mover st) s.pc (target st) lt,
    call_left-target st,
  )

  step-steps_left :
      {dummy : Ptr} {p q : Program}
      → ProgramStep writers readers iterations p q
      → Inv writers readers iterations dummy p
      → steps_left q < steps_left p
  step-steps_left {dummy} {p} (Program.create_thread i m lt) inv = omega (
    arith,
    tally-assign loop_left (threads writers readers iterations) i p.loop before_barrier lt,
    ap loop_left (inv.unmade i (ground (arith, m))),
    ap main_left m,
  )
  step-steps_left (Program.all_created m) inv = omega (arith, ap main_left m)
  step-steps_left {dummy} {p} (Program.arrive i lt e) inv = omega (
    arith,
    tally-assign loop_left (threads writers readers iterations) i p.loop at_barrier lt,
    ap loop_left e,
  )
  step-steps_left {dummy} {p} (Program.leave_barrier i lt e f) inv = omega (
    arith,
    tally-assign loop_left (threads writers readers iterations) i p.loop (round 0) lt,
    ap loop_left e,
  )
  step-steps_left {dummy} {p} (Program.write i st w e lt l) inv = omega (
    arith,
    tally-assign loop_left (threads writers readers iterations) (mover st) p.loop (round (suc i))
        (omega arith),
    ap loop_left e,
    call-tally st (omega arith),
    ap brought l,
  )
  step-steps_left {dummy} {p} (Program.read i st w w' e lt l) inv = omega (
    arith,
    tally-assign loop_left (threads writers readers iterations) (mover st) p.loop (round (suc i))
        w',
    ap loop_left e,
    call-tally st w',
    ap brought l,
  )
  step-steps_left (Program.call_goes_on st l) inv =
      omega
        (arith, call-tally st (mover_in writers readers iterations st inv.quiet l), ap brought l)
  step-steps_left (Program.join_thread i m lt e o) inv = omega (arith, ap main_left m)
  step-steps_left (Program.return_main m) inv = omega (arith, ap main_left m)

  abbrev pub most_steps : ℕ
  most_steps = (writers + readers) * (6 * iterations + 4) + 2

  launch-steps_left :
      (dummy : Ptr) → steps_left (launch writers readers iterations dummy) ≡ most_steps
  launch-steps_left dummy = omega (
    arith,
    tally_same loop_left (threads writers readers iterations) (6 * iterations + 3)
        (λ i. not_created) (λ i lt. refl),
    tally_same call_left (threads writers readers iterations) 0 (Threads.start ℕ dummy).pc
        (λ i lt. refl),
  )

  -- After `k` steps there are `k` fewer to take.
  pub run-steps_left :
      {dummy : Ptr} {k : ℕ} {p : Program}
      → RunsFor writers readers iterations dummy k p
      → k + steps_left p ≤ most_steps
  run-steps_left {dummy} Program.launched = omega (arith, launch-steps_left dummy)
  run-steps_left (Program.stepped r st) =
      omega (arith, run-steps_left r, step-steps_left st (run-Inv writers readers iterations r))

-- ===== src/Mpmc/Fine/Program/Finishing.antt =====
-- fine_grained_queue.cpp always ends: it takes a bounded number of steps, and is never stuck before.
use low_latency_experiments.Common.{
  ℕ, suc, ◌+◌, ◌≤◌, ◌<◌, ◌≡◌, ◌≢◌, ◌⊎◌, inl, inr, refl, ap, ◌∙◌, arith, dec_lt, Option-cases,
}
use low_latency_experiments.Common.Threads.{tally, tally_same, tally_none, thread_of_tally}
use low_latency_experiments.Mpmc.Heap.{Ptr}
use low_latency_experiments.Mpmc.Fine.Threads.{Pc, outside, Step}
use low_latency_experiments.Mpmc.Fine.Threads.Invariant.{holds_head}
use low_latency_experiments.Mpmc.Fine.Threads.Labels.{call_left}
use low_latency_experiments.Mpmc.Fine.Threads.Holding.{Reach-Held, free_from}
use low_latency_experiments.Mpmc.Fine.Threads.Deadlock.{in_call-GoesOn}
use low_latency_experiments.Mpmc.Fine.Program.{
  Loop, not_created, before_barrier, at_barrier, round, Main, creating, joining, returned, Program,
  ProgramStep, RunsFor,
}
use low_latency_experiments.Mpmc.Fine.Program.Invariant.{came, rounds_done, Inv, run-Inv}
use low_latency_experiments.Mpmc.Fine.Program.Measure.{most_steps, run-steps_left}

-- Before the barrier, and in it.
abbrev early : Loop → ℕ
early before_barrier = 1
early _ = 0

abbrev held_back : Loop → ℕ
held_back at_barrier = 1
held_back _ = 0

early_loop : (l : Loop) → 0 < early l → l ≡ before_barrier
early_loop before_barrier lt = refl
early_loop _ lt = absurd (omega arith)

held_back_loop : (l : Loop) → 0 < held_back l → l ≡ at_barrier
held_back_loop at_barrier lt = refl
held_back_loop _ lt = absurd (omega arith)

came_loop : (l : Loop) → l ≢ not_created → early l ≡ 0 → came l ≡ 1
came_loop not_created ne e = absurd (ne refl)
came_loop before_barrier ne e = absurd (omega arith)
came_loop at_barrier ne e = refl
came_loop (round i) ne e = refl

round_loop : (l : Loop) → came l ≡ 1 → held_back l ≡ 0 → (i : ℕ) × (l ≡ round i)
round_loop not_created e f = absurd (omega arith)
round_loop before_barrier e f = absurd (omega arith)
round_loop at_barrier e f = absurd (omega arith)
round_loop (round i) e f = (i, refl)

outside_of : {V : Type 0} (p : Pc V) → call_left p ≡ 0 → p ≡ outside
outside_of outside e = refl
outside_of _ e = absurd (omega arith)

module _ (writers readers iterations : ℕ) where
  abbrev pub Moves : Program → Type 0
  Moves p = (q : Program) × ProgramStep writers readers iterations p q

  module _ {dummy : Ptr} {p : Program} (inv : Inv writers readers iterations dummy p) where
    -- A thread outside the calls, while no other is in one, starts its next or can be joined.
    next-Moves :
        (k i : ℕ)
        → p.main ≡ joining k
        → k < writers + readers
        → p.loop k ≡ round i
        → ((j : ℕ) → p.system.pc j ≡ outside)
        → Moves p
    next-Moves k i m lt e out = elim (dec_lt i iterations) [
      | no over ↦
          let last : i ≡ iterations = omega (arith, inv.rounds k, ap rounds_done e) in
          (_, ProgramStep.join_thread k m lt (e ∙ ap round last) (out k))
      | yes more ↦ elim (dec_lt k writers) [
        | yes writes ↦
            let (b, free) = free_from inv.reach in
            let nothing = free (suc b) (omega arith) in
            (
              _,
              ProgramStep.write i (Step.create_node k (suc b) i (out k) (λ f. omega arith) nothing)
                  writes e more refl,
            )
        | no reads ↦ elim (Option-cases p.system.head_owner) [
          | inl free ↦
              (_, ProgramStep.read i (Step.lock_head k (out k) free) (omega arith) lt e more refl)
          | inr (j, o) ↦ absurd (cc ((Reach-Held inv.reach).by_head j o, ap holds_head (out j)))
        ]
      ]
    ]

    joining-Moves : (k : ℕ) → p.main ≡ joining k → k < writers + readers → Moves p
    joining-Moves k m lt = elim (dec_lt 0 (tally early (writers + readers) p.loop)) [
      | yes some_early ↦
          let (i, below, w) = thread_of_tally early (writers + readers) p.loop some_early in
          (_, ProgramStep.arrive i below (early_loop (p.loop i) w))
      | no none_early ↦
          let all_came : (i : ℕ) → i < writers + readers → came (p.loop i) ≡ 1 = (λ i below.
            came_loop (p.loop i) (inv.made i (ground (arith, m)))
              (tally_none early (writers + readers) i p.loop (omega arith) below)) in
          elim (dec_lt 0 (tally held_back (writers + readers) p.loop)) [
            | yes some_held ↦
                let (i, below, w) =
                  thread_of_tally held_back (writers + readers) p.loop some_held in
                let full : p.arrived ≡ writers + readers =
                  omega
                    (arith, inv.arrivals, tally_same came (writers + readers) 1 p.loop all_came) in
                (_, ProgramStep.leave_barrier i below (held_back_loop (p.loop i) w) full)
            | no none_held ↦ elim (dec_lt 0 (tally call_left (writers + readers) p.system.pc)) [
              | yes some_call ↦
                  let (i, below, w) =
                    thread_of_tally call_left (writers + readers) p.system.pc some_call in
                  let (t, st, l) =
                    in_call-GoesOn inv.reach i (λ f. omega (arith, w, ap call_left f)) in
                  (_, ProgramStep.call_goes_on st l)
              | no none_calls ↦
                  let (i, e) =
                    round_loop (p.loop k) (all_came k lt)
                      (tally_none held_back (writers + readers) k p.loop (omega arith) lt) in
                  next-Moves k i m lt e (λ j. elim (dec_lt j (writers + readers)) [
                    | yes below ↦
                        outside_of (p.system.pc j) (
                          tally_none call_left (writers + readers) j p.system.pc (omega arith)
                            below)
                    | no above ↦ outside_of (p.system.pc j) (inv.quiet j (omega arith))
                  ])
            ]
          ]
    ]

    by_main : (m : Main) → p.main ≡ m → (p.main ≡ returned) ⊎ Moves p
    by_main returned m = inl m
    by_main (creating i) m = elim (dec_lt i (writers + readers)) [
      | yes lt ↦ inr (_, ProgramStep.create_thread i m lt)
      | no ge ↦
          let all : i ≡ writers + readers = ground (arith, inv.in_range, m) in
          inr (_, ProgramStep.all_created (m ∙ ap creating all))
    ]
    by_main (joining k) m = elim (dec_lt k (writers + readers)) [
      | yes lt ↦ inr (joining-Moves k m lt)
      | no ge ↦
          let all : k ≡ writers + readers = ground (arith, inv.in_range, m) in
          inr (_, ProgramStep.return_main (m ∙ ap joining all))
    ]

  -- However the threads take turns, the program ends: it takes at most
  -- `(writers + readers) * (6 * iterations + 4) + 2` steps, and after any of them either `main` has
  -- returned, and every thread has finished its rounds and is in no call, or another step is possible.
  pub program_ends :
      {dummy : Ptr} {k : ℕ} {p : Program}
      → RunsFor writers readers iterations dummy k p
      → (k ≤ most_steps writers readers iterations)
        × (((p.main ≡ returned)
              × ((i : ℕ)
                  → i < writers + readers
                  → (p.loop i ≡ round iterations) × (p.system.pc i ≡ outside)))
            ⊎ Moves p)
  program_ends {dummy} {k} {p} r =
      let inv = run-Inv writers readers iterations r in
      (
        omega (arith, run-steps_left writers readers iterations r),
        elim (by_main inv p.main refl) [
          | inl done ↦ inl (done, λ i lt. inv.ended i (ground (arith, done)))
          | inr moves ↦ inr moves
        ],
      )

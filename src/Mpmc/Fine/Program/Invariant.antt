-- ===== src/Mpmc/Fine/Program/Invariant.antt =====
-- What every step of fine_grained_queue.cpp keeps.
use low_latency_experiments.Common.{
  ℕ, suc, ◌+◌, ◌≤◌, ◌<◌, ◌≡◌, ◌≢◌, refl, sym, ap, ◌∙◌, subst, arith, dec_lt,
}
use low_latency_experiments.Common.Threads.{
  assign, assign_other, tally, tally-assign, tally_same, tally_most,
}
use low_latency_experiments.Mpmc.Heap.{Ptr}
use low_latency_experiments.Mpmc.Fine.Threads.{Pc, outside, System, Step, Reach}
use low_latency_experiments.Mpmc.Fine.Threads
use low_latency_experiments.Mpmc.Fine.Threads.Labels.{
  goes_on, label, mover, call_left, call_left-target, brought, pc_other,
}
use low_latency_experiments.Mpmc.Fine.Program.{
  Loop, not_created, before_barrier, at_barrier, round, Main, creating, joining, returned, Program,
  ProgramStep, RunsFor, launch,
}
use low_latency_experiments.Mpmc.Fine.Program

-- Has called `pthread_barrier_wait`.
abbrev pub came : Loop → ℕ
came at_barrier = 1
came (round i) = 1
came _ = 0

abbrev pub rounds_done : Loop → ℕ
rounds_done (round i) = i
rounds_done _ = 0

-- Has left the barrier.
abbrev pub HasStarted : Loop → Type 0
HasStarted (round i) = Unit {0}
HasStarted _ = ⊥

abbrev pub created : ℕ → Main → ℕ
created n (creating i) = i
created n _ = n

abbrev pub joined : ℕ → Main → ℕ
joined n (creating i) = 0
joined n (joining i) = i
joined n returned = n

module _ (writers readers iterations : ℕ) where
  abbrev pub threads : ℕ
  threads = writers + readers

  pub record Inv (dummy : Ptr) (p : Program) : Type 0 where
    pub reach : Reach dummy p.system
    pub quiet : (i : ℕ) → threads ≤ i → call_left (p.system.pc i) ≡ 0
    pub in_range : (created threads p.main ≤ threads) × (joined threads p.main ≤ threads)
    pub made : (i : ℕ) → i < created threads p.main → p.loop i ≢ not_created
    pub unmade : (i : ℕ) → created threads p.main ≤ i → p.loop i ≡ not_created
    pub arrivals : p.arrived ≡ tally came threads p.loop
    pub together : (i : ℕ) → HasStarted (p.loop i) → p.arrived ≡ threads
    pub rounds : (i : ℕ) → rounds_done (p.loop i) ≤ iterations
    pub ended :
        (i : ℕ)
        → i < joined threads p.main
        → (p.loop i ≡ round iterations) × (p.system.pc i ≡ outside)

  launch-Inv : (dummy : Ptr) → Inv dummy (launch writers readers iterations dummy)
  launch-Inv dummy = record {
    reach = Threads.here;
    quiet = λ i le. refl;
    in_range = omega arith;
    made = λ i lt. absurd (omega arith);
    unmade = λ i le. refl;
    arrivals = omega (arith, tally_same came threads 0 (λ i. not_created) (λ i lt. refl));
    together = λ i h. absurd h;
    rounds = λ i. omega arith;
    ended = λ i lt. absurd (omega arith);
  }

  module _ {s t : System ℕ} (st : Step s t)
      (quiet : (i : ℕ) → threads ≤ i → call_left (s.pc i) ≡ 0) where
    -- Only threads of the program are in a call.
    pub mover_in : label st ≡ goes_on → mover st < threads
    mover_in l = elim (dec_lt (mover st) threads) [
      | yes lt ↦ lt
      | no above ↦
          absurd (omega (arith, call_left-target st, ap brought l, quiet (mover st) (omega arith)))
    ]

    quiet-step : mover st < threads → (j : ℕ) → threads ≤ j → call_left (t.pc j) ≡ 0
    quiet-step lt j le = ap call_left (pc_other st j (λ e. omega arith)) ∙ quiet j le

    moves_on : label st ≡ goes_on → s.pc (mover st) ≢ outside
    moves_on l out = omega (arith, call_left-target st, ap brought l, ap call_left out)

  came_most : (l : Loop) → came l ≤ 1
  came_most not_created = omega arith
  came_most before_barrier = omega arith
  came_most at_barrier = omega arith
  came_most (round i) = omega arith

  -- A thread starts the call of its next round.
  next_round :
      {dummy : Ptr} {p : Program} {t : System ℕ} (st : Step p.system t) (i : ℕ)
      → mover st < threads
      → p.loop (mover st) ≡ round i
      → i < iterations
      → Inv dummy p
      → Inv dummy (record p { system = t; loop = assign p.loop (mover st) (round (suc i)) })
  next_round {dummy} {p} {t} st i w e lt inv = record {
    reach = Threads.later inv.reach st;
    quiet = quiet-step st inv.quiet w;
    in_range = inv.in_range;
    made = λ j below. ground (arith, inv.made j);
    unmade = λ j above. ground (arith, inv.unmade j, e);
    arrivals = omega (
      arith,
      inv.arrivals,
      tally-assign came threads (mover st) p.loop (round (suc i)) w,
      ap came e,
    );
    together = λ j h. inv.together (mover st) (subst HasStarted (sym e) tt);
    rounds = λ j. ground (arith, inv.rounds j);
    ended = λ j below. elsewhere j (inv.ended j below);
  }
    where
      elsewhere :
          (j : ℕ)
          → (p.loop j ≡ round iterations) × (p.system.pc j ≡ outside)
          → (assign p.loop (mover st) (round (suc i)) j ≡ round iterations) × (t.pc j ≡ outside)
      elsewhere j (done, out) =
          let other : j ≢ mover st =
            (λ f. omega (arith, ap rounds_done (sym (ap p.loop f ∙ e) ∙ done))) in
          (assign_other p.loop (mover st) (round (suc i)) j other ∙ done, pc_other st j other ∙ out)

  step-Inv :
      {dummy : Ptr} {p q : Program}
      → ProgramStep writers readers iterations p q
      → Inv dummy p
      → Inv dummy q
  step-Inv {dummy} {p} (Program.create_thread i m lt) inv = record {
    reach = inv.reach;
    quiet = inv.quiet;
    in_range = omega arith;
    made = λ j below. ground (arith, inv.made j, m);
    unmade = λ j above. ground (arith, inv.unmade j, m);
    arrivals = omega (
      arith,
      inv.arrivals,
      tally-assign came threads i p.loop before_barrier lt,
      ap came (inv.unmade i (ground (arith, m))),
    );
    together = λ j h. ground (arith, inv.together j);
    rounds = λ j. ground (arith, inv.rounds j);
    ended = λ j below. absurd (omega arith);
  }
  step-Inv {dummy} {p} (Program.all_created m) inv = record {
    reach = inv.reach;
    quiet = inv.quiet;
    in_range = omega arith;
    made = λ j below. ground (arith, inv.made j, m);
    unmade = λ j above. ground (arith, inv.unmade j, m);
    arrivals = inv.arrivals;
    together = inv.together;
    rounds = inv.rounds;
    ended = λ j below. absurd (omega arith);
  }
  step-Inv {dummy} {p} (Program.arrive i lt e) inv = record {
    reach = inv.reach;
    quiet = inv.quiet;
    in_range = inv.in_range;
    made = λ j below. ground (arith, inv.made j);
    unmade = λ j above. ground (arith, inv.unmade j, e);
    arrivals =
        omega (arith, inv.arrivals, tally-assign came threads i p.loop at_barrier lt, ap came e);
    together = λ j h. absurd (last_to_come j h);
    rounds = λ j. ground (arith, inv.rounds j);
    ended = λ j below. ground (arith, inv.ended j below, e);
  }
    where
      last_to_come : (j : ℕ) → HasStarted (assign p.loop i at_barrier j) → ⊥
      last_to_come j h = omega (
        arith,
        inv.arrivals,
        all_came j h,
        tally-assign came threads i p.loop at_barrier lt,
        ap came e,
        tally_most came threads 1 (assign p.loop i at_barrier) came-le,
      )
        where
          all_came : (j : ℕ) → HasStarted (assign p.loop i at_barrier j) → p.arrived ≡ threads
          all_came j h = ground (arith, inv.together j)

          came-le : (j : ℕ) → came (assign p.loop i at_barrier j) ≤ 1
          came-le j = came_most (assign p.loop i at_barrier j)
  step-Inv {dummy} {p} (Program.leave_barrier i lt e f) inv = record {
    reach = inv.reach;
    quiet = inv.quiet;
    in_range = inv.in_range;
    made = λ j below. ground (arith, inv.made j);
    unmade = λ j above. ground (arith, inv.unmade j, e);
    arrivals =
        omega (arith, inv.arrivals, tally-assign came threads i p.loop (round 0) lt, ap came e);
    together = λ j h. f;
    rounds = λ j. ground (arith, inv.rounds j);
    ended = λ j below. ground (arith, inv.ended j below, e);
  }
  step-Inv {dummy} {p} (Program.write i {t} st w e lt l) inv =
      next_round st i (omega arith) e lt inv
  step-Inv {dummy} {p} (Program.read i {t} st w w' e lt l) inv = next_round st i w' e lt inv
  step-Inv {dummy} {p} (Program.call_goes_on {t} st l) inv = record {
    reach = Threads.later inv.reach st;
    quiet = quiet-step st inv.quiet (mover_in st inv.quiet l);
    in_range = inv.in_range;
    made = inv.made;
    unmade = inv.unmade;
    arrivals = inv.arrivals;
    together = inv.together;
    rounds = inv.rounds;
    ended = λ j below. (
      (inv.ended j below).0,
      pc_other st j (λ f. moves_on st inv.quiet l (ap p.system.pc (sym f) ∙ (inv.ended j below).1))
          ∙ (inv.ended j below).1,
    );
  }
  step-Inv {dummy} {p} (Program.join_thread i m lt e o) inv = record {
    reach = inv.reach;
    quiet = inv.quiet;
    in_range = omega arith;
    made = λ j below. ground (arith, inv.made j, m);
    unmade = λ j above. ground (arith, inv.unmade j, m);
    arrivals = inv.arrivals;
    together = inv.together;
    rounds = inv.rounds;
    ended = λ j below. ground (arith, inv.ended j, m, e, o);
  }
  step-Inv {dummy} {p} (Program.return_main m) inv = record {
    reach = inv.reach;
    quiet = inv.quiet;
    in_range = omega arith;
    made = λ j below. ground (arith, inv.made j, m);
    unmade = λ j above. ground (arith, inv.unmade j, m);
    arrivals = inv.arrivals;
    together = inv.together;
    rounds = inv.rounds;
    ended = λ j below. ground (arith, inv.ended j, m);
  }

  pub run-Inv :
      {dummy : Ptr} {k : ℕ} {p : Program}
      → RunsFor writers readers iterations dummy k p
      → Inv dummy p
  run-Inv {dummy} Program.launched = launch-Inv dummy
  run-Inv (Program.stepped r st) = step-Inv st (run-Inv r)

-- ===== src/Mpmc/Coarse/Counts.antt =====
-- How many calls the threads of coarse_grained_queue.cpp have made, have under way, and have still to
-- start.
use low_latency_experiments.Common.{
  ℕ, ◌+◌, ◌*◌, ◌≤◌, ◌<◌, ◌≡◌, refl, ap, arith, length, ltb, if◌then◌else◌,
}
use low_latency_experiments.Common.Threads.{tally, tally-assign, tally_same, tally_split}
use low_latency_experiments.Mpmc.Coarse.{
  Pc, outside, push_start, push_locked, push_done, push_notify, pop_start, pop_testing, pop_asleep,
  pop_woken, pop_front, pop_remove, pop_leave, System, Step, Reach,
}
use low_latency_experiments.Mpmc.Coarse
use low_latency_experiments.Mpmc.Coarse.Calls.{pushing, popping, Step-counts, Step-popping}
use low_latency_experiments.Mpmc.Coarse.Program.{Program, ProgramStep, launch, ProgramReach}

abbrev pub calls : ℕ → ℕ
calls k = k

pub record Counts (writers readers iterations : ℕ) (p : Program) : Type 0 where
  pub reach : Reach (writers + readers) p.system
  pub pushes :
      length p.system.pushed
        + tally pushing (writers + readers) p.system.pc
        + tally calls (writers + readers) p.to_push
      ≡ writers * iterations
  pub pops :
      length p.system.returned
        + tally popping (writers + readers) p.system.pc
        + tally calls (writers + readers) p.to_pop
      ≡ readers * iterations
  pub of_writer : (i : ℕ) → i < writers → (popping (p.system.pc i) ≡ 0) × (p.to_pop i ≡ 0)
  pub of_reader : (i : ℕ) → writers ≤ i → p.to_push i ≡ 0

module _ {writers readers iterations : ℕ} where
  launch-Counts : Counts writers readers iterations (launch writers iterations)
  launch-Counts =
      let first : (i : ℕ) → i < writers → (if ltb i writers then iterations else 0) ≡ iterations =
        (λ i lt. ground arith) in
      let others : (i : ℕ) → writers ≤ i → (if ltb i writers then iterations else 0) ≡ 0 =
        (λ i le. ground arith) in
      let first' : (i : ℕ) → i < writers → (if ltb i writers then 0 else iterations) ≡ 0 =
        (λ i lt. ground arith) in
      let others' : (i : ℕ) → writers ≤ i → (if ltb i writers then 0 else iterations) ≡ iterations =
        (λ i le. ground arith) in
      record {
        reach = Coarse.here;
        pushes = omega (
          arith,
          tally_same pushing (writers + readers) 0 (Coarse.start ℕ).pc (λ i lt. refl),
          tally_split calls readers writers iterations 0 _ first others,
        );
        pops = omega (
          arith,
          tally_same popping (writers + readers) 0 (Coarse.start ℕ).pc (λ i lt. refl),
          tally_split calls readers writers 0 iterations _ first' others',
        );
        of_writer = λ i lt. (refl, first' i lt);
        of_reader = others;
      }

  step-Counts :
      {p q : Program}
      → ProgramStep (writers + readers) p q
      → Counts writers readers iterations p
      → Counts writers readers iterations q
  step-Counts {p} (ProgramStep.write i k lt e f) inv = record {
    reach = Coarse.later inv.reach (Step.call_push i 1 lt e);
    pushes = omega (
      arith,
      inv.pushes,
      f,
      ap pushing e,
      tally-assign pushing (writers + readers) i p.system.pc (push_start 1) lt,
      tally-assign calls (writers + readers) i p.to_push k lt,
    );
    pops = omega (
      arith,
      inv.pops,
      ap popping e,
      tally-assign popping (writers + readers) i p.system.pc (push_start 1) lt,
    );
    of_writer = λ j below. ground (arith, inv.of_writer j below, e);
    of_reader = λ j above. ground (arith, inv.of_reader j above, f);
  }
  step-Counts {p} (ProgramStep.read i k lt e f) inv = record {
    reach = Coarse.later inv.reach (Step.call_pop i lt e);
    pushes = omega (
      arith,
      inv.pushes,
      ap pushing e,
      tally-assign pushing (writers + readers) i p.system.pc pop_start lt,
    );
    pops = omega (
      arith,
      inv.pops,
      f,
      ap popping e,
      tally-assign popping (writers + readers) i p.system.pc pop_start lt,
      tally-assign calls (writers + readers) i p.to_pop k lt,
    );
    of_writer = λ j below. ground (arith, inv.of_writer j below, e, f);
    of_reader = inv.of_reader;
  }
  step-Counts {p} (ProgramStep.go_on {t} st e) inv = record {
    reach = Coarse.later inv.reach st;
    pushes = omega (arith, inv.pushes, Step-counts st e);
    pops = omega (arith, inv.pops, Step-counts st e);
    of_writer =
        λ i lt. (omega (arith, inv.of_writer i lt, Step-popping st e i), (inv.of_writer i lt).1);
    of_reader = inv.of_reader;
  }

  pub reach-Counts :
      {p : Program}
      → ProgramReach writers readers iterations p
      → Counts writers readers iterations p
  reach-Counts ProgramReach.launched = launch-Counts
  reach-Counts (ProgramReach.stepped r st) = step-Counts st (reach-Counts r)

-- ===== src/Mpmc/Fine/Program/Counts.antt =====
-- How often each number is enqueued by the threads of fine_grained_queue.cpp.
use low_latency_experiments.Common.{
  ℕ, Option, suc, ◌+◌, ◌*◌, ◌≤◌, ◌<◌, ◌≡◌, refl, ap, sym, ◌∙◌, arith, ◌==◌, ltb, leb, if◌then◌else◌,
  dec_lt, ℕ_discrete, subst,
}
use low_latency_experiments.Common.Threads.{
  assign, tally, tally-assign, tally-assign_above, tally-assign_same, tally_same,
}
use low_latency_experiments.Mpmc.Heap.{Ptr}
use low_latency_experiments.Mpmc.Fine.Chain.{Cells, Chain}
use low_latency_experiments.Mpmc.Fine.Threads.{
  Pc, outside, ready, linking, moving, enqueued, reading, testing, swapping, swapped, deleting,
  System, Step,
}
use low_latency_experiments.Mpmc.Fine.Threads
use low_latency_experiments.Mpmc.Fine.Threads.Invariant.{values}
use low_latency_experiments.Mpmc.Fine.Threads.Safety.{fine_fifo}
use low_latency_experiments.Mpmc.Fine.Threads.Labels.{
  label, mover, target, pc-mover, pc_other, pc_self,
}
use low_latency_experiments.Mpmc.Fine.Program.{
  Loop, not_created, before_barrier, at_barrier, round, Main, creating, returned, Program,
  ProgramStep, RunsFor, launch,
}
use low_latency_experiments.Mpmc.Fine.Program
use low_latency_experiments.Mpmc.Fine.Program.Invariant.{Inv, run-Inv}
use low_latency_experiments.Mpmc.Fine.Program.Puts.{
  once, count, count-append, pending, enqueuing, starts_enqueue, not_pending, step-put,
  starts-pending, enqueuing-target,
}

module _ (writers readers iterations : ℕ) where
  -- Whether the number is still to be enqueued by a thread that writes.
  abbrev to_put : ℕ → Loop → ℕ
  to_put v (round i) = if leb i v then once (ltb v iterations) else 0
  to_put v _ = once (ltb v iterations)

  -- The threads that read are in no call of `enqueue`.
  abbrev Apart : System ℕ → Type 0
  Apart s = (i : ℕ) → writers ≤ i → enqueuing (s.pc i) ≡ 0

  record Totals (p : Program) : Type 0 where
    apart : Apart p.system
    totals :
        (v : ℕ)
        → count v p.system.put
            + tally (pending v) writers p.system.pc
            + tally (to_put v) writers p.loop
          ≡ writers * once (ltb v iterations)

  module _ {s t : System ℕ} (st : Step s t) (apart : Apart s)
      (kept : writers ≤ mover st → enqueuing (target st) ≡ 0) where
    step-Apart : Apart t
    step-Apart j le = elim (ℕ_discrete j (mover st)) [
      | yes e ↦
          ap (λ k. enqueuing (t.pc k)) e
          ∙ ap enqueuing (pc_self st)
          ∙ kept (subst (λ k. writers ≤ k) e le)
      | no ne ↦ ap enqueuing (pc_other st j ne) ∙ apart j le
    ]

    -- What a step in a call does to the sum.
    step-sum :
        (v : ℕ)
        → count v t.put + tally (pending v) writers t.pc
          ≡ count v s.put + tally (pending v) writers s.pc + starts_enqueue v (label st)
    step-sum v = elim (dec_lt (mover st) writers) [
      | yes below ↦ omega (
        arith,
        step-put v st,
        ap (tally (pending v) writers) (pc-mover st),
        tally-assign (pending v) writers (mover st) s.pc (target st) below,
      )
      | no above ↦ omega (
        arith,
        step-put v st,
        ap (tally (pending v) writers) (pc-mover st),
        tally-assign_above (pending v) writers (mover st) s.pc (target st) (omega arith),
        not_pending v (s.pc (mover st)) (apart (mover st) (omega arith)),
        not_pending v (target st) (kept (omega arith)),
        starts-pending v st,
      )
    ]

  launch-Totals : (dummy : Ptr) → Totals (launch writers readers iterations dummy)
  launch-Totals dummy = record {
    apart = λ i le. refl;
    totals = λ v. omega (
      arith,
      tally_same (pending v) writers 0 (Threads.start ℕ dummy).pc (λ i lt. refl),
      tally_same (to_put v) writers (once (ltb v iterations)) (λ i. not_created) (λ i lt. refl),
    );
  }

  -- A step of the main thread or at the barrier leaves what is to be put.
  loop-Totals :
      {p : Program} (i : ℕ) (l : Loop) (n : ℕ) (m : Main)
      → ((v : ℕ) → to_put v l ≡ to_put v (p.loop i))
      → Totals p
      → Totals (record p { arrived = n; loop = assign p.loop i l; main = m })
  loop-Totals {p} i l n m same tot = record {
    apart = tot.apart;
    totals =
        λ v. omega (arith, tot.totals v, tally-assign_same (to_put v) writers i p.loop l (same v));
  }

  to_put-next :
      (v i : ℕ) → i < iterations → to_put v (round i) ≡ to_put v (round (suc i)) + once (i == v)
  to_put-next v i lt = ground arith

  step-Totals :
      {dummy : Ptr} {p q : Program}
      → ProgramStep writers readers iterations p q
      → Inv writers readers iterations dummy p
      → Totals p
      → Totals q
  step-Totals {dummy} {p} (Program.create_thread i m lt) inv tot =
      loop-Totals i before_barrier p.arrived (creating (suc i))
        (λ v. sym (ap (to_put v) (inv.unmade i (ground (arith, m))))) tot
  step-Totals (Program.all_created m) inv tot = record { apart = tot.apart; totals = tot.totals }
  step-Totals {dummy} {p} (Program.arrive i lt e) inv tot =
      loop-Totals i at_barrier (suc p.arrived) p.main (λ v. sym (ap (to_put v) e)) tot
  step-Totals {dummy} {p} (Program.leave_barrier i lt e f) inv tot =
      loop-Totals i (round 0) p.arrived p.main (λ v. ground (arith, ap (to_put v) e)) tot
  step-Totals {dummy} {p} (Program.write i st w e lt l) inv tot = record {
    apart = step-Apart st tot.apart (λ le. absurd (omega arith));
    totals = λ v. omega (
      arith,
      tot.totals v,
      step-sum st tot.apart (λ le. absurd (omega arith)) v,
      ap (starts_enqueue v) l,
      tally-assign (to_put v) writers (mover st) p.loop (round (suc i)) w,
      ap (to_put v) e,
      to_put-next v i lt,
    );
  }
  step-Totals {dummy} {p} (Program.read i st w w' e lt l) inv tot =
      let kept = λ (le : writers ≤ mover st).
        enqueuing-target st (tot.apart (mover st) w) (λ v f. cc (l, f)) in
      record {
        apart = step-Apart st tot.apart kept;
        totals = λ v. omega (
          arith,
          tot.totals v,
          step-sum st tot.apart kept v,
          ap (starts_enqueue v) l,
          tally-assign_above (to_put v) writers (mover st) p.loop (round (suc i)) w,
        );
      }
  step-Totals {dummy} {p} (Program.call_goes_on st l) inv tot =
      let kept = λ (le : writers ≤ mover st).
        enqueuing-target st (tot.apart (mover st) le) (λ v f. cc (l, f)) in
      record {
        apart = step-Apart st tot.apart kept;
        totals =
            λ v. omega (arith, tot.totals v, step-sum st tot.apart kept v, ap (starts_enqueue v) l);
      }
  step-Totals (Program.join_thread i m lt e o) inv tot = record {
    apart = tot.apart;
    totals = tot.totals;
  }
  step-Totals (Program.return_main m) inv tot = record { apart = tot.apart; totals = tot.totals }

  run-Totals :
      {dummy : Ptr} {k : ℕ} {p : Program} → RunsFor writers readers iterations dummy k p → Totals p
  run-Totals {dummy} Program.launched = launch-Totals dummy
  run-Totals (Program.stepped r st) =
      step-Totals st (run-Inv writers readers iterations r) (run-Totals r)

  -- When `main` has returned, the links lead from the dummy through nodes whose values, together with
  -- the values that were dequeued, are each number below `iterations` once for each thread that
  -- writes, and no other number.
  pub each_number_kept :
      {dummy : Ptr} {k : ℕ} {p : Program}
      → RunsFor writers readers iterations dummy k p
      → p.main ≡ returned
      → (cells : Cells ℕ) × (last : Ptr) × (first : Option ℕ) × Chain p.system.queue.heap
          p.system.queue.head first last cells
        × ((v : ℕ)
            → count v p.system.taken + count v (values cells)
              ≡ (if ltb v iterations then writers else 0))
  each_number_kept {dummy} {k} {p} r m =
      let inv = run-Inv writers readers iterations r in
      let (cells, last, first, chain, in_order) = fine_fifo inv.reach in
      let ended = λ (i : ℕ) (lt : i < writers). inv.ended i (ground (arith, m)) in
      (
        cells,
        last,
        first,
        chain,
        λ v. ground (
          arith,
          (run-Totals r).totals v,
          tally_same (pending v) writers 0 p.system.pc (λ i lt. ap (pending v) (ended i lt).1),
          tally_same (to_put v) writers 0 p.loop
              (λ i lt. ap (to_put v) (ended i lt).0 ∙ nothing_left v),
          ap (count v) in_order,
          count-append v p.system.taken (values cells),
        ),
      )
    where
      nothing_left : (v : ℕ) → to_put v (round iterations) ≡ 0
      nothing_left v = ground arith

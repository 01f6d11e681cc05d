-- ===== src/Tests/FineProgram.antt =====
-- fine_grained_queue.cpp with one thread that writes and one that reads, one round each.
use low_latency_experiments.Common.{
  ℕ, ◌+◌, ◌≤◌, ◌<◌, ◌≡◌, ◌⊎◌, refl, arith, none, ltb, if◌then◌else◌, ℕ_discrete, Option,
}
use low_latency_experiments.Mpmc.Heap.{null, node}
use low_latency_experiments.Mpmc.Fine.Chain.{Cells, Chain}
use low_latency_experiments.Mpmc.Fine.Threads.{outside, Step}
use low_latency_experiments.Mpmc.Fine.Threads.Invariant.{values}
use low_latency_experiments.Mpmc.Fine.Program.{
  round, returned, Program, ProgramStep, RunsFor, launched, stepped, num_write_threads,
  num_read_threads, iteration_times,
}
use low_latency_experiments.Mpmc.Fine.Program.Measure.{most_steps}
use low_latency_experiments.Mpmc.Fine.Program.Finishing.{Moves, program_ends}
use low_latency_experiments.Mpmc.Fine.Program.Counts.{each_number_kept}
use low_latency_experiments.Mpmc.Fine.Program.Puts.{count}

-- The threads have left the barrier.
started : (p : Program) × RunsFor 1 1 1 1 7 p
unfolding ℕ_discrete
started = (
  _,
  stepped
      (stepped
        (stepped
          (stepped
            (stepped
              (stepped (stepped launched (ProgramStep.create_thread 0 refl (omega arith)))
                (ProgramStep.create_thread 1 refl (omega arith)))
              (ProgramStep.all_created refl))
            (ProgramStep.arrive 0 (omega arith) refl))
          (ProgramStep.arrive 1 (omega arith) refl))
        (ProgramStep.leave_barrier 0 (omega arith) refl refl))
      (ProgramStep.leave_barrier 1 (omega arith) refl refl),
)

-- The call of `enqueue`.
written : (p : Program) × RunsFor 1 1 1 1 12 p
unfolding ℕ_discrete started
written = (
  _,
  stepped
      (stepped
        (stepped
          (stepped
            (stepped started.1 (
              ProgramStep.write 0 (Step.create_node 0 2 0 refl (λ e. ground arith) refl)
                (omega arith) refl (omega arith) refl))
            (ProgramStep.call_goes_on (Step.lock_tail 0 2 0 refl refl) refl))
          (ProgramStep.call_goes_on (Step.link 0 2 0 (node none null) refl refl) refl))
        (ProgramStep.call_goes_on (Step.move_tail 0 2 refl) refl))
      (ProgramStep.call_goes_on (Step.unlock_tail 0 refl) refl),
)

-- The call of `dequeue`, and the end of `main`.
finished : (p : Program) × RunsFor 1 1 1 1 21 p
unfolding ℕ_discrete written started
finished = (
  _,
  stepped
      (stepped
        (stepped
          (stepped
            (stepped
              (stepped
                (stepped
                  (stepped
                    (stepped written.1 (
                      ProgramStep.read 0 (Step.lock_head 1 refl refl) (omega arith) (omega arith)
                        refl (omega arith) refl))
                    (ProgramStep.call_goes_on (Step.read_next 1 (node none 2) refl refl) refl))
                  (ProgramStep.call_goes_on
                    (Step.read_data 1 1 2 null 0 refl (λ e. ground arith) refl) refl))
                (ProgramStep.call_goes_on (Step.move_head 1 1 2 0 refl) refl))
              (ProgramStep.call_goes_on (Step.unlock_head 1 1 refl) refl))
            (ProgramStep.call_goes_on (Step.delete_node 1 1 (node none 2) refl refl) refl))
          (ProgramStep.join_thread 0 refl (omega arith) refl refl))
        (ProgramStep.join_thread 1 refl (omega arith) refl refl))
      (ProgramStep.return_main refl),
)

finished-returned : finished.0.main ≡ returned
unfolding finished
finished-returned = refl

program_ends_example :
    (12 ≤ most_steps 1 1 1)
    × (((written.0.main ≡ returned)
          × ((i : ℕ)
              → i < 1 + 1
              → (written.0.loop i ≡ round 1) × (written.0.system.pc i ≡ outside)))
        ⊎ Moves 1 1 1 written.0)
program_ends_example = program_ends 1 1 1 written.1

each_number_kept_example :
    (cells : Cells ℕ) × (last : ℕ) × (first : Option ℕ) × Chain finished.0.system.queue.heap
      finished.0.system.queue.head first last cells
    × ((v : ℕ)
        → count v finished.0.system.taken + count v (values cells) ≡ (if ltb v 1 then 1 else 0))
each_number_kept_example = each_number_kept 1 1 1 finished.1 finished-returned

-- What bounds the steps of the program as it is run.
most_steps_test : most_steps num_write_threads num_read_threads iteration_times ≡ 600402
most_steps_test = refl

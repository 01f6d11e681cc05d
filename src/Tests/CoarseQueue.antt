-- ===== src/Tests/CoarseQueue.antt =====
-- The coarse-grained queue at concrete inputs: two threads, one that pops and one that pushes 7.
use low_latency_experiments.Mpmc.Coarse.Program.{Program, ProgramStep, ProgramReach, launch}
use low_latency_experiments.Mpmc.Coarse.Finishing.{IsFinished, Moves, never_stuck}
use low_latency_experiments.Common.{
  ℕ, ◌≡◌, ◌≢◌, ◌<◌, ◌⊎◌, refl, [], ◌∷◌, ◌++◌, some, none, arith, ℕ_discrete,
}
use low_latency_experiments.Common.Threads.{assign}
use low_latency_experiments.Mpmc.Coarse.{
  outside, push_start, push_locked, push_done, push_notify, pop_start, pop_testing, pop_asleep,
  pop_woken, pop_front, pop_remove, System, Step, Reach, here, later, start,
}
use low_latency_experiments.Mpmc.Coarse.Invariant.{serving}
use low_latency_experiments.Mpmc.Coarse.Safety.{
  GoesOn, mutual_exclusion, front_defined, fifo, no_lost_wakeup, no_deadlock,
}

abbrev Queue : Type 0
Queue = System ℕ

-- Thread 0 finds the queue empty.
abbrev testing_state : Queue
testing_state = record (start ℕ) {
  owner = some 0;
  pc = assign (assign (start ℕ).pc 0 pop_start) 0 pop_testing;
}

testing_reached : Reach 2 testing_state
unfolding ℕ_discrete
testing_reached =
    later (later here (Step.call_pop 0 (omega arith) refl))
      (Step.pop_lock 0 (omega arith) refl refl)

-- Thread 0 sleeps.
abbrev asleep_state : Queue
asleep_state = record testing_state { owner = none; pc = assign testing_state.pc 0 pop_asleep }

-- Thread 1 has pushed, and has not yet notified.
abbrev pushed_state : Queue
pushed_state = record asleep_state {
  queue = 7 ∷ [];
  owner = some 1;
  pc = assign (assign (assign asleep_state.pc 1 (push_start 7)) 1 (push_locked 7)) 1 push_done;
  pushed = 7 ∷ [];
}

pushed_reached : Reach 2 pushed_state
unfolding ℕ_discrete
pushed_reached =
    later
      (later
        (later (later testing_reached (Step.wait_sleep 0 (omega arith) refl refl))
          (Step.call_push 1 7 (omega arith) refl))
        (Step.push_lock 1 7 (omega arith) refl refl))
      (Step.push_value 1 7 (omega arith) refl)

-- Thread 1 has notified, and thread 0 has found the value.
abbrev front_state : Queue
front_state = record pushed_state {
  owner = some 0;
  pc =
      assign
        (assign (assign (assign (assign pushed_state.pc 1 push_notify) 1 outside) 0 pop_woken) 0
          pop_testing)
        0 pop_front;
}

front_reached : Reach 2 front_state
unfolding ℕ_discrete
front_reached =
    later
      (later
        (later (later pushed_reached (Step.push_unlock 1 (omega arith) refl))
          (Step.notify_sleeper 1 0 (omega arith) (omega arith) refl refl))
        (Step.wake_lock 0 (omega arith) refl refl))
      (Step.wait_ready 0 (omega arith) refl (λ e. ground arith))

-- It has copied the value.
abbrev remove_state : Queue
remove_state = record front_state { pc = assign front_state.pc 0 (pop_remove 7) }

remove_reached : Reach 2 remove_state
unfolding ℕ_discrete
remove_reached = later front_reached (Step.take_front 0 7 [] (omega arith) refl refl)

mutual_exclusion_test : ◌≡◌ {A = ℕ} 0 0
unfolding ℕ_discrete
mutual_exclusion_test = mutual_exclusion testing_reached 0 0 refl refl

front_defined_test : front_state.queue ≢ []
unfolding ℕ_discrete
front_defined_test = front_defined front_reached 0 refl

fifo_example : [] ++ (7 ∷ []) ≡ pushed_state.pushed
fifo_example = fifo pushed_reached

no_lost_wakeup_example : (j : ℕ) × (j < 2) × (serving (pushed_state.pc j) ≡ 1)
unfolding ℕ_discrete
no_lost_wakeup_example = no_lost_wakeup pushed_reached 0 (omega arith) refl (λ e. ground arith)

no_deadlock_example : GoesOn 2 pushed_state
unfolding ℕ_discrete
no_deadlock_example =
    no_deadlock pushed_reached 1 (omega arith) (λ e. ground arith) (λ e. ground arith)

-- One writer and one reader with one call each; the reader found the queue empty and sleeps.
abbrev reader_asleep : Program
reader_asleep = record {
  system = record (start ℕ) {
    pc = assign (assign (assign (λ i. outside) 1 pop_start) 1 pop_testing) 1 pop_asleep;
  };
  to_push = (launch 1 1).to_push;
  to_pop = assign (launch 1 1).to_pop 1 0;
}

reader_asleep-reached : ProgramReach 1 1 1 reader_asleep
unfolding ℕ_discrete
reader_asleep-reached =
    ProgramReach.stepped
      (ProgramReach.stepped
        (ProgramReach.stepped ProgramReach.launched (ProgramStep.read 1 0 (omega arith) refl refl))
        (ProgramStep.go_on (Step.pop_lock 1 (omega arith) refl refl) refl))
      (ProgramStep.go_on (Step.wait_sleep 1 (omega arith) refl refl) refl)

never_stuck_example : IsFinished 2 reader_asleep ⊎ Moves 2 reader_asleep
never_stuck_example = never_stuck (omega arith) reader_asleep-reached

-- ===== src/Tests/Counters.antt =====
-- The counters at concrete inputs: one thread with one round, of two.
use low_latency_experiments.Common.{
  ℕ, zero, suc, ◌*◌, ◌<◌, ◌≤◌, ◌≡◌, ◌⊎◌, refl, some, none, arith, ℕ_discrete,
}
use low_latency_experiments.Common.Int.{pos}
use low_latency_experiments.Common.Threads.{assign}
use low_latency_experiments.Counting.AtomicCounter
use low_latency_experiments.Counting.AtomicCounter.Totals.{all_counted}
use low_latency_experiments.Counting.AtomicCounter.Finishing.{counting_ends}
use low_latency_experiments.Counting.MutexCounter
use low_latency_experiments.Counting.MutexCounter.{Pc, between, locked, loaded, stored}
use low_latency_experiments.Counting.MutexCounter.Finishing.{locked_counting_ends}
use low_latency_experiments.Counting.MutexCounter.Totals.{no_lost_update, all_counted_locked}

-- The thread has made its round.
abbrev atomic_end : AtomicCounter.System
atomic_end = record {
  value = AtomicCounter.increment AtomicCounter.init;
  left = assign (λ i. 1) 0 0;
}

atomic_reached : AtomicCounter.Reach 1 1 atomic_end
atomic_reached =
    AtomicCounter.later AtomicCounter.started (AtomicCounter.round 0 0 (omega arith) refl)

all_left : (i : ℕ) → i < 1 → atomic_end.left i ≡ 0
unfolding ℕ_discrete
all_left zero lt = refl
all_left (suc i) lt = absurd (omega arith)

all_counted_test : atomic_end.value ≡ pos (1 * 1)
all_counted_test = all_counted (omega arith) atomic_reached all_left

-- The thread has read the value.
abbrev loaded_state : MutexCounter.System
loaded_state = record {
  value = MutexCounter.init;
  owner = some 0;
  pc = assign (assign (λ i. between 1) 0 (locked 0)) 0 (loaded 0 MutexCounter.init);
}

loaded_reached : MutexCounter.Reach 1 1 loaded_state
unfolding ℕ_discrete
loaded_reached =
    MutexCounter.later
      (MutexCounter.later MutexCounter.started (MutexCounter.lock 0 0 (omega arith) refl refl))
      (MutexCounter.load 0 0 (omega arith) refl)

no_lost_update_test : MutexCounter.init ≡ loaded_state.value
unfolding ℕ_discrete
no_lost_update_test = no_lost_update (omega arith) loaded_reached 0 0 MutexCounter.init refl

abbrev locked_end : MutexCounter.System
locked_end = record {
  value = pos 1;
  owner = none;
  pc = assign (assign loaded_state.pc 0 (stored 0)) 0 (between 0);
}

locked_reached : MutexCounter.Reach 1 1 locked_end
unfolding ℕ_discrete MutexCounter.increment
locked_reached =
    MutexCounter.later
      (MutexCounter.later loaded_reached
        (MutexCounter.store 0 0 MutexCounter.init (pos 1) (omega arith) refl refl))
      (MutexCounter.unlock 0 0 (omega arith) refl)

all_done : (i : ℕ) → i < 1 → locked_end.pc i ≡ between 0
unfolding ℕ_discrete
all_done zero lt = refl
all_done (suc i) lt = absurd (omega arith)

all_counted_locked_test : locked_end.value ≡ pos (1 * 1)
all_counted_locked_test = all_counted_locked (omega arith) locked_reached all_done

counting_ends_example :
    (AtomicCounter.Finishing.steps atomic_reached ≤ 1 * 1)
    × (((AtomicCounter.Finishing.steps atomic_reached < 1 * 1)
          × ((t : AtomicCounter.System) × AtomicCounter.Step 1 atomic_end t))
        ⊎ ((AtomicCounter.Finishing.steps atomic_reached ≡ 1 * 1)
            × ((i : ℕ) → i < 1 → atomic_end.left i ≡ 0)
            × (atomic_end.value ≡ pos (1 * 1))))
counting_ends_example = counting_ends (omega arith) atomic_reached

locked_counting_ends_example :
    (MutexCounter.Finishing.steps locked_reached ≤ 4 * (1 * 1))
    × (((MutexCounter.Finishing.steps locked_reached < 4 * (1 * 1))
          × ((t : MutexCounter.System) × MutexCounter.Step 1 locked_end t))
        ⊎ ((MutexCounter.Finishing.steps locked_reached ≡ 4 * (1 * 1))
            × ((i : ℕ) → i < 1 → locked_end.pc i ≡ between 0)
            × (locked_end.value ≡ pos (1 * 1))))
locked_counting_ends_example = locked_counting_ends (omega arith) locked_reached

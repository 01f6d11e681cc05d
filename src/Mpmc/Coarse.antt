-- ===== src/Mpmc/Coarse.antt =====
-- fine_grained_vs_coarse_grained/coarse_grained/queue_mpmc.hpp: a `std::queue` behind one mutex, with
-- a condition variable on which the pops wait. Any number of threads call `push` and `pop`; a step is
-- one operation on the mutex, the condition variable or the queue.
pub mod Invariant
pub mod Mutex
pub mod Wakeups
pub mod Runs
pub mod Safety
pub mod Program
pub mod Calls
pub mod Counts
pub mod Finishing
use low_latency_experiments.Common.{ℕ, ◌<◌, ◌≡◌, ◌≢◌, List, [], ◌∷◌, ◌++◌, Option, none, some}
use low_latency_experiments.Common.Threads.{assign}

-- Where a thread stands.
pub data Pc (V : Type 0) : Type 0 where
  outside : Pc V  -- between two calls
  push_start : (val : V) → Pc V  -- `push`, before the lock
  push_locked : (val : V) → Pc V  -- before `m_queue.push(val)`
  push_done : Pc V  -- before `lock.unlock()`
  push_notify : Pc V  -- before `notify_one()`
  pop_start : Pc V  -- `pop`, before the lock
  pop_testing : Pc V  -- in `wait`, before the test of the queue
  pop_asleep : Pc V  -- in `wait`, blocked; the lock is released
  pop_woken : Pc V  -- in `wait`, before the lock is taken again
  pop_front : Pc V  -- before `m_queue.front()`
  pop_remove : (val : V) → Pc V  -- before `m_queue.pop()`
  pop_leave : (val : V) → Pc V  -- before the lock is released and `val` returned

-- `QueueMPMC<T>` and the threads. `pushed` and `returned` are the history: the values pushed, and
-- those that the pops took, each in the order in which they were.
pub record System (V : Type 0) : Type 0 where
  pub queue : List V
  pub owner : Option ℕ
  pub pc : ℕ → Pc V
  pub pushed : List V
  pub returned : List V

-- One step of one of `n` threads. A thread outside chooses its next call and its value.
-- `notify_one` wakes one of the sleeping threads, or none if none sleeps; a sleeping thread may also
-- wake with no notification.
pub data Step {V : Type 0} (n : ℕ) (s : System V) : System V → Type 0 where
  call_push :
      (i : ℕ) (v : V)
      → i < n
      → s.pc i ≡ outside
      → Step n s (record s { pc = assign s.pc i (push_start v) })
  push_lock :
      (i : ℕ) (v : V)
      → i < n
      → s.pc i ≡ push_start v
      → s.owner ≡ none
      → Step n s (record s { owner = some i; pc = assign s.pc i (push_locked v) })
  push_value :
      (i : ℕ) (v : V)
      → i < n
      → s.pc i ≡ push_locked v
      → Step n s (record s {
        queue = s.queue ++ v ∷ [];
        pc = assign s.pc i push_done;
        pushed = s.pushed ++ v ∷ [];
      })
  push_unlock :
      (i : ℕ)
      → i < n
      → s.pc i ≡ push_done
      → Step n s (record s { owner = none; pc = assign s.pc i push_notify })
  notify_nobody :
      (i : ℕ)
      → i < n
      → s.pc i ≡ push_notify
      → ((j : ℕ) → j < n → s.pc j ≢ pop_asleep)
      → Step n s (record s { pc = assign s.pc i outside })
  notify_sleeper :
      (i j : ℕ)
      → i < n
      → j < n
      → s.pc i ≡ push_notify
      → s.pc j ≡ pop_asleep
      → Step n s (record s { pc = assign (assign s.pc i outside) j pop_woken })
  call_pop :
      (i : ℕ) → i < n → s.pc i ≡ outside → Step n s (record s { pc = assign s.pc i pop_start })
  pop_lock :
      (i : ℕ)
      → i < n
      → s.pc i ≡ pop_start
      → s.owner ≡ none
      → Step n s (record s { owner = some i; pc = assign s.pc i pop_testing })
  wait_ready :
      (i : ℕ)
      → i < n
      → s.pc i ≡ pop_testing
      → s.queue ≢ []
      → Step n s (record s { pc = assign s.pc i pop_front })
  wait_sleep :
      (i : ℕ)
      → i < n
      → s.pc i ≡ pop_testing
      → s.queue ≡ []
      → Step n s (record s { owner = none; pc = assign s.pc i pop_asleep })
  wake_unasked :
      (i : ℕ) → i < n → s.pc i ≡ pop_asleep → Step n s (record s { pc = assign s.pc i pop_woken })
  wake_lock :
      (i : ℕ)
      → i < n
      → s.pc i ≡ pop_woken
      → s.owner ≡ none
      → Step n s (record s { owner = some i; pc = assign s.pc i pop_testing })
  take_front :
      (i : ℕ) (v : V) (vs : List V)
      → i < n
      → s.pc i ≡ pop_front
      → s.queue ≡ v ∷ vs
      → Step n s (record s { pc = assign s.pc i (pop_remove v) })
  remove_front :
      (i : ℕ) (v w : V) (vs : List V)
      → i < n
      → s.pc i ≡ pop_remove v
      → s.queue ≡ w ∷ vs
      → Step n s (record s {
        queue = vs;
        pc = assign s.pc i (pop_leave v);
        returned = s.returned ++ v ∷ [];
      })
  pop_unlock :
      (i : ℕ) (v : V)
      → i < n
      → s.pc i ≡ pop_leave v
      → Step n s (record s { owner = none; pc = assign s.pc i outside })

-- The constructor, with all threads outside.
abbrev pub start : (V : Type 0) → System V
start V = record { queue = []; owner = none; pc = λ i. outside; pushed = []; returned = [] }

pub data Reach {V : Type 0} (n : ℕ) : System V → Type 0 where
  here : Reach n (start V)
  later : {s t : System V} → Reach n s → Step n s t → Reach n t

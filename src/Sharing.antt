-- ===== src/Sharing.antt =====
-- false_sharing/false_sharing.cpp: three threads, each incrementing its own field of one object, and
-- where the fields lie in memory.
pub mod Layout
pub mod Independent
use low_latency_experiments.Common.{ℕ, zero, suc, ◌+◌, ◌*◌, ◌%◌, ◌^◌, List, [], ◌∷◌}

-- `ITERATION`
abbrev pub iteration : ℕ
iteration = 10000

-- `struct dummy`; the fields are `uint32_t`.
pub record Dummy : Type 0 where
  pub d1 : ℕ
  pub d2 : ℕ
  pub d3 : ℕ

-- `static dummy data`, which starts at 0.
abbrev pub init : Dummy
init = record { d1 = 0; d2 = 0; d3 = 0 }

pub data Thread : Type 0 where
  thread1 thread2 thread3 : Thread

-- The field of each thread.
unfoldable pub load : Thread → Dummy → ℕ
load thread1 d = d.d1
load thread2 d = d.d2
load thread3 d = d.d3

unfoldable pub store : Thread → ℕ → Dummy → Dummy
store thread1 v d = record d { d1 = v }
store thread2 v d = record d { d2 = v }
store thread3 v d = record d { d3 = v }

-- `data.d1++` computes this from what it has read.
abbrev pub bump : ℕ → ℕ
bump v = (v + 1) % 2 ^ 32

-- Where a thread stands, with the increments that it has left: it runs two nested loops of
-- `iteration` rounds, and an increment is a read and a write.
pub data Pc : Type 0 where
  reading : (left : ℕ) → Pc
  writing : (left : ℕ) (value : ℕ) → Pc

pub record System : Type 0 where
  pub object : Dummy
  pub pc : Thread → Pc

abbrev same : Thread → Thread → Pc → Pc → Pc
same thread1 thread1 p q = p
same thread2 thread2 p q = p
same thread3 thread3 p q = p
same _ _ p q = q

abbrev pub assign : (Thread → Pc) → Thread → Pc → Thread → Pc
assign f t p u = same t u p (f u)

-- One access of thread `t`; a thread that has finished does nothing.
unfoldable pub advance : Thread → Pc → System → System
advance t (reading zero) s = s
advance t (reading (suc k)) s = record s { pc = assign s.pc t (writing k (load t s.object)) }
advance t (writing k v) s = record {
  object = store t (bump v) s.object;
  pc = assign s.pc t (reading k);
}

unfoldable pub run : List Thread → System → System
run [] s = s
run (t ∷ ts) s = run ts (advance t (s.pc t) s)

-- The object and the threads that `main` creates. `rounds` is how often the body of the two nested
-- loops runs, `iteration * iteration` times in the program.
abbrev pub start : ℕ → System
start rounds = record { object = init; pc = λ t. reading rounds }

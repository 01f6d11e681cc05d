-- ===== src/Mpmc/Coarse/Invariant.antt =====
-- What every step of every thread of the coarse-grained queue keeps.
use low_latency_experiments.Common.{
  ℕ, ◌≤◌, ◌<◌, ◌≡◌, ◌≢◌, ◌⊎◌, List, [], ◌∷◌, ◌++◌, Bool, true, false, some, length,
}
use low_latency_experiments.Common.Threads.{tally}
use low_latency_experiments.Mpmc.Coarse.{
  Pc, push_locked, push_done, push_notify, pop_testing, pop_asleep, pop_woken, pop_front,
  pop_remove, pop_leave, System,
}

module _ {V : Type 0} where
  -- Between taking the mutex and releasing it.
  abbrev pub holds : Pc V → Bool
  holds (push_locked v) = true
  holds push_done = true
  holds pop_testing = true
  holds pop_front = true
  holds (pop_remove v) = true
  holds (pop_leave v) = true
  holds _ = false

  abbrev pub asleep : Pc V → ℕ
  asleep pop_asleep = 1
  asleep _ = 0

  -- On the way to wake a sleeping thread, or to take a value.
  abbrev pub serving : Pc V → ℕ
  serving push_done = 1
  serving push_notify = 1
  serving pop_testing = 1
  serving pop_woken = 1
  serving pop_front = 1
  serving (pop_remove v) = 1
  serving _ = 0

  -- What a thread in `pop` knows of the queue.
  abbrev pub Ready : List V → Pc V → Type 0
  Ready q pop_front = q ≢ []
  Ready q (pop_remove v) = (vs : List V) × (q ≡ v ∷ vs)
  Ready q _ = Unit {0}

  pub record Inv (n : ℕ) (s : System V) : Type 0 where
    pub exclusive : (i : ℕ) → holds (s.pc i) ≡ true → s.owner ≡ some i
    pub held : (i : ℕ) → s.owner ≡ some i → (holds (s.pc i) ≡ true) × (i < n)
    pub ready : (i : ℕ) → Ready s.queue (s.pc i)
    pub in_order : s.returned ++ s.queue ≡ s.pushed
    pub served : (tally asleep n s.pc ≡ 0) ⊎ (length s.queue ≤ tally serving n s.pc)

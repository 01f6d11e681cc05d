-- ===== src/Counting/MutexCounter/Invariant.antt =====
-- What every step of every thread of the counter behind the mutex keeps.
use low_latency_experiments.Common.{
  ℕ, suc, ◌+◌, ◌*◌, ◌≤◌, ◌<◌, ◌≡◌, refl, Bool, true, false, some, arith, subst,
}
use low_latency_experiments.Common.Int.{ℤ, pos, int64_max}
use low_latency_experiments.Common.Threads.{tally, tally-assign, tally_same, tally-le}
use low_latency_experiments.Counting.MutexCounter.{
  increment, Pc, between, locked, loaded, stored, System, Step, lock, load, store, unlock, Reach,
  started, later,
}

abbrev pub holds : Pc → Bool
holds (between k) = false
holds (locked k) = true
holds (loaded k v) = true
holds (stored k) = true

-- The increments that a thread has still to write.
abbrev pub pending : Pc → ℕ
pending (between k) = k
pending (locked k) = suc k
pending (loaded k v) = suc k
pending (stored k) = k

abbrev pub IsFresh : ℤ → Pc → Type 0
IsFresh value (loaded k v) = v ≡ value
IsFresh value _ = Unit {0}

pub record Inv (n total : ℕ) (s : System) : Type 0 where
  pub few : total ≤ int64_max
  pub exclusive : (i : ℕ) → holds (s.pc i) ≡ true → s.owner ≡ some i
  pub fresh : (i : ℕ) → IsFresh s.value (s.pc i)
  pub made : ℕ
  pub value_made : s.value ≡ pos made
  pub counted : made + tally pending n s.pc ≡ total

pub increment_lem : (m : ℕ) → m < int64_max → increment (pos m) ≡ some (pos (m + 1))
unfolding increment
increment_lem m h = ground arith

-- The thread about to write `value` has the current value in hand, and the increment is defined.
pub store_defined :
    {n total : ℕ} {s : System} (i k : ℕ) (v : ℤ) (inv : Inv n total s)
    → i < n
    → s.pc i ≡ loaded k v
    → increment v ≡ some (pos (inv.made + 1))
store_defined {n} {total} {s} i k v inv lt e =
    let same : v ≡ s.value = subst (IsFresh s.value) e (inv.fresh i) in
    let more : 0 < tally pending n s.pc = ground (arith, tally-le pending n i s.pc lt) in
    rw (same, inv.value_made) (increment_lem inv.made (omega (arith, inv.few, inv.counted)))

Step-exclusive :
    {n total : ℕ} {s t : System}
    → Step n s t
    → Inv n total s
    → (j : ℕ) → holds (t.pc j) ≡ true
    → t.owner ≡ some j
Step-exclusive (lock i k lt e f) inv j h = ground (arith, inv.exclusive j, inv.exclusive i)
Step-exclusive (load i k lt e) inv j h = ground (arith, inv.exclusive j, inv.exclusive i)
Step-exclusive (store i k v w lt e f) inv j h = ground (arith, inv.exclusive j, inv.exclusive i)
Step-exclusive (unlock i k lt e) inv j h = ground (arith, inv.exclusive j, inv.exclusive i)

Step-IsFresh :
    {n total : ℕ} {s t : System} → Step n s t → Inv n total s → (j : ℕ) → IsFresh t.value (t.pc j)
Step-IsFresh (lock i k lt e f) inv j = ground (arith, inv.fresh j)
Step-IsFresh (load i k lt e) inv j = ground (arith, inv.fresh j)
Step-IsFresh (store i k v w lt e f) inv j =
    ground (arith, inv.fresh j, inv.exclusive j, inv.exclusive i)
Step-IsFresh (unlock i k lt e) inv j = ground (arith, inv.fresh j)

pub Step-Inv : {n total : ℕ} {s t : System} → Step n s t → Inv n total s → Inv n total t
Step-Inv {n} {total} {s} (lock i k lt e f) inv = record {
  few = inv.few;
  exclusive = Step-exclusive (lock i k lt e f) inv;
  fresh = Step-IsFresh (lock i k lt e f) inv;
  made = inv.made;
  value_made = inv.value_made;
  counted = ground (arith, inv.counted, tally-assign pending n i s.pc (locked k) lt);
}
Step-Inv {n} {total} {s} (load i k lt e) inv = record {
  few = inv.few;
  exclusive = Step-exclusive (load i k lt e) inv;
  fresh = Step-IsFresh {s = s} (load i k lt e) inv;
  made = inv.made;
  value_made = inv.value_made;
  counted = ground (arith, inv.counted, tally-assign pending n i s.pc (loaded k s.value) lt);
}
Step-Inv {n} {total} {s} (store i k v w lt e f) inv = record {
  few = inv.few;
  exclusive = Step-exclusive (store i k v w lt e f) inv;
  fresh = Step-IsFresh (store i k v w lt e f) inv;
  made = inv.made + 1;
  value_made = cc (f, store_defined i k v inv lt e);
  counted = ground (arith, inv.counted, tally-assign pending n i s.pc (stored k) lt);
}
Step-Inv {n} {total} {s} (unlock i k lt e) inv = record {
  few = inv.few;
  exclusive = Step-exclusive (unlock i k lt e) inv;
  fresh = Step-IsFresh (unlock i k lt e) inv;
  made = inv.made;
  value_made = inv.value_made;
  counted = ground (arith, inv.counted, tally-assign pending n i s.pc (between k) lt);
}

pub Reach-Inv :
    {n rounds : ℕ} {s : System} → n * rounds ≤ int64_max → Reach n rounds s → Inv n (n * rounds) s
Reach-Inv {n} {rounds} few started = record {
  few = few;
  exclusive = λ i h. cc;
  fresh = λ i. tt;
  made = 0;
  value_made = refl;
  counted = omega (arith, tally_same pending n rounds (λ i. between rounds) (λ i lt. refl));
}
Reach-Inv few (later r st) = Step-Inv st (Reach-Inv few r)

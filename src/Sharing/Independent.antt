-- ===== src/Sharing/Independent.antt =====
-- The threads do not disturb one another: each field counts the increments of its own thread.
use low_latency_experiments.Common.{
  ℕ, zero, suc, ◌+◌, ◌%◌, ◌^◌, ◌≡◌, refl, List, [], ◌∷◌, arith, ◌≢◌, subst, ◌∙◌, ap,
}
use low_latency_experiments.Sharing.{
  Dummy, Thread, thread1, thread2, thread3, Pc, reading, writing, System, load, store, assign, bump,
  advance, run, start,
}

-- With `left` increments still to be written of `rounds`, the field holds the others, modulo 2 ^ 32.
abbrev pub Counts : ℕ → ℕ → Pc → Type 0
Counts rounds value (reading left) = (made : ℕ) × (made + left ≡ rounds) × (value ≡ made % 2 ^ 32)
Counts rounds value (writing left seen) =
    (made : ℕ) × (made + suc left ≡ rounds) × (value ≡ made % 2 ^ 32) × (seen ≡ value)

abbrev pub Inv : ℕ → System → Type 0
Inv rounds s = (t : Thread) → Counts rounds (load t s.object) (s.pc t)

-- The threads apart, or the same.
assign_all :
    (P : Thread → Pc → Type 0) (f : Thread → Pc) (t : Thread) (p : Pc)
    → P t p
    → ((u : Thread) → u ≢ t → P u (f u))
    → (u : Thread) → P u (assign f t p u)
assign_all P f thread1 p h k thread1 = h
assign_all P f thread2 p h k thread2 = h
assign_all P f thread3 p h k thread3 = h
assign_all P f _ p h k u = k u (ground arith)

load-store_self : (t : Thread) (v : ℕ) (d : Dummy) → load t (store t v d) ≡ v
unfolding load store
load-store_self thread1 v d = refl
load-store_self _ v d = refl

load-store_ne : (t u : Thread) (v : ℕ) (d : Dummy) → u ≢ t → load u (store t v d) ≡ load u d
unfolding load store
load-store_ne thread1 thread1 v d ne = absurd (ne refl)
load-store_ne thread2 thread2 v d ne = absurd (ne refl)
load-store_ne thread3 thread3 v d ne = absurd (ne refl)
load-store_ne _ _ v d ne = refl

advance-Inv :
    (rounds : ℕ) (t : Thread) (p : Pc) (s : System)
    → s.pc t ≡ p
    → Inv rounds s
    → Inv rounds (advance t p s)
unfolding advance
advance-Inv rounds t (reading zero) s e inv = inv
advance-Inv rounds t (reading (suc k)) s e inv =
    let (made, total, value) = subst (Counts rounds (load t s.object)) e (inv t) in
    assign_all (λ u q. Counts rounds (load u s.object) q) s.pc t (writing k (load t s.object))
      (made, total, value, refl) (λ u ne. inv u)
advance-Inv rounds t (writing k v) s e inv =
    let (made, total, value, seen) = subst (Counts rounds (load t s.object)) e (inv t) in
    assign_all (λ u q. Counts rounds (load u (store t (bump v) s.object)) q) s.pc t (reading k)
      (made + 1, omega arith, rw load-store_self (omega arith))
      (λ u ne. rw (load-store_ne t u (bump v) s.object ne) (inv u))

run-Inv : (rounds : ℕ) (ts : List Thread) (s : System) → Inv rounds s → Inv rounds (run ts s)
unfolding run
run-Inv rounds [] s inv = inv
run-Inv rounds (t ∷ ts) s inv = run-Inv rounds ts _ (advance-Inv rounds t (s.pc t) s refl inv)

start-Inv : (rounds : ℕ) → Inv rounds (start rounds)
unfolding load
start-Inv rounds thread1 = (0, omega arith, refl)
start-Inv rounds _ = (0, omega arith, refl)

-- In any interleaving of the reads and writes of the three threads, the field of a thread that has
-- finished is the number of its increments, modulo 2 ^ 32: no thread loses an increment of another.
pub fields_counted :
    (rounds : ℕ) (ts : List Thread) (t : Thread)
    → (run ts (start rounds)).pc t ≡ reading 0
    → load t (run ts (start rounds)).object ≡ rounds % 2 ^ 32
fields_counted rounds ts t done =
    let (made, total, value) =
      subst (Counts rounds (load t (run ts (start rounds)).object)) done
        (run-Inv rounds ts (start rounds) (start-Inv rounds) t) in
    value ∙ ap (λ k. k % 2 ^ 32) (omega arith)

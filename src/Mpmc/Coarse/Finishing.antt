-- ===== src/Mpmc/Coarse/Finishing.antt =====
-- The threads of coarse_grained_queue.cpp are never stuck before they have finished.
use native.Mathlib.Nat.{mul-le-mul_right}
use low_latency_experiments.Common.{
  ℕ, zero, suc, ◌+◌, ◌≤◌, ◌<◌, ◌≡◌, ◌≢◌, ◌⊎◌, inl, inr, refl, sym, ap, ◌∙◌, false, arith, length,
  length-append, dec_lt,
}
use low_latency_experiments.Common.Threads.{
  tally, tally-le, tally_same, tally_none, thread_of_tally,
}
use low_latency_experiments.Mpmc.Coarse.{Pc, outside, pop_asleep, System, Step}
use low_latency_experiments.Mpmc.Coarse.Invariant.{asleep, serving}
use low_latency_experiments.Mpmc.Coarse.Runs.{Reach-Inv}
use low_latency_experiments.Mpmc.Coarse.Safety.{starts, by_itself, no_deadlock}
use low_latency_experiments.Mpmc.Coarse.Calls.{pushing, popping}
use low_latency_experiments.Mpmc.Coarse.Program.{Program, ProgramStep, unasked, ProgramReach}
use low_latency_experiments.Mpmc.Coarse.Counts.{calls, reach-Counts}

-- In a call and not asleep.
abbrev active : {V : Type 0} → Pc V → ℕ
active outside = 0
active pop_asleep = 0
active _ = 1

-- All calls have been started and have returned.
abbrev pub IsFinished : ℕ → Program → Type 0
IsFinished n p = (i : ℕ) → i < n → (p.system.pc i ≡ outside) × (p.to_push i ≡ 0) × (p.to_pop i ≡ 0)

-- A step is possible that is not a wake-up with no notification.
abbrev pub Moves : ℕ → Program → Type 0
Moves n p = (q : Program) × (st : ProgramStep n p q) × (unasked st ≡ false)

quiet : {V : Type 0} (q : Pc V) → active q ≡ 0 → (q ≡ outside) ⊎ (q ≡ pop_asleep)
quiet outside e = inl refl
quiet pop_asleep e = inr refl
quiet _ e = absurd (cc e)

active-calls : {V : Type 0} (q : Pc V) → 0 < active q → (q ≢ outside) × (q ≢ pop_asleep)
active-calls q lt = (λ e. ground arith, λ e. ground arith)

starts_of :
    {V : Type 0} {n : ℕ} {s t : System V} (st : Step n s t)
    → by_itself st ≡ false
    → starts st ≡ false
starts_of (Step.call_push i v lt e) f = f
starts_of (Step.call_pop i lt e) f = f
starts_of _ f = refl

quiet-pushing : {V : Type 0} (q : Pc V) → active q ≡ 0 → pushing q ≡ 0
quiet-pushing q e = elim (quiet q e) [ inl f ↦ ap pushing f | inr f ↦ ap pushing f ]

quiet-serving : {V : Type 0} (q : Pc V) → active q ≡ 0 → serving q ≡ 0
quiet-serving q e = elim (quiet q e) [ inl f ↦ ap serving f | inr f ↦ ap serving f ]

asleep-popping : {V : Type 0} (q : Pc V) → 0 < asleep q → 0 < popping q
asleep-popping pop_asleep lt = omega arith
asleep-popping _ lt = absurd (omega arith)

awake-outside : {V : Type 0} (q : Pc V) → active q ≡ 0 → asleep q ≡ 0 → q ≡ outside
awake-outside q e f = elim (quiet q e) [ inl g ↦ g | inr g ↦ absurd (cc (f, ap asleep g)) ]

successor : (k : ℕ) → 0 < k → (j : ℕ) × (k ≡ suc j)
successor zero lt = absurd (omega arith)
successor (suc k) lt = (k, refl)

module _ {writers readers iterations : ℕ} (fewer : readers ≤ writers) {p : Program}
    (r : ProgramReach writers readers iterations p) where
  -- A writer that has values left and is in no call starts the next push.
  writer-Moves :
      tally active (writers + readers) p.system.pc ≡ 0
      → 0 < tally calls (writers + readers) p.to_push
      → Moves (writers + readers) p
  writer-Moves none_active some_left =
      let inv = reach-Counts r in
      let (i, lt, left) = thread_of_tally calls (writers + readers) p.to_push some_left in
      let (k, e) = successor (p.to_push i) left in
      elim (quiet (p.system.pc i) (tally_none active _ i p.system.pc none_active lt)) [
        | inl out ↦ (_, ProgramStep.write i k lt out e, refl)
        | inr sleep ↦ elim (dec_lt i writers) [
          | yes below ↦ absurd (cc ((inv.of_writer i below).0, ap popping sleep))
          | no above ↦ absurd (cc (inv.of_reader i (omega arith), e))
        ]
      ]

  -- Where all values have been pushed and every thread that is in a call sleeps, none is.
  nobody_sleeps :
      tally active (writers + readers) p.system.pc ≡ 0
      → tally calls (writers + readers) p.to_push ≡ 0
      → tally asleep (writers + readers) p.system.pc ≡ 0
  nobody_sleeps none_active none_left =
      elim (dec_lt 0 (tally asleep (writers + readers) p.system.pc)) [
        | no z ↦ omega arith
        | yes some_asleep ↦
            let inv = reach-Counts r in
            let coarse = Reach-Inv inv.reach in
            let calm : (i : ℕ) → i < writers + readers → active (p.system.pc i) ≡ 0 =
              (λ i lt. tally_none active _ i p.system.pc none_active lt) in
            let none_pushing =
              tally_same pushing (writers + readers) 0 p.system.pc
                (λ i lt. quiet-pushing (p.system.pc i) (calm i lt)) in
            let none_serving =
              tally_same serving (writers + readers) 0 p.system.pc
                (λ i lt. quiet-serving (p.system.pc i) (calm i lt)) in
            let (i, lt, sleeps) =
              thread_of_tally asleep (writers + readers) p.system.pc some_asleep in
            let waits : 0 < popping (p.system.pc i) = asleep-popping (p.system.pc i) sleeps in
            let made : length p.system.returned + length p.system.queue ≡ length p.system.pushed =
              sym (length-append p.system.returned p.system.queue) ∙ ap length coarse.in_order in
            let enough = mul-le-mul_right iterations fewer in
            elim coarse.served [
              | inl none_asleep ↦ none_asleep
              | inr served ↦ absurd (
                  omega (
                    arith,
                    inv.pushes,
                    inv.pops,
                    none_pushing,
                    none_serving,
                    none_left,
                    made,
                    enough,
                    served,
                    waits,
                    tally-le popping (writers + readers) i p.system.pc lt,
                  ))
            ]
      ]

  -- Nobody is in a call, and all values have been pushed.
  reader-Moves :
      tally active (writers + readers) p.system.pc ≡ 0
      → tally calls (writers + readers) p.to_push ≡ 0
      → IsFinished (writers + readers) p ⊎ Moves (writers + readers) p
  reader-Moves none_active none_left =
      let none_asleep = nobody_sleeps none_active none_left in
      let out : (i : ℕ) → i < writers + readers → p.system.pc i ≡ outside = (λ i lt.
        awake-outside (p.system.pc i) (tally_none active _ i p.system.pc none_active lt)
          (tally_none asleep _ i p.system.pc none_asleep lt)) in
      elim (dec_lt 0 (tally calls (writers + readers) p.to_pop)) [
        | yes some_left ↦
            let (i, lt, left) = thread_of_tally calls (writers + readers) p.to_pop some_left in
            let (k, e) = successor (p.to_pop i) left in
            inr (_, ProgramStep.read i k lt (out i lt) e, refl)
        | no z ↦ inl (λ i lt. (
          out i lt,
          tally_none calls _ i p.to_push none_left lt,
          tally_none calls _ i p.to_pop (omega arith) lt,
        ))
      ]

  -- With no more readers than writers, in every state that the threads of the program can reach,
  -- either all of them have finished, or a step is possible that is not a wake-up with no notification.
  pub never_stuck : IsFinished (writers + readers) p ⊎ Moves (writers + readers) p
  never_stuck =
      let inv = reach-Counts r in
      elim (dec_lt 0 (tally active (writers + readers) p.system.pc)) [
        | yes some_active ↦
            let (i, lt, a) = thread_of_tally active (writers + readers) p.system.pc some_active in
            let (in_call, awake) = active-calls (p.system.pc i) a in
            let (t, st, e) = no_deadlock inv.reach i lt in_call awake in
            inr (_, ProgramStep.go_on st (starts_of st e), e)
        | no z ↦ elim (dec_lt 0 (tally calls (writers + readers) p.to_push)) [
          | yes some_left ↦ inr (writer-Moves (omega arith) some_left)
          | no none_left ↦ reader-Moves (omega arith) (omega arith)
        ]
      ]

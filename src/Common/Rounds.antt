-- ===== src/Common/Rounds.antt =====
-- Schedules that come in rounds, in each of which every thread that counts takes a step: a measure that
-- no step raises, and that some thread is able to lower, falls in every round.
use Prim.Native.Nat.{ℕ, suc, ◌≤◌, ◌<◌}
use mathlib.Core.Path.{◌≡◌, refl, sym, ◌∙◌}
use mathlib.Core.Logic.{◌≢◌, ◌⊎◌, inl, inr}
use mathlib.Core.List.{List, [], ◌∷◌, ◌++◌, flatten}
use mathlib.Core.Option.{Option, some}
use native.Mathlib.Omega.{arith}
use low_latency_experiments.Common.Lists.{length}
use low_latency_experiments.Common.Tests.{◌>>=◌}

-- `who` says which thread takes a step; the rest of what is picked is chance.
module _ {T U : Type 0} (who : T → U) where
  abbrev pub Occurs : U → List T → Type 0
  Occurs u [] = ⊥
  Occurs u (t ∷ ts) = (who t ≡ u) ⊎ Occurs u ts

  -- Each round holds a step of every thread that counts.
  abbrev pub AllTakePart : (U → Type 0) → List (List T) → Type 0
  AllTakePart Counts [] = Unit {0}
  AllTakePart Counts (r ∷ rs) = ((u : U) → Counts u → Occurs u r) × AllTakePart Counts rs

-- A program whose threads take turns. `Ready u s` says that a step of `u` lowers the measure.
pub record Progress {S T U : Type 0} (who : T → U) (step : T → S → Option S)
    (run : List T → S → Option S) (Inv : S → Type 0) (measure : S → ℕ) (Counts : U → Type 0)
    (Ready : U → S → Type 0) : Type 0 where
  pub run_none : (s : S) → run [] s ≡ some s
  pub run_next : (t : T) (ts : List T) (s : S) → run (t ∷ ts) s ≡ (step t s >>= run ts)
  pub keeps :
      (t : T) (s : S) → Inv s → (s' : S) × (step t s ≡ some s') × Inv s' × (measure s' ≤ measure s)
  pub effect :
      (t : T) (u : U) (s s' : S)
      → Inv s
      → Ready u s
      → step t s ≡ some s'
      → (measure s' < measure s) ⊎ ((who t ≢ u) × Ready u s')
  pub awake : (s : S) → Inv s → (measure s ≡ 0) ⊎ ((u : U) × Counts u × Ready u s)

module _ {S T U : Type 0} {who : T → U} {step : T → S → Option S} {run : List T → S → Option S}
    {Inv : S → Type 0} {measure : S → ℕ} {Counts : U → Type 0} {Ready : U → S → Type 0}
    (p : Progress who step run Inv measure Counts Ready) where
  -- A run is defined, keeps the invariant, and raises the measure never.
  abbrev pub Ends : List T → S → ℕ → Type 0
  Ends ts s most = (s' : S) × (run ts s ≡ some s') × Inv s' × (measure s' ≤ most)

  run_stepped : (t : T) (ts : List T) (s s' : S) → step t s ≡ some s' → run (t ∷ ts) s ≡ run ts s'
  run_stepped t ts s s' e = p.run_next t ts s ∙ rw e

  pub run_keeps : (ts : List T) (s : S) → Inv s → Ends ts s (measure s)
  run_keeps [] s inv = (s, p.run_none s, inv, omega arith)
  run_keeps (t ∷ ts) s inv =
      let (s1, stepped, inv1, le1) = p.keeps t s inv in
      let (s2, ran, inv2, le2) = run_keeps ts s1 inv1 in
      (s2, run_stepped t ts s s1 stepped ∙ ran, inv2, omega arith)

  run-append :
      (ts us : List T) (s s' : S) → Inv s → run ts s ≡ some s' → run (ts ++ us) s ≡ run us s'
  run-append [] us s s' inv e = let same : s ≡ s' = cc (e, p.run_none s) in rw same refl
  run-append (t ∷ ts) us s s' inv e =
      let (s1, stepped, inv1, le1) = p.keeps t s inv in
      run_stepped t (ts ++ us) s s1 stepped
      ∙ run-append ts us s1 s' inv1 (sym (run_stepped t ts s s1 stepped) ∙ e)

  -- A ready thread that takes part lowers the measure, unless another has done so before.
  round_lowers :
      (ts : List T) (u : U) (s : S) {k : ℕ}
      → Inv s
      → Ready u s
      → Occurs who u ts
      → measure s ≤ suc k
      → Ends ts s k
  round_lowers [] u s inv ready takes le = absurd takes
  round_lowers (t ∷ ts) u s {k} inv ready takes le =
      let (s1, stepped, inv1, le1) = p.keeps t s inv in
      elim (p.effect t u s s1 inv ready stepped) [
        | inl lower ↦
            let (s2, ran, inv2, le2) = run_keeps ts s1 inv1 in
            (s2, run_stepped t ts s s1 stepped ∙ ran, inv2, omega arith)
        | inr (other, ready1) ↦
            let (s2, ran, inv2, le2) =
              round_lowers ts u s1 {k = k} inv1 ready1 (later other takes) (omega arith) in
            (s2, run_stepped t ts s s1 stepped ∙ ran, inv2, le2)
      ]
    where
      later : who t ≢ u → Occurs who u (t ∷ ts) → Occurs who u ts
      later other (inl same) = absurd (other same)
      later other (inr rest) = rest

  -- As many rounds as the measure says bring it down to 0.
  pub rounds_suffice :
      (rounds : List (List T)) (s : S)
      → Inv s
      → AllTakePart who Counts rounds
      → measure s ≤ length rounds
      → Ends (flatten rounds) s 0
  unfolding flatten
  rounds_suffice [] s inv all le = (s, p.run_none s, inv, le)
  rounds_suffice (r ∷ rounds) s inv (takes, all) le =
      let (s1, ran, inv1, le1) = one_round in
      let (s2, ran', inv2, le2) = rounds_suffice rounds s1 inv1 all (omega arith) in
      (s2, run-append r (flatten rounds) s s1 inv ran ∙ ran', inv2, le2)
    where
      one_round : Ends r s (length rounds)
      one_round = elim (p.awake s inv) [
        | inl none_left ↦
            let (s1, ran, inv1, le1) = run_keeps r s inv in (s1, ran, inv1, omega arith)
        | inr (u, counts, ready) ↦ round_lowers r u s inv ready (takes u counts) le
      ]

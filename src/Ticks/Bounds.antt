-- ===== src/Ticks/Bounds.antt =====
-- What the counter is after the loops, and up to which argument the loops are defined.
use low_latency_experiments.Common.{
  ℕ, zero, suc, ◌+◌, ◌-◌, ◌*◌, ◌≤◌, ◌<◌, ◌≡◌, ap, ◌∙◌, none, some, arith, dec_le, subst,
}
use low_latency_experiments.Common.Int.{pos, int_max}
use low_latency_experiments.Ticks.Crtp.{
  CrtpDerived, tick, derived_tick, inner_loop, outer_loop, test_crtp, derived_impl,
}
use native.Mathlib.Nat.{mul-le-mul}

abbrev counter : ℕ → CrtpDerived
counter c = record { m_counter = pos c }

-- The sum of the arguments of `rounds` ticks from `j` on.
abbrev pub sum_from : ℕ → ℕ → ℕ
sum_from zero j = 0
sum_from (suc rounds) j = j + sum_from rounds (j + 1)

sum_closed : (rounds j : ℕ) → 2 * sum_from rounds j + rounds ≡ rounds * (2 * j + rounds)
sum_closed zero j = omega arith
sum_closed (suc rounds) j = omega (arith, sum_closed rounds (j + 1))

tick_defined :
    (c j : ℕ) → c + j ≤ int_max → tick (counter c) (pos j) ≡ some (pos (c + j), counter (c + j))
unfolding tick derived_tick
tick_defined c j h = ground arith

tick_overflow : (c j : ℕ) → int_max < c + j → tick (counter c) (pos j) ≡ none
unfolding tick derived_tick
tick_overflow c j h = ground arith

inner_value :
    (rounds j c : ℕ)
    → c + sum_from rounds j ≤ int_max
    → inner_loop rounds j (counter c) ≡ some (counter (c + sum_from rounds j))
unfolding inner_loop
inner_value zero j c h = ap (λ k. some (counter k)) (omega arith)
inner_value (suc rounds) j c h =
    rw (tick_defined c j (omega arith))
      (inner_value rounds (j + 1) (c + j) (omega arith) ∙ ap (λ k. some (counter k)) (omega arith))

inner_overflow :
    (rounds j c : ℕ)
    → c ≤ int_max
    → int_max < c + sum_from rounds j
    → inner_loop rounds j (counter c) ≡ none
unfolding inner_loop
inner_overflow zero j c small h = absurd (omega arith)
inner_overflow (suc rounds) j c small h = elim (dec_le (c + j) int_max) [
  | yes le ↦ rw (tick_defined c j le) (inner_overflow rounds (j + 1) (c + j) le (omega arith))
  | no gt ↦ rw (tick_overflow c j (omega arith))
]

outer_value :
    (rounds width c : ℕ)
    → c + rounds * sum_from width 0 ≤ int_max
    → outer_loop rounds width (counter c) ≡ some (counter (c + rounds * sum_from width 0))
unfolding outer_loop
outer_value zero width c h = ap (λ k. some (counter k)) (omega arith)
outer_value (suc rounds) width c h = rw (inner_value width 0 c (omega arith)) (
    outer_value rounds width (c + sum_from width 0) (omega arith)
    ∙ ap (λ k. some (counter k)) (omega arith))

outer_overflow :
    (rounds width c : ℕ)
    → c ≤ int_max
    → int_max < c + rounds * sum_from width 0
    → outer_loop rounds width (counter c) ≡ none
unfolding outer_loop
outer_overflow zero width c small h = absurd (omega arith)
outer_overflow (suc rounds) width c small h = elim (dec_le (c + sum_from width 0) int_max) [
  | yes le ↦
      rw (inner_value width 0 c le)
        (outer_overflow rounds width (c + sum_from width 0) le (omega arith))
  | no gt ↦ rw (inner_overflow width 0 c small (omega arith))
]

total_closed : (n : ℕ) → 2 * (n * sum_from n 0) + n * n ≡ n * n * n
total_closed n = omega (arith, ap (λ (t : ℕ). n * t) (sum_closed n 0))

cube_le : (m : ℕ) → m ≤ 1624 → (m + 1) * (m + 1) * m ≤ 1625 * 1625 * 1624
cube_le m h = times
  where
    square : (m + 1) * (m + 1) ≤ 1625 * 1625
    square = let below : m + 1 ≤ 1625 = omega arith in mul-le-mul below below

    times : (m + 1) * (m + 1) * m ≤ 1625 * 1625 * 1624
    times = mul-le-mul square h

total_small : (n : ℕ) → n ≤ 1625 → n * sum_from n 0 ≤ int_max
total_small zero h = omega arith
total_small (suc m) h = omega (arith, total_closed (suc m), cube_le m (omega arith))

total_large : (d : ℕ) → int_max < (1626 + d) * sum_from (1626 + d) 0
total_large d = omega (arith, total_closed (1626 + d))

-- With an argument `n` of at most 1625 the program is defined and the counter ends at
-- n * (0 + 1 + ... + (n - 1)), which is half of n * n * (n - 1).
pub counter_value :
    (n : ℕ)
    → n ≤ 1625
    → (c : ℕ) × (test_crtp (pos n) ≡ some (record { m_counter = pos c }))
      × (2 * c + n * n ≡ n * n * n)
unfolding test_crtp
counter_value n h = (
  0 + n * sum_from n 0,
  outer_value n n 0 (omega (arith, total_small n h)),
  omega (arith, total_closed n),
)

-- From the argument 1626 on the counter overflows an `int`, which is undefined.
pub counter_overflow : (n : ℕ) → 1626 ≤ n → test_crtp (pos n) ≡ none
unfolding test_crtp
counter_overflow n h =
    let split : 1626 + (n - 1626) ≡ n = omega arith in
    outer_overflow n n 0 (omega arith)
      (omega (arith, subst (λ k. int_max < k * sum_from k 0) split (total_large (n - 1626))))

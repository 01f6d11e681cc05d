-- ===== src/Common/Int.antt =====
-- Signed integers over the native numbers, under the library's names, and the C++ `int`.
use Prim.Native.Nat.{ℕ, ◌+◌, ◌-◌, ◌^◌, suc, ◌*◌, ◌%◌}
use mathlib.Core.Option.{Option, none, some}
use low_latency_experiments.Common.Tests.{ltb, if◌then◌else◌, leb, ◌==◌}
use mathlib.Core.Bool.{Bool, false, true}
use mathlib.Core.Path.{◌≡◌, refl, ap}
use mathlib.Core.Logic.{◌≢◌, ◌⊎◌, inl, inr}
use native.Mathlib.Omega.{arith}
use native.Mathlib.Decide.{ℕ_discrete}

-- `negsuc n` is -(n + 1).
pub data ℤ : Type 0 where
  pos : ℕ → ℤ
  negsuc : ℕ → ℤ

-- The largest `int`, and the largest `int64_t` (`long`).
abbrev pub int_max : ℕ
int_max = 2 ^ 31 - 1

abbrev pub int64_max : ℕ
int64_max = 2 ^ 63 - 1

-- `n + 1` on a signed word whose largest value is `top`, at an `n` that is not negative: past `top`
-- the behaviour is undefined.
abbrev pub succ_below : ℕ → ℕ → Option ℕ
succ_below top n = if ltb n top then some (n + 1) else none

abbrev pub pos_part : ℤ → ℕ
pos_part (pos n) = n
pos_part (negsuc n) = 0

abbrev pub neg_part : ℤ → ℕ
neg_part (pos n) = 0
neg_part (negsuc n) = suc n

-- a - b, as an integer.
abbrev pub sub_ℕ : ℕ → ℕ → ℤ
sub_ℕ a b = if leb b a then pos (a - b) else negsuc (b - a - 1)

infixl 65 ◌+ℤ◌
abbrev pub ◌+ℤ◌ : ℤ → ℤ → ℤ
a +ℤ b = sub_ℕ (pos_part a + pos_part b) (neg_part a + neg_part b)

-- Whether a signed word with the largest value `top` holds the integer.
abbrev pub fits : ℕ → ℤ → Bool
fits top (pos n) = leb n top
fits top (negsuc n) = leb n top

-- The sum of two signed words; where it does not fit the behaviour is undefined.
abbrev pub add_below : ℕ → ℤ → ℤ → Option ℤ
add_below top a b = if fits top (a +ℤ b) then some (a +ℤ b) else none

-- The sum of two signed words that wraps: the integer that fits and is equal modulo `2 * (top + 1)`.
-- It is meant for two words that fit.
abbrev pub add_wrapping : ℕ → ℤ → ℤ → ℤ
add_wrapping top a b = if fits top (a +ℤ b) then a +ℤ b else wrapped (a +ℤ b)
  where
    wrapped : ℤ → ℤ
    wrapped (pos n) = negsuc (2 * (top + 1) - n - 1)
    wrapped (negsuc n) = pos (2 * (top + 1) - n - 1)

-- The conversion of an integer to `int`: equal modulo 2 ^ 32.
abbrev pub to_int : ℤ → ℤ
to_int (pos n) = let m = n % 2 ^ 32 in if leb m int_max then pos m else negsuc (2 ^ 32 - m - 1)
to_int (negsuc n) = let m = n % 2 ^ 32 in if leb m int_max then negsuc m else pos (2 ^ 32 - m - 1)

-- The test of two integers for equality.
abbrev pub eqb : ℤ → ℤ → Bool
eqb (pos m) (pos n) = m == n
eqb (negsuc m) (negsuc n) = m == n
eqb _ _ = false

pub eqb_refl : (a : ℤ) → eqb a a ≡ true
eqb_refl (pos m) = ground arith
eqb_refl (negsuc m) = ground arith

pub eqb_of_ne : (a b : ℤ) → a ≢ b → eqb a b ≡ false
eqb_of_ne (pos m) (pos n) ne = ground arith
eqb_of_ne (negsuc m) (negsuc n) ne = ground arith
eqb_of_ne (pos m) (negsuc n) ne = refl
eqb_of_ne (negsuc m) (pos n) ne = refl

pub ℤ-cases : (a b : ℤ) → (a ≡ b) ⊎ (a ≢ b)
ℤ-cases (pos m) (pos n) = elim (ℕ_discrete m n) [
  | yes e ↦ inl (ap pos e)
  | no ne ↦ inr (λ e. ne (ground arith))
]
ℤ-cases (negsuc m) (negsuc n) = elim (ℕ_discrete m n) [
  | yes e ↦ inl (ap negsuc e)
  | no ne ↦ inr (λ e. ne (ground arith))
]
ℤ-cases (pos m) (negsuc n) = inr (λ e. cc)
ℤ-cases (negsuc m) (pos n) = inr (λ e. cc)

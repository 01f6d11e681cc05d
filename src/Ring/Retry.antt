-- ===== src/Ring/Retry.antt =====
-- What a thread that retries has left of its call: while it waits for the other thread, every access of
-- its retries weighs the same.
use low_latency_experiments.Common.{ℕ, zero, suc, ◌≤◌, ◌<◌, ◌≡◌, refl, arith}

-- Five while it waits, else the accesses left.
abbrev pub waits : ℕ → ℕ → ℕ
waits zero left = 5
waits (suc k) left = left

pub waits-le : (k left : ℕ) → left ≤ 5 → waits k left ≤ 5
waits-le zero left h = omega arith
waits-le (suc k) left h = h

pub waits_pos : (k left : ℕ) → 0 < k → waits k left ≡ left
waits_pos zero left h = absurd (omega arith)
waits_pos (suc k) left h = refl

pub waits_zero : (k left : ℕ) → k ≡ 0 → waits k left ≡ 5
waits_zero zero left e = refl
waits_zero (suc k) left e = absurd (omega arith)

pub waits_same : (k a b : ℕ) → a ≤ b → waits k a ≤ waits k b
waits_same zero a b h = omega arith
waits_same (suc k) a b h = h

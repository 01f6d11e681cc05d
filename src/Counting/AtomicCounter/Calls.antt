-- ===== src/Counting/AtomicCounter/Calls.antt =====
-- One call of `AtomicCounter`.
use low_latency_experiments.Common.{ℕ, ◌≤◌, ◌≡◌, ◌↔◌, true, arith}
use low_latency_experiments.Common.Int.{ℤ, pos, negsuc, int_max, int64_max, fits}
use low_latency_experiments.Counting.AtomicCounter.{increment, decrement, get}

-- On any `long`, `decrement` undoes `increment` and `increment` undoes `decrement`, also where they
-- wrap.
pub decrement-increment :
    (value : ℤ)
    → fits int64_max value ≡ true
    → (decrement (increment value) ≡ value) × (increment (decrement value) ≡ value)
unfolding increment decrement
decrement-increment (pos n) h = (ground arith, ground arith)
decrement-increment (negsuc n) h = (ground arith, ground arith)

-- On a `long` that is not negative `get` returns the value exactly when it fits an `int`.
pub get_exact : (n : ℕ) → n ≤ int64_max → (get (pos n) ≡ pos n) ↔ (n ≤ int_max)
unfolding get
get_exact n h = (λ e. ground arith, λ e. ground arith)

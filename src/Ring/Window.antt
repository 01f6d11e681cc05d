-- ===== src/Ring/Window.antt =====
-- What a ring holds: the values from a read position on, going round at the size of the buffer.
use native.Mathlib.Nat.{mod-add-mod, mod-eq_of_lt, mod-eq-sub-mod, mod-lt}
use low_latency_experiments.Common.{
  ℕ, zero, suc, ◌+◌, ◌-◌, ◌%◌, ◌≤◌, ◌<◌, ◌≡◌, refl, sym, ap, ap₂, ◌≢◌, ◌⊎◌, inl, inr, ◌∙◌, List, [],
  ◌∷◌, ◌++◌, arith, length, get_or, set, get_or-set_self, get_or-set_ne, dec_lt,
}
use low_latency_experiments.Common.Int.{ℤ, pos}

-- An `int64_t` that is only moved.
abbrev pub Value : Type 0
Value = ℤ

-- `buffer[i]`
abbrev pub cell : List Value → ℕ → Value
cell buf i = get_or buf i (pos 0)

module _ (buf : List Value) (size : ℕ) where
  -- The `n` values from position `h` on; a position is taken modulo the size.
  abbrev pub window : ℕ → ℕ → List Value
  window h zero = []
  window h (suc n) = cell buf (h % size) ∷ window (h + 1) n

  pub length-window : (h n : ℕ) → length (window h n) ≡ n
  length-window h zero = refl
  length-window h (suc n) = ap suc (length-window (h + 1) n)

  -- `window` matches on `suc`.
  pub window_of_pos : (h n : ℕ) → 0 < n → window h n ≡ cell buf (h % size) ∷ window (h + 1) (n - 1)
  window_of_pos h zero p = absurd (omega arith)
  window_of_pos h (suc n) p = ap (λ k. window h (suc k)) (omega arith)

  -- One more value at the end.
  pub window-snoc : (h n : ℕ) → window h (suc n) ≡ window h n ++ cell buf ((h + n) % size) ∷ []
  window-snoc h zero = ap (λ k. cell buf (k % size) ∷ []) (omega arith)
  window-snoc h (suc n) =
      ap (λ r. cell buf (h % size) ∷ r)
        (window-snoc (h + 1) n
          ∙ ap (λ k. window (h + 1) n ++ cell buf (k % size) ∷ []) (omega arith))

  -- The start of a window matters modulo the size only.
  pub window-cong : (h k n : ℕ) → h % size ≡ k % size → window h n ≡ window k n
  window-cong h k zero e = refl
  window-cong h k (suc n) e = ap₂ ◌∷◌ (ap (cell buf) e) (window-cong (h + 1) (k + 1) n next)
    where
      next : (h + 1) % size ≡ (k + 1) % size
      next =
          omega
            (arith, mod-add-mod h size 1, mod-add-mod k size 1, ap (λ (r : ℕ). (r + 1) % size) e)

-- Fewer than `size` steps round the ring do not come back to the start.
pub add-mod-ne : (size h k : ℕ) → 0 < k → k < size → (h + k) % size ≢ h % size
add-mod-ne size h k p q e = elim (dec_lt (h % size + k) size) [
  | yes below ↦
      omega (arith, mod-add-mod h size k, mod-eq_of_lt below, mod-lt h {m = size} (omega arith))
  | no past ↦ omega (
    arith,
    mod-add-mod h size k,
    mod-lt h {m = size} (omega arith),
    mod-eq-sub-mod {n = h % size + k} {m = size} (omega arith),
    mod-eq_of_lt {n = h % size + k - size} {m = size}
        (omega (arith, mod-lt h {m = size} (omega arith))),
  )
]

-- A write just past a window leaves it.
pub window-set :
    (buf : List Value) (size h n i : ℕ) (x : Value)
    → n < size
    → i ≡ (h + n) % size
    → window (set buf i x) size h n ≡ window buf size h n
window-set buf size h zero i x lt e = refl
window-set buf size h (suc n) i x lt e =
    ap₂ ◌∷◌
      (get_or-set_ne buf i (h % size) x (pos 0)
        (λ f. add-mod-ne size h (suc n) (omega arith) lt (sym e ∙ f)))
      (window-set buf size (h + 1) n i x (omega arith) (e ∙ ap (λ k. k % size) (omega arith)))

-- A write just past a window extends it by the value.
pub window-set_snoc :
    (buf : List Value) (size h n i : ℕ) (x : Value)
    → size ≤ length buf
    → n < size
    → i ≡ (h + n) % size
    → window (set buf i x) size h (suc n) ≡ window buf size h n ++ x ∷ []
window-set_snoc buf size h n i x big lt e =
    window-snoc (set buf i x) size h n
    ∙ ap₂ (λ l v. l ++ v ∷ []) (window-set buf size h n i x lt e) here
  where
    here : cell (set buf i x) ((h + n) % size) ≡ x
    here =
        rw (← e)
          (get_or-set_self buf i x (pos 0) (omega (arith, mod-lt (h + n) {m = size} (omega arith))))

-- The remainder below twice the size.
pub wrap_cases :
    (size n : ℕ)
    → n < size + size
    → ((n < size) × (n % size ≡ n)) ⊎ ((size ≤ n) × (n % size ≡ n - size))
wrap_cases size n lt = elim (dec_lt n size) [
  | yes below ↦ inl (below, mod-eq_of_lt below)
  | no past ↦ inr (
    omega arith,
    mod-eq-sub-mod {n = n} {m = size} (omega arith) ∙ mod-eq_of_lt {n = n - size} (omega arith),
  )
]

-- ===== src/Common/Threads.antt =====
-- Families indexed by thread: a new state for one thread, and how many of the first `n` are somewhere.
use Prim.Native.Nat.{ℕ, zero, suc, ◌+◌, ◌*◌, ◌≤◌, ◌<◌}
use mathlib.Core.Path.{◌≡◌, refl}
use mathlib.Core.Logic.{ite, if_pos, if_neg, ◌≢◌}
use native.Mathlib.Decide.{dec_lt, ℕ_discrete}
use native.Mathlib.Omega.{arith}

-- Thread `i` moves to `a`; the others stay.
abbrev pub assign {ℓ} : {A : Type ℓ} → (ℕ → A) → ℕ → A → ℕ → A
assign f i a j = ite (ℕ_discrete j i) a (f j)

pub assign_other {ℓ} :
    {A : Type ℓ} (f : ℕ → A) (i : ℕ) (a : A) (j : ℕ) → j ≢ i → assign f i a j ≡ f j
assign_other f i a j ne = if_neg (ℕ_discrete j i) ne a (f j)

pub assign_self {ℓ} : {A : Type ℓ} (f : ℕ → A) (i : ℕ) (a : A) → assign f i a i ≡ a
assign_self f i a = if_pos (ℕ_discrete i i) refl a (f i)

-- What holds of the new state of one thread and of all threads before holds of all after.
pub assign-all :
    {A : Type 0} (P : A → Type 0) (f : ℕ → A) (i : ℕ) (a : A)
    → P a
    → ((j : ℕ) → j ≢ i → P (f j))
    → (j : ℕ) → P (assign f i a j)
assign-all P f i a new old j = elim (ℕ_discrete j i) as (λ d. P (ite d a (f j))) [
  | yes e ↦ new
  | no ne ↦ old j ne
]

module _ {ℓ} {A : Type ℓ} (weight : A → ℕ) where
  -- The weights of the first `n` threads together.
  pub tally : ℕ → (ℕ → A) → ℕ
  tally zero f = 0
  tally (suc n) f = weight (f n) + tally n f

  pub tally-assign_above :
      (n i : ℕ) (f : ℕ → A) (a : A) → n ≤ i → tally n (assign f i a) ≡ tally n f
  unfolding tally
  tally-assign_above zero i f a h = refl
  tally-assign_above (suc n) i f a h = ground (arith, tally-assign_above n i f a)

  -- One thread's move changes the sum by the difference of its weights.
  pub tally-assign :
      (n i : ℕ) (f : ℕ → A) (a : A)
      → i < n
      → tally n (assign f i a) + weight (f i) ≡ tally n f + weight a
  unfolding tally
  tally-assign zero i f a h = absurd (omega arith)
  tally-assign (suc n) i f a h = elim (dec_lt i n) [
    | yes below ↦ ground (arith, tally-assign n i f a below)
    | no last ↦ ground (arith, tally-assign_above n i f a)
  ]

  pub tally-assign_same :
      (n i : ℕ) (f : ℕ → A) (a : A) → weight a ≡ weight (f i) → tally n (assign f i a) ≡ tally n f
  tally-assign_same n i f a e = elim (dec_lt i n) [
    | yes lt ↦ omega (arith, tally-assign n i f a lt)
    | no le ↦ tally-assign_above n i f a (omega arith)
  ]

  -- A positive sum has a thread behind it.
  pub thread_of_tally : (n : ℕ) (f : ℕ → A) → 0 < tally n f → (i : ℕ) × (i < n) × (0 < weight (f i))
  unfolding tally
  thread_of_tally zero f h = absurd (omega arith)
  thread_of_tally (suc n) f h = elim (dec_lt 0 (weight (f n))) [
    | yes p ↦ (n, omega arith, p)
    | no z ↦ let (i, lt, p) = thread_of_tally n f (omega arith) in (i, omega arith, p)
  ]

  pub tally-le : (n i : ℕ) (f : ℕ → A) → i < n → weight (f i) ≤ tally n f
  unfolding tally
  tally-le zero i f h = absurd (omega arith)
  tally-le (suc n) i f h = elim (ℕ_discrete i n) [
    | yes e ↦ rw e (omega arith)
    | no ne ↦ omega (arith, tally-le n i f)
  ]

  pub tally_same : (n k : ℕ) (f : ℕ → A) → ((i : ℕ) → i < n → weight (f i) ≡ k) → tally n f ≡ n * k
  unfolding tally
  tally_same zero k f h = omega arith
  tally_same (suc n) k f h = ground (arith, h n, tally_same n k f (λ i lt. h i (omega arith)))

  pub tally_most : (n k : ℕ) (f : ℕ → A) → ((i : ℕ) → weight (f i) ≤ k) → tally n f ≤ n * k
  unfolding tally
  tally_most zero k f h = omega arith
  tally_most (suc n) k f h = omega (arith, h n, tally_most n k f h)

  -- The first `m` threads weigh `j` each, and `n` more weigh `k` each.
  pub tally_split :
      (n m j k : ℕ) (f : ℕ → A)
      → ((i : ℕ) → i < m → weight (f i) ≡ j)
      → ((i : ℕ) → m ≤ i → weight (f i) ≡ k)
      → tally (m + n) f ≡ m * j + n * k
  unfolding tally
  tally_split zero m j k f first others =
      let whole : m + 0 ≡ m = omega arith in rw whole (omega (arith, tally_same m j f first))
  tally_split (suc n) m j k f first others =
      let next : m + suc n ≡ suc (m + n) = omega arith in
      rw next (ground (arith, others (m + n) (omega arith), tally_split n m j k f first others))

  pub tally_none : (n i : ℕ) (f : ℕ → A) → tally n f ≡ 0 → i < n → weight (f i) ≡ 0
  tally_none n i f none lt = omega (arith, none, tally-le n i f lt)

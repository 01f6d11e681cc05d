-- ===== src/Ring/Modular/Calls.antt =====
-- One call of the modular ring, run alone.
use native.Mathlib.Nat.{mod-lt, mod-mod, mod-eq_of_lt}
use low_latency_experiments.Common.{
  ℕ, suc, ◌+◌, ◌-◌, ◌%◌, ◌≤◌, ◌<◌, ◌≡◌, ◌≢◌, ◌⊎◌, inl, inr, ◌↔◌, sym, ap, ◌∙◌, [], ◌∷◌, ◌++◌, true,
  false, none, some, arith, length, set, length-set, ap₂, ℕ_discrete,
}
use low_latency_experiments.Common.Int.{int_max, pos}
use low_latency_experiments.Ring.Window.{
  Value, cell, window_of_pos, window-set_snoc, window-cong, wrap_cases, window-set, window-snoc,
}
use low_latency_experiments.Ring.Memory.{store-in, load-in}
use low_latency_experiments.Ring.Modular.{Ring, increment, try_push, try_pop, stored, contents}

pub record IsValid (r : Ring) : Type 0 where
  pub wide : 1 < r.size
  pub small : r.size ≤ int_max
  pub storage : length r.buffer ≡ r.size
  pub write_in : r.write < r.size
  pub read_in : r.read < r.size

module _ {r : Ring} (ok : IsValid r) where
  -- How many values are stored, without the remainder.
  pub stored_cases :
      ((r.read ≤ r.write) × (stored r ≡ r.write - r.read))
      ⊎ ((r.write < r.read) × (stored r ≡ r.write + r.size - r.read))
  stored_cases = elim (wrap_cases r.size (r.write + r.size - r.read) (omega arith)) [
    | inl (below, e) ↦ inr (omega arith, e)
    | inr (past, e) ↦ inl (omega arith, omega arith)
  ]

  pub stored-lt : stored r < r.size
  stored-lt = omega (arith, stored_cases)

  -- The cell after the last stored value is the one at `write`.
  pub write-eq : r.write ≡ (r.read + stored r) % r.size
  write-eq =
      omega
        (arith, stored_cases, wrap_cases r.size (r.read + stored r) (omega (arith, stored_cases)))

  pub increment_lem : (n : ℕ) → n < r.size → increment r n ≡ some ((n + 1) % r.size)
  unfolding increment
  increment_lem n lt = ground arith

  pub next-lt : (n : ℕ) → (n + 1) % r.size < r.size
  next-lt n = mod-lt (n + 1) (omega arith)

  -- One cell is kept free: the test of `try_push` meets `read` exactly when `size - 1` values are
  -- stored.
  pub full_iff : ((r.write + 1) % r.size ≡ r.read) ↔ (stored r ≡ r.size - 1)
  full_iff = (
    λ e. omega (arith, stored_cases, wrap_cases r.size (r.write + 1) (omega arith)),
    λ e. omega (arith, stored_cases, wrap_cases r.size (r.write + 1) (omega arith)),
  )

  pub empty_iff : (r.read ≡ r.write) ↔ (stored r ≡ 0)
  empty_iff = (λ e. omega (arith, stored_cases), λ e. omega (arith, stored_cases))

  pub room_of_ne : (r.write + 1) % r.size ≢ r.read → stored r < r.size - 1
  room_of_ne ne = elim (ℕ_discrete (stored r) (r.size - 1)) [
    | yes e ↦ absurd (ne (full_iff.1 e))
    | no other ↦ omega (arith, stored-lt)
  ]

  pub stored_pos_of_ne : r.read ≢ r.write → 0 < stored r
  stored_pos_of_ne ne = elim (ℕ_discrete (stored r) 0) [
    | yes e ↦ absurd (ne (empty_iff.1 e))
    | no other ↦ omega arith
  ]

  -- What `try_push` leaves when it returns true.
  abbrev pub pushed : Value → Ring
  pushed v = record r { buffer = set r.buffer r.write v; write = (r.write + 1) % r.size }

  -- What `try_pop` leaves when it returns true.
  abbrev pub popped : Ring
  popped = record r { read = (r.read + 1) % r.size }

  pub try_push-full : (v : Value) → stored r ≡ r.size - 1 → try_push r v ≡ some (false, r)
  unfolding try_push
  try_push-full v full = rw (increment_lem r.write ok.write_in) (ground (arith, full_iff.1 full))

  pub try_push-room : (v : Value) → stored r < r.size - 1 → try_push r v ≡ some (true, pushed v)
  unfolding try_push
  try_push-room v room =
      rw (increment_lem r.write ok.write_in)
        (ground (arith, full_iff.0, store-in r.buffer r.write v))

  pub try_pop-empty : stored r ≡ 0 → try_pop r ≡ some (none, r)
  unfolding try_pop
  try_pop-empty e = ground (arith, empty_iff.1 e)

  pub try_pop-some : 0 < stored r → try_pop r ≡ some (some (cell r.buffer r.read), popped)
  unfolding try_pop
  try_pop-some p = ground (arith, empty_iff.0, load-in r.buffer r.read, increment_lem r.read)

module _ {r : Ring} (ok : IsValid r) where
  pub pushed-IsValid : (v : Value) → IsValid (pushed ok v)
  pushed-IsValid v = omega (arith, length-set r.buffer r.write v, next-lt ok r.write)

  pub popped-IsValid : IsValid (popped ok)
  popped-IsValid = omega (arith, next-lt ok r.read)

  pub stored-pushed : (v : Value) → stored r < r.size - 1 → stored (pushed ok v) ≡ suc (stored r)
  stored-pushed v room = omega (
    arith,
    stored_cases ok,
    wrap_cases r.size (r.write + 1) (omega arith),
    stored_cases (pushed-IsValid v),
  )

  pub stored-popped : 0 < stored r → stored (popped ok) ≡ stored r - 1
  stored-popped p = omega (
    arith,
    stored_cases ok,
    wrap_cases r.size (r.read + 1) (omega arith),
    stored_cases popped-IsValid,
  )

  -- A push that returns true appends its value.
  pub contents-pushed :
      (v : Value) → stored r < r.size - 1 → contents (pushed ok v) ≡ contents r ++ v ∷ []
  contents-pushed v room = rw (stored-pushed v room) (
      window-set_snoc r.buffer r.size r.read (stored r) r.write v (omega arith) (stored-lt ok)
        (write-eq ok))

  -- A pop that returns true takes the first value.
  pub contents-popped : 0 < stored r → contents r ≡ cell r.buffer r.read ∷ contents (popped ok)
  contents-popped p = rw (stored-popped p) (
      window_of_pos r.buffer r.size r.read (stored r) p
      ∙ ap₂ (λ i l. cell r.buffer i ∷ l) (mod-eq_of_lt ok.read_in)
          (window-cong r.buffer r.size (r.read + 1) ((r.read + 1) % r.size) (stored r - 1)
            (sym (mod-mod (r.read + 1) r.size))))

  -- The two halves of a push: the write to the buffer shows nothing, the new index shows the value.
  abbrev pub written : Value → Ring
  written v = record r { buffer = set r.buffer r.write v }

  abbrev pub advanced : Ring
  advanced = record r { write = (r.write + 1) % r.size }

  pub contents-written : (v : Value) → contents (written v) ≡ contents r
  contents-written v =
      window-set r.buffer r.size r.read (stored r) r.write v (stored-lt ok) (write-eq ok)

  pub contents-advanced :
      stored r < r.size - 1 → contents advanced ≡ contents r ++ cell r.buffer r.write ∷ []
  contents-advanced room = rw (stored-pushed (pos 0) room) (
      window-snoc r.buffer r.size r.read (stored r)
      ∙ ap (λ i. contents r ++ cell r.buffer i ∷ []) (sym (write-eq ok)))

-- ===== src/Ring/Counter/Calls.antt =====
-- One call of the ring with counters, run alone.
use native.Mathlib.Nat.{mod-lt}
use low_latency_experiments.Common.{
  ℕ, suc, ◌+◌, ◌-◌, ◌%◌, ◌≤◌, ◌<◌, ◌≡◌, ap, ◌∙◌, [], ◌∷◌, ◌++◌, true, false, none, some, arith,
  length, set,
}
use low_latency_experiments.Common.Int.{int_max}
use low_latency_experiments.Ring.Window.{
  Value, cell, window, window_of_pos, window-set, window-snoc, window-set_snoc,
}
use low_latency_experiments.Ring.Memory.{store-in, load-in}
use low_latency_experiments.Ring.Counter.{Ring, increment, try_push, try_pop, stored, contents}

pub record IsValid (r : Ring) : Type 0 where
  pub positive : 0 < r.size
  pub storage : length r.buffer ≡ r.size
  pub behind : r.read ≤ r.write
  pub fits : r.write ≤ r.read + r.size

pub increment_lem : (n : ℕ) → n < int_max → increment n ≡ some (n + 1)
unfolding increment
increment_lem n lt = ground arith

module _ {r : Ring} (ok : IsValid r) where
  pub write_in : r.write % r.size < length r.buffer
  write_in = omega (arith, mod-lt r.write {m = r.size} ok.positive)

  pub read_in : r.read % r.size < length r.buffer
  read_in = omega (arith, mod-lt r.read {m = r.size} ok.positive)

  abbrev pub pushed : Value → Ring
  pushed v = record r { buffer = set r.buffer (r.write % r.size) v; write = r.write + 1 }

  -- The two halves of a push: the write to the buffer, and the new counter.
  abbrev pub written : Value → Ring
  written v = record r { buffer = set r.buffer (r.write % r.size) v }

  abbrev pub advanced : Ring
  advanced = record r { write = r.write + 1 }

  abbrev pub popped : Ring
  popped = record r { read = r.read + 1 }

  -- Every cell is used: a push fails exactly on `size` values.
  pub try_push-full :
      (v : Value) → r.write < int_max → stored r ≡ r.size → try_push r v ≡ some (false, r)
  unfolding try_push
  try_push-full v lt full = rw (increment_lem r.write lt) (ground arith)

  pub try_push-room :
      (v : Value) → r.write < int_max → stored r < r.size → try_push r v ≡ some (true, pushed v)
  unfolding try_push
  try_push-room v lt room =
      rw (increment_lem r.write lt, store-in r.buffer (r.write % r.size) v write_in) (ground arith)

  -- After 2 ^ 31 - 1 pushes the next one is undefined, full or not.
  pub try_push-overflow : (v : Value) → r.write ≡ int_max → try_push r v ≡ none
  unfolding try_push increment
  try_push-overflow v e = ground arith

  pub try_pop-empty : stored r ≡ 0 → try_pop r ≡ some (none, r)
  unfolding try_pop
  try_pop-empty e = ground arith

  pub try_pop-some :
      r.read < int_max
      → 0 < stored r
      → try_pop r ≡ some (some (cell r.buffer (r.read % r.size)), popped)
  unfolding try_pop
  try_pop-some lt p =
      rw (load-in r.buffer (r.read % r.size) read_in, increment_lem r.read lt) (ground arith)

  pub contents-written : (v : Value) → stored r < r.size → contents (written v) ≡ contents r
  contents-written v room =
      window-set r.buffer r.size r.read (stored r) (r.write % r.size) v room
        (ap (λ k. k % r.size) (omega arith))

  pub contents-advanced : contents advanced ≡ contents r ++ cell r.buffer (r.write % r.size) ∷ []
  contents-advanced =
      let more : r.write + 1 - r.read ≡ suc (stored r) = omega arith in
      rw more (
        window-snoc r.buffer r.size r.read (stored r)
        ∙ ap (λ i. contents r ++ cell r.buffer (i % r.size) ∷ []) (omega arith))

  pub contents-pushed : (v : Value) → stored r < r.size → contents (pushed v) ≡ contents r ++ v ∷ []
  contents-pushed v room =
      let more : r.write + 1 - r.read ≡ suc (stored r) = omega arith in
      rw more (
        window-set_snoc r.buffer r.size r.read (stored r) (r.write % r.size) v (omega arith) room
          (ap (λ k. k % r.size) (omega arith)))

  pub contents-popped :
      0 < stored r → contents r ≡ cell r.buffer (r.read % r.size) ∷ contents popped
  contents-popped p =
      window_of_pos r.buffer r.size r.read (stored r) p
      ∙ ap (λ n. cell r.buffer (r.read % r.size) ∷ window r.buffer r.size (r.read + 1) n)
          (omega arith)

-- ===== src/Ring/Queue.antt =====
-- The specification of a ring buffer: a first-in first-out queue of at most `cap` values.
use low_latency_experiments.Common.{
  ℕ, ◌+◌, ◌-◌, ◌<◌, List, [], ◌∷◌, ◌++◌, ltb, length, Bool, true, false, Option, none, some,
  if◌then◌else◌,
}
use low_latency_experiments.Ring.Window.{Value}

-- A call of `push` or of `pop`.
pub data Call : Type 0 where
  push : Value → Call
  pop : Call

-- The values that the pops return; a pop of the empty queue returns nothing.
unfoldable pub replies : List Value → List Call → List Value
replies q [] = []
replies q (push v ∷ calls) = replies (q ++ v ∷ []) calls
replies [] (pop ∷ calls) = replies [] calls
replies (v ∷ q) (pop ∷ calls) = v ∷ replies q calls

-- What is left in the queue.
unfoldable pub rest : List Value → List Call → List Value
rest q [] = q
rest q (push v ∷ calls) = rest (q ++ v ∷ []) calls
rest [] (pop ∷ calls) = rest [] calls
rest (v ∷ q) (pop ∷ calls) = rest q calls

-- From a queue of `n` values no push meets a full queue and no pop an empty one.
abbrev pub Paced : ℕ → ℕ → List Call → Type 0
Paced cap n [] = Unit {0}
Paced cap n (push v ∷ calls) = (n < cap) × Paced cap (n + 1) calls
Paced cap n (pop ∷ calls) = (0 < n) × Paced cap (n - 1) calls

-- The calls of a queue that refuses a push when it is full and a pop when it is empty.
abbrev pub bounded_push : ℕ → List Value → Value → Bool × List Value
bounded_push cap q v = if ltb (length q) cap then (true, q ++ v ∷ []) else (false, q)

abbrev pub bounded_pop : List Value → Option Value × List Value
bounded_pop [] = (none, [])
bounded_pop (v ∷ q) = (some v, q)

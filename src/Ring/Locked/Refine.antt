-- ===== src/Ring/Locked/Refine.antt =====
-- The locked ring against the queue, for calls that are paced.
use native.Mathlib.Nat.{mod-lt, mod-le}
use low_latency_experiments.Common.{
  ℕ, ◌+◌, ◌-◌, ◌%◌, ◌≤◌, ◌<◌, ◌≡◌, refl, ap, subst, suc, ◌∙◌, List, [], ◌∷◌, ◌++◌, some, arith,
  length, set, length-set,
}
use low_latency_experiments.Common.Int.{int64_max}
use low_latency_experiments.Ring.Window.{Value, cell, window, window_of_pos, window-set_snoc}
use low_latency_experiments.Ring.Memory.{store-in, load-in}
use low_latency_experiments.Ring.Queue.{Call, replies, rest, Paced}
use low_latency_experiments.Ring.Locked.{Ring, push, pop, run}

-- The buffer is `size` cells.
pub record HasBuffer (r : Ring) : Type 0 where
  pub positive : 0 < r.size
  pub storage : length r.buffer ≡ r.size

pub record IsValid (r : Ring) : Type 0 where
  pub positive : 0 < r.size
  pub storage : length r.buffer ≡ r.size
  pub behind : r.read ≤ r.write
  pub fits : r.write ≤ r.read + r.size

-- The number of values in the ring, and the values.
abbrev pub stored : Ring → ℕ
stored r = r.write - r.read

abbrev pub contents : Ring → List Value
contents r = window r.buffer r.size r.read (stored r)

abbrev pub pushed : Ring → Value → Ring
pushed r v = record r { write = r.write + 1; buffer = set r.buffer (r.write % r.size) v }

abbrev pub popped : Ring → Ring
popped r = record r { read = r.read + 1 }

pub push_lem :
    {r : Ring} (v : Value) → HasBuffer r → r.write < int64_max → push r v ≡ some (pushed r v)
unfolding push
push_lem {r} v ok lt =
    ground (arith, store-in r.buffer (r.write % r.size) v, mod-lt r.write {m = r.size} ok.positive)

pub pop_lem :
    {r : Ring}
    → HasBuffer r
    → r.read % r.size < r.write
    → r.read < int64_max
    → pop r ≡ some (cell r.buffer (r.read % r.size), popped r)
unfolding pop
pop_lem {r} ok written lt =
    ground (arith, load-in r.buffer (r.read % r.size), mod-lt r.read {m = r.size} ok.positive)

pub HasBuffer-pushed : {r : Ring} (v : Value) → HasBuffer r → HasBuffer (pushed r v)
HasBuffer-pushed {r} v ok = omega (arith, length-set r.buffer (r.write % r.size) v)

pub pushed-IsValid : {r : Ring} (v : Value) → IsValid r → stored r < r.size → IsValid (pushed r v)
pushed-IsValid {r} v ok lt = omega (arith, length-set r.buffer (r.write % r.size) v)

pub popped-IsValid : {r : Ring} → IsValid r → 0 < stored r → IsValid (popped r)
popped-IsValid ok lt = omega arith

pub contents-pushed :
    {r : Ring} (v : Value)
    → IsValid r
    → stored r < r.size
    → contents (pushed r v) ≡ contents r ++ v ∷ []
contents-pushed {r} v ok lt =
    let more : r.write + 1 - r.read ≡ suc (stored r) = omega arith in
    rw more (
      window-set_snoc r.buffer r.size r.read (stored r) (r.write % r.size) v (omega arith) lt
        (ap (λ k. k % r.size) (omega arith)))

pub contents-popped :
    {r : Ring}
    → IsValid r
    → 0 < stored r
    → contents r ≡ cell r.buffer (r.read % r.size) ∷ contents (popped r)
contents-popped {r} ok lt =
    window_of_pos r.buffer r.size r.read (stored r) lt
    ∙ ap (λ n. cell r.buffer (r.read % r.size) ∷ window r.buffer r.size (r.read + 1) n)
        (omega arith)

-- On a valid ring, calls that never push onto a full queue nor pop from an empty one, with the counter
-- of pushes in the range of an `int64_t`, are defined, return what the queue returns, and leave the
-- queue's values.
pub run_refines :
    (calls : List Call) {r : Ring}
    → IsValid r
    → Paced r.size (stored r) calls
    → r.write + length calls ≤ int64_max
    → (r' : Ring) × (run r calls ≡ some (replies (contents r) calls, r'))
      × (contents r' ≡ rest (contents r) calls)
unfolding run replies rest
run_refines [] {r} ok p lt = (r, refl, refl)
run_refines (Call.push v ∷ calls) {r} ok p lt =
    let more : stored r + 1 ≡ stored (pushed r v) = omega arith in
    rw (push_lem {r = r} v (omega arith) (omega arith), ← contents-pushed v ok p.0)
      (run_refines calls (pushed-IsValid v ok p.0) (subst (λ n. Paced r.size n calls) more p.1)
        (omega arith))
run_refines (Call.pop ∷ calls) {r} ok p lt =
    let less : stored r - 1 ≡ stored (popped r) = omega arith in
    let (r', ran, left) =
      run_refines calls {r = popped r} (popped-IsValid ok p.0)
        (subst (λ n. Paced r.size n calls) less p.1) (omega arith) in
    let written : r.read % r.size < r.write = omega (arith, mod-le r.read r.size, p.0) in
    rw (pop_lem {r = r} (omega arith) written (omega arith), contents-popped ok p.0, ran)
      (r', refl, left)

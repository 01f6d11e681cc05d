-- ===== src/Ring/Locked/Overrun.antt =====
-- What the locked ring does when it is not paced: neither call tests for it.
use native.Mathlib.Nat.{mod-lt, add-mod_right}
use low_latency_experiments.Common.{
  ◌+◌, ◌%◌, ◌<◌, ◌≤◌, ◌≡◌, sym, ap, ◌∙◌, [], ◌∷◌, some, arith, set, get_or-set_self, get_or-set_ne,
}
use low_latency_experiments.Common.Int.{int64_max, pos}
use low_latency_experiments.Ring.Window.{Value, cell, add-mod-ne}
use low_latency_experiments.Ring.Queue.{push, pop}
use low_latency_experiments.Ring.Locked.{Ring, run}
use low_latency_experiments.Ring.Locked.Refine.{
  HasBuffer, IsValid, stored, pushed, popped, push_lem, pop_lem, HasBuffer-pushed,
}

-- On a valid full ring a push overwrites the oldest value: the next pop returns the newest value in its
-- place.
pub push-full-pop :
    {r : Ring} (v : Value)
    → IsValid r
    → stored r ≡ r.size
    → r.write < int64_max
    → run r (push v ∷ pop ∷ []) ≡ some (v ∷ [], popped (pushed r v))
unfolding run
push-full-pop {r} v ok full lt =
    let array : HasBuffer r = omega arith in
    let below = mod-lt r.read {m = r.size} ok.positive in
    let newest : cell (pushed r v).buffer (r.read % r.size) ≡ v = rw (← same) (
      get_or-set_self r.buffer (r.write % r.size) v (pos 0)
        (omega (arith, mod-lt r.write {m = r.size} ok.positive))) in
    rw (
      push_lem v array lt,
      pop_lem (HasBuffer-pushed v array) (omega (arith, below)) (omega arith),
      newest,
    )
  where
    same : r.write % r.size ≡ r.read % r.size
    same = ap (λ k. k % r.size) (omega arith) ∙ add-mod_right r.read r.size

-- On a valid empty ring of more than one cell, when each cell has been written before: after a pop the
-- value of the next push is passed over, and the pop that follows returns what stood in the next cell.
pub pop-empty-push :
    {r : Ring} (v : Value)
    → IsValid r
    → stored r ≡ 0
    → 1 < r.size
    → r.size ≤ r.write
    → r.write + 1 < int64_max
    → run r (pop ∷ push v ∷ pop ∷ [])
      ≡ some (
        cell r.buffer (r.write % r.size) ∷ cell r.buffer ((r.write + 1) % r.size) ∷ [],
        popped (pushed (popped r) v),
      )
unfolding run
pop-empty-push {r} v ok empty wide written lt =
    let array : HasBuffer r = omega arith in
    let after : HasBuffer (popped r) = omega arith in
    rw (
      pop_lem array (omega (arith, mod-lt r.read {m = r.size} ok.positive)) (omega arith),
      push_lem {r = popped r} v after (omega arith),
      pop_lem {r = pushed (popped r) v} (HasBuffer-pushed {r = popped r} v after)
          (omega (arith, mod-lt (r.read + 1) {m = r.size} ok.positive)) (omega arith),
      first,
      second,
    )
  where
    here : r.read ≡ r.write
    here = omega arith

    first : cell r.buffer (r.read % r.size) ≡ cell r.buffer (r.write % r.size)
    first = ap (λ k. cell r.buffer (k % r.size)) here

    second :
        cell (set r.buffer (r.write % r.size) v) ((r.read + 1) % r.size)
        ≡ cell r.buffer ((r.write + 1) % r.size)
    second = rw here (
        get_or-set_ne r.buffer (r.write % r.size) ((r.write + 1) % r.size) v (pos 0)
          (λ e. add-mod-ne r.size r.write 1 (omega arith) wide (sym e)))

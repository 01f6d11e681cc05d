-- ===== src/Mpmc/Fine/Program/Puts.antt =====
-- What a step of a call does to how often each number is put into the queue of fine_grained_queue.cpp.
use low_latency_experiments.Common.{
  ℕ, Bool, ◌+◌, ◌≤◌, ◌≡◌, refl, ap, List, [], ◌∷◌, ◌++◌, arith, ◌==◌, if◌then◌else◌, ◌≢◌,
}
use low_latency_experiments.Mpmc.Fine.Threads.{Pc, outside, ready, linking, System, Step}
use low_latency_experiments.Mpmc.Fine.Threads.Labels.{Label, enqueues, label, mover, target}

abbrev pub once : Bool → ℕ
once b = if b then 1 else 0

-- How often the number stands in the list.
abbrev pub count : ℕ → List ℕ → ℕ
count v [] = 0
count v (w ∷ ws) = once (w == v) + count v ws

pub count-append : (v : ℕ) (ws xs : List ℕ) → count v (ws ++ xs) ≡ count v ws + count v xs
count-append v [] xs = omega arith
count-append v (w ∷ ws) xs = omega (arith, count-append v ws xs)

-- A call of `enqueue` with the number `v` that has not linked its node.
abbrev pub pending : ℕ → Pc ℕ → ℕ
pending v (ready a w) = once (w == v)
pending v (linking a w) = once (w == v)
pending v _ = 0

-- The same, with any number.
abbrev pub enqueuing : Pc ℕ → ℕ
enqueuing (ready a w) = 1
enqueuing (linking a w) = 1
enqueuing _ = 0

abbrev pub starts_enqueue : ℕ → Label ℕ → ℕ
starts_enqueue v (enqueues w) = once (w == v)
starts_enqueue v _ = 0

pub not_pending : (v : ℕ) (p : Pc ℕ) → enqueuing p ≡ 0 → pending v p ≡ 0
not_pending v (ready a w) e = absurd (omega arith)
not_pending v (linking a w) e = absurd (omega arith)
not_pending v outside e = refl
not_pending v _ e = refl

pub step-put :
    (v : ℕ) {s t : System ℕ} (st : Step s t)
    → count v t.put + pending v (target st)
      ≡ count v s.put + pending v (s.pc (mover st)) + starts_enqueue v (label st)
step-put v (Step.create_node i a w e ne f) = omega (arith, ap (pending v) e)
step-put v (Step.lock_tail i a w e f) = omega (arith, ap (pending v) e)
step-put v {s} (Step.link i a w n e f) =
    omega (arith, ap (pending v) e, count-append v s.put (w ∷ []))
step-put v (Step.move_tail i a e) = omega (arith, ap (pending v) e)
step-put v (Step.unlock_tail i e) = omega (arith, ap (pending v) e)
step-put v (Step.lock_head i e f) = omega (arith, ap (pending v) e)
step-put v (Step.read_next i n e f) = omega (arith, ap (pending v) e)
step-put v (Step.find_empty i a e) = omega (arith, ap (pending v) e)
step-put v (Step.read_data i a b n w e ne f) = omega (arith, ap (pending v) e)
step-put v (Step.move_head i a b w e) = omega (arith, ap (pending v) e)
step-put v (Step.unlock_head i a e) = omega (arith, ap (pending v) e)
step-put v (Step.delete_node i a n e f) = omega (arith, ap (pending v) e)

pub starts-pending :
    (v : ℕ) {s t : System ℕ} (st : Step s t) → starts_enqueue v (label st) ≤ pending v (target st)
starts-pending v (Step.create_node i a w e ne f) = omega arith
starts-pending v _ = omega arith

-- A thread comes to enqueue only by a call of `enqueue`.
pub enqueuing-target :
    {s t : System ℕ} (st : Step s t)
    → enqueuing (s.pc (mover st)) ≡ 0
    → ((v : ℕ) → label st ≢ enqueues v)
    → enqueuing (target st) ≡ 0
enqueuing-target (Step.create_node i a w e ne f) h other = absurd (other w refl)
enqueuing-target (Step.lock_tail i a w e f) h other = absurd (omega (arith, ap enqueuing e))
enqueuing-target (Step.link i a w n e f) h other = refl
enqueuing-target (Step.move_tail i a e) h other = refl
enqueuing-target (Step.unlock_tail i e) h other = refl
enqueuing-target (Step.lock_head i e f) h other = refl
enqueuing-target (Step.read_next i n e f) h other = refl
enqueuing-target (Step.find_empty i a e) h other = refl
enqueuing-target (Step.read_data i a b n w e ne f) h other = refl
enqueuing-target (Step.move_head i a b w e) h other = refl
enqueuing-target (Step.unlock_head i a e) h other = refl
enqueuing-target (Step.delete_node i a n e f) h other = refl

-- ===== src/Mpmc/Fine/Threads/Labels.antt =====
-- Which thread makes a step of the fine-grained queue, where it goes, and whether it starts a call.
use low_latency_experiments.Common.{ℕ, ◌+◌, ◌<◌, ◌≡◌, ◌≢◌, refl, ap, ◌∙◌, arith}
use low_latency_experiments.Common.Threads.{assign, assign_other, assign_self}
use low_latency_experiments.Mpmc.Fine.Threads.{
  Pc, outside, ready, linking, moving, enqueued, reading, testing, swapping, swapped, deleting,
  System, Step,
}

-- What a step means to the loop of its thread.
pub data Label (V : Type 0) : Type 0 where
  goes_on : Label V  -- a call that is under way goes on
  enqueues : (val : V) → Label V  -- a call of `enqueue` starts
  dequeues : Label V  -- a call of `dequeue` starts

module _ {V : Type 0} where
  abbrev pub label : {s t : System V} → Step s t → Label V
  label (Step.create_node i a v e ne f) = enqueues v
  label (Step.lock_head i e f) = dequeues
  label _ = goes_on

  abbrev pub mover : {s t : System V} → Step s t → ℕ
  mover (Step.create_node i a v e ne f) = i
  mover (Step.lock_tail i a v e f) = i
  mover (Step.link i a v n e f) = i
  mover (Step.move_tail i a e) = i
  mover (Step.unlock_tail i e) = i
  mover (Step.lock_head i e f) = i
  mover (Step.read_next i n e f) = i
  mover (Step.find_empty i a e) = i
  mover (Step.read_data i a b n v e ne f) = i
  mover (Step.move_head i a b v e) = i
  mover (Step.unlock_head i a e) = i
  mover (Step.delete_node i a n e f) = i

  abbrev pub target : {s t : System V} → Step s t → Pc V
  target (Step.create_node i a v e ne f) = ready a v
  target (Step.lock_tail i a v e f) = linking a v
  target (Step.link i a v n e f) = moving a
  target (Step.move_tail i a e) = enqueued
  target (Step.unlock_tail i e) = outside
  target (Step.lock_head i e f) = reading
  target {s} (Step.read_next i n e f) = testing s.queue.head n.next
  target (Step.find_empty i a e) = outside
  target (Step.read_data i a b n v e ne f) = swapping a b v
  target (Step.move_head i a b v e) = swapped a
  target (Step.unlock_head i a e) = deleting a
  target (Step.delete_node i a n e f) = outside

  pub pc-mover : {s t : System V} (st : Step s t) → t.pc ≡ assign s.pc (mover st) (target st)
  pc-mover (Step.create_node i a v e ne f) = refl
  pc-mover (Step.lock_tail i a v e f) = refl
  pc-mover (Step.link i a v n e f) = refl
  pc-mover (Step.move_tail i a e) = refl
  pc-mover (Step.unlock_tail i e) = refl
  pc-mover (Step.lock_head i e f) = refl
  pc-mover (Step.read_next i n e f) = refl
  pc-mover (Step.find_empty i a e) = refl
  pc-mover (Step.read_data i a b n v e ne f) = refl
  pc-mover (Step.move_head i a b v e) = refl
  pc-mover (Step.unlock_head i a e) = refl
  pc-mover (Step.delete_node i a n e f) = refl

  pub pc_other : {s t : System V} (st : Step s t) (j : ℕ) → j ≢ mover st → t.pc j ≡ s.pc j
  pc_other {s} st j ne = ap (λ f. f j) (pc-mover st) ∙ assign_other s.pc (mover st) (target st) j ne

  pub pc_self : {s t : System V} (st : Step s t) → t.pc (mover st) ≡ target st
  pc_self {s} st = ap (λ f. f (mover st)) (pc-mover st) ∙ assign_self s.pc (mover st) (target st)

  -- The most steps that a call has left.
  abbrev pub call_left : Pc V → ℕ
  call_left outside = 0
  call_left (ready a v) = 4
  call_left (linking a v) = 3
  call_left (moving a) = 2
  call_left enqueued = 1
  call_left reading = 5
  call_left (testing a b) = 4
  call_left (swapping a b v) = 3
  call_left (swapped a) = 2
  call_left (deleting a) = 1

  -- The steps that a label brings.
  abbrev pub brought : Label V → ℕ
  brought goes_on = 0
  brought _ = 6

  -- Each step takes at least one of the steps that are left, those of a new call included.
  pub call_left-target :
      {s t : System V} (st : Step s t)
      → call_left (target st) < call_left (s.pc (mover st)) + brought (label st)
  call_left-target (Step.create_node i a v e ne f) = omega arith
  call_left-target (Step.lock_tail i a v e f) = omega (arith, ap call_left e)
  call_left-target (Step.link i a v n e f) = omega (arith, ap call_left e)
  call_left-target (Step.move_tail i a e) = omega (arith, ap call_left e)
  call_left-target (Step.unlock_tail i e) = omega (arith, ap call_left e)
  call_left-target (Step.lock_head i e f) = omega arith
  call_left-target (Step.read_next i n e f) = omega (arith, ap call_left e)
  call_left-target (Step.find_empty i a e) = omega (arith, ap call_left e)
  call_left-target (Step.read_data i a b n v e ne f) = omega (arith, ap call_left e)
  call_left-target (Step.move_head i a b v e) = omega (arith, ap call_left e)
  call_left-target (Step.unlock_head i a e) = omega (arith, ap call_left e)
  call_left-target (Step.delete_node i a n e f) = omega (arith, ap call_left e)

  -- A call starts outside the others, and a step of a call does not.
  pub mover-start :
      {s t : System V} (st : Step s t) → label st ≢ goes_on → call_left (s.pc (mover st)) ≡ 0
  mover-start (Step.create_node i a v e ne f) h = ap call_left e
  mover-start (Step.lock_head i e f) h = ap call_left e
  mover-start _ h = absurd (h refl)

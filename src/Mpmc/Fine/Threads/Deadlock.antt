-- ===== src/Mpmc/Fine/Threads/Deadlock.antt =====
-- A thread that is in a call of the fine-grained queue, or the thread that holds what it waits for,
-- can go on.
use low_latency_experiments.Common.{
  ℕ, ◌≡◌, ◌≢◌, ◌⊎◌, inl, inr, refl, ap, ◌∙◌, some, ℕ_discrete, Option-cases,
}
use low_latency_experiments.Mpmc.Heap.{Ptr, null}
use low_latency_experiments.Mpmc.Fine.Threads.{
  Pc, outside, ready, linking, moving, enqueued, reading, testing, swapping, swapped, deleting,
  System, Step, Reach,
}
use low_latency_experiments.Mpmc.Fine.Threads.Invariant.{holds_tail}
use low_latency_experiments.Mpmc.Fine.Threads.Safety.{CanAccess, no_use_after_free}
use low_latency_experiments.Mpmc.Fine.Threads.Labels.{goes_on, label}
use low_latency_experiments.Mpmc.Fine.Threads.Holding.{Reach-Held}

module _ {V : Type 0} where
  -- A call that is under way can take a step.
  abbrev pub GoesOn : System V → Type 0
  GoesOn s = (t : System V) × (st : Step s t) × (label st ≡ goes_on)

  module _ {s : System V} where
    test_result :
        (i : ℕ) (a b : Ptr) → s.pc i ≡ testing a b → CanAccess s.queue (testing a b) → GoesOn s
    test_result i a b e (inl none_left) =
        (_, Step.find_empty i a (e ∙ ap (testing a) none_left), refl)
    test_result i a b e (inr (v, next, found)) = elim (ℕ_discrete b null) [
      | yes f ↦ (_, Step.find_empty i a (e ∙ ap (testing a) f), refl)
      | no ne ↦ (_, Step.read_data i a b next v e ne found, refl)
    ]

    -- Only the lock of `tail_mutex` can hold a call up.
    unblocked :
        (i : ℕ) (p : Pc V)
        → s.pc i ≡ p
        → CanAccess s.queue p
        → (p ≡ outside) ⊎ (((a : Ptr) × (v : V) × (p ≡ ready a v)) ⊎ GoesOn s)
    unblocked i outside e can = inl refl
    unblocked i (ready a v) e can = inr (inl (a, v, refl))
    unblocked i (linking a v) e (n, found) = inr (inr (_, Step.link i a v n e found, refl))
    unblocked i (moving a) e can = inr (inr (_, Step.move_tail i a e, refl))
    unblocked i enqueued e can = inr (inr (_, Step.unlock_tail i e, refl))
    unblocked i reading e (n, found) = inr (inr (_, Step.read_next i n e found, refl))
    unblocked i (testing a b) e can = inr (inr (test_result i a b e can))
    unblocked i (swapping a b v) e can = inr (inr (_, Step.move_head i a b v e, refl))
    unblocked i (swapped a) e can = inr (inr (_, Step.unlock_head i a e, refl))
    unblocked i (deleting a) e (n, found) = inr (inr (_, Step.delete_node i a n e found, refl))

  module _ {dummy : Ptr} {s : System V} (r : Reach dummy s) where
    holder-GoesOn : (j : ℕ) → s.tail_owner ≡ some j → GoesOn s
    holder-GoesOn j o =
        let holds = (Reach-Held r).by_tail j o in
        elim (unblocked j (s.pc j) refl (no_use_after_free r j)) [
          | inl out ↦ absurd (cc (holds, ap holds_tail out))
          | inr (inl (a, v, e)) ↦ absurd (cc (holds, ap holds_tail e))
          | inr (inr moves) ↦ moves
        ]

    -- No deadlock.
    pub in_call-GoesOn : (i : ℕ) → s.pc i ≢ outside → GoesOn s
    in_call-GoesOn i ne = elim (unblocked i (s.pc i) refl (no_use_after_free r i)) [
      | inl out ↦ absurd (ne out)
      | inr (inr moves) ↦ moves
      | inr (inl (a, v, e)) ↦ elim (Option-cases s.tail_owner) [
        | inl free ↦ (_, Step.lock_tail i a v e free, refl)
        | inr (j, o) ↦ holder-GoesOn j o
      ]
    ]

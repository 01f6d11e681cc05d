-- ===== src/Tests/FineQueue.antt =====
-- The fine-grained queue at concrete inputs.
use low_latency_experiments.Mpmc.Fine.RoundTrip.{
  enqueue_all, dequeue_all, Unused, enqueue_all-dequeue_all,
}
use low_latency_experiments.Common.{◌++◌, Option, ℕ_discrete, length, map}
use low_latency_experiments.Mpmc.Fine.Threads.{System, Step, Reach, here, later}
use low_latency_experiments.Mpmc.Fine.Threads.Invariant.{values}
use low_latency_experiments.Mpmc.Fine.Threads.Safety.{CanAccess, no_use_after_free, fine_fifo}
use low_latency_experiments.Mpmc.Fine.Chain.{Chain}
use low_latency_experiments.Common.{
  ℕ, ◌≡◌, ◌↔◌, refl, [], ◌∷◌, some, none, arith, ◌==◌, if◌then◌else◌,
}
use low_latency_experiments.Mpmc.Heap.{Ptr, null, node}
use low_latency_experiments.Mpmc.Fine.{Queue, init, enqueue, dequeue}
use low_latency_experiments.Mpmc.Fine.Chain.{Cells}
use low_latency_experiments.Mpmc.Fine.Refine.{
  Holds, init-Holds, enqueue-Holds, dequeue-Holds, head-eq-tail_iff,
}

-- A new queue, whose dummy is at address 1.
abbrev new_queue : Queue ℕ
new_queue = init (λ _. none) 1

new_queue-Holds : Holds new_queue []
new_queue-Holds = init-Holds 1

-- The queue that holds 7 in the node at address 2.
abbrev one : Queue ℕ
one = record {
  heap = λ a.
      if a == 1 then some (node none 2) else if a == 2 then some (node (some 7) null) else none;
  head = 1;
  tail = 2;
}

one-Holds : Holds one ((2, 7) ∷ [])
one-Holds = record {
  dummy = none;
  chain = (refl, (λ e. ground arith), ((λ e. ground arith), tt), (refl, refl));
  nothing_else = λ a ne away. ground (arith, away);
}

enqueue-Holds_test : (q' : Queue ℕ) × (enqueue one 3 8 ≡ some q') × Holds q' ((2, 7) ∷ (3, 8) ∷ [])
enqueue-Holds_test = enqueue-Holds 3 8 one-Holds (λ e. ground arith) refl

dequeue-Holds_test :
    (q' : Queue ℕ) × (dequeue one ≡ some (some 7, q')) × Holds q' [] × (q'.heap one.head ≡ none)
dequeue-Holds_test = dequeue-Holds one-Holds

-- What `new` returns for two values.
abbrev two_cells : Cells ℕ
two_cells = (2, 7) ∷ (3, 8) ∷ []

two_cells-Unused : Unused new_queue.heap two_cells
unfolding init
two_cells-Unused =
    (λ e. ground arith, refl, (λ e. ground arith, tt), (λ e. ground arith, refl, tt, tt))

enqueue_all-dequeue_all_example :
    (q' : Queue ℕ) × (q'' : Queue ℕ) × (enqueue_all new_queue two_cells ≡ some q')
    × (dequeue_all (length two_cells) q' ≡ some (map (λ (x : Ptr × ℕ). some x.1) two_cells, q''))
    × Holds q'' []
enqueue_all-dequeue_all_example = enqueue_all-dequeue_all two_cells new_queue-Holds two_cells-Unused

head-eq-tail_iff_test : (◌≡◌ {A = Ptr} new_queue.head new_queue.tail) ↔ (◌≡◌ {A = Cells ℕ} [] [])
head-eq-tail_iff_test = head-eq-tail_iff [] new_queue-Holds

-- A thread has linked the value 7 and is about to move the tail; another has read the link.
interleaved : (s : System ℕ) × Reach 1 s
unfolding ℕ_discrete
interleaved = (
  _,
  later
      (later
        (later
          (later (later here (Step.create_node 0 2 7 refl (λ e. ground arith) refl))
            (Step.lock_tail 0 2 7 refl refl))
          (Step.link 0 2 7 (node none null) refl refl))
        (Step.lock_head 1 refl refl))
      (Step.read_next 1 (node none 2) refl refl),
)

no_use_after_free_example : CanAccess interleaved.0.queue (interleaved.0.pc 1)
no_use_after_free_example = no_use_after_free interleaved.1 1

fine_fifo_example :
    (cells : Cells ℕ) × (last : Ptr) × (first : Option ℕ) × Chain interleaved.0.queue.heap
      interleaved.0.queue.head first last cells
    × (interleaved.0.taken ++ values cells ≡ interleaved.0.put)
fine_fifo_example = fine_fifo interleaved.1

-- ===== src/Mpmc/Fine/Threads/Holding.antt =====
-- A mutex of the fine-grained queue that is taken has a thread that holds it.
use low_latency_experiments.Common.{ℕ, suc, ◌≤◌, ◌≡◌, refl, true, Option, none, some, max, arith}
use low_latency_experiments.Mpmc.Heap.{Ptr, Node, Heap, update}
use low_latency_experiments.Mpmc.Fine.Threads.{System, Step, Reach}
use low_latency_experiments.Mpmc.Fine.Threads.Invariant.{holds_tail, holds_head}

module _ {V : Type 0} where
  pub record Held (s : System V) : Type 0 where
    pub by_tail : (i : ℕ) → s.tail_owner ≡ some i → holds_tail (s.pc i) ≡ true
    pub by_head : (i : ℕ) → s.head_owner ≡ some i → holds_head (s.pc i) ≡ true

  Step-by_tail :
      {s t : System V}
      → Step s t
      → Held s
      → (j : ℕ) → t.tail_owner ≡ some j
      → holds_tail (t.pc j) ≡ true
  Step-by_tail {s} (Step.create_node i a v e ne f) h j o = ground (arith, h.by_tail j, e)
  Step-by_tail {s} (Step.lock_tail i a v e f) h j o = ground (arith)
  Step-by_tail {s} (Step.link i a v n e f) h j o = ground (arith, h.by_tail j, e)
  Step-by_tail {s} (Step.move_tail i a e) h j o = ground (arith, h.by_tail j, e)
  Step-by_tail {s} (Step.unlock_tail i e) h j o = absurd (cc o)
  Step-by_tail {s} (Step.lock_head i e f) h j o = ground (arith, h.by_tail j, e)
  Step-by_tail {s} (Step.read_next i n e f) h j o = ground (arith, h.by_tail j, e)
  Step-by_tail {s} (Step.find_empty i a e) h j o = ground (arith, h.by_tail j, e)
  Step-by_tail {s} (Step.read_data i a b n v e ne f) h j o = ground (arith, h.by_tail j, e)
  Step-by_tail {s} (Step.move_head i a b v e) h j o = ground (arith, h.by_tail j, e)
  Step-by_tail {s} (Step.unlock_head i a e) h j o = ground (arith, h.by_tail j, e)
  Step-by_tail {s} (Step.delete_node i a n e f) h j o = ground (arith, h.by_tail j, e)

  Step-by_head :
      {s t : System V}
      → Step s t
      → Held s
      → (j : ℕ) → t.head_owner ≡ some j
      → holds_head (t.pc j) ≡ true
  Step-by_head {s} (Step.create_node i a v e ne f) h j o = ground (arith, h.by_head j, e)
  Step-by_head {s} (Step.lock_tail i a v e f) h j o = ground (arith, h.by_head j, e)
  Step-by_head {s} (Step.link i a v n e f) h j o = ground (arith, h.by_head j, e)
  Step-by_head {s} (Step.move_tail i a e) h j o = ground (arith, h.by_head j, e)
  Step-by_head {s} (Step.unlock_tail i e) h j o = ground (arith, h.by_head j, e)
  Step-by_head {s} (Step.lock_head i e f) h j o = ground (arith)
  Step-by_head {s} (Step.read_next i n e f) h j o = ground (arith, h.by_head j, e)
  Step-by_head {s} (Step.find_empty i a e) h j o = absurd (cc o)
  Step-by_head {s} (Step.read_data i a b n v e ne f) h j o = ground (arith, h.by_head j, e)
  Step-by_head {s} (Step.move_head i a b v e) h j o = ground (arith, h.by_head j, e)
  Step-by_head {s} (Step.unlock_head i a e) h j o = absurd (cc o)
  Step-by_head {s} (Step.delete_node i a n e f) h j o = ground (arith, h.by_head j, e)

  pub Reach-Held : {dummy : Ptr} {s : System V} → Reach dummy s → Held s
  Reach-Held Reach.here = record { by_tail = λ i e. absurd (cc e); by_head = λ i e. absurd (cc e) }
  Reach-Held (Reach.later r st) = record {
    by_tail = Step-by_tail st (Reach-Held r);
    by_head = Step-by_head st (Reach-Held r);
  }

  -- From some address on nothing has been allocated.
  abbrev pub FreeFrom : Heap V → ℕ → Type 0
  FreeFrom h b = (a : Ptr) → b ≤ a → h a ≡ none

  FreeFrom-update :
      (h : Heap V) (p : Ptr) (c : Option (Node V)) (b : ℕ)
      → FreeFrom h b
      → FreeFrom (update h p c) (max b (suc p))
  FreeFrom-update h p c b free a le = ground (arith, free a)

  pub free_from : {dummy : Ptr} {s : System V} → Reach dummy s → (b : ℕ) × FreeFrom s.queue.heap b
  free_from {dummy} Reach.here = (_, FreeFrom-update (λ a. none) dummy _ 0 (λ a le. refl))
  free_from (Reach.later {s} r st) = after st (free_from r)
    where
      after :
          {u v : System V}
          → Step u v
          → (b : ℕ) × FreeFrom u.queue.heap b
          → (b : ℕ) × FreeFrom v.queue.heap b
      after {u} (Step.create_node i a v e ne f) (b, free) =
          (_, FreeFrom-update u.queue.heap a _ b free)
      after {u} (Step.link i a v n e f) (b, free) =
          (_, FreeFrom-update u.queue.heap u.queue.tail _ b free)
      after {u} (Step.delete_node i a n e f) (b, free) =
          (_, FreeFrom-update u.queue.heap a none b free)
      after (Step.lock_tail i a v e f) free = free
      after (Step.move_tail i a e) free = free
      after (Step.unlock_tail i e) free = free
      after (Step.lock_head i e f) free = free
      after (Step.read_next i n e f) free = free
      after (Step.find_empty i a e) free = free
      after (Step.read_data i a b n v e ne f) free = free
      after (Step.move_head i a b v e) free = free
      after (Step.unlock_head i a e) free = free

-- ===== src/Mpmc/Fine/Threads/Mutexes.antt =====
-- Who holds the two mutexes of the fine-grained queue.
use low_latency_experiments.Common.{ℕ, ◌≡◌, true, some, arith}
use low_latency_experiments.Mpmc.Fine.Threads.{System, Step}
use low_latency_experiments.Mpmc.Fine.Threads.Invariant.{holds_tail, holds_head, Locks}

module _ {V : Type 0} where
  Step-holds_tail :
      {s t : System V}
      → Step s t
      → Locks s
      → (j : ℕ) → holds_tail (t.pc j) ≡ true
      → t.tail_owner ≡ some j
  Step-holds_tail (Step.create_node i a v e ne f) inv j h =
      ground (arith, inv.of_tail j, inv.of_tail i)
  Step-holds_tail (Step.lock_tail i a v e f) inv j h = ground (arith, inv.of_tail j, inv.of_tail i)
  Step-holds_tail (Step.link i a v l e f) inv j h = ground (arith, inv.of_tail j, inv.of_tail i)
  Step-holds_tail (Step.move_tail i a e) inv j h = ground (arith, inv.of_tail j, inv.of_tail i)
  Step-holds_tail (Step.unlock_tail i e) inv j h = ground (arith, inv.of_tail j, inv.of_tail i)
  Step-holds_tail (Step.lock_head i e f) inv j h = ground (arith, inv.of_tail j, inv.of_tail i)
  Step-holds_tail (Step.read_next i n e f) inv j h = ground (arith, inv.of_tail j, inv.of_tail i)
  Step-holds_tail (Step.find_empty i a e) inv j h = ground (arith, inv.of_tail j, inv.of_tail i)
  Step-holds_tail (Step.read_data i a b n v e ne f) inv j h =
      ground (arith, inv.of_tail j, inv.of_tail i)
  Step-holds_tail (Step.move_head i a b v e) inv j h = ground (arith, inv.of_tail j, inv.of_tail i)
  Step-holds_tail (Step.unlock_head i a e) inv j h = ground (arith, inv.of_tail j, inv.of_tail i)
  Step-holds_tail (Step.delete_node i a n e f) inv j h =
      ground (arith, inv.of_tail j, inv.of_tail i)

  Step-holds_head :
      {s t : System V}
      → Step s t
      → Locks s
      → (j : ℕ) → holds_head (t.pc j) ≡ true
      → t.head_owner ≡ some j
  Step-holds_head (Step.create_node i a v e ne f) inv j h =
      ground (arith, inv.of_head j, inv.of_head i)
  Step-holds_head (Step.lock_tail i a v e f) inv j h = ground (arith, inv.of_head j, inv.of_head i)
  Step-holds_head (Step.link i a v l e f) inv j h = ground (arith, inv.of_head j, inv.of_head i)
  Step-holds_head (Step.move_tail i a e) inv j h = ground (arith, inv.of_head j, inv.of_head i)
  Step-holds_head (Step.unlock_tail i e) inv j h = ground (arith, inv.of_head j, inv.of_head i)
  Step-holds_head (Step.lock_head i e f) inv j h = ground (arith, inv.of_head j, inv.of_head i)
  Step-holds_head (Step.read_next i n e f) inv j h = ground (arith, inv.of_head j, inv.of_head i)
  Step-holds_head (Step.find_empty i a e) inv j h = ground (arith, inv.of_head j, inv.of_head i)
  Step-holds_head (Step.read_data i a b n v e ne f) inv j h =
      ground (arith, inv.of_head j, inv.of_head i)
  Step-holds_head (Step.move_head i a b v e) inv j h = ground (arith, inv.of_head j, inv.of_head i)
  Step-holds_head (Step.unlock_head i a e) inv j h = ground (arith, inv.of_head j, inv.of_head i)
  Step-holds_head (Step.delete_node i a n e f) inv j h =
      ground (arith, inv.of_head j, inv.of_head i)

  pub Step-Locks : {s t : System V} → Step s t → Locks s → Locks t
  Step-Locks st inv = record { of_tail = Step-holds_tail st inv; of_head = Step-holds_head st inv }

-- ===== src/Mpmc/Fine/Threads/Safety.antt =====
-- What holds in every reachable state of the fine-grained queue with its threads.
use low_latency_experiments.Common.{
  ℕ, ◌≡◌, ◌⊎◌, inl, inr, Option, ℕ_discrete, refl, ap, ◌∙◌, subst, ◌++◌, some,
}
use low_latency_experiments.Mpmc.Heap.{Ptr, null, node, Node}
use low_latency_experiments.Mpmc.Fine.{Queue}
use low_latency_experiments.Mpmc.Fine.Chain.{Cells, Chain, tail_node, head_node}
use low_latency_experiments.Mpmc.Fine.Threads.{
  Pc, linking, reading, testing, deleting, System, Reach,
}
use low_latency_experiments.Mpmc.Fine.Threads.Invariant.{Made, TailKnown, HeadKnown, values, Shape}
use low_latency_experiments.Mpmc.Fine.Threads.Runs.{value_known, Reach-Shape}

module _ {V : Type 0} where
  -- The nodes that a thread is about to use are there, and what it reads there has been set.
  abbrev pub CanAccess : Queue V → Pc V → Type 0
  CanAccess q (linking a v) = (n : Node V) × (q.heap q.tail ≡ some n)
  CanAccess q reading = (n : Node V) × (q.heap q.head ≡ some n)
  CanAccess q (testing a b) =
      (b ≡ null) ⊎ ((v : V) × (next : Ptr) × (q.heap b ≡ some (node (some v) next)))
  CanAccess q (deleting a) = (n : Node V) × (q.heap a ≡ some n)
  CanAccess q _ = Unit {0}

  accessible : {s : System V} (inv : Shape s) (i : ℕ) (p : Pc V) → s.pc i ≡ p → CanAccess s.queue p
  accessible {s} inv i (linking a v) e =
      let at_end : s.queue.tail ≡ inv.last =
        subst (TailKnown s.queue.tail inv.last) e (inv.at_tail i) in
      (
        _,
        ap s.queue.heap at_end
            ∙ tail_node s.queue.heap s.queue.head inv.first inv.last inv.cells inv.chain,
      )
  accessible {s} inv i reading e =
      let (q, found) = head_node s.queue.heap s.queue.head inv.first inv.last inv.cells inv.chain in
      (_, found)
  accessible {s} inv i (testing a b) e = elim (ℕ_discrete b null) [
    | yes f ↦ inl f
    | no ne ↦
        let (v, rest, split) = (subst (HeadKnown s.queue.head inv.cells) e (inv.at_head i)).1 ne in
        let (next, found) = value_known inv b v rest split in inr (v, next, found)
  ]
  accessible {s} inv i (deleting a) e = subst (Made s.queue.heap) e (inv.made i)
  accessible inv i _ e = tt

  module _ {dummy : Ptr} {s : System V} (r : Reach dummy s) where
    -- In every reachable state, however `enqueue` and `dequeue` interleave, each node that a thread
    -- is about to read, to write or to delete is there: none is used after it was deleted, none is
    -- deleted twice, and no value is read that was not set.
    pub no_use_after_free : (i : ℕ) → CanAccess s.queue (s.pc i)
    no_use_after_free i = accessible (Reach-Shape r) i (s.pc i) refl

    -- First in, first out, across all threads: in every reachable state the links lead from the
    -- dummy through distinct nodes, and the values taken and those in these nodes are the values put
    -- in, in the order in which their nodes were linked.
    pub fine_fifo :
        (cells : Cells V) × (last : Ptr) × (first : Option V) × Chain s.queue.heap s.queue.head
          first last cells
        × (s.taken ++ values cells ≡ s.put)
    fine_fifo = let inv = Reach-Shape r in (inv.cells, inv.last, inv.first, inv.chain, inv.in_order)

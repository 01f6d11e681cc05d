-- ===== src/Mpmc/Fine/Threads/Invariant.antt =====
-- What every step of every thread of the fine-grained queue keeps.
use low_latency_experiments.Common.{
  ℕ, ◌≡◌, ◌≢◌, List, [], ◌∷◌, ◌++◌, Bool, true, false, Option, none, some,
}
use low_latency_experiments.Mpmc.Heap.{Ptr, null, node, Node, Heap}
use low_latency_experiments.Mpmc.Fine.Chain.{Cells, Away, Chain}
use low_latency_experiments.Mpmc.Fine.Threads.{
  Pc, ready, linking, moving, enqueued, reading, testing, swapping, swapped, deleting, System,
}

module _ {V : Type 0} where
  abbrev pub holds_tail : Pc V → Bool
  holds_tail (linking a v) = true
  holds_tail (moving a) = true
  holds_tail enqueued = true
  holds_tail _ = false

  abbrev pub holds_head : Pc V → Bool
  holds_head reading = true
  holds_head (testing a b) = true
  holds_head (swapping a b v) = true
  holds_head (swapped a) = true
  holds_head _ = false

  -- The thread alone knows the node at the address: it is not in the list yet, or no longer.
  abbrev pub owns : Pc V → Option Ptr
  owns (ready a v) = some a
  owns (linking a v) = some a
  owns (swapped a) = some a
  owns (deleting a) = some a
  owns _ = none

  -- What it knows of that node.
  abbrev pub Made : Heap V → Pc V → Type 0
  Made h (ready a v) = (a ≢ null) × (h a ≡ some (node (some v) null))
  Made h (linking a v) = (a ≢ null) × (h a ≡ some (node (some v) null))
  Made h (swapped a) = (n : Node V) × (h a ≡ some n)
  Made h (deleting a) = (n : Node V) × (h a ≡ some n)
  Made h _ = Unit {0}

  -- What a thread with `tail_mutex` knows of the last node, at `last`.
  abbrev pub TailKnown : (tail last : Ptr) → Pc V → Type 0
  TailKnown tail last (linking a v) = tail ≡ last
  TailKnown tail last (moving a) = last ≡ a
  TailKnown tail last enqueued = tail ≡ last
  TailKnown tail last _ = Unit {0}

  -- What a thread with `head_mutex` knows of the first nodes.
  abbrev pub HeadKnown : Ptr → Cells V → Pc V → Type 0
  HeadKnown head cells (testing a b) =
      (a ≡ head) × (b ≢ null → (v : V) × (rest : Cells V) × (cells ≡ (b, v) ∷ rest))
  HeadKnown head cells (swapping a b v) = (a ≡ head) × (rest : Cells V) × (cells ≡ (b, v) ∷ rest)
  HeadKnown head cells _ = Unit {0}

  abbrev pub values : Cells V → List V
  values [] = []
  values ((a, v) ∷ cells) = v ∷ values cells

  -- Who holds the mutexes.
  pub record Locks (s : System V) : Type 0 where
    pub of_tail : (i : ℕ) → holds_tail (s.pc i) ≡ true → s.tail_owner ≡ some i
    pub of_head : (i : ℕ) → holds_head (s.pc i) ≡ true → s.head_owner ≡ some i

  -- The list in memory, behind a dummy with content `first`, and what the threads know of it.
  pub record Shape (s : System V) : Type 0 where
    pub first : Option V
    pub last : Ptr
    pub cells : Cells V
    pub chain : Chain s.queue.heap s.queue.head first last cells
    pub free_tail : s.tail_owner ≡ none → s.queue.tail ≡ last
    pub at_tail : (i : ℕ) → TailKnown s.queue.tail last (s.pc i)
    pub at_head : (i : ℕ) → HeadKnown s.queue.head cells (s.pc i)
    pub made : (i : ℕ) → Made s.queue.heap (s.pc i)
    pub away : (i : ℕ) (a : Ptr) → owns (s.pc i) ≡ some a → (a ≢ s.queue.head) × Away a cells
    pub apart : (i j : ℕ) (a : Ptr) → owns (s.pc i) ≡ some a → owns (s.pc j) ≡ some a → i ≡ j
    pub in_order : s.taken ++ values cells ≡ s.put

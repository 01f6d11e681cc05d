-- ===== src/Mpmc/Fine/Threads/Moves.antt =====
-- One thread of the fine-grained queue moves: what that leaves of what the threads know.
use low_latency_experiments.Common.{
  ℕ, ◌≡◌, ◌≢◌, ◌⊎◌, inl, inr, refl, sym, ap, ◌∙◌, subst, [], ◌∷◌, ◌++◌, true, false, Option, none,
  some, ℕ_discrete, Bool-cases,
}
use mathlib.Core.Logic.{ite}
use low_latency_experiments.Common.Threads.{assign, assign-all}
use low_latency_experiments.Mpmc.Heap.{Ptr, null, node, Node, Heap}
use low_latency_experiments.Mpmc.Fine.Chain.{Cells}
use low_latency_experiments.Mpmc.Fine.Threads.{
  Pc, ready, linking, moving, enqueued, testing, swapping, swapped, deleting, System,
}
use low_latency_experiments.Mpmc.Fine.Threads.Invariant.{
  holds_tail, holds_head, owns, Made, TailKnown, HeadKnown, Locks, Shape,
}

module _ {V : Type 0} where
  -- Whose node it is after a move.
  pub owns_cases :
      (f : ℕ → Pc V) (i : ℕ) (q : Pc V) (j : ℕ) (a : Ptr)
      → owns (assign f i q j) ≡ some a
      → ((j ≡ i) × (owns q ≡ some a)) ⊎ ((j ≢ i) × (owns (f j) ≡ some a))
  owns_cases f i q j a =
      elim (ℕ_discrete j i)
        as (λ d.
          owns (ite d q (f j)) ≡ some a
          → ((j ≡ i) × (owns q ≡ some a)) ⊎ ((j ≢ i) × (owns (f j) ≡ some a))) [
            | yes e ↦ λ h. inl (e, h)
            | no ne ↦ λ h. inr (ne, h)
          ]

  -- A thread that holds no mutex knows nothing of the ends of the list.
  pub TailKnown-free : (tail last : Ptr) (q : Pc V) → holds_tail q ≡ false → TailKnown tail last q
  TailKnown-free tail last (linking a v) h = absurd (cc h)
  TailKnown-free tail last (moving a) h = absurd (cc h)
  TailKnown-free tail last enqueued h = absurd (cc h)
  TailKnown-free tail last _ h = tt

  pub HeadKnown-free :
      (head : Ptr) (cells : Cells V) (q : Pc V) → holds_head q ≡ false → HeadKnown head cells q
  HeadKnown-free head cells (testing a b) h = absurd (cc h)
  HeadKnown-free head cells (swapping a b v) h = absurd (cc h)
  HeadKnown-free head cells _ h = tt

  pub HeadKnown-snoc :
      (head : Ptr) (cells : Cells V) (x : Ptr × V) (q : Pc V)
      → HeadKnown head cells q
      → HeadKnown head (cells ++ (x ∷ [])) q
  HeadKnown-snoc head cells x (testing a b) (e, k) =
      (e, λ ne. let (v, rest, f) = k ne in (v, rest ++ (x ∷ []), ap (λ c. c ++ (x ∷ [])) f))
  HeadKnown-snoc head cells x (swapping a b v) (e, rest, f) =
      (e, rest ++ (x ∷ []), ap (λ c. c ++ (x ∷ [])) f)
  HeadKnown-snoc head cells x _ k = tt

  pub Made-some :
      (h : Heap V) (q : Pc V) (a : Ptr) → Made h q → owns q ≡ some a → (n : Node V) × (h a ≡ some n)
  Made-some h (ready b v) a m e = (_, subst (λ c. h c ≡ some (node (some v) null)) (cc e) m.1)
  Made-some h (linking b v) a m e = (_, subst (λ c. h c ≡ some (node (some v) null)) (cc e) m.1)
  Made-some h (swapped b) a m e = (m.0, subst (λ c. h c ≡ some m.0) (cc e) m.1)
  Made-some h (deleting b) a m e = (m.0, subst (λ c. h c ≡ some m.0) (cc e) m.1)
  Made-some h _ a m e = absurd (cc e)

  -- A change of the heap that spares the node of a thread.
  pub Made-later :
      (h g : Heap V) (q : Pc V) → ((a : Ptr) → owns q ≡ some a → g a ≡ h a) → Made h q → Made g q
  Made-later h g (ready b v) same m = (m.0, same b refl ∙ m.1)
  Made-later h g (linking b v) same m = (m.0, same b refl ∙ m.1)
  Made-later h g (swapped b) same m = (m.0, same b refl ∙ m.1)
  Made-later h g (deleting b) same m = (m.0, same b refl ∙ m.1)
  Made-later h g _ same m = tt

  module _ {s : System V} (locks : Locks s) (i : ℕ) where
    -- No other thread holds the mutex of a thread.
    pub tail_alone : holds_tail (s.pc i) ≡ true → (j : ℕ) → j ≢ i → holds_tail (s.pc j) ≡ false
    tail_alone mine j ne = elim (Bool-cases (holds_tail (s.pc j))) [
      | inl h ↦ absurd (ne (cc (locks.of_tail i mine, locks.of_tail j h)))
      | inr h ↦ h
    ]

    pub head_alone : holds_head (s.pc i) ≡ true → (j : ℕ) → j ≢ i → holds_head (s.pc j) ≡ false
    head_alone mine j ne = elim (Bool-cases (holds_head (s.pc j))) [
      | inl h ↦ absurd (ne (cc (locks.of_head i mine, locks.of_head j h)))
      | inr h ↦ h
    ]

  module _ {s : System V} (inv : Shape s) (i : ℕ) (q : Pc V)
      (keep : (a : Ptr) → owns q ≡ some a → owns (s.pc i) ≡ some a) where
    -- A thread that gets no new node.
    pub owns_before : (j : ℕ) (a : Ptr) → owns (assign s.pc i q j) ≡ some a → owns (s.pc j) ≡ some a
    owns_before j a h = elim (owns_cases s.pc i q j a h) [
      | inl (e, mine) ↦ subst (λ k. owns (s.pc k) ≡ some a) (sym e) (keep a mine)
      | inr (ne, old) ↦ old
    ]

    -- A move that leaves the memory as it is.
    pub Shape-quiet :
        (tail_owner head_owner : Option ℕ)
        → (tail_owner ≡ none → s.queue.tail ≡ inv.last)
        → TailKnown s.queue.tail inv.last q
        → HeadKnown s.queue.head inv.cells q
        → Made s.queue.heap q
        → Shape
            (record s { tail_owner = tail_owner; head_owner = head_owner; pc = assign s.pc i q })
    Shape-quiet tail_owner head_owner free tail_known head_known made = record {
      first = inv.first;
      last = inv.last;
      cells = inv.cells;
      chain = inv.chain;
      free_tail = free;
      at_tail =
          assign-all (TailKnown s.queue.tail inv.last) s.pc i q tail_known (λ j ne. inv.at_tail j);
      at_head =
          assign-all (HeadKnown s.queue.head inv.cells) s.pc i q head_known (λ j ne. inv.at_head j);
      made = assign-all (Made s.queue.heap) s.pc i q made (λ j ne. inv.made j);
      away = λ j a h. inv.away j a (owns_before j a h);
      apart = λ j k a h g. inv.apart j k a (owns_before j a h) (owns_before k a g);
      in_order = inv.in_order;
    }

-- ===== src/Mpmc/Fine/Threads/Nodes.antt =====
-- A node of the fine-grained queue is created or deleted.
use low_latency_experiments.Common.{ℕ, ◌≡◌, ◌≢◌, inl, inr, sym, ap, ◌∙◌, subst, none, some}
use low_latency_experiments.Common.Threads.{assign, assign-all}
use low_latency_experiments.Mpmc.Heap.{Ptr, null, node, update, update_self, update_ne}
use low_latency_experiments.Mpmc.Fine.Chain.{Away, frame, Away-of_none}
use low_latency_experiments.Mpmc.Fine.Threads.{outside, ready, deleting, System}
use low_latency_experiments.Mpmc.Fine.Threads.Invariant.{
  owns, Made, TailKnown, HeadKnown, Locks, Shape,
}
use low_latency_experiments.Mpmc.Fine.Threads.Moves.{owns_cases, owns_before, Made-some, Made-later}

module _ {V : Type 0} {s : System V} (locks : Locks s) (inv : Shape s) (i : ℕ) where
  pub create-Shape :
      (a : Ptr) (v : V)
      → a ≢ null
      → s.queue.heap a ≡ none
      → Shape (record s {
        queue = record s.queue { heap = update s.queue.heap a (some (node (some v) null)) };
        pc = assign s.pc i (ready a v);
      })
  create-Shape a v real unused =
      let g = update s.queue.heap a (some (node (some v) null)) in
      let (off, away) =
        Away-of_none s.queue.heap a s.queue.head inv.first inv.last inv.cells unused inv.chain in
      let other : (j : ℕ) (b : Ptr) → owns (s.pc j) ≡ some b → b ≢ a = (λ j b h e.
        let (n, found) = Made-some s.queue.heap (s.pc j) b (inv.made j) h in
        cc (found, unused, ap s.queue.heap e)) in
      record {
        first = inv.first;
        last = inv.last;
        cells = inv.cells;
        chain =
            frame s.queue.heap g s.queue.head inv.first inv.last inv.cells
              (λ b inside.
                update_ne s.queue.heap a _ b
                  (λ e. inside (λ f. off (sym e ∙ f)) (subst (λ c. Away c inv.cells) (sym e) away)))
              inv.chain;
        free_tail = inv.free_tail;
        at_tail =
            assign-all (TailKnown s.queue.tail inv.last) s.pc i (ready a v) tt
              (λ j ne. inv.at_tail j);
        at_head =
            assign-all (HeadKnown s.queue.head inv.cells) s.pc i (ready a v) tt
              (λ j ne. inv.at_head j);
        made =
            assign-all (Made g) s.pc i (ready a v) (real, update_self s.queue.heap a _)
              (λ j ne.
                Made-later s.queue.heap g (s.pc j)
                  (λ b h. update_ne s.queue.heap a _ b (other j b h)) (inv.made j));
        away = λ j b h. elim (owns_cases s.pc i (ready a v) j b h) [
          | inl (e, mine) ↦
              let same : a ≡ b = cc mine in
              subst (λ c. (c ≢ s.queue.head) × Away c inv.cells) same (off, away)
          | inr (ne, old) ↦ inv.away j b old
        ];
        apart = λ j k b h g. elim (owns_cases s.pc i (ready a v) j b h) [
          | inl (e, mine) ↦ elim (owns_cases s.pc i (ready a v) k b g) [
            | inl (e', mine') ↦ e ∙ sym e'
            | inr (ne, old) ↦ absurd (other k b old (cc mine))
          ]
          | inr (ne, old) ↦ elim (owns_cases s.pc i (ready a v) k b g) [
            | inl (e', mine') ↦ absurd (other j b old (cc mine'))
            | inr (ne', old') ↦ inv.apart j k b old old'
          ]
        ];
        in_order = inv.in_order;
      }

  pub delete-Shape :
      (a : Ptr)
      → s.pc i ≡ deleting a
      → Shape (record s {
        queue = record s.queue { heap = update s.queue.heap a none };
        pc = assign s.pc i outside;
      })
  delete-Shape a e =
      let g = update s.queue.heap a none in
      let mine : owns (s.pc i) ≡ some a = ap owns e in
      let (off, away) = inv.away i a mine in
      record {
        first = inv.first;
        last = inv.last;
        cells = inv.cells;
        chain =
            frame s.queue.heap g s.queue.head inv.first inv.last inv.cells
              (λ b inside.
                update_ne s.queue.heap a none b
                  (λ f. inside (λ k. off (sym f ∙ k)) (subst (λ c. Away c inv.cells) (sym f) away)))
              inv.chain;
        free_tail = inv.free_tail;
        at_tail =
            assign-all (TailKnown s.queue.tail inv.last) s.pc i outside tt (λ j ne. inv.at_tail j);
        at_head =
            assign-all (HeadKnown s.queue.head inv.cells) s.pc i outside tt (λ j ne. inv.at_head j);
        made = assign-all (Made g) s.pc i outside tt (λ j ne.
            Made-later s.queue.heap g (s.pc j)
              (λ b h.
                update_ne s.queue.heap a none b
                  (λ f. ne (inv.apart j i b h (mine ∙ ap some (sym f)))))
              (inv.made j));
        away = λ j b h. inv.away j b (owns_before inv i outside (λ c m. absurd (cc m)) j b h);
        apart = λ j k b h g.
            inv.apart j k b (owns_before inv i outside (λ c m. absurd (cc m)) j b h)
              (owns_before inv i outside (λ c m. absurd (cc m)) k b g);
        in_order = inv.in_order;
      }

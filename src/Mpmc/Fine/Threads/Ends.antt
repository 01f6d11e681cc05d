-- ===== src/Mpmc/Fine/Threads/Ends.antt =====
-- The ends of the list of the fine-grained queue move.
use low_latency_experiments.Common.{
  ℕ, ◌≡◌, ◌≢◌, inl, inr, refl, sym, ap, ◌∙◌, subst, [], ◌∷◌, ◌++◌, none, some, arith, ℕ_discrete,
  append_assoc,
}
use low_latency_experiments.Common.Threads.{assign, assign-all}
use low_latency_experiments.Mpmc.Heap.{Ptr, null, node, Node, Heap, update, update_self, update_ne}
use low_latency_experiments.Mpmc.Fine.Chain.{
  Cells, Away, Chain, last_content, tail_node, frame, Away-snoc, ne-tail, Chain-snoc, linked,
}
use low_latency_experiments.Mpmc.Fine.Threads.{linking, moving, enqueued, swapping, swapped, System}
use low_latency_experiments.Mpmc.Fine.Threads.Invariant.{
  owns, Made, TailKnown, HeadKnown, values, Locks, Shape,
}
use low_latency_experiments.Mpmc.Fine.Threads.Moves.{
  owns_cases, owns_before, TailKnown-free, HeadKnown-free, HeadKnown-snoc, Made-later, tail_alone,
  head_alone,
}

module _ {V : Type 0} {s : System V} (locks : Locks s) (inv : Shape s) (i : ℕ) where
  pub move_tail-Shape :
      (a : Ptr)
      → s.pc i ≡ moving a
      → Shape (record s { queue = record s.queue { tail = a }; pc = assign s.pc i enqueued })
  move_tail-Shape a e =
      let known : inv.last ≡ a = subst (TailKnown s.queue.tail inv.last) e (inv.at_tail i) in
      let mine : s.tail_owner ≡ some i = locks.of_tail i (rw e refl) in
      record {
        first = inv.first;
        last = inv.last;
        cells = inv.cells;
        chain = inv.chain;
        free_tail = λ f. absurd (cc (f, mine));
        at_tail =
            assign-all (TailKnown a inv.last) s.pc i enqueued (sym known)
              (λ j ne. TailKnown-free a inv.last (s.pc j) (tail_alone locks i (rw e refl) j ne));
        at_head =
            assign-all (HeadKnown s.queue.head inv.cells) s.pc i enqueued tt
              (λ j ne. inv.at_head j);
        made = assign-all (Made s.queue.heap) s.pc i enqueued tt (λ j ne. inv.made j);
        away = λ j b h. inv.away j b (owns_before inv i enqueued (λ c m. absurd (cc m)) j b h);
        apart = λ j k b h g.
            inv.apart j k b (owns_before inv i enqueued (λ c m. absurd (cc m)) j b h)
              (owns_before inv i enqueued (λ c m. absurd (cc m)) k b g);
        in_order = inv.in_order;
      }

  values-snoc :
      (cells : Cells V) (a : Ptr) (v : V)
      → values (cells ++ ((a, v) ∷ [])) ≡ values cells ++ (v ∷ [])
  values-snoc [] a v = refl
  values-snoc ((b, w) ∷ cells) a v = ap (λ xs. w ∷ xs) (values-snoc cells a v)

  -- Putting a node behind the tail, where the node is in the heap already.
  Chain-link :
      (a : Ptr) (v : V) (g : Heap V)
      → a ≢ null
      → s.queue.heap a ≡ some (node (some v) null)
      → (a ≢ s.queue.head) × Away a inv.cells
      → g ≡ update s.queue.heap inv.last (some (node (last_content inv.first inv.cells) a))
      → Chain g s.queue.head inv.first a (inv.cells ++ ((a, v) ∷ []))
  Chain-link a v g real stored (off, away) e =
      let without = update s.queue.heap a none in
      let d = last_content inv.first inv.cells in
      let before =
        frame s.queue.heap without s.queue.head inv.first inv.last inv.cells
          (λ b inside.
            update_ne s.queue.heap a none b
              (λ f. inside (λ k. off (sym f ∙ k)) (subst (λ c. Away c inv.cells) (sym f) away)))
          inv.chain in
      let pointwise : (b : Ptr)
          → update s.queue.heap inv.last (some (node d a)) b ≡ linked without inv.last d a v b =
        (λ b. elim (ℕ_discrete b a) [
          | yes f ↦
              subst
                (λ c.
                  update s.queue.heap inv.last (some (node d a)) c
                  ≡ linked without inv.last d a v c)
                (sym f) (ground (arith, stored))
          | no ne ↦ ground arith
        ]) in
      let after =
        Chain-snoc without s.queue.head inv.first inv.last inv.cells a v real
          (update_self s.queue.heap a none) before in
      frame (linked without inv.last d a v) g s.queue.head inv.first a (inv.cells ++ ((a, v) ∷ []))
        (λ b inside. ap (λ (k : Heap V). k b) e ∙ pointwise b) after

  pub link-Shape :
      (a : Ptr) (v : V) (n : Node V)
      → s.pc i ≡ linking a v
      → s.queue.heap s.queue.tail ≡ some n
      → Shape (record s {
        queue = record s.queue {
          heap = update s.queue.heap s.queue.tail (some (record n { next = a }));
        };
        pc = assign s.pc i (moving a);
        put = s.put ++ (v ∷ []);
      })
  link-Shape a v n e found =
      let g = update s.queue.heap s.queue.tail (some (record n { next = a })) in
      let mine : owns (s.pc i) ≡ some a = ap owns e in
      let (real, stored) = subst (Made s.queue.heap) e (inv.made i) in
      let at_end : s.queue.tail ≡ inv.last =
        subst (TailKnown s.queue.tail inv.last) e (inv.at_tail i) in
      let owner : s.tail_owner ≡ some i = locks.of_tail i (rw e refl) in
      let content = tail_node s.queue.heap s.queue.head inv.first inv.last inv.cells inv.chain in
      let same : n ≡ node (last_content inv.first inv.cells) null =
        cc (found, ap s.queue.heap at_end, content) in
      let other : (j : ℕ) → j ≢ i → (b : Ptr) → owns (s.pc j) ≡ some b → b ≢ s.queue.tail =
        (λ j ne b h f.
          let (off, away) = inv.away j b h in
          ne-tail s.queue.heap b s.queue.head inv.first inv.last inv.cells off away inv.chain
            (f ∙ at_end)) in
      record {
        first = inv.first;
        last = a;
        cells = inv.cells ++ ((a, v) ∷ []);
        chain = Chain-link a v g real stored (inv.away i a mine) (
            subst
              (λ t.
                update s.queue.heap t (some (record n { next = a }))
                ≡ update s.queue.heap inv.last (some (node (last_content inv.first inv.cells) a)))
              (sym at_end)
              (ap (λ (k : Node V). update s.queue.heap inv.last (some (record k { next = a })))
                same));
        free_tail = λ f. absurd (cc (f, owner));
        at_tail =
            assign-all (TailKnown s.queue.tail a) s.pc i (moving a) refl (λ j ne.
              TailKnown-free s.queue.tail a (s.pc j) (tail_alone locks i (rw e refl) j ne));
        at_head =
            assign-all (HeadKnown s.queue.head (inv.cells ++ ((a, v) ∷ []))) s.pc i (moving a) tt
              (λ j ne. HeadKnown-snoc s.queue.head inv.cells (a, v) (s.pc j) (inv.at_head j));
        made = assign-all (Made g) s.pc i (moving a) tt (λ j ne.
            Made-later s.queue.heap g (s.pc j)
              (λ b h. update_ne s.queue.heap s.queue.tail _ b (other j ne b h)) (inv.made j));
        away = λ j b h. elim (owns_cases s.pc i (moving a) j b h) [
          | inl (f, m) ↦ absurd (cc m)
          | inr (ne, old) ↦
              let (off, away) = inv.away j b old in
              (
                off,
                Away-snoc b inv.cells a v away
                    (λ f. ne (inv.apart j i b old (mine ∙ ap some (sym f)))),
              )
        ];
        apart = λ j k b h k'.
            inv.apart j k b (owns_before inv i (moving a) (λ c m. absurd (cc m)) j b h)
              (owns_before inv i (moving a) (λ c m. absurd (cc m)) k b k');
        in_order =
            ap (λ xs. s.taken ++ xs) (values-snoc inv.cells a v)
            ∙ sym (append_assoc s.taken (values inv.cells) (v ∷ []))
            ∙ ap (λ xs. xs ++ (v ∷ [])) inv.in_order;
      }

  pub move_head-Shape :
      (a b : Ptr) (v : V)
      → s.pc i ≡ swapping a b v
      → Shape (record s {
        queue = record s.queue { head = b };
        pc = assign s.pc i (swapped a);
        taken = s.taken ++ (v ∷ []);
      })
  move_head-Shape a b v e =
      let (at_start, rest, split) = subst (HeadKnown s.queue.head inv.cells) e (inv.at_head i) in
      let chain : Chain s.queue.heap s.queue.head inv.first inv.last ((b, v) ∷ rest) =
        subst (λ c. Chain s.queue.heap s.queue.head inv.first inv.last c) split inv.chain in
      let apart_all : (j : ℕ) (c : Ptr)
          → owns (s.pc j) ≡ some c
          → (c ≢ s.queue.head) × Away c ((b, v) ∷ rest) =
        (λ j c h. subst (λ x. (c ≢ s.queue.head) × Away c x) split (inv.away j c h)) in
      record {
        first = some v;
        last = inv.last;
        cells = rest;
        chain = chain.3;
        free_tail = inv.free_tail;
        at_tail =
            assign-all (TailKnown s.queue.tail inv.last) s.pc i (swapped a) tt
              (λ j ne. inv.at_tail j);
        at_head =
            assign-all (HeadKnown b rest) s.pc i (swapped a) tt
              (λ j ne. HeadKnown-free b rest (s.pc j) (head_alone locks i (rw e refl) j ne));
        made =
            assign-all (Made s.queue.heap) s.pc i (swapped a)
              (_, ap s.queue.heap at_start ∙ chain.0) (λ j ne. inv.made j);
        away = λ j c h. elim (owns_cases s.pc i (swapped a) j c h) [
          | inl (f, m) ↦
              let same : s.queue.head ≡ c = sym at_start ∙ cc m in
              subst (λ x. (x ≢ b) × Away x rest) same chain.2
          | inr (ne, old) ↦ (apart_all j c old).1
        ];
        apart = λ j k c h g. elim (owns_cases s.pc i (swapped a) j c h) [
          | inl (f, m) ↦ elim (owns_cases s.pc i (swapped a) k c g) [
            | inl (f', m') ↦ f ∙ sym f'
            | inr (ne, old) ↦ absurd ((apart_all k c old).0 (sym (cc m) ∙ at_start))
          ]
          | inr (ne, old) ↦ elim (owns_cases s.pc i (swapped a) k c g) [
            | inl (f', m') ↦ absurd ((apart_all j c old).0 (sym (cc m') ∙ at_start))
            | inr (ne', old') ↦ inv.apart j k c old old'
          ]
        ];
        in_order =
            append_assoc s.taken (v ∷ []) (values rest)
            ∙ ap (λ c. s.taken ++ values c) (sym split)
            ∙ inv.in_order;
      }

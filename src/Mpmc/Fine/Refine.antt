-- ===== src/Mpmc/Fine/Refine.antt =====
-- The calls of the fine-grained queue against a list of values, and its memory.
use low_latency_experiments.Common.{
  ◌≡◌, ◌≢◌, refl, ap, ◌∙◌, [], ◌∷◌, ◌++◌, Option, none, some, arith, ◌==◌, false, ℕ_discrete, ◌↔◌,
}
use low_latency_experiments.Mpmc.Heap.{
  Ptr, null, node, update, update_self, update_ne, set_content_new, set_next-node,
}
use low_latency_experiments.Mpmc.Fine.{Queue, init, enqueue, dequeue}
use low_latency_experiments.Mpmc.Fine.Chain.{
  Cells, Away, Chain, last_content, tail_node, head_node, frame, Chain-snoc, ne-tail, Away-snoc_inv,
  linked_other,
}

module _ {ℓ} {V : Type ℓ} where
  -- The queue holds the cells `xs` behind a dummy, and its heap nothing else.
  pub record Holds (q : Queue V) (xs : Cells V) : Type ℓ where
    pub dummy : Option V
    pub chain : Chain q.heap q.head dummy q.tail xs
    pub nothing_else : (a : Ptr) → a ≢ q.head → Away a xs → q.heap a ≡ none

  -- A new queue on an empty heap holds nothing, and its heap one node, the dummy.
  pub init-Holds : (dummy : Ptr) → Holds (init (λ _. none) dummy) []
  unfolding init
  init-Holds dummy = record {
    dummy = none;
    chain = (refl, update_self (λ _. none) dummy _);
    nothing_else = λ a ne away. update_ne (λ _. none) dummy _ a ne;
  }

  -- On a queue that holds `xs`, with an unused address from `new`, `enqueue` is defined, appends
  -- its value in the node that `new` returned, and keeps every other node.
  pub enqueue-Holds :
      {q : Queue V} {xs : Cells V} (fresh : Ptr) (v : V)
      → Holds q xs
      → fresh ≢ null
      → q.heap fresh ≡ none
      → (q' : Queue V) × (enqueue q fresh v ≡ some q') × Holds q' (xs ++ (fresh, v) ∷ [])
  unfolding enqueue
  enqueue-Holds {q} {xs} fresh v ok ne unused =
      let last = tail_node q.heap q.head ok.dummy q.tail xs ok.chain in
      let apart : q.tail ≢ fresh = (λ e. cc (ap q.heap e, unused, last)) in
      let at_tail = update_ne q.heap fresh (some (node (some v) null)) q.tail apart ∙ last in
      rw
        (
          set_content_new q.heap fresh v,
          set_next-node _ q.tail fresh null (last_content ok.dummy xs) at_tail,
        )
        (
          _,
          refl,
          record {
            dummy = ok.dummy;
            chain = Chain-snoc q.heap q.head ok.dummy q.tail xs fresh v ne unused ok.chain;
            nothing_else = λ a ne away.
                let (old, new) = Away-snoc_inv a xs fresh v away in
                linked_other q.heap q.tail (last_content ok.dummy xs) fresh v a
                  (ne-tail q.heap a q.head ok.dummy q.tail xs ne old ok.chain) new
                ∙ ok.nothing_else a ne old;
          },
        )

  -- `dequeue` of an empty queue returns false and changes nothing.
  pub dequeue-empty : {q : Queue V} → Holds q [] → dequeue q ≡ some (none, q)
  unfolding dequeue
  dequeue-empty {q} ok = rw ok.chain.1

  -- `dequeue` of any other queue is defined, returns the first value, frees one node, the old dummy,
  -- and leaves the rest.
  pub dequeue-Holds :
      {q : Queue V} {a : Ptr} {v : V} {xs : Cells V}
      → Holds q ((a, v) ∷ xs)
      → (q' : Queue V) × (dequeue q ≡ some (some v, q')) × Holds q' xs × (q'.heap q.head ≡ none)
  unfolding dequeue
  dequeue-Holds {q} {a} {v} {xs} ok =
      let (next, found) = head_node q.heap a (some v) q.tail xs ok.chain.3 in
      let more : (a == null) ≡ false = ground (arith, ok.chain.1) in
      rw (ok.chain.0, more, found)
        (
          _,
          refl,
          record {
            dummy = some v;
            chain =
                frame q.heap (update q.heap q.head none) a (some v) q.tail xs
                  (λ b inside.
                    update_ne q.heap q.head none b
                      (λ e. inside (rw e ok.chain.2.0) (rw e ok.chain.2.1)))
                  ok.chain.3;
            nothing_else = λ b ne away. elim (ℕ_discrete b q.head) [
              | yes e ↦ rw e (update_self q.heap q.head none)
              | no other ↦ update_ne q.heap q.head none b other ∙ ok.nothing_else b other (ne, away)
            ];
          },
          update_self q.heap q.head none,
        )

  -- `dequeue` reads the `next` of the node at `head` under one mutex, and `enqueue` writes the `next`
  -- of the node at `tail` under the other. The two are one field exactly when the queue is empty.
  pub head-eq-tail_iff : {q : Queue V} (xs : Cells V) → Holds q xs → (q.head ≡ q.tail) ↔ (xs ≡ [])
  head-eq-tail_iff {q} [] ok = (λ e. refl, λ e. ok.chain.0)
  head-eq-tail_iff {q} ((a, v) ∷ xs) ok = (
    λ e. absurd (ne-tail q.heap q.head a (some v) q.tail xs ok.chain.2.0 ok.chain.2.1 ok.chain.3 e),
    λ e. cc,
  )

-- ===== src/Mpmc/Fine/RoundTrip.antt =====
-- A number of calls of `enqueue` of fine_grained_vs_coarse_grained/fine_grained/queue_mpmc.hpp, and
-- then as many of `dequeue`.
use low_latency_experiments.Common.{
  ℕ, zero, suc, ◌≡◌, ◌≢◌, refl, sym, ap, ◌∙◌, List, [], ◌∷◌, ◌++◌, map, append_assoc, append-nil,
  Option, none, some, ◌>>=◌, length, subst, eq_of_some,
}
use low_latency_experiments.Mpmc.Heap.{Ptr, null, Heap, set_content, set_next}
use low_latency_experiments.Mpmc.Fine.{Queue, enqueue, dequeue, new_node}
use low_latency_experiments.Mpmc.Fine.Chain.{Cells, Away, Away-of_none}
use low_latency_experiments.Mpmc.Fine.Refine.{Holds, enqueue-Holds, dequeue-Holds}

module _ {ℓ} {V : Type ℓ} where
  -- A call of `enqueue` for each value, with the address that `new` returns in it.
  unfoldable pub enqueue_all : Queue V → Cells V → Option (Queue V)
  enqueue_all q [] = some q
  enqueue_all q ((fresh, v) ∷ xs) = do q' ← enqueue q fresh v; enqueue_all q' xs

  -- `n` calls of `dequeue`, and their results.
  unfoldable pub dequeue_all : ℕ → Queue V → Option (List (Option V) × Queue V)
  dequeue_all zero q = some ([], q)
  dequeue_all (suc n) q = do (o, q') ← dequeue q; (os, q'') ← dequeue_all n q'; some (o ∷ os, q'')

  -- Addresses that `new` can return one after another.
  abbrev pub Unused : Heap V → Cells V → Type ℓ
  Unused h [] = Unit
  Unused h ((a, v) ∷ xs) = (a ≢ null) × (h a ≡ none) × Away a xs × Unused h xs

  enqueue-head :
      (q q' : Queue V) (fresh : Ptr) (v : V) → enqueue q fresh v ≡ some q' → q'.head ≡ q.head
  unfolding enqueue
  enqueue-head q q' fresh v e = after_content (set_content (new_node q.heap fresh) fresh v) e
    where
      after_next :
          (o : Option (Heap V))
          → (o >>= λ h. some (record q { heap = h; tail = fresh })) ≡ some q'
          → q'.head ≡ q.head
      after_next none f = absurd (cc f)
      after_next (some h) f = sym (ap (λ (k : Queue V). k.head) (eq_of_some f))

      after_content :
          (o : Option (Heap V))
          → (o >>= λ h.
              (set_next h q.tail fresh >>= λ g. some (record q { heap = g; tail = fresh })))
            ≡ some q'
          → q'.head ≡ q.head
      after_content none f = absurd (cc f)
      after_content (some h) f = after_next (set_next h q.tail fresh) f

  Away-append : (a b : Ptr) (v : V) (xs : Cells V) → Away b xs → b ≢ a → Away b (xs ++ (a, v) ∷ [])
  Away-append a b v [] away ne = (ne, tt)
  Away-append a b v ((c, w) ∷ xs) away ne = (away.0, Away-append a b v xs away.1 ne)

  still-Unused :
      {q q' : Queue V} {xs : Cells V} (a : Ptr) (v : V) (ys : Cells V)
      → Holds q xs
      → Holds q' (xs ++ (a, v) ∷ [])
      → q'.head ≡ q.head
      → Away a ys
      → Unused q.heap ys
      → Unused q'.heap ys
  still-Unused a v [] ok ok' same away unused = tt
  still-Unused {q} {q'} {xs} a v ((b, w) ∷ ys) ok ok' same away unused =
      let (not_head, not_there) =
        Away-of_none q.heap b q.head ok.dummy q.tail xs unused.1 ok.chain in
      (
        unused.0,
        ok'.nothing_else b (λ e. not_head (e ∙ same))
            (Away-append a b v xs not_there (λ e. away.0 (sym e))),
        unused.2,
        still-Unused a v ys ok ok' same away.1 unused.3,
      )

  enqueue_all-Holds :
      (ys : Cells V) {q : Queue V} (xs : Cells V)
      → Holds q xs
      → Unused q.heap ys
      → (q' : Queue V) × (enqueue_all q ys ≡ some q') × Holds q' (xs ++ ys)
  unfolding enqueue_all
  enqueue_all-Holds [] {q} xs ok unused = (q, refl, rw (append-nil xs) ok)
  enqueue_all-Holds ((a, v) ∷ ys) {q} xs ok unused =
      let (q1, ran, ok1) = enqueue-Holds a v ok unused.0 unused.1 in
      let rest = still-Unused a v ys ok ok1 (enqueue-head q q1 a v ran) unused.2 unused.3 in
      let (q2, ran', ok2) = enqueue_all-Holds ys (xs ++ (a, v) ∷ []) ok1 rest in
      (q2, rw ran ran', subst (Holds q2) (append_assoc xs ((a, v) ∷ []) ys) ok2)

  dequeue_all-Holds :
      (xs : Cells V) {q : Queue V}
      → Holds q xs
      → (q' : Queue V) × (dequeue_all (length xs) q ≡ some (map (λ (x : Ptr × V). some x.1) xs, q'))
        × Holds q' []
  unfolding dequeue_all
  dequeue_all-Holds [] {q} ok = (q, refl, ok)
  dequeue_all-Holds ((a, v) ∷ xs) {q} ok =
      let (q1, ran, ok1, freed) = dequeue-Holds ok in
      let (q2, ran', ok2) = dequeue_all-Holds xs ok1 in (q2, rw (ran, ran') refl, ok2)

  -- On an empty queue, with unused and distinct addresses from `new`, any number of calls of `enqueue`
  -- and then as many of `dequeue` are defined; the calls of `dequeue` all return true with the values
  -- in the order in which they were put in, and the queue is empty again, with its dummy as the only
  -- node in the heap.
  pub enqueue_all-dequeue_all :
      {q : Queue V} (xs : Cells V)
      → Holds q []
      → Unused q.heap xs
      → (q' : Queue V) × (q'' : Queue V) × (enqueue_all q xs ≡ some q')
        × (dequeue_all (length xs) q' ≡ some (map (λ (x : Ptr × V). some x.1) xs, q''))
        × Holds q'' []
  enqueue_all-dequeue_all xs ok unused =
      let (q', ran, ok') = enqueue_all-Holds xs [] ok unused in
      let (q'', ran', ok'') = dequeue_all-Holds xs ok' in (q', q'', ran, ran', ok'')

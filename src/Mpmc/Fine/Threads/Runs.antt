-- ===== src/Mpmc/Fine/Threads/Runs.antt =====
-- Every reachable state of the fine-grained queue.
use low_latency_experiments.Common.{
  ◌≡◌, ◌≢◌, refl, sym, ap, ◌∙◌, subst, [], ◌∷◌, Option, none, some,
}
use low_latency_experiments.Mpmc.Heap.{Ptr, null, node, Node, update_self}
use low_latency_experiments.Mpmc.Fine.Chain.{Cells, Chain, head_node}
use low_latency_experiments.Mpmc.Fine.Threads.{
  outside, linking, reading, testing, swapping, deleting, System, Step, start, Reach,
}
use low_latency_experiments.Mpmc.Fine.Threads.Invariant.{
  owns, Made, TailKnown, HeadKnown, Locks, Shape,
}
use low_latency_experiments.Mpmc.Fine.Threads.Mutexes.{Step-Locks}
use low_latency_experiments.Mpmc.Fine.Threads.Moves.{Shape-quiet}
use low_latency_experiments.Mpmc.Fine.Threads.Nodes.{create-Shape, delete-Shape}
use low_latency_experiments.Mpmc.Fine.Threads.Ends.{link-Shape, move_tail-Shape, move_head-Shape}

module _ {V : Type 0} where
  -- What the node behind the first tells, once its link has been read.
  pub next_known :
      {s : System V} (inv : Shape s) (b : Ptr) (n : Node V)
      → s.queue.heap s.queue.head ≡ some n
      → n.next ≡ b
      → b ≢ null
      → (v : V) × (rest : Cells V) × (inv.cells ≡ (b, v) ∷ rest)
  next_known {s} inv b n found e ne = by_cells inv.first inv.cells inv.chain
    where
      by_cells :
          (d : Option V) (cells : Cells V)
          → Chain s.queue.heap s.queue.head d inv.last cells
          → (v : V) × (rest : Cells V) × (cells ≡ (b, v) ∷ rest)
      by_cells d [] c =
          let same : n ≡ node d null = cc (found, c.1) in
          absurd (ne (sym e ∙ ap (λ (k : Node V). k.next) same))
      by_cells d ((q, v) ∷ rest) c =
          let same : n ≡ node d q = cc (found, c.0) in
          let at : q ≡ b = sym (ap (λ (k : Node V). k.next) same) ∙ e in
          (v, rest, ap (λ x. (x, v) ∷ rest) at)

  -- The value in the node behind the first.
  pub value_known :
      {s : System V} (inv : Shape s) (b : Ptr) (w : V) (rest : Cells V)
      → inv.cells ≡ (b, w) ∷ rest
      → (next : Ptr) × (s.queue.heap b ≡ some (node (some w) next))
  value_known {s} inv b w rest split =
      let chain : Chain s.queue.heap s.queue.head inv.first inv.last ((b, w) ∷ rest) =
        subst (λ c. Chain s.queue.heap s.queue.head inv.first inv.last c) split inv.chain in
      head_node s.queue.heap b (some w) inv.last rest chain.3

  pub Step-Shape : {s t : System V} → Step s t → Locks s → Shape s → Shape t
  Step-Shape (Step.create_node i a v e ne f) locks inv = create-Shape locks inv i a v ne f
  Step-Shape {s} (Step.lock_tail i a v e f) locks inv =
      Shape-quiet inv i (linking a v) (λ b h. ap owns e ∙ h) (some i) s.head_owner
        (λ g. absurd (cc g)) (inv.free_tail f) tt (subst (Made s.queue.heap) e (inv.made i))
  Step-Shape (Step.link i a v n e f) locks inv = link-Shape locks inv i a v n e f
  Step-Shape (Step.move_tail i a e) locks inv = move_tail-Shape locks inv i a e
  Step-Shape {s} (Step.unlock_tail i e) locks inv =
      Shape-quiet inv i outside (λ b h. absurd (cc h)) none s.head_owner
        (λ g. subst (TailKnown s.queue.tail inv.last) e (inv.at_tail i)) tt tt tt
  Step-Shape {s} (Step.lock_head i e f) locks inv =
      Shape-quiet inv i reading (λ b h. absurd (cc h)) s.tail_owner (some i) inv.free_tail tt tt tt
  Step-Shape {s} (Step.read_next i n e f) locks inv =
      Shape-quiet inv i (testing s.queue.head n.next) (λ b h. absurd (cc h)) s.tail_owner
        s.head_owner inv.free_tail tt (refl, next_known inv n.next n f refl) tt
  Step-Shape {s} (Step.find_empty i a e) locks inv =
      Shape-quiet inv i outside (λ b h. absurd (cc h)) s.tail_owner none inv.free_tail tt tt tt
  Step-Shape {s} (Step.read_data i a b n v e ne f) locks inv =
      let (at, known) = subst (HeadKnown s.queue.head inv.cells) e (inv.at_head i) in
      let (w, rest, split) = known ne in
      let (next, found) = value_known inv b w rest split in
      let same : w ≡ v = cc (found, f) in
      Shape-quiet inv i (swapping a b v) (λ c h. absurd (cc h)) s.tail_owner s.head_owner
        inv.free_tail tt (at, rest, split ∙ ap (λ x. (b, x) ∷ rest) same) tt
  Step-Shape (Step.move_head i a b v e) locks inv = move_head-Shape locks inv i a b v e
  Step-Shape {s} (Step.unlock_head i a e) locks inv =
      Shape-quiet inv i (deleting a) (λ b h. ap owns e ∙ h) s.tail_owner none inv.free_tail tt tt
        (subst (Made s.queue.heap) e (inv.made i))
  Step-Shape (Step.delete_node i a n e f) locks inv = delete-Shape locks inv i a e

  start-Locks : (dummy : Ptr) → Locks (start V dummy)
  start-Locks dummy = record { of_tail = λ i h. cc h; of_head = λ i h. cc h }

  start-Shape : (dummy : Ptr) → Shape (start V dummy)
  start-Shape dummy = record {
    first = none;
    last = dummy;
    cells = [];
    chain = (refl, update_self (λ a. none) dummy _);
    free_tail = λ e. refl;
    at_tail = λ i. tt;
    at_head = λ i. tt;
    made = λ i. tt;
    away = λ i a h. absurd (cc h);
    apart = λ i j a h g. absurd (cc h);
    in_order = refl;
  }

  pub Reach-Locks : {dummy : Ptr} {s : System V} → Reach dummy s → Locks s
  Reach-Locks {dummy} Reach.here = start-Locks dummy
  Reach-Locks (Reach.later r st) = Step-Locks st (Reach-Locks r)

  pub Reach-Shape : {dummy : Ptr} {s : System V} → Reach dummy s → Shape s
  Reach-Shape {dummy} Reach.here = start-Shape dummy
  Reach-Shape (Reach.later r st) = Step-Shape st (Reach-Locks r) (Reach-Shape r)

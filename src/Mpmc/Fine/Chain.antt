-- ===== src/Mpmc/Fine/Chain.antt =====
-- The list of a fine-grained queue on the heap.
use low_latency_experiments.Common.{
  ◌≡◌, ◌≢◌, refl, sym, ap, ◌∙◌, List, [], ◌∷◌, ◌++◌, Option, none, some, arith,
}
use low_latency_experiments.Mpmc.Heap.{Ptr, null, node, Heap, update}

-- The nodes behind the dummy, with their values.
abbrev pub Cells {ℓ} : Type ℓ → Type ℓ
Cells V = List (Ptr × V)

module _ {ℓ} {V : Type ℓ} where
  -- No node stands at the address.
  abbrev pub Away : Ptr → Cells V → Type 0
  Away a [] = Unit {0}
  Away a ((q, v) ∷ xs) = (a ≢ q) × Away a xs

  -- From the node at `p`, with content `d`, the links lead through distinct nodes `xs` to the last
  -- one, at `t`.
  abbrev pub Chain : Heap V → Ptr → Option V → Ptr → Cells V → Type ℓ
  Chain h p d t [] = (p ≡ t) × (h p ≡ some (node d null))
  Chain h p d t ((q, v) ∷ xs) =
      (h p ≡ some (node d q)) × (q ≢ null) × Away p ((q, v) ∷ xs) × Chain h q (some v) t xs

  abbrev pub last_content : Option V → Cells V → Option V
  last_content d [] = d
  last_content d ((q, v) ∷ xs) = last_content (some v) xs

  pub tail_node :
      (h : Heap V) (p : Ptr) (d : Option V) (t : Ptr) (xs : Cells V)
      → Chain h p d t xs
      → h t ≡ some (node (last_content d xs) null)
  tail_node h p d t [] c = rw (← c.0) c.1
  tail_node h p d t ((q, v) ∷ xs) c = tail_node h q (some v) t xs c.3

  pub head_node :
      (h : Heap V) (p : Ptr) (d : Option V) (t : Ptr) (xs : Cells V)
      → Chain h p d t xs
      → (q : Ptr) × (h p ≡ some (node d q))
  head_node h p d t [] c = (null, c.1)
  head_node h p d t ((q, v) ∷ xs) c = (q, c.0)

  pub ne-tail :
      (h : Heap V) (a p : Ptr) (d : Option V) (t : Ptr) (xs : Cells V)
      → a ≢ p
      → Away a xs
      → Chain h p d t xs
      → a ≢ t
  ne-tail h a p d t [] ne away c = λ e. ne (e ∙ sym c.0)
  ne-tail h a p d t ((q, v) ∷ xs) ne away c = ne-tail h a q (some v) t xs away.0 away.1 c.3

  -- An unused address is none of the nodes.
  pub Away-of_none :
      (h : Heap V) (a p : Ptr) (d : Option V) (t : Ptr) (xs : Cells V)
      → h a ≡ none
      → Chain h p d t xs
      → (a ≢ p) × Away a xs
  Away-of_none h a p d t [] unused c = (λ e. cc (ap h e, c.1), tt)
  Away-of_none h a p d t ((q, v) ∷ xs) unused c =
      let rest = Away-of_none h a q (some v) t xs unused c.3 in (λ e. cc (ap h e, c.0), rest)

  -- A change of the heap that spares the nodes spares the chain.
  pub frame :
      (h g : Heap V) (p : Ptr) (d : Option V) (t : Ptr) (xs : Cells V)
      → ((a : Ptr) → (a ≢ p → Away a xs → ⊥) → g a ≡ h a)
      → Chain h p d t xs
      → Chain g p d t xs
  frame h g p d t [] same c = (c.0, same p (λ ne away. ne refl) ∙ c.1)
  frame h g p d t ((q, v) ∷ xs) same c = (
    same p (λ ne away. ne refl) ∙ c.0,
    c.1,
    c.2,
    frame h g q (some v) t xs (λ a out. same a (λ ne away. out away.0 away.1)) c.3,
  )

  -- The heap after a new node has been put behind the tail.
  abbrev pub linked : Heap V → Ptr → Option V → Ptr → V → Heap V
  linked h t d fresh v = update (update h fresh (some (node (some v) null))) t (some (node d fresh))

  pub Away-snoc_inv :
      (a : Ptr) (xs : Cells V) (fresh : Ptr) (v : V)
      → Away a (xs ++ (fresh, v) ∷ [])
      → Away a xs × (a ≢ fresh)
  Away-snoc_inv a [] fresh v away = (tt, away.0)
  Away-snoc_inv a ((q, w) ∷ xs) fresh v away =
      let rest = Away-snoc_inv a xs fresh v away.1 in ((away.0, rest.0), rest.1)

  linked_tail :
      (h : Heap V) (t : Ptr) (d : Option V) (fresh : Ptr) (v : V)
      → linked h t d fresh v t ≡ some (node d fresh)
  linked_tail h t d fresh v = ground arith

  linked_fresh :
      (h : Heap V) (t : Ptr) (d : Option V) (fresh : Ptr) (v : V)
      → t ≢ fresh
      → linked h t d fresh v fresh ≡ some (node (some v) null)
  linked_fresh h t d fresh v ne = ground arith

  pub linked_other :
      (h : Heap V) (t : Ptr) (d : Option V) (fresh : Ptr) (v : V) (a : Ptr)
      → a ≢ t
      → a ≢ fresh
      → linked h t d fresh v a ≡ h a
  linked_other h t d fresh v a ne other = ground arith

  pub Away-snoc :
      (a : Ptr) (xs : Cells V) (fresh : Ptr) (v : V)
      → Away a xs
      → a ≢ fresh
      → Away a (xs ++ (fresh, v) ∷ [])
  Away-snoc a [] fresh v away ne = (ne, tt)
  Away-snoc a ((q, w) ∷ xs) fresh v away ne = (away.0, Away-snoc a xs fresh v away.1 ne)

  pub Chain-snoc :
      (h : Heap V) (p : Ptr) (d : Option V) (t : Ptr) (xs : Cells V) (fresh : Ptr) (v : V)
      → fresh ≢ null
      → h fresh ≡ none
      → Chain h p d t xs
      → Chain (linked h t (last_content d xs) fresh v) p d fresh (xs ++ (fresh, v) ∷ [])
  Chain-snoc h p d t [] fresh v ne unused c =
      let apart : p ≢ fresh = (λ e. (Away-of_none h fresh p d t [] unused c).0 (sym e)) in
      (
        rw c.0 (linked_tail h t d fresh v),
        ne,
        (apart, tt),
        (refl, linked_fresh h t d fresh v (λ e. apart (c.0 ∙ e))),
      )
  Chain-snoc h p d t ((q, w) ∷ xs) fresh v ne unused c =
      let apart : p ≢ fresh =
        (λ e. (Away-of_none h fresh p d t ((q, w) ∷ xs) unused c).0 (sym e)) in
      (
        linked_other h t (last_content (some w) xs) fresh v p
              (ne-tail h p q (some w) t xs c.2.0 c.2.1 c.3) apart
            ∙ c.0,
        c.1,
        Away-snoc p ((q, w) ∷ xs) fresh v c.2 apart,
        Chain-snoc h q (some w) t xs fresh v ne unused c.3,
      )

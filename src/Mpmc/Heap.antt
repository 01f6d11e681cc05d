-- ===== src/Mpmc/Heap.antt =====
-- The nodes of fine_grained_vs_coarse_grained/fine_grained/queue_mpmc.hpp on an explicit heap.
use low_latency_experiments.Common.{
  ℕ, ◌≡◌, Option, none, some, ◌==◌, if◌then◌else◌, ◌>>=◌, arith, ◌≢◌, ap, ℕ_discrete,
}
use mathlib.Core.Path.{fun_ext}

abbrev pub Ptr : Type 0
Ptr = ℕ

-- `nullptr`
abbrev pub null : Ptr
null = 0

-- `struct node`; `none` is data that has not been initialised.
pub record Node {ℓ} (V : Type ℓ) : Type ℓ where
  pub content : Option V
  pub next : Ptr

-- `none` at an address that holds no node.
abbrev pub Heap {ℓ} : Type ℓ → Type ℓ
Heap V = Ptr → Option (Node V)

module _ {ℓ} {V : Type ℓ} where
  abbrev pub node : Option V → Ptr → Node V
  node d q = record { content = d; next = q }

  abbrev pub update : Heap V → Ptr → Option (Node V) → Heap V
  update h p c a = if a == p then c else h a

  -- `p->next = q`; undefined at an address that holds no node.
  abbrev pub set_next : Heap V → Ptr → Ptr → Option (Heap V)
  set_next h p q = do n ← h p; some (update h p (some (record n { next = q })))

  -- `p->data = v`
  abbrev pub set_content : Heap V → Ptr → V → Option (Heap V)
  set_content h p v = do n ← h p; some (update h p (some (record n { content = some v })))

  -- `delete p`
  abbrev pub delete : Heap V → Ptr → Option (Heap V)
  delete h p = do n ← h p; some (update h p none)

  pub update_self : (h : Heap V) (p : Ptr) (c : Option (Node V)) → update h p c p ≡ c
  update_self h p c = ground arith

  pub update_ne :
      (h : Heap V) (p : Ptr) (c : Option (Node V)) (a : Ptr) → a ≢ p → update h p c a ≡ h a
  update_ne h p c a ne = ground arith

  update-update :
      (h : Heap V) (p : Ptr) (b c : Option (Node V)) → update (update h p b) p c ≡ update h p c
  update-update h p b c = fun_ext (λ a. pointwise (ℕ_discrete a p))
    where
      pointwise : {a : Ptr} → Dec (a ≡ p) → update (update h p b) p c a ≡ update h p c a
      pointwise {a} (yes e) = ground arith
      pointwise {a} (no ne) = ground arith

  pub set_content_new :
      (h : Heap V) (fresh : Ptr) (v : V)
      → set_content (update h fresh (some (node none null))) fresh v
        ≡ some (update h fresh (some (node (some v) null)))
  set_content_new h fresh v =
      rw (update_self h fresh (some (node none null)))
        (ap some (update-update h fresh (some (node none null)) (some (node (some v) null))))

  pub set_next-node :
      (h : Heap V) (p q r : Ptr) (d : Option V)
      → h p ≡ some (node d r)
      → set_next h p q ≡ some (update h p (some (node d q)))
  set_next-node h p q r d e = rw e

-- ===== src/Network/PerClient/Invariant.antt =====
-- What every step of every thread keeps: how the slots of the peers, their flags and the threads belong
-- together, and who holds the mutex.
use low_latency_experiments.Common.{
  ℕ, suc, List, [], ◌∷◌, ◌++◌, Bool, true, false, some, ◌≡◌, ◌≢◌, ◌≤◌, ◌⊎◌, inl, inr, refl, sym, ap,
  ◌∙◌, subst, get_elem?, set, length, arith, length-set, length-append, get_elem?-set_cases,
  get_elem?-set_ne, get_elem?-append_ne, get_elem?-append_last, ℕ_discrete,
}
use low_latency_experiments.Common.Int.{pos_part}
use low_latency_experiments.Network.Socket.{Socket}
use low_latency_experiments.Network.PerClient.{Client, buffer_room}

-- The thread still stands for the peer in its slot.
abbrev pub serves : Client → Bool
serves Client.left = false
serves Client.ended = false
serves _ = true

-- What was read fits the buffer.
abbrev pub Fits : Client → Type 0
Fits (Client.received read stored error) = pos_part read ≤ buffer_room
Fits (Client.handling read stored error) = pos_part read ≤ buffer_room
Fits _ = Unit {0}

-- Thread `k` serves slot `i` and stands at `pc`.
abbrev pub StandsAt : List (ℕ × Client) → ℕ → ℕ → Client → Type 0
StandsAt clients k i pc = get_elem? clients k ≡ some (i, pc)

pub record SlotInv (flags : List Bool) (peers : List Socket) (clients : List (ℕ × Client))
    : Type 0 where
  pub well_formed : length flags ≡ length peers
  pub threads : length peers ≤ length clients
  pub in_use :
      (k i : ℕ) (pc : Client)
      → StandsAt clients k i pc
      → serves pc ≡ true
      → get_elem? flags i ≡ some true
  pub unique :
      (j k i : ℕ) (p q : Client)
      → StandsAt clients j i p
      → StandsAt clients k i q
      → serves p ≡ true
      → serves q ≡ true
      → j ≡ k
  pub fits : (k i : ℕ) (pc : Client) → StandsAt clients k i pc → Fits pc

-- Where a thread stood before thread `k` moved from `pc` to `pc'`.
pub moved_cases :
    (clients : List (ℕ × Client)) (k i : ℕ) (pc' : Client) (j l : ℕ) (q : Client)
    → StandsAt (set clients k (i, pc')) j l q
    → ((j ≡ k) × (l ≡ i) × (q ≡ pc')) ⊎ ((j ≢ k) × StandsAt clients j l q)
moved_cases clients k i pc' j l q at = elim (get_elem?-set_cases clients k j (i, pc') (l, q) at) [
  | inl (e, f) ↦ inl (e, ap (λ (x : ℕ × Client). x.0) f, ap (λ (x : ℕ × Client). x.1) f)
  | inr (ne, f) ↦ inr (ne, f)
]

module _ {flags : List Bool} {peers : List Socket} {clients : List (ℕ × Client)}
    (inv : SlotInv flags peers clients) (k i : ℕ) (pc : Client) (at : StandsAt clients k i pc) where
  module _ (pc' : Client) (keep : serves pc' ≡ true → serves pc ≡ true) where
    -- A serving thread served its slot before.
    served_before :
        (j l : ℕ) (q : Client)
        → StandsAt (set clients k (i, pc')) j l q
        → serves q ≡ true
        → (p : Client) × StandsAt clients j l p × (serves p ≡ true)
    served_before j l q b s = elim (moved_cases clients k i pc' j l q b) [
      | inl (e, f, g) ↦ (
        pc,
        subst (λ n. StandsAt clients n l pc) (sym e)
            (subst (λ n. StandsAt clients k n pc) (sym f) at),
        keep (ap serves (sym g) ∙ s),
      )
      | inr (ne, b') ↦ (q, b', s)
    ]

    pub SlotInv-move : Fits pc' → SlotInv flags peers (set clients k (i, pc'))
    SlotInv-move fit = record {
      well_formed = inv.well_formed;
      threads = omega (arith, inv.threads, length-set clients k (i, pc'));
      in_use = λ j l q b s. let (p, b', s') = served_before j l q b s in inv.in_use j l p b' s';
      unique = λ j m l p q a b s t.
          let (p', a', s') = served_before j l p a s in
          let (q', b', t') = served_before m l q b t in inv.unique j m l p' q' a' b' s' t';
      fits = λ j l q b. elim (moved_cases clients k i pc' j l q b) [
        | inl (e, f, g) ↦ subst Fits (sym g) fit
        | inr (ne, b') ↦ inv.fits j l q b'
      ];
    }

  -- A peer's socket changes.
  pub SlotInv-set_peer : (p : Socket) → SlotInv flags (set peers i p) clients
  SlotInv-set_peer p = record {
    well_formed = inv.well_formed ∙ sym (length-set peers i p);
    threads = omega (arith, inv.threads, length-set peers i p);
    in_use = inv.in_use;
    unique = inv.unique;
    fits = inv.fits;
  }

  -- The thread removes its peer.
  pub SlotInv-remove :
      (p : Socket)
      → serves pc ≡ true
      → SlotInv (set flags i false) (set peers i p) (set clients k (i, Client.left))
  SlotInv-remove p serving = record {
    well_formed = length-set flags i false ∙ inv.well_formed ∙ sym (length-set peers i p);
    threads =
        omega (arith, inv.threads, length-set peers i p, length-set clients k (i, Client.left));
    in_use = λ j l q b s. elim (moved_cases clients k i Client.left j l q b) [
      | inl (e, f, g) ↦ absurd (cc (s, ap serves g))
      | inr (ne, b') ↦
          get_elem?-set_ne flags i l false (λ e.
            ne (
              inv.unique j k l q pc b' (subst (λ n. StandsAt clients k n pc) (sym e) at) s serving))
          ∙ inv.in_use j l q b' s
    ];
    unique = λ j m l p q a b s t. elim (moved_cases clients k i Client.left j l p a) [
      | inl (e, f, g) ↦ absurd (cc (s, ap serves g))
      | inr (ne, a') ↦ elim (moved_cases clients k i Client.left m l q b) [
        | inl (e, f, g) ↦ absurd (cc (t, ap serves g))
        | inr (ne', b') ↦ inv.unique j m l p q a' b' s t
      ]
    ];
    fits = λ j l q b. elim (moved_cases clients k i Client.left j l q b) [
      | inl (e, f, g) ↦ subst Fits (sym g) tt
      | inr (ne, b') ↦ inv.fits j l q b'
    ];
  }

-- Where a thread stood before a new thread was appended.
pub appended_cases :
    (clients : List (ℕ × Client)) (x : ℕ × Client) (j l : ℕ) (q : Client)
    → StandsAt (clients ++ (x ∷ [])) j l q
    → ((j ≡ length clients) × (x ≡ (l, q))) ⊎ ((j ≢ length clients) × StandsAt clients j l q)
appended_cases clients x j l q at = elim (ℕ_discrete j (length clients)) [
  | yes e ↦
      let last = get_elem?-append_last clients x in
      let here = subst (λ n. get_elem? (clients ++ (x ∷ [])) n ≡ some (l, q)) e at in
      inl (e, cc (last, here))
  | no ne ↦ inr (ne, sym (get_elem?-append_ne clients x j ne) ∙ at)
]

module _ {flags : List Bool} {peers : List Socket} {clients : List (ℕ × Client)}
    (inv : SlotInv flags peers clients) (slot : ℕ) (vacant : get_elem? flags slot ≢ some true) where
  -- A thread that serves is not in the vacant slot.
  elsewhere : (j l : ℕ) (q : Client) → StandsAt clients j l q → serves q ≡ true → l ≢ slot
  elsewhere j l q b s e =
      vacant (subst (λ n. get_elem? flags n ≡ some true) e (inv.in_use j l q b s))

  pub SlotInv-add :
      {flags' : List Bool} {peers' : List Socket}
      → get_elem? flags' slot ≡ some true
      → ((j : ℕ) → j ≢ slot → get_elem? flags' j ≡ get_elem? flags j)
      → length flags' ≡ length peers'
      → length peers' ≤ suc (length peers)
      → SlotInv flags' peers' (clients ++ ((slot, Client.naming) ∷ []))
  SlotInv-add {flags'} flagged others same grown = record {
    well_formed = same;
    threads = omega (arith, inv.threads, length-append clients ((slot, Client.naming) ∷ []));
    in_use = λ j l q b s. elim (appended_cases clients (slot, Client.naming) j l q b) [
      | inl (e, f) ↦
          subst (λ n. get_elem? flags' n ≡ some true) (ap (λ (x : ℕ × Client). x.0) f) flagged
      | inr (ne, b') ↦ others l (elsewhere j l q b' s) ∙ inv.in_use j l q b' s
    ];
    unique = λ j m l p q a b s t. elim (appended_cases clients (slot, Client.naming) j l p a) [
      | inl (e, f) ↦ elim (appended_cases clients (slot, Client.naming) m l q b) [
        | inl (e', f') ↦ e ∙ sym e'
        | inr (ne, b') ↦ absurd (elsewhere m l q b' t (sym (ap (λ (x : ℕ × Client). x.0) f)))
      ]
      | inr (ne, a') ↦ elim (appended_cases clients (slot, Client.naming) m l q b) [
        | inl (e', f') ↦ absurd (elsewhere j l p a' s (sym (ap (λ (x : ℕ × Client). x.0) f')))
        | inr (ne', b') ↦ inv.unique j m l p q a' b' s t
      ]
    ];
    fits = λ j l q b. elim (appended_cases clients (slot, Client.naming) j l q b) [
      | inl (e, f) ↦ subst Fits (ap (λ (x : ℕ × Client). x.1) f) tt
      | inr (ne, b') ↦ inv.fits j l q b'
    ];
  }

pub SlotInv-empty : SlotInv [] [] []
SlotInv-empty = record {
  well_formed = refl;
  threads = omega arith;
  in_use = λ k i pc at s. absurd (cc at);
  unique = λ j k i p q a b s t. absurd (cc a);
  fits = λ k i pc at. absurd (cc at);
}

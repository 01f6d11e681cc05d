-- ===== src/Network/Server/Slots.antt =====
-- The slots in which a server keeps its peers.
use low_latency_experiments.Common.{
  subst, ℕ, suc, zero, ◌<◌, ◌≡◌, ◌≢◌, refl, sym, ◌∙◌, List, [], ◌∷◌, ◌++◌, Bool, true, false,
  Option, none, some, arith, inl, inr, length, get_elem?, length-append, length-set,
  get_elem?-set_self, get_elem?-set_ne, get_elem?-append_last, get_elem?-append_ne,
  get_elem?-length, get_elem?-lt, Option-cases,
}
use low_latency_experiments.Network.System.{History, Os}
use low_latency_experiments.Network.Socket.Options.{Constants}
use low_latency_experiments.Network.Socket.{Socket}
use low_latency_experiments.Network.Server.{Server, first_free, add_peer, place_peer}

-- Each peer has one flag.
abbrev pub IsWellFormed : Server → Type 0
IsWellFormed v = length v.flags ≡ length v.peers

pub first_free-some :
    (fs : List Bool) (i : ℕ)
    → first_free fs ≡ some i
    → (get_elem? fs i ≡ some false) × ((j : ℕ) → j < i → get_elem? fs j ≡ some true)
first_free-some [] i e = ground arith
first_free-some (false ∷ fs) zero e = (refl, λ j l. absurd (omega arith))
first_free-some (false ∷ fs) (suc i) e = ground arith
first_free-some (true ∷ fs) i e = elim (Option-cases (first_free fs)) [
  | inl n ↦ ground arith
  | inr (k, f) ↦ after k i (first_free-some fs k f) (ground arith)
]
  where
    after :
        (k i : ℕ)
        → (get_elem? fs k ≡ some false) × ((j : ℕ) → j < k → get_elem? fs j ≡ some true)
        → suc k ≡ i
        → (get_elem? (true ∷ fs) i ≡ some false)
          × ((j : ℕ) → j < i → get_elem? (true ∷ fs) j ≡ some true)
    after k zero h e = absurd (omega arith)
    after k (suc i) (here, before) e =
        (subst (λ n. get_elem? fs n ≡ some false) (omega arith) here, earlier)
      where
        earlier : (j : ℕ) → j < suc i → get_elem? (true ∷ fs) j ≡ some true
        earlier zero l = refl
        earlier (suc j) l = before j (omega arith)

first_free-none :
    (fs : List Bool) (j : ℕ) → first_free fs ≡ none → j < length fs → get_elem? fs j ≡ some true
first_free-none [] j e l = absurd (omega arith)
first_free-none (false ∷ fs) j e l = ground arith
first_free-none (true ∷ fs) zero e l = refl
first_free-none (true ∷ fs) (suc j) e l = first_free-none fs j (ground arith) (omega arith)

none_not : {o : Option Bool} → o ≡ none → o ≢ some true
none_not e f = ground arith

false_not : {o : Option Bool} → o ≡ some false → o ≢ some true
false_not e f = ground arith

module _ (os : Os) (c : Constants) where
  place_peer-slot :
      (v : Server) (peer : Socket) (o : Option ℕ) (h : History)
      → first_free v.flags ≡ o
      → IsWellFormed v
      → let ((slot, v'), h') = place_peer os c v peer o h in
        (get_elem? v.flags slot ≢ some true)
        × (get_elem? v'.flags slot ≡ some true)
        × (get_elem? v'.peers slot ≡ some peer)
        × IsWellFormed v'
  unfolding place_peer
  place_peer-slot v peer none h e w = (
    λ f.
        none_not (get_elem?-length v.flags)
          (subst (λ n. get_elem? v.flags n ≡ some true) (sym w) f),
    subst (λ n. get_elem? (v.flags ++ (true ∷ [])) n ≡ some true) w
        (get_elem?-append_last v.flags true),
    get_elem?-append_last v.peers peer,
    omega (arith, length-append v.flags (true ∷ []), length-append v.peers (peer ∷ []), w),
  )
  place_peer-slot v peer (some i) h e w =
      let free = (first_free-some v.flags i e).0 in
      let l = get_elem?-lt v.flags i false free in
      (
        λ f. false_not free f,
        get_elem?-set_self v.flags i true l,
        get_elem?-set_self v.peers i peer (omega (arith, w, l)),
        length-set v.flags i true ∙ w ∙ sym (length-set v.peers i peer),
      )

  -- `add_peer` on a server with one flag for each peer takes a slot that no connected peer holds: it
  -- then holds the new peer, which counts as connected, and there is one flag for each peer again.
  pub add_peer-slot :
      (v : Server) (peer : Socket) (h : History)
      → IsWellFormed v
      → let ((slot, v'), h') = add_peer os c v peer h in
        (get_elem? v.flags slot ≢ some true)
        × (get_elem? v'.flags slot ≡ some true)
        × (get_elem? v'.peers slot ≡ some peer)
        × IsWellFormed v'
  unfolding add_peer
  add_peer-slot v peer h w = place_peer-slot v peer (first_free v.flags) h refl w

  place_peer-others :
      (v : Server) (peer : Socket) (o : Option ℕ) (h : History) (j : ℕ)
      → IsWellFormed v
      → j ≢ (place_peer os c v peer o h).0.0
      → let ((slot, v'), h') = place_peer os c v peer o h in
        (get_elem? v'.flags j ≡ get_elem? v.flags j) × (get_elem? v'.peers j ≡ get_elem? v.peers j)
  unfolding place_peer
  place_peer-others v peer none h j w ne =
      (get_elem?-append_ne v.flags true j (λ e. ne (e ∙ w)), get_elem?-append_ne v.peers peer j ne)
  place_peer-others v peer (some i) h j w ne =
      (get_elem?-set_ne v.flags i j true ne, get_elem?-set_ne v.peers i j peer ne)

  -- On a server with one flag for each peer, every slot other than the one that `add_peer` takes
  -- keeps its peer and its flag.
  pub add_peer-others :
      (v : Server) (peer : Socket) (h : History) (j : ℕ)
      → IsWellFormed v
      → j ≢ (add_peer os c v peer h).0.0
      → let ((slot, v'), h') = add_peer os c v peer h in
        (get_elem? v'.flags j ≡ get_elem? v.flags j) × (get_elem? v'.peers j ≡ get_elem? v.peers j)
  unfolding add_peer
  add_peer-others v peer h j w ne = place_peer-others v peer (first_free v.flags) h j w ne

  place_peer-lowest :
      (v : Server) (peer : Socket) (o : Option ℕ) (h : History) (j : ℕ)
      → first_free v.flags ≡ o
      → IsWellFormed v
      → j < (place_peer os c v peer o h).0.0
      → get_elem? v.flags j ≡ some true
  unfolding place_peer
  place_peer-lowest v peer none h j e w l = first_free-none v.flags j e (omega arith)
  place_peer-lowest v peer (some i) h j e w l = (first_free-some v.flags i e).1 j l

  -- On a server with one flag for each peer, all the slots before the one that `add_peer` takes
  -- hold connected peers.
  pub add_peer-lowest :
      (v : Server) (peer : Socket) (h : History) (j : ℕ)
      → IsWellFormed v
      → j < (add_peer os c v peer h).0.0
      → get_elem? v.flags j ≡ some true
  unfolding add_peer
  add_peer-lowest v peer h j w l = place_peer-lowest v peer (first_free v.flags) h j refl w l

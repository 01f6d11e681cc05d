-- ===== src/Network/Reactor/Kernel.antt =====
-- What the system's calls say of its descriptors: those open, and those that epoll watches.
use low_latency_experiments.Common.{
  [], ◌∷◌, ◌≡◌, ◌≢◌, ◌⊎◌, inl, inr, Option, none, some, true, false, arith, Bool-cases, refl, sym,
}
use low_latency_experiments.Common.Int.{ℤ}
use low_latency_experiments.Network.System.{Call, History, Os}
use low_latency_experiments.Network.Socket.Options.{Constants}
use low_latency_experiments.Network.Socket.{
  Socket, SocketState, disconnected, accept, close, is_negative, is_accepting, is_positive,
  is_disconnected,
}
use low_latency_experiments.Network.Socket.Connecting.{ready, asked, peer}

module _ (os : Os) where
  -- The system has given the descriptor out and has not closed it.
  abbrev pub IsOpen : ℤ → History → Type 0
  IsOpen fd [] = ⊥
  IsOpen fd (Call.socket t ∷ h) = (os.answer h (Call.socket t) ≡ fd) ⊎ IsOpen fd h
  IsOpen fd (Call.accept f ∷ h) = (os.answer h (Call.accept f) ≡ fd) ⊎ IsOpen fd h
  IsOpen fd (Call.epoll_create ∷ h) = (os.answer h Call.epoll_create ≡ fd) ⊎ IsOpen fd h
  IsOpen fd (Call.close f ∷ h) = (f ≢ fd) × IsOpen fd h
  IsOpen fd (_ ∷ h) = IsOpen fd h

  -- `accept` gives out a descriptor that is not open.
  abbrev pub GivesFresh : Type 0
  GivesFresh =
      (fd : ℤ) (h : History)
      → is_negative (os.answer h (Call.accept fd)) ≡ false
      → IsOpen (os.answer h (Call.accept fd)) h
      → ⊥

-- Epoll watches the descriptor: it was added, and not taken out or closed since.
abbrev pub IsWatched : ℤ → History → Type 0
IsWatched fd [] = ⊥
IsWatched fd (Call.epoll_add epoll f edge ∷ h) = (f ≡ fd) ⊎ IsWatched fd h
IsWatched fd (Call.epoll_delete epoll f edge ∷ h) = (f ≢ fd) × IsWatched fd h
IsWatched fd (Call.close f ∷ h) = (f ≢ fd) × IsWatched fd h
IsWatched fd (_ ∷ h) = IsWatched fd h

disconnected_of : (t : SocketState) → is_disconnected t ≡ true → t ≡ disconnected
disconnected_of t e = ground arith

module _ (os : Os) (c : Constants) where
  -- A socket from `accept` is open and was not open before.
  abbrev pub IsNew : Option Socket → History → History → Type 0
  IsNew none h h' = Unit {0}
  IsNew (some peer) h h' = IsOpen os peer.descriptor h' × (IsOpen os peer.descriptor h → ⊥)

  pub accept_lem :
      (s : Socket) (timeout : ℤ) (h : History)
      → GivesFresh os
      → let ((o, s'), h') = accept os c s timeout h in
        (s'.descriptor ≡ s.descriptor)
        × ((fd : ℤ) → IsOpen os fd h → IsOpen os fd h')
        × ((fd : ℤ) → IsWatched fd h' → IsWatched fd h)
        × IsNew o h h'
  unfolding accept
  accept_lem s timeout h fresh = elim (Bool-cases (is_accepting s.state)) [
    | inr e ↦ rw e (refl, λ fd o. o, λ fd w. w, tt)
    | inl e ↦ elim (Bool-cases (is_positive (ready os c s h timeout))) [
      | inr r ↦ rw (e, r) (refl, λ fd o. o, λ fd w. w, tt)
      | inl r ↦ elim (Bool-cases (is_negative (peer os c s h timeout))) [
        | inl p ↦ rw (e, r, p) (refl, λ fd o. inr o, λ fd w. w, tt)
        | inr p ↦
            rw (e, r, p)
              (
                refl,
                λ fd o. inr o,
                λ fd w. w,
                (inl refl, λ o. fresh s.descriptor (asked os c s h timeout) p o),
              )
      ]
    ]
  ]

  -- `close` closes its descriptor or makes no call, and leaves the socket disconnected.
  pub close_keeps :
      (s : Socket) (h : History)
      → let (s', h') = close os c s h in
        (s'.state ≡ disconnected)
        × ((fd : ℤ) → fd ≢ s.descriptor → IsOpen os fd h → IsOpen os fd h')
        × ((fd : ℤ) → IsWatched fd h' → IsWatched fd h)
  unfolding close
  close_keeps s h = elim (Bool-cases (is_disconnected s.state)) [
    | inl e ↦ rw e (disconnected_of s.state e, λ fd ne o. o, λ fd w. w)
    | inr e ↦ elim (Bool-cases (is_positive s.descriptor)) [
      | inl p ↦ rw (e, p) (refl, λ fd ne o. (λ f. ne (sym f), o), λ fd w. w.1)
      | inr p ↦ rw (e, p) (refl, λ fd ne o. o, λ fd w. w)
    ]
  ]

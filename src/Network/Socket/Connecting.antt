-- ===== src/Network/Socket/Connecting.antt =====
-- `connect` with a time limit, and `accept`.
use low_latency_experiments.Common.{
  ◌≡◌, refl, ◌∷◌, true, false, none, some, Bool-cases, inl, inr, ◌∙◌, [], ◌||◌, if◌then◌else◌,
}
use low_latency_experiments.Common.Int.{ℤ}
use low_latency_experiments.Network.System.{Text, Call, History, Os}
use low_latency_experiments.Network.Socket.Options.{Constants}
use low_latency_experiments.Network.Socket.{
  Socket, disconnected, connected, accepted, is_accepting, is_zero, is_positive, is_negative, close,
  connect_within, accept, socket_address, new_peer,
}
use low_latency_experiments.Network.Socket.Closing.{close_disconnected}

-- The last call sets the descriptor to blocking.
abbrev pub LeftBlocking : ℤ → History → Type 0
LeftBlocking fd [] = ⊥
LeftBlocking fd (Call.setfl f arg false ∷ h) = f ≡ fd
LeftBlocking fd (call ∷ h) = ⊥

module _ (os : Os) (c : Constants) (s : Socket) (h : History) where
  -- The descriptor's flags are read, and set without blocking.
  abbrev pub unblocked : History
  unblocked =
      Call.setfl s.descriptor (os.answer h (Call.getfl s.descriptor)) true
      ∷ Call.getfl s.descriptor
      ∷ h

  module _ (address : Text) (port timeout : ℤ) where
    abbrev pub connecting : Call
    connecting = Call.connect s.descriptor (socket_address os c address port)

    -- The history when `select` is called.
    abbrev pub tried : History
    tried = connecting ∷ unblocked

    abbrev pub waiting : Call
    waiting = Call.select s.descriptor true true timeout

    -- `connect` with a time limit succeeds when the system connects at once or the descriptor is ready
    -- in time. The socket counts as connected in the first case only; otherwise its state is the one
    -- before the call.
    pub connect_within_state :
        let (success, s') = (connect_within os c s address port timeout h).0 in
        let at_once = is_zero (os.answer unblocked connecting) in
        (success ≡ (at_once || is_positive (os.answer tried waiting)))
        × (s'.state ≡ (if at_once then connected else s.state))
    unfolding connect_within
    connect_within_state = elim (Bool-cases (is_zero (os.answer unblocked connecting))) [
      | inl e ↦ rw e (refl, refl)
      | inr e ↦ rw e (refl, refl)
    ]

    -- On every path the last call sets the descriptor back to blocking.
    pub connect_within_blocks :
        LeftBlocking s.descriptor (connect_within os c s address port timeout h).1
    unfolding connect_within
    connect_within_blocks = elim (Bool-cases (is_zero (os.answer unblocked connecting))) [
      | inl e ↦ rw e refl
      | inr e ↦ rw e refl
    ]

    -- A disconnected socket, such as a new one, that the system does not connect at once still counts
    -- as disconnected after `connect` with a time limit, also where that succeeded: `close` makes no
    -- call and leaves its descriptor open.
    pub connect_within_leak :
        s.state ≡ disconnected
        → is_zero (os.answer unblocked connecting) ≡ false
        → let ((success, s'), h') = connect_within os c s address port timeout h in
          close os c s' h' ≡ (s', h')
    connect_within_leak fresh e =
        let ((success, s'), h') = connect_within os c s address port timeout h in
        close_disconnected os c s' h' (rw e at connect_within_state.1 ∙ fresh)

  module _ (timeout : ℤ) where
    abbrev pub ready : ℤ
    ready = os.answer unblocked (Call.select s.descriptor true false timeout)

    abbrev pub asked : History
    asked = Call.select s.descriptor true false timeout ∷ unblocked

    abbrev pub peer : ℤ
    peer = os.answer asked (Call.accept s.descriptor)

    -- A socket that is not listening accepts nobody and makes no call.
    pub accept-not_accepting :
        is_accepting s.state ≡ false → accept os c s timeout h ≡ ((none, s), h)
    unfolding accept
    accept-not_accepting e = rw e

    -- A listening socket gives a new connected socket on the descriptor of the system's `accept`, if
    -- somebody asked in time and that call succeeded, and then counts as accepting. Otherwise it gives
    -- none and keeps its state.
    pub accept_result :
        is_accepting s.state ≡ true
        → (is_positive ready ≡ true
            → is_negative peer ≡ false
            → (accept os c s timeout h).0
              ≡ (some (new_peer os c peer (os.peer asked)), record s { state = accepted }))
          × (is_positive ready ≡ true
              → is_negative peer ≡ true
              → (accept os c s timeout h).0 ≡ (none, s))
          × (is_positive ready ≡ false → (accept os c s timeout h).0 ≡ (none, s))
    unfolding accept
    accept_result e = (λ r p. rw (e, r, p), λ r p. rw (e, r, p), λ r. rw (e, r))

    -- On every path a listening socket is left blocking, also one that was set not to block.
    pub accept_blocks :
        is_accepting s.state ≡ true → LeftBlocking s.descriptor (accept os c s timeout h).1
    unfolding accept
    accept_blocks e = rw e refl

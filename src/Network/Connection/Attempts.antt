-- ===== src/Network/Connection/Attempts.antt =====
-- What repeated attempts to connect leave open. The client of
-- epoll_vs_multithreaded_io/client_automation.cpp repeats `connect` until it succeeds.
use low_latency_experiments.Common.{
  ℕ, zero, suc, ◌+◌, ◌≡◌, refl, ◌∙◌, [], ◌∷◌, Bool, true, false, arith, inl, inr, leb, Bool-cases,
  if◌then◌else◌,
}
use low_latency_experiments.Common.Int.{ℤ}
use low_latency_experiments.Network.System.{Text, tcp, Call, History, Os, M, pure}
use low_latency_experiments.Network.Socket.Options.{Constants, option_value, tcp_disable_nagle}
use low_latency_experiments.Network.Socket.{Socket, is_negative, set_socket_option}
use low_latency_experiments.Network.Connection.{connector_connect}

-- The descriptors asked for, and those closed.
abbrev pub asked_for : History → ℕ
asked_for [] = 0
asked_for (Call.socket type ∷ h) = suc (asked_for h)
asked_for (_ ∷ h) = asked_for h

abbrev pub closed : History → ℕ
closed [] = 0
closed (Call.close fd ∷ h) = suc (closed h)
closed (_ ∷ h) = closed h

module _ (os : Os) (c : Constants) (server : Text) (port : ℤ) where
  -- `while (true) { serverSocket = connector->connect(IP_ADDRESS, PORT); if (serverSocket) break; }`
  -- for at most `fuel` rounds, with the number of attempts made and whether the last one succeeded.
  unfoldable pub connect_loop : ℕ → Socket → M (Bool × ℕ × Socket)
  connect_loop zero s h = pure (false, 0, s) h
  connect_loop (suc fuel) s h =
      let ((success, s'), h') = connector_connect os c s server port h in
      let rest = connect_loop fuel s' h' in
      if success then ((true, 1, s'), h') else ((rest.0.0, suc rest.0.1, rest.0.2), rest.1)

  attempt_lem :
      (s : Socket) (h : History)
      → let h' = (connector_connect os c s server port h).1 in
        (asked_for h' ≡ suc (asked_for h)) × (closed h' ≡ closed h)
  unfolding connector_connect set_socket_option
  attempt_lem s h = elim (Bool-cases (is_negative (os.answer h (Call.socket tcp)))) [
    | inl e ↦ rw e (refl, refl)
    | inr e ↦ elim (Bool-cases (leb (option_value c tcp_disable_nagle) 0)) [
      | inl f ↦ rw (e, f) (refl, refl)
      | inr f ↦ rw (e, f) (refl, refl)
    ]
  ]

  -- Each attempt asks for one new descriptor, and none is closed, whether it succeeds or not: after `n`
  -- attempts of one connector `n` more descriptors have been asked for, and no more closed.
  pub attempts_leak :
      (fuel : ℕ) (s : Socket) (h : History)
      → let ((success, attempts, s'), h') = connect_loop fuel s h in
        (asked_for h' ≡ attempts + asked_for h) × (closed h' ≡ closed h)
  unfolding connect_loop
  attempts_leak zero s h = (omega arith, refl)
  attempts_leak (suc fuel) s h =
      let ((success, s'), h') = connector_connect os c s server port h in
      elim (Bool-cases success) [
        | inl e ↦ rw e (omega (arith, attempt_lem s h), (attempt_lem s h).1)
        | inr e ↦ rw e (
          omega (arith, attempt_lem s h, attempts_leak fuel s' h'),
          (attempts_leak fuel s' h').1 ∙ (attempt_lem s h).1,
        )
      ]

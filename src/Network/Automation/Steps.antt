-- ===== src/Network/Automation/Steps.antt =====
-- Each step of a client thread of epoll_vs_multithreaded_io/client_automation.cpp is defined and keeps
-- the balance of what is sent and counted.
use low_latency_experiments.Common.{
  ℕ, zero, suc, ◌*◌, ◌≡◌, ◌≤◌, ◌<◌, refl, ap, subst, inl, inr, Bool, true, false, Option, none,
  some, leb, ◌==◌, arith, Bool-cases,
}
use low_latency_experiments.Common.Int.{ℤ, pos_part, int_max}
use low_latency_experiments.Common.Threads.{tally-le}
use low_latency_experiments.Network.System.{Text, tcp, Call, History, Os}
use low_latency_experiments.Common.Int.{pos}
use low_latency_experiments.Network.Message.{quit}
use low_latency_experiments.Network.Socket.Options.{Constants, option_value, tcp_disable_nagle}
use low_latency_experiments.Network.Socket.{
  Socket, close, is_disconnected, is_positive, is_zero, is_negative, set_socket_option,
}
use low_latency_experiments.Network.Connection.{send, receive, connector_connect}
use low_latency_experiments.Network.Reactor.Program.{ip_address, port}
use low_latency_experiments.Network.Reactor.Serving.{ReceivesAtMost}
use low_latency_experiments.Network.Automation.{
  Pc, System, buffer_room, wait_again, attempt, start_round, count, after_error, handle,
  attempt_again, lock, step_client,
}
use low_latency_experiments.Network.Automation.Balance.{
  sends, in_flight, ended, left, remaining, Fits, Balance, Keeps, here, Balance-move, Balance-quiet,
}

module _ (os : Os) (c : Constants) where
  attempt-sends :
      (s : Socket) (h : History) → sends (connector_connect os c s ip_address port h).1 ≡ sends h
  unfolding connector_connect set_socket_option
  attempt-sends s h = elim (Bool-cases (is_negative (os.answer h (Call.socket tcp)))) [
    | inl e ↦ rw e refl
    | inr e ↦ elim (Bool-cases (leb (option_value c tcp_disable_nagle) 0)) [
      | inl f ↦ rw (e, f) refl
      | inr f ↦ rw (e, f) refl
    ]
  ]

  close-sends : (s : Socket) (h : History) → sends (close os c s h).1 ≡ sends h
  unfolding close
  close-sends s h = elim (Bool-cases (is_disconnected s.state)) [
    | inl e ↦ rw e refl
    | inr e ↦ elim (Bool-cases (is_positive s.descriptor)) [
      | inl f ↦ rw (e, f) refl
      | inr f ↦ rw (e, f) refl
    ]
  ]

  module _ (shown : ℕ → Text) {n iterations : ℕ} {s : System} (inv : Balance n iterations s) {i : ℕ}
      (lt : i < n) where
    attempt-Balance :
        (s.clients i).pc ≡ Pc.connecting
        → Balance n iterations (attempt os c shown s i (s.clients i) Pc.connecting Pc.starting)
    unfolding attempt
    attempt-Balance e =
        let quiet = attempt-sends (s.clients i).socket s.history in
        let ((success, socket), h) =
          connector_connect os c (s.clients i).socket ip_address port s.history in
        elim (Bool-cases success) [
          | inl f ↦ rw f (Balance-quiet inv lt e Pc.starting socket h s.owner quiet refl refl tt)
          | inr f ↦ rw f (Balance-quiet inv lt e Pc.connecting socket h s.owner quiet refl refl tt)
        ]

    start_round-Balance :
        (rounds : ℕ)
        → (s.clients i).pc ≡ Pc.starting
        → (s.clients i).rounds ≡ rounds
        → Balance n iterations (start_round os c shown s i (s.clients i) rounds)
    unfolding start_round send
    start_round-Balance zero e r =
        let quits = send os c (s.clients i).socket quit (pos 0) s.history in
        Balance-move inv lt e _ s.message_counter s.losses _ s.owner
          (omega (arith, close-sends (s.clients i).socket quits.1)) (omega (arith, r)) tt
    start_round-Balance (suc rounds) e r =
        Balance-move inv lt e _ s.message_counter s.losses s.history s.owner (omega arith)
          (omega (arith, r)) tt

    lock-Balance :
        (o : Option ℕ)
        → (s.clients i).pc ≡ Pc.locking
        → Balance n iterations (lock os c shown o s i (s.clients i))
    unfolding lock
    lock-Balance none e =
        Balance-quiet inv lt e Pc.counting (s.clients i).socket s.history (some i) refl refl refl tt
    lock-Balance (some j) e = inv

    -- A thread that is about to count has not counted all its messages.
    count-Keeps :
        n * iterations ≤ int_max
        → (s.clients i).pc ≡ Pc.counting
        → Keeps n iterations (count os c shown s i (s.clients i))
    unfolding count
    count-Keeps few e =
        let here_left = ap (λ p. left p (s.clients i).rounds) e in
        let below : s.message_counter < int_max =
          omega (arith, few, inv.counted, here_left, tally-le remaining n i s.clients lt) in
        let room : (s.message_counter == int_max) ≡ false = ground arith in
        rw room (
          here _ (
            Balance-move inv lt e _ (suc s.message_counter) s.losses s.history s.owner (omega arith)
              (omega arith) tt))

    again-in_flight : (text : Text) (read : ℤ) → in_flight (wait_again text read) ≡ 0
    again-in_flight text read = elim (Bool-cases (is_zero read)) [
      | inl e ↦ rw e refl
      | inr e ↦ rw e refl
    ]

    again-ended : (text : Text) (read : ℤ) → ended (wait_again text read) ≡ 0
    again-ended text read = elim (Bool-cases (is_zero read)) [
      | inl e ↦ rw e refl
      | inr e ↦ rw e refl
    ]

    again-left : (text : Text) (read : ℤ) (k : ℕ) → left (wait_again text read) k ≡ k
    again-left text read k = elim (Bool-cases (is_zero read)) [
      | inl e ↦ rw e refl
      | inr e ↦ rw e refl
    ]

    again-Fits : (text : Text) (read : ℤ) → Fits (wait_again text read)
    again-Fits text read = elim (Bool-cases (is_zero read)) [ inl e ↦ rw e tt | inr e ↦ rw e tt ]

    after_error-Balance :
        (text : Text) (read error : ℤ) (o : Bool × Socket)
        → (s.clients i).pc ≡ Pc.received text read error
        → Balance n iterations (after_error os c shown s i (s.clients i) text read o)
    unfolding after_error
    after_error-Balance text read error (false, socket) e =
        Balance-quiet inv lt e (wait_again text read) socket s.history s.owner refl
          (omega (arith, again-in_flight text read, again-ended text read)) (again-left text read _)
          (again-Fits text read)
    after_error-Balance text read error (true, socket) e =
        let (closed, h) = close os c socket s.history in
        let (destroyed, h') = close os c closed h in
        Balance-move inv lt e _ s.message_counter (suc s.losses) h' s.owner
          (omega (arith, close-sends socket s.history, close-sends closed h)) (omega arith) tt

    handle-Keeps :
        (text : Text) (read error : ℤ)
        → (s.clients i).pc ≡ Pc.received text read error
        → Keeps n iterations (handle os c shown s i (s.clients i) text read error)
    unfolding handle
    handle-Keeps text read error e = elim (Bool-cases (is_positive read)) [
      | inl f ↦
          let le : pos_part read ≤ buffer_room = subst Fits e (inv.fits i) in
          let fits : leb (pos_part read) buffer_room ≡ true = ground arith in
          rw (f, fits)
            (here _ (
              Balance-quiet inv lt e Pc.starting (s.clients i).socket s.history s.owner refl refl
                refl tt))
      | inr f ↦ rw f (here _ (after_error-Balance text read error _ e))
    ]

    attempt_again-Balance :
        (text : Text) (read : ℤ)
        → (s.clients i).pc ≡ Pc.reconnecting text read
        → Balance n iterations (attempt_again os c shown s i (s.clients i) text read)
    unfolding attempt_again send
    attempt_again-Balance text read e =
        let quiet = attempt-sends (s.clients i).socket s.history in
        let ((success, socket), h) =
          connector_connect os c (s.clients i).socket ip_address port s.history in
        elim (Bool-cases success) [
          | inl f ↦ rw f (
              Balance-move inv lt e _ s.message_counter s.losses _ s.owner
                (omega (arith, quiet, again-in_flight text read, again-ended text read))
                (omega (arith, again-left text read (s.clients i).rounds)) (again-Fits text read))
          | inr f ↦ rw f (
              Balance-quiet inv lt e (Pc.reconnecting text read) socket h s.owner quiet refl refl
                tt)
        ]

    pub step_client-Keeps :
        ReceivesAtMost os
        → n * iterations ≤ int_max
        → (pc : Pc) → (s.clients i).pc ≡ pc
        → Keeps n iterations (step_client os c shown pc s i (s.clients i))
    unfolding step_client send receive
    step_client-Keeps at_most few Pc.connecting e = here _ (attempt-Balance e)
    step_client-Keeps at_most few Pc.starting e = here _ (start_round-Balance _ e refl)
    step_client-Keeps at_most few Pc.locking e = here _ (lock-Balance s.owner e)
    step_client-Keeps at_most few Pc.counting e = count-Keeps few e
    step_client-Keeps at_most few (Pc.sending text) e = here _ (
        Balance-move inv lt e _ s.message_counter s.losses _ s.owner (omega arith) (omega arith) tt)
    step_client-Keeps at_most few (Pc.unlocking text) e = here _ (
        Balance-quiet inv lt e (Pc.receiving text) (s.clients i).socket s.history none refl refl
          refl tt)
    step_client-Keeps at_most few (Pc.receiving text) e = here _ (
        Balance-quiet inv lt e _ (s.clients i).socket _ s.owner refl refl refl
          (at_most (s.clients i).socket.descriptor buffer_room s.history))
    step_client-Keeps at_most few (Pc.received text read error) e = handle-Keeps text read error e
    step_client-Keeps at_most few (Pc.reconnecting text read) e =
        here _ (attempt_again-Balance text read e)
    step_client-Keeps at_most few Pc.done e = here s inv

-- ===== src/Network/Automation/Program/Others.antt =====
-- A step of a client thread of epoll_vs_multithreaded_io/client_automation.cpp leaves the other threads
-- where they stand.
use low_latency_experiments.Common.{
  ℕ, zero, suc, ◌≡◌, ◌≢◌, refl, inl, inr, Bool, true, false, Option, none, some, leb, ◌==◌,
  Bool-cases,
}
use low_latency_experiments.Common.Int.{ℤ, pos_part, int_max}
use low_latency_experiments.Common.Threads.{assign, assign_other}
use low_latency_experiments.Network.System.{Text, Os}
use low_latency_experiments.Network.Socket.Options.{Constants}
use low_latency_experiments.Network.Socket.{Socket, is_positive, is_connection_lost}
use low_latency_experiments.Network.Connection.{connector_connect}
use low_latency_experiments.Network.Reactor.Program.{ip_address, port}
use low_latency_experiments.Network.Automation.{
  Pc, Client, System, buffer_room, attempt, start_round, count, after_error, handle, attempt_again,
  lock, step_client,
}

abbrev pub SameOthers : ℕ → (ℕ → Client) → Option System → Type 0
SameOthers i before none = Unit
SameOthers i before (some s) = (j : ℕ) → j ≢ i → s.clients j ≡ before j

module _ (os : Os) (c : Constants) (shown : ℕ → Text) (s : System) (i : ℕ) (cl : Client) where
  moved : (cl' : Client) (j : ℕ) → j ≢ i → assign s.clients i cl' j ≡ s.clients j
  moved cl' j ne = assign_other s.clients i cl' j ne

  start_round-SameOthers :
      (rounds : ℕ) → SameOthers i s.clients (some (start_round os c shown s i cl rounds))
  unfolding start_round
  start_round-SameOthers zero = moved _
  start_round-SameOthers (suc rounds) = moved _

  lock-SameOthers : (o : Option ℕ) → SameOthers i s.clients (some (lock os c shown o s i cl))
  unfolding lock
  lock-SameOthers none = moved _
  lock-SameOthers (some k) = λ j ne. refl

  count-SameOthers : SameOthers i s.clients (count os c shown s i cl)
  unfolding count
  count-SameOthers = elim (Bool-cases (s.message_counter == int_max)) [
    | inl e ↦ rw e tt
    | inr e ↦ rw e (moved _)
  ]

  after_error-SameOthers :
      (text : Text) (read : ℤ) (o : Bool × Socket)
      → SameOthers i s.clients (some (after_error os c shown s i cl text read o))
  unfolding after_error
  after_error-SameOthers text read (false, socket) = moved _
  after_error-SameOthers text read (true, socket) = moved _

  handle-SameOthers :
      (text : Text) (read error : ℤ)
      → SameOthers i s.clients (handle os c shown s i cl text read error)
  unfolding handle
  handle-SameOthers text read error = elim (Bool-cases (is_positive read)) [
    | inl e ↦ elim (Bool-cases (leb (pos_part read) buffer_room)) [
      | inl f ↦ rw (e, f) (moved _)
      | inr f ↦ rw (e, f) tt
    ]
    | inr e ↦ rw e (after_error-SameOthers text read (is_connection_lost cl.socket error))
  ]

  attempt_again-SameOthers :
      (text : Text) (read : ℤ)
      → SameOthers i s.clients (some (attempt_again os c shown s i cl text read))
  unfolding attempt_again
  attempt_again-SameOthers text read =
      let ((success, socket), h) = connector_connect os c cl.socket ip_address port s.history in
      elim (Bool-cases success) [ inl e ↦ rw e (moved _) | inr e ↦ rw e (moved _) ]

  pub step_client-SameOthers : (pc : Pc) → SameOthers i s.clients (step_client os c shown pc s i cl)
  unfolding step_client attempt
  step_client-SameOthers Pc.connecting = moved _
  step_client-SameOthers Pc.starting = start_round-SameOthers cl.rounds
  step_client-SameOthers Pc.locking = lock-SameOthers s.owner
  step_client-SameOthers Pc.counting = count-SameOthers
  step_client-SameOthers (Pc.sending text) = moved _
  step_client-SameOthers (Pc.unlocking text) = moved _
  step_client-SameOthers (Pc.receiving text) = moved _
  step_client-SameOthers (Pc.received text read error) = handle-SameOthers text read error
  step_client-SameOthers (Pc.reconnecting text read) = attempt_again-SameOthers text read
  step_client-SameOthers Pc.done = λ j ne. refl

-- ===== src/Network/Reactor/Safety.antt =====
-- The reactor from its start to its end.
use low_latency_experiments.Common.{
  eq_of_some, if◌then◌else◌, ℕ, List, [], ◌∷◌, ◌++◌, ◌≤◌, ◌≡◌, ◌⊎◌, inl, inr, refl, sym, ◌∙◌, subst,
  some, true, false, Bool, Bool-cases, length,
}
use low_latency_experiments.Common.Int.{ℤ, pos_part}
use low_latency_experiments.Network.System.{tcp, Call, History, Os}
use low_latency_experiments.Network.Partial.{>>=-some, pure}
use low_latency_experiments.Network.Socket.Options.{
  Constants, receive_buffer_size, send_buffer_size,
}
use low_latency_experiments.Network.Socket.{is_positive}
use low_latency_experiments.Network.Listener.{Event, is_valid_event, number_of_ready}
use low_latency_experiments.Network.Socket.{Socket}
use low_latency_experiments.Network.Reactor.{Reactor, stop, start, on_client_disconnected}
use low_latency_experiments.Network.Reactor.Loop.{
  handle_client, handle_event, reactor_round, reactor_thread,
}
use low_latency_experiments.Network.Reactor.Kernel.{IsWatched, GivesFresh}
use low_latency_experiments.Network.Reactor.Invariant.{Holds, Live, listening, Inv, Inv-later}
use low_latency_experiments.Network.Reactor.Serving.{ReceivesAtMost}
use low_latency_experiments.Network.Reactor.Dispatch.{
  handle_event-own, handle_event-gone, Expected, AllExpected, AllApart, Goes, handle_events-Goes,
}
use low_latency_experiments.Network.Reactor.Program.{
  main, serve, finish, run_thread, prepared, ip_address, port,
}
use low_latency_experiments.Network.Reactor.Starting.{
  Started, IsIdle, prepared-IsIdle, start-Started, IsIdle-later,
}
use low_latency_experiments.Network.Socket.{get_socket_option}

abbrev pub AllWatched : History → List Event → Type 0
AllWatched h [] = Unit {0}
AllWatched h (e ∷ es) = IsWatched e.fd h × AllWatched h es

-- On the listening descriptor `fd` there are requests, and no errors.
abbrev pub OnlyRequests : ℤ → List Event → Type 0
OnlyRequests fd [] = Unit {0}
OnlyRequests fd (e ∷ es) = (e.fd ≡ fd → is_valid_event e ≡ true) × OnlyRequests fd es

-- What the reactor relies on: `epoll_wait` stores as many events as it says, on descriptors that are
-- watched, one event for each, and the listening socket, on the descriptor `fd`, shows no error.
pub record EpollContract (os : Os) (ready : History → List Event) (fd : ℤ) : Type 0 where
  pub stored :
      (epoll milliseconds : ℤ) (room : ℕ) (h : History)
      → pos_part (os.answer h (Call.epoll_wait epoll room milliseconds))
        ≤ length (ready (Call.epoll_wait epoll room milliseconds ∷ h))
  pub of_watched : (h : History) → AllWatched h (ready h)
  pub one_each : (h : History) → AllApart (ready h)
  pub requests : (h : History) → OnlyRequests fd (ready h)

all_expected :
    {os : Os} {r : Reactor} {h : History} (es : List Event)
    → Inv os r h
    → AllWatched h es
    → OnlyRequests (listening r) es
    → AllExpected r es
all_expected [] inv w q = tt
all_expected {os} {r} (e ∷ es) inv (w, ws) (q, qs) =
    (now (inv.watched e.fd w), all_expected es inv ws qs)
  where
    now : (e.fd ≡ listening r) ⊎ Live r.server e.fd → Expected r e
    now (inl own) = inr (own, q own)
    now (inr l) = inl l

module _ (os : Os) (c : Constants) (ready : History → List Event) (gives_fresh : GivesFresh os)
    (at_most : ReceivesAtMost os) {fd : ℤ} (contract : EpollContract os ready fd) where
  reactor_round-Goes :
      {r : Reactor} {h : History}
      → listening r ≡ fd
      → Inv os r h
      → Goes os r (reactor_round os c ready r h)
  unfolding reactor_round number_of_ready
  reactor_round-Goes {r} {h} own inv =
      let wait = Call.epoll_wait r.listener.descriptor r.listener.max_events r.listener.timeout in
      let n = os.answer h wait in
      let now = wait ∷ h in
      let inv' : Inv os r now = Inv-later (λ d o. o) (λ d w. w) inv in
      let requests = subst (λ d. OnlyRequests d (ready now)) (sym own) (contract.requests now) in
      elim (Bool-cases (is_positive n)) [
        | inl e ↦ rw e (
            handle_events-Goes os c gives_fresh at_most (pos_part n) (ready now)
              (contract.stored r.listener.descriptor r.listener.timeout r.listener.max_events h)
              inv' (contract.one_each now)
              (all_expected (ready now) inv' (contract.of_watched now) requests))
        | inr e ↦ rw e (record { reactor = r; history = now; ran = refl; inv = inv'; same = refl })
      ]

  -- Suppose that `accept` gives out no descriptor that is still open, that `recv` stores no more than
  -- it is asked for, and that `epoll_wait` reports at most one event for each descriptor, on watched
  -- descriptors only, and no error on the listening socket. From a state in which each connected
  -- peer is found under its own open descriptor and only such descriptors and the listening one are
  -- watched, any number of rounds of the reactor thread are defined and lead to such a state, with the
  -- same listening descriptor.
  pub reactor_thread-Goes :
      (loads : List Bool) {r : Reactor} {h : History}
      → listening r ≡ fd
      → Inv os r h
      → Goes os r (reactor_thread os c ready loads r h)
  unfolding reactor_thread
  reactor_thread-Goes [] {r} {h} own inv = record {
    reactor = r;
    history = h;
    ran = refl;
    inv = inv;
    same = refl;
  }
  reactor_thread-Goes (true ∷ loads) {r} {h} own inv = record {
    reactor = r;
    history = h;
    ran = refl;
    inv = inv;
    same = refl;
  }
  reactor_thread-Goes (false ∷ loads) {r} {h} own inv =
      let g = reactor_round-Goes own inv in
      let rest = reactor_thread-Goes loads (g.same ∙ own) g.inv in
      record {
        reactor = rest.reactor;
        history = rest.history;
        ran =
            >>=-some (reactor_round os c ready r) (reactor_thread os c ready loads) g.ran
            ∙ rest.ran;
        inv = rest.inv;
        same = rest.same ∙ g.same;
      }

  run_thread_lem :
      (loads : List Bool) (b : Bool) (r : Reactor) (h : History)
      → Started os fd b r h
      → (r' : Reactor) × (h' : History) × (run_thread os c ready loads (b, r) h ≡ some (r', h'))
  unfolding run_thread
  run_thread_lem loads true r h (own, inv) =
      let g = reactor_thread-Goes (loads ++ true ∷ []) own inv in (g.reactor, g.history, g.ran)
  run_thread_lem loads false r h started = (r, h, refl)

reached-Inv :
    (os : Os) (c : Constants) (ready : History → List Event) (loads : List Bool)
    → GivesFresh os
    → ReceivesAtMost os
    → EpollContract os ready (os.answer [] (Call.socket tcp))
    → {r0 r1 r : Reactor} {h0 h1 h : History} → prepared os c [] ≡ some (r0, h0)
    → start os c r0 ip_address port h0 ≡ some ((true, r1), h1)
    → reactor_thread os c ready loads r1 h1 ≡ some (r, h)
    → Inv os r h
reached-Inv os c ready loads gives_fresh at_most contract {r0} {h0 = h0} prepared_eq start_eq ran =
    let fd = os.answer [] (Call.socket tcp) in
    let (rp, hp, eq, idle) = prepared-IsIdle os c in
    let idle0 : IsIdle os fd r0 h0 =
      subst (λ (x : Reactor × History). IsIdle os fd x.0 x.1) (eq_of_some (sym eq ∙ prepared_eq))
        idle in
    let (b, rs, hs, started_eq, started) = start-Started os c ip_address port idle0 in
    let (own, inv) =
      subst (λ (x : (Bool × Reactor) × History). Started os fd x.0.0 x.0.1 x.1)
        (eq_of_some (sym started_eq ∙ start_eq)) started in
    let g = reactor_thread-Goes os c ready gives_fresh at_most contract loads own inv in
    subst (λ (x : Reactor × History). Inv os x.0 x.1) (eq_of_some (sym g.ran ∙ ran)) g.inv

-- Suppose that `accept` gives out no descriptor that is still open, that `recv` stores no more than it
-- is asked for, and that `epoll_wait` reports at most one event for each descriptor, on watched
-- descriptors only, and no error on the listening socket. When the server has been started and the
-- reactor thread has gone round any number of times, an event on the descriptor of a connected peer
-- is handled for the slot that holds this peer: a readable one by `handleClient`, an error or a
-- hang-up by `onClientDisconnected`.
pub events_reach_peer :
    (os : Os) (c : Constants) (ready : History → List Event) (loads : List Bool)
    → GivesFresh os
    → ReceivesAtMost os
    → EpollContract os ready (os.answer [] (Call.socket tcp))
    → {r0 r1 r : Reactor} {h0 h1 h : History} {i : ℕ} {s : Socket} (e : Event)
    → prepared os c [] ≡ some (r0, h0)
    → start os c r0 ip_address port h0 ≡ some ((true, r1), h1)
    → reactor_thread os c ready loads r1 h1 ≡ some (r, h)
    → Holds r.server i s
    → e.fd ≡ s.descriptor
    → handle_event os c r e h
      ≡ (if is_valid_event e then handle_client os c r i h else on_client_disconnected os c r i h)
events_reach_peer os c ready loads gives_fresh at_most contract {r} {h} {i} e prepared_eq start_eq
      ran a own =
    elim (Bool-cases (is_valid_event e)) [
      | inl valid ↦ rw valid (handle_event-own os c inv a e own valid)
      | inr invalid ↦ rw invalid (handle_event-gone os c inv a e own invalid)
    ]
  where
    inv : Inv os r h
    inv = reached-Inv os c ready loads gives_fresh at_most contract prepared_eq start_eq ran

-- Suppose that `accept` gives out no descriptor that is still open, that `recv` stores no more than it
-- is asked for, and that `epoll_wait` reports at most one event for each descriptor, on watched
-- descriptors only, and no error on the listening socket. Then however often the reactor thread goes
-- round before it finds that it is to stop, and whatever the clients send, no step of the server
-- program reaches outside `m_peerSockets`, the flags of the slots, the stored events or `buffer`. The
-- cast of an accepted socket to `TCPConnection*` is taken to leave the socket as it is.
pub main_defined :
    (os : Os) (c : Constants) (ready : History → List Event) (loads : List Bool)
    → GivesFresh os
    → ReceivesAtMost os
    → EpollContract os ready (os.answer [] (Call.socket tcp))
    → (r : Reactor) × (h : History) × (main os c ready loads [] ≡ some (r, h))
unfolding main serve finish get_socket_option
main_defined os c ready loads gives_fresh at_most contract =
    let (r, h, prepared_eq, idle) = prepared-IsIdle os c in
    let first = get_socket_option os c r.server.socket receive_buffer_size h in
    let second = get_socket_option os c r.server.socket send_buffer_size first.1 in
    let idle' = IsIdle-later second.1 (λ d o. o) (λ d w. w) idle in
    let (b, r1, h1, started_eq, started) = start-Started os c ip_address port idle' in
    let (r2, h2, ran) =
      run_thread_lem os c ready gives_fresh at_most contract loads b r1 h1 started in
    (
      stop r2,
      h2,
      >>=-some (prepared os c) (serve os c ready loads) prepared_eq
          ∙ >>=-some (start os c r ip_address port) (finish os c ready loads) started_eq
          ∙ >>=-some (run_thread os c ready loads (b, r1)) (λ x. pure (stop x)) ran,
    )

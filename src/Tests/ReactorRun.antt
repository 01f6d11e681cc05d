-- ===== src/Tests/ReactorRun.antt =====
-- The reactor at concrete inputs: a system whose descriptors count up, where every request is for a
-- new connection and every client is found to have gone.
use low_latency_experiments.Common.{
  ℕ, zero, suc, ◌+◌, ◌<◌, ◌≡◌, inl, inr, refl, sym, ap, true, false, List, [], ◌∷◌, some, none,
  arith, length, get_elem?,
}
use low_latency_experiments.Common.Int.{ℤ, pos}
use low_latency_experiments.Network.System.{Call, History, Os, tcp}
use low_latency_experiments.Network.Socket.{Socket, connected, init as new_socket}
use low_latency_experiments.Network.Listener.{Event, is_valid_event}
use low_latency_experiments.Network.Listener
use low_latency_experiments.Network.Reactor.{Reactor, put}
use low_latency_experiments.Network.Reactor.Loop.{reactor_thread}
use low_latency_experiments.Network.Reactor.Program.{main}
use low_latency_experiments.Network.Reactor.Kernel.{IsOpen, IsWatched, GivesFresh}
use low_latency_experiments.Network.Reactor.Serving.{ReceivesAtMost}
use low_latency_experiments.Network.Reactor.Dispatch.{AllApart, Goes}
use low_latency_experiments.Network.Reactor.Invariant.{Holds, Inv}
use low_latency_experiments.Network.Reactor.Safety.{
  EpollContract, AllWatched, OnlyRequests, reactor_thread-Goes, main_defined,
}
use low_latency_experiments.Tests.Sockets.{linux}

-- A readable event on the descriptor.
abbrev pub readable_on : ℤ → Event
readable_on fd = record { readable = true; error = false; hang_up = false; fd = fd }

-- The descriptor that was added last is ready, while nothing was taken out since.
abbrev pub newest : History → List Event
newest [] = []
newest (Call.epoll_add epoll fd edge ∷ h) = readable_on fd ∷ []
newest (Call.epoll_delete epoll fd edge ∷ h) = []
newest (Call.close fd ∷ h) = []
newest (_ ∷ h) = newest h

abbrev counting_answer : History → Call → ℤ
counting_answer h (Call.socket type) = pos (3 + length h)
counting_answer h (Call.accept fd) = pos (3 + length h)
counting_answer h Call.epoll_create = pos (3 + length h)
counting_answer h (Call.select fd read write seconds) = pos 1
counting_answer h (Call.epoll_wait epoll room milliseconds) = pos (length (newest h))
counting_answer h _ = pos 0

abbrev pub counting_os : Os
counting_os = record {
  answer = counting_answer;
  peer = λ h. record { port = 80; host = 1 };
  incoming = λ h. [];
  errno = λ h. pos 104;
  getaddrinfo = λ name. none;
  inet_pton = λ name. some 1;
  inet_ntop = λ a. [];
  htons = λ p. 80;
  ntohs = λ p. pos 80;
}

-- What is open was given out before.
abbrev GivenBefore : ℤ → ℕ → Type 0
GivenBefore fd n = (k : ℕ) × (fd ≡ pos (3 + k)) × (k < n)

weaken : {fd : ℤ} {n : ℕ} → GivenBefore fd n → GivenBefore fd (suc n)
weaken (k, e, lt) = (k, e, omega arith)

given_before : (fd : ℤ) (h : History) → IsOpen counting_os fd h → GivenBefore fd (length h)
given_before fd [] o = elim o [ ]
given_before fd (Call.socket type ∷ h) (inl e) = (length h, sym e, omega arith)
given_before fd (Call.socket type ∷ h) (inr o) = weaken (given_before fd h o)
given_before fd (Call.accept f ∷ h) (inl e) = (length h, sym e, omega arith)
given_before fd (Call.accept f ∷ h) (inr o) = weaken (given_before fd h o)
given_before fd (Call.epoll_create ∷ h) (inl e) = (length h, sym e, omega arith)
given_before fd (Call.epoll_create ∷ h) (inr o) = weaken (given_before fd h o)
given_before fd (Call.close f ∷ h) o = weaken (given_before fd h o.1)
given_before fd (Call.listen _ _ ∷ h) o = weaken (given_before fd h o)
given_before fd (_ ∷ h) o = weaken (given_before fd h o)

pub counting-GivesFresh : GivesFresh counting_os
counting-GivesFresh fd h e o =
    let (k, same, lt) = given_before (pos (3 + length h)) h o in ground arith

pub counting-ReceivesAtMost : ReceivesAtMost counting_os
counting-ReceivesAtMost fd n h = omega arith

AllWatched-later :
    (h h' : History) (es : List Event)
    → ((fd : ℤ) → IsWatched fd h → IsWatched fd h')
    → AllWatched h es
    → AllWatched h' es
AllWatched-later h h' [] k w = tt
AllWatched-later h h' (e ∷ es) k (w, ws) = (k e.fd w, AllWatched-later h h' es k ws)

newest-AllWatched : (h : History) → AllWatched h (newest h)
newest-AllWatched [] = tt
newest-AllWatched (Call.epoll_add epoll fd edge ∷ h) = (inl refl, tt)
newest-AllWatched (Call.epoll_delete epoll fd edge ∷ h) = tt
newest-AllWatched (Call.close fd ∷ h) = tt
newest-AllWatched (Call.epoll_create ∷ h) =
    AllWatched-later h (Call.epoll_create ∷ h) (newest h) (λ fd w. w) (newest-AllWatched h)
newest-AllWatched (other ∷ h) =
    AllWatched-later h (other ∷ h) (newest h) (λ fd w. w) (newest-AllWatched h)

newest-AllApart : (h : History) → AllApart (newest h)
newest-AllApart [] = tt
newest-AllApart (Call.epoll_add epoll fd edge ∷ h) = (tt, tt)
newest-AllApart (Call.epoll_delete epoll fd edge ∷ h) = tt
newest-AllApart (Call.close fd ∷ h) = tt
newest-AllApart (Call.listen _ _ ∷ h) = newest-AllApart h
newest-AllApart (_ ∷ h) = newest-AllApart h

newest-OnlyRequests : (fd : ℤ) (h : History) → OnlyRequests fd (newest h)
unfolding is_valid_event
newest-OnlyRequests fd [] = tt
newest-OnlyRequests fd (Call.epoll_add epoll f edge ∷ h) = (λ e. valid, tt)
  where
    valid : is_valid_event (readable_on f) ≡ true
    valid = refl
newest-OnlyRequests fd (Call.epoll_delete epoll f edge ∷ h) = tt
newest-OnlyRequests fd (Call.close f ∷ h) = tt
newest-OnlyRequests fd (Call.listen _ _ ∷ h) = newest-OnlyRequests fd h
newest-OnlyRequests fd (_ ∷ h) = newest-OnlyRequests fd h

pub newest-EpollContract : (fd : ℤ) → EpollContract counting_os newest fd
newest-EpollContract fd = record {
  stored = λ epoll milliseconds room h. omega arith;
  of_watched = newest-AllWatched;
  one_each = newest-AllApart;
  requests = newest-OnlyRequests fd;
}

-- Three rounds: a client is accepted, served and lost.
main_defined_example :
    (r : Reactor) × (h : History) × (main counting_os linux newest (false ∷ false ∷ false ∷ []) []
      ≡ some (r, h))
main_defined_example =
    main_defined counting_os linux newest (false ∷ false ∷ false ∷ []) counting-GivesFresh
      counting-ReceivesAtMost (newest-EpollContract (pos 3))

-- One connected client, on the descriptor 5, in slot 0.
abbrev client : Socket
client = record new_socket { descriptor = pos 5; state = connected }

abbrev one_client : Reactor
one_client = record {
  server = record {
    accept_timeout = pos 5;
    is_stopping = false;
    peers = client ∷ [];
    flags = true ∷ [];
    socket = record new_socket { descriptor = pos 3 };
  };
  listener = record Listener.init { descriptor = pos 9 };
  table = put (λ fd. 0) (pos 5) 0;
}

abbrev one_client_history : History
one_client_history =
    Call.epoll_add (pos 9) (pos 5) false
    ∷ Call.accept (pos 3)
    ∷ Call.epoll_add (pos 9) (pos 3) false
    ∷ Call.socket tcp
    ∷ []

client_held : Holds one_client.server 0 client
client_held = record { flag = refl; peer = refl }

only_client : (i : ℕ) (s : Socket) → Holds one_client.server i s → (i ≡ 0) × (s ≡ client)
only_client zero s a = let e = a.peer in (refl, cc e)
only_client (suc i) s a = let e = a.peer in absurd (cc e)

never_free : (i : ℕ) → get_elem? one_client.server.flags i ≡ some false → ⊥
never_free zero f = cc f
never_free (suc i) f = cc f

one_client-Inv : Inv counting_os one_client one_client_history
one_client-Inv = record {
  well_formed = refl;
  found = λ i s a. let (e, f) = only_client i s a in rw (e, f) refl;
  peer_open = λ i s a. let (e, f) = only_client i s a in rw f (inl refl);
  listener_apart = λ i s a g.
      let (e, f) = only_client i s a in ground (arith, ap (λ (t : Socket). t.descriptor) f);
  freed = λ i s f g. absurd (never_free i f);
  listener_open = inr (inl refl);
  not_listed = refl;
  watched = λ fd w. elim w [
    | inl e ↦ inr (0, client, client_held, e)
    | inr (inl e) ↦ inl (sym e)
    | inr (inr o) ↦ elim o [ ]
  ];
}

reactor_thread-Goes_test :
    Goes counting_os one_client
      (reactor_thread counting_os linux newest (false ∷ false ∷ []) one_client one_client_history)
reactor_thread-Goes_test =
    reactor_thread-Goes counting_os linux newest counting-GivesFresh counting-ReceivesAtMost
      (newest-EpollContract (pos 3)) (false ∷ false ∷ []) refl one_client-Inv

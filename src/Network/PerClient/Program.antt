-- ===== src/Network/PerClient/Program.antt =====
-- `start` of epoll_vs_multithreaded_io/network/tcp_server_thread_per_client.cpp, and `main` of
-- epoll_vs_multithreaded_io/server_thread_per_client.cpp.
use low_latency_experiments.Common.{
  List, ◌∷◌, ◌++◌, Option, none, some, ◌≡◌, ◌⊎◌, refl, ◌∙◌, if◌then◌else◌, inl, inr, Bool-cases,
}
use low_latency_experiments.Common.Int.{ℤ}
use low_latency_experiments.Network.System.{Text, History, Os}
use low_latency_experiments.Network.Socket.Options.{
  Constants, receive_buffer_size, send_buffer_size,
}
use low_latency_experiments.Network.Socket.{get_socket_option}
use low_latency_experiments.Network.Server.{
  Server, init, default_pending_connection_queue_size, default_accept_timeout,
}
use low_latency_experiments.Network.Server
use low_latency_experiments.Network.Reactor.Program.{ip_address, port}
use low_latency_experiments.Network.Reactor.Serving.{ReceivesAtMost}
use low_latency_experiments.Network.Reactor.Starting.{server_start-Quiet}
use low_latency_experiments.Network.PerClient.{Acceptor, Thread, System, run, start}
use low_latency_experiments.Network.PerClient.Safety.{IsEmpty, RanEarly, start-Good, run-Keeps}
use low_latency_experiments.Network.PerClient.Steps.{Keeps, Early}

-- Without the thread that accepts.
abbrev pub idle : Server → History → System
idle v h = record (start v h) { acceptor = Acceptor.ended }

module _ (os : Os) (c : Constants) where
  -- `TCPServerThreadPerClient::start`
  unfoldable pub launch : Server → Text → ℤ → History → System
  launch v address number h =
      let ((started, v'), h') = Server.start os c v address number h in
      if started then start v' h' else idle v' h'

  -- `main`, under a schedule that says when it finds "quit" in its input and stops the server. The
  -- constructor of the server does not pass its parameters on.
  unfoldable pub main : List Thread → History → Option System
  main ts h =
      let (v, h1) =
        Server.init os c default_pending_connection_queue_size default_accept_timeout h in
      let (receive_size, h2) = get_socket_option os c v.socket receive_buffer_size h1 in
      let (send_size, h3) = get_socket_option os c v.socket send_buffer_size h2 in
      run os c ts (launch v ip_address port h3)

  init-IsEmpty :
      (pending timeout : ℤ) (h : History) → IsEmpty (Server.init os c pending timeout h).0
  unfolding Server.init
  init-IsEmpty pending timeout h = (refl, refl)

  module _ (at_most : ReceivesAtMost os) where
    launch-Keeps :
        (v : Server) (address : Text) (number : ℤ) (h : History) (ts : List Thread)
        → IsEmpty v
        → Keeps (run os c ts (launch v address number h))
          ⊎ ((run os c ts (launch v address number h) ≡ none)
              × RanEarly os c at_most ts (launch v address number h))
    unfolding launch
    launch-Keeps v address number h ts empty =
        let ((started, v'), h') = Server.start os c v address number h in
        let (same, peers, flags, quiet) = server_start-Quiet os c v address number h in
        let good = start-Good v' h' (peers ∙ empty.0, flags ∙ empty.1) in
        elim (Bool-cases started) [
          | inl e ↦ rw e (run-Keeps os c at_most ts (start v' h') good)
          | inr e ↦ rw e (run-Keeps os c at_most ts (idle v' h') good)
        ]

    -- If `recv` stores no more than it is asked for, then whatever else the system answers,
    -- whatever the clients send, and however the main thread, the thread that accepts and the
    -- threads of the clients take turns, either no step of the server program reaches outside
    -- `buffer`, `m_peerSockets` or `m_clientThreads`, or on the way the thread of a client looks
    -- for itself in `m_clientThreads` at an index that is the size, while the thread that accepts
    -- has started one thread more and is about to store it there; the run is then undefined.
    pub threads_defined :
        (ts : List Thread) (h : History)
        → ((s : System) × (main ts h ≡ some s))
          ⊎ ((main ts h ≡ none)
              × ((before : List Thread) × (t : Thread) × (after : List Thread) × (s : System) × (ts
                    ≡ before ++ t ∷ after)
                  × (main before h ≡ some s)
                  × Early t s))
    unfolding main
    threads_defined ts h =
        let (v, h1) =
          Server.init os c default_pending_connection_queue_size default_accept_timeout h in
        let (receive_size, h2) = get_socket_option os c v.socket receive_buffer_size h1 in
        let (send_size, h3) = get_socket_option os c v.socket send_buffer_size h2 in
        let empty = init-IsEmpty default_pending_connection_queue_size default_accept_timeout h in
        elim (launch-Keeps v ip_address port h3 ts empty) [
          | inl kept ↦ inl (kept.system, kept.ran)
          | inr undefined ↦ inr undefined
        ]

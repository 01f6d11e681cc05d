-- ===== src/Network/Reactor/Program.antt =====
-- `main` of epoll_vs_multithreaded_io/server_reactor.cpp.
use low_latency_experiments.Common.{List, [], ◌∷◌, ◌++◌, Bool, true, false}
use low_latency_experiments.Common.Int.{ℤ, pos, negsuc}
use low_latency_experiments.Network.System.{Text, History, Os}
use low_latency_experiments.Network.Partial.{U, ◌>>=◌, ◌>>◌, pure, lift}
use low_latency_experiments.Network.Socket.Options.{
  Constants, receive_buffer_size, send_buffer_size,
}
use low_latency_experiments.Network.Socket.{get_socket_option}
use low_latency_experiments.Network.Listener.{Event}
use low_latency_experiments.Network.Server.{
  default_pending_connection_queue_size, default_accept_timeout,
}
use low_latency_experiments.Network.Reactor.{
  Reactor, init, set_poll_timeout, set_max_poll_events, start, stop,
}
use low_latency_experiments.Network.Reactor.Loop.{reactor_thread}

-- `IP_ADDRESS`, "127.0.0.1"
abbrev pub ip_address : Text
ip_address = b'1' ∷ b'2' ∷ b'7' ∷ b'.' ∷ b'0' ∷ b'.' ∷ b'0' ∷ b'.' ∷ b'1' ∷ []

-- `PORT`
abbrev pub port : ℤ
port = pos 666

module _ (os : Os) (c : Constants) where
  -- The reactor before `start`.
  unfoldable pub prepared : U Reactor
  prepared = do
    r ← init os c default_pending_connection_queue_size default_accept_timeout
    pure (set_max_poll_events (set_poll_timeout r (negsuc 0)) 10240)

module _ (os : Os) (c : Constants) (ready : History → List Event) where
  -- The thread, if `start` has created it. It runs while it finds `m_isStopping` not set, as often as
  -- `loads` says, and then finds it set.
  unfoldable pub run_thread : List Bool → Bool × Reactor → U Reactor
  run_thread loads (true, r) = reactor_thread os c ready (loads ++ true ∷ []) r
  run_thread loads (false, r) = pure r

  -- From the start of the thread on.
  unfoldable pub finish : List Bool → Bool × Reactor → U Reactor
  finish loads started = do r ← run_thread loads started; pure (stop r)

  -- From the printing of the buffer sizes on.
  unfoldable pub serve : List Bool → Reactor → U Reactor
  serve loads r = do
    lift (get_socket_option os c r.server.socket receive_buffer_size)
    lift (get_socket_option os c r.server.socket send_buffer_size)
    started ← start os c r ip_address port
    finish loads started

  unfoldable pub main : List Bool → U Reactor
  main loads = do r ← prepared os c; serve loads r

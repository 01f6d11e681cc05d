-- ===== src/Network/Reactor.antt =====
-- `TCPServerReactor` of epoll_vs_multithreaded_io/network/tcp_server_reactor.cpp, with the
-- `handleClient` of `TCPServerReactorTest` in epoll_vs_multithreaded_io/server_reactor.cpp.
pub mod Loop
pub mod Kernel
pub mod Invariant
pub mod Leaving
pub mod Joining
pub mod Serving
pub mod Dispatch
pub mod Program
pub mod Starting
pub mod Safety
use low_latency_experiments.Common.{
  ℕ, zero, suc, List, [], ◌∷◌, Bool, true, false, Option, none, some, get_elem?, set, leb,
  if◌then◌else◌,
}
use low_latency_experiments.Common.Int.{ℤ, pos, negsuc, eqb}
use low_latency_experiments.Network.System.{Text, History, Os}
use low_latency_experiments.Network.Partial.{U, ◌>>=◌, ◌>>◌, pure, lift, defined, undefined}
use low_latency_experiments.Network.Message.{quit, exec_report, c_string, same_text}
use low_latency_experiments.Network.Socket.Options.{Constants}
use low_latency_experiments.Network.Socket.{
  Socket, set_blocking_mode, accept, is_connection_lost, is_positive,
}
use low_latency_experiments.Network.Connection.{send, receive}
use low_latency_experiments.Network.Listener.{
  Event, Listener, is_valid_event, add_file_descriptor, remove_file_descriptor, number_of_ready,
}
use low_latency_experiments.Network.Listener
use low_latency_experiments.Network.Server.{Server, add_peer, remove_peer}
use low_latency_experiments.Network.Server

-- `TCPServerReactor`. `table` is `m_peerSocketIndexTable`; its `operator[]` gives 0 for a descriptor
-- that is not in it.
pub record Reactor : Type 0 where
  pub server : Server
  pub listener : Listener
  pub table : ℤ → ℕ

-- `m_peerSocketIndexTable[fd] = index`
abbrev pub put : (ℤ → ℕ) → ℤ → ℕ → ℤ → ℕ
put table fd index k = if eqb k fd then index else table k

-- `stop`, once the reactor thread has ended.
unfoldable pub stop : Reactor → Reactor
stop r = record r { server = Server.stop r.server; listener = Listener.stop r.listener }

unfoldable pub set_poll_timeout : Reactor → ℤ → Reactor
set_poll_timeout r micro_seconds = record r {
  listener = Listener.set_timeout r.listener micro_seconds;
}

unfoldable pub set_max_poll_events : Reactor → ℕ → Reactor
set_max_poll_events r n = record r { listener = Listener.set_max_poll_events r.listener n }

module _ (os : Os) (c : Constants) where
  -- The constructor.
  unfoldable pub init : (pending_connections_queue_size accept_timeout : ℤ) → U Reactor
  init pending_connections_queue_size accept_timeout = do
    v ← lift (Server.init os c pending_connections_queue_size accept_timeout)
    pure (record { server = v; listener = Listener.init; table = λ fd. 0 })

  -- `start`, up to the creation of the reactor thread.
  unfoldable pub start : Reactor → Text → ℤ → U (Bool × Reactor)
  start r address port = do
    (started, v) ← lift (Server.start os c r.server address port)
    if started
        then (do
          lift (set_blocking_mode os c v.socket false)
          l ← lift (Listener.start os r.listener)
          lift (add_file_descriptor os l v.socket.descriptor)
          pure (true, record r { server = v; listener = l }))
        else pure (false, record r { server = v })

  -- `onClientConnected`
  unfoldable pub on_client_connected : Reactor → ℕ → U Reactor
  on_client_connected r i = do
    peer ← defined (get_elem? r.server.peers i)
    lift (add_file_descriptor os r.listener peer.descriptor)
    lift (set_blocking_mode os c peer false)
    pure (record r { table = put r.table peer.descriptor i })

  -- `onClientDisconnected`
  unfoldable pub on_client_disconnected : Reactor → ℕ → U Reactor
  on_client_disconnected r i = do
    peer ← defined (get_elem? r.server.peers i)
    lift (remove_file_descriptor os r.listener peer.descriptor)
    removed ← lift (remove_peer os c r.server i)
    v ← defined removed
    pure (record r { server = v })

  -- The part of `acceptNewConnection` after `accept`, on its result. The cast of the socket to
  -- `TCPConnection*`, which `accept` has not made one of, is undefined in C++; it is taken here to leave
  -- the socket as it is.
  unfoldable pub add_accepted : Option Socket → Reactor → U (ℕ × Reactor)
  add_accepted none r = pure (0, r)
  add_accepted (some peer) r = do
    (i, v) ← lift (add_peer os c r.server peer)
    r' ← on_client_connected (record r { server = v }) i
    pure (0, r')

  -- `acceptNewConnection`; the inner `peerIndex` hides the outer one, which is returned.
  unfoldable pub accept_new_connection : Reactor → U (ℕ × Reactor)
  accept_new_connection r = do
    (accepted, s) ← lift (accept os c r.server.socket r.server.accept_timeout)
    add_accepted accepted (record r { server = record r.server { socket = s } })

-- ===== src/Network/Reactor/Loop.antt =====
-- `handleClient` of epoll_vs_multithreaded_io/server_reactor.cpp, and `reactorThread` of
-- epoll_vs_multithreaded_io/network/tcp_server_reactor.cpp.
use low_latency_experiments.Common.{
  ℕ, zero, suc, List, [], ◌∷◌, Bool, true, false, get_elem?, set, leb, if◌then◌else◌,
}
use low_latency_experiments.Common.Int.{ℤ, pos, eqb, pos_part}
use low_latency_experiments.Network.System.{Text, History, Os}
use low_latency_experiments.Network.Partial.{U, ◌>>=◌, ◌>>◌, pure, lift, defined, undefined}
use low_latency_experiments.Network.Message.{quit, exec_report, c_string, same_text}
use low_latency_experiments.Network.Socket.Options.{Constants}
use low_latency_experiments.Network.Socket.{Socket, is_connection_lost, is_positive}
use low_latency_experiments.Network.Connection.{send, receive}
use low_latency_experiments.Network.Listener.{Event, is_valid_event, number_of_ready}
use low_latency_experiments.Network.Reactor.{Reactor, on_client_disconnected, accept_new_connection}

-- The buffer of `handleClient` has 33 bytes, of which `receive` is given 32.
abbrev pub buffer_room : ℕ
buffer_room = 32

-- A peer socket is changed through the pointer that `getPeerSocket` returns.
abbrev pub set_peer : Reactor → ℕ → Socket → Reactor
set_peer r i peer = record r { server = record r.server { peers = set r.server.peers i peer } }

module _ (os : Os) (c : Constants) where
  unfoldable pub leave_if : Bool → Reactor → ℕ → U Reactor
  leave_if true r i = on_client_disconnected os c r i
  leave_if false r i = pure r

  -- What `handleClient` does with the message that it has read: it answers, and disconnects a client
  -- that sent "quit".
  unfoldable pub answer_client : Reactor → ℕ → Socket → Text → U Reactor
  unfolding leave_if
  answer_client r i peer message = do
    lift (send os c peer exec_report (pos 0))
    leave_if (same_text message quit) r i

  -- What it does where nothing was read; an error that is no lost connection is only printed.
  unfoldable pub missed_client : Reactor → ℕ → Socket → ℤ → U Reactor
  unfolding leave_if
  missed_client r i peer error =
      let (lost, peer') = is_connection_lost peer error in leave_if lost (set_peer r i peer') i

  -- `buffer[read] = '\0'` is out of bounds past 32.
  unfoldable pub dispatch_read : Reactor → ℕ → Socket → ℤ → Text → ℤ → U Reactor
  dispatch_read r i peer read stored error =
      if is_positive read
      then (if leb (pos_part read) buffer_room
          then answer_client r i peer (c_string (pos_part read) stored)
          else undefined)
      else missed_client r i peer error

  -- `handleClient`
  unfoldable pub handle_client : Reactor → ℕ → U Reactor
  handle_client r i = do
    peer ← defined (get_elem? r.server.peers i)
    (read, stored) ← lift (receive os c peer buffer_room (pos 0))
    error ← lift (λ h. (os.errno h, h))
    dispatch_read r i peer read stored error

  -- The body of the loop over the events.
  unfoldable pub handle_event : Reactor → Event → U Reactor
  handle_event r e =
      if is_valid_event e
      then (if eqb e.fd r.server.socket.descriptor
          then (do (index, r') ← accept_new_connection os c r; pure r')
          else handle_client r (r.table e.fd))
      else on_client_disconnected os c r (r.table e.fd)

  -- The loop over the first `n` events; the system stored only those of the list.
  unfoldable pub handle_events : ℕ → List Event → Reactor → U Reactor
  handle_events zero es r = pure r
  handle_events (suc n) [] r = undefined
  handle_events (suc n) (e ∷ es) r = do r' ← handle_event r e; handle_events n es r'

  module _ (ready : History → List Event) where
    -- One round of `reactorThread`: `ready` gives the events that `epoll_wait` stores. After an error
    -- a message is printed.
    unfoldable pub reactor_round : Reactor → U Reactor
    reactor_round r = do
      result ← lift (number_of_ready os r.listener)
      events ← lift (λ h. (ready h, h))
      if is_positive result then handle_events (pos_part result) events r else pure r

    -- `reactorThread`, with the values that the loads of `m_isStopping` return: after the last of
    -- them the thread is still running, or has ended.
    unfoldable pub reactor_thread : List Bool → Reactor → U Reactor
    reactor_thread [] r = pure r
    reactor_thread (true ∷ loads) r = pure r
    reactor_thread (false ∷ loads) r = do r' ← reactor_round r; reactor_thread loads r'

-- ===== src/Network/PerClient.antt =====
-- `TCPServerThreadPerClient` of epoll_vs_multithreaded_io/network/tcp_server_thread_per_client.cpp, with
-- the `handleClient` of `TcpServerMultithreadedTest` in
-- epoll_vs_multithreaded_io/server_thread_per_client.cpp: one thread accepts, and each client has a
-- thread. A step is one operation on the mutex, or what a thread does between two of them.
pub mod Invariant
pub mod Next
pub mod Steps
pub mod Safety
pub mod Mutex
pub mod Exclusion
pub mod Blocking
pub mod Program
pub mod Owners
pub mod Effort
pub mod Nearing
pub mod Stopping
pub mod Waiting
pub mod Awake
pub mod Moving
pub mod Ending
use low_latency_experiments.Common.{
  ℕ, zero, suc, ◌-◌, ltb, List, [], ◌∷◌, ◌++◌, Bool, true, false, Option, none, some, get_elem?,
  set, leb, length, if◌then◌else◌, ◌>>=◌,
}
use low_latency_experiments.Common.Int.{ℤ, pos, negsuc, pos_part}
use low_latency_experiments.Network.System.{Text, Call, History, Os}
use low_latency_experiments.Network.Message.{quit, exec_report, c_string, same_text}
use low_latency_experiments.Network.Socket.Options.{Constants}
use low_latency_experiments.Network.Socket.{Socket, accept, is_connection_lost, is_positive}
use low_latency_experiments.Network.Connection.{send, receive}
use low_latency_experiments.Network.Server.{Server, add_peer, remove_peer}
use low_latency_experiments.Network.Server

-- Where the thread that accepts stands.
pub data Acceptor : Type 0 where
  checking : Acceptor  -- before `m_isStopping.load()`
  accepting : Acceptor  -- before `m_socket.accept`
  locking : (peer : Socket) → Acceptor  -- before the guard takes the mutex
  adding : (peer : Socket) → Acceptor  -- before `addPeer` and the start of the thread
  storing : Acceptor  -- before `m_clientThreads.emplace_back` stores the thread
  unlocking : Acceptor  -- before the guard releases the mutex
  ended : Acceptor

-- Where the thread of a client stands.
pub data Client : Type 0 where
  naming : Client  -- before `m_clientThreads[peerIndex]->native_handle()`
  checking : Client  -- before `m_isStopping.load()`
  locking : Client  -- before the guard for `receive` takes the mutex
  receiving : Client  -- before `receive`
  received : (read : ℤ) (stored : Text) (error : ℤ) → Client  -- before that guard releases it
  handling : (read : ℤ) (stored : Text) (error : ℤ) → Client  -- before the test of `read`
  leaving : Client  -- in `onClientDisconnected`, before the guard takes the mutex
  removing : Client  -- before `removePeer`
  left : Client  -- before that guard releases the mutex
  ended : Client

pub data Thread : Type 0 where
  main_thread acceptor_thread : Thread
  client_thread : ℕ → Thread

-- The server with its threads. `clients` is the threads that `onClientConnected` has started: the slot
-- of each, and where it stands; one that has ended stays. `m_clientThreads` holds all of them, except
-- the last one while the thread that accepts is about to store it.
pub record System : Type 0 where
  pub server : Server
  pub owner : Option Thread
  pub acceptor : Acceptor
  pub clients : List (ℕ × Client)
  pub history : History

abbrev pub move_client : System → ℕ → ℕ → Client → System
move_client s k slot pc = record s { clients = set s.clients k (slot, pc) }

-- The size of `m_clientThreads`, when so many threads have been started.
abbrev pub stored_threads : Acceptor → ℕ → ℕ
stored_threads Acceptor.storing n = n - 1
stored_threads _ n = n

-- The guard of a thread takes the mutex, or the thread waits.
abbrev pub when_free : {A : Type 0} → Option Thread → A → A → A
when_free none free busy = free
when_free (some t) free busy = busy

-- `buffer[33]` takes 32 bytes and a 0.
abbrev pub buffer_room : ℕ
buffer_room = 32

-- What `acceptThread` does with the result of `accept`.
abbrev pub after_accept : Option Socket → Acceptor
after_accept none = Acceptor.checking
after_accept (some peer) = Acceptor.locking peer

-- What `handleClient` does with the message that it has read.
abbrev pub after_message : Bool → Client
after_message true = Client.leaving
after_message false = Client.checking

module _ (os : Os) (c : Constants) where
  -- One step of `acceptThread`. `onClientConnected` starts the thread of the client, which runs from
  -- then on, and only then stores it.
  unfoldable pub step_acceptor : Acceptor → System → Option System
  step_acceptor Acceptor.checking s =
      some (record s {
        acceptor = if s.server.is_stopping then Acceptor.ended else Acceptor.accepting;
      })
  step_acceptor Acceptor.accepting s =
      let ((peer, socket), h) = accept os c s.server.socket s.server.accept_timeout s.history in
      some (record s {
        server = record s.server { socket = socket };
        acceptor = after_accept peer;
        history = h;
      })
  step_acceptor (Acceptor.locking peer) s = some (
      when_free s.owner (record s { owner = some acceptor_thread; acceptor = Acceptor.adding peer })
        s)
  step_acceptor (Acceptor.adding peer) s =
      let ((slot, server), h) = add_peer os c s.server peer s.history in
      some (record s {
        server = server;
        acceptor = Acceptor.storing;
        clients = s.clients ++ (slot, Client.naming) ∷ [];
        history = h;
      })
  step_acceptor Acceptor.storing s = some (record s { acceptor = Acceptor.unlocking })
  step_acceptor Acceptor.unlocking s =
      some (record s { owner = none; acceptor = Acceptor.checking })
  step_acceptor Acceptor.ended s = some s

  -- The test of `read` and what follows it; `buffer[read] = '\0'` is out of bounds past 32. An error that
  -- is no lost connection is only printed.
  unfoldable pub handle_read : System → ℕ → ℕ → Socket → ℤ → Text → ℤ → Option System
  handle_read s k slot peer read stored error =
      if is_positive read
      then (if leb (pos_part read) buffer_room
          then some (record s {
            clients =
                set s.clients k
                  (slot, after_message (same_text (c_string (pos_part read) stored) quit));
            history = (send os c peer exec_report (pos 0) s.history).1;
          })
          else none)
      else let (lost, peer') = is_connection_lost peer error in
        some (record s {
          server = record s.server { peers = set s.server.peers slot peer' };
          clients = set s.clients k (slot, after_message lost);
        })

  -- `onClientDisconnected`, under the mutex.
  unfoldable pub remove_step : System → ℕ → ℕ → Option Server × History → Option System
  remove_step s k slot (none, h) = none
  remove_step s k slot (some server, h) =
      some
        (record s { server = server; clients = set s.clients k (slot, Client.left); history = h })

  -- One step of thread `k`, which serves `slot`. `m_clientThreads[peerIndex]` is out of bounds when the
  -- threads stored are not as many.
  unfoldable pub step_client : ℕ → ℕ → Client → System → Option System
  step_client k slot Client.naming s =
      if ltb slot (stored_threads s.acceptor (length s.clients))
      then some (move_client s k slot Client.checking)
      else none
  step_client k slot Client.checking s =
      some (move_client s k slot (if s.server.is_stopping then Client.ended else Client.locking))
  step_client k slot Client.locking s = some (
      when_free s.owner
        (record s {
          owner = some (client_thread k);
          clients = set s.clients k (slot, Client.receiving);
        })
        s)
  step_client k slot Client.receiving s = do
    peer ← get_elem? s.server.peers slot
    let ((read, stored), h) = receive os c peer buffer_room (pos 0) s.history
    some (record s {
      clients = set s.clients k (slot, Client.received read stored (os.errno h));
      history = h;
    })
  step_client k slot (Client.received read stored error) s = some (record s {
    owner = none;
    clients = set s.clients k (slot, Client.handling read stored error);
  })
  step_client k slot (Client.handling read stored error) s = do
    peer ← get_elem? s.server.peers slot
    handle_read s k slot peer read stored error
  step_client k slot Client.leaving s = some (
      when_free s.owner
        (record s {
          owner = some (client_thread k);
          clients = set s.clients k (slot, Client.removing);
        })
        s)
  step_client k slot Client.removing s =
      remove_step s k slot (remove_peer os c s.server slot s.history)
  step_client k slot Client.left s =
      some (record s { owner = none; clients = set s.clients k (slot, Client.ended) })
  step_client k slot Client.ended s = some s

  -- A step of thread `k`, if there is one.
  unfoldable pub step_found : ℕ → Option (ℕ × Client) → System → Option System
  step_found k none s = some s
  step_found k (some (slot, pc)) s = step_client k slot pc s

  -- One step of the thread that the scheduler picks. The main thread may stop the server.
  unfoldable pub step : Thread → System → Option System
  step main_thread s = some (record s { server = Server.stop s.server })
  step acceptor_thread s = step_acceptor s.acceptor s
  step (client_thread k) s = step_found k (get_elem? s.clients k) s

  unfoldable pub run : List Thread → System → Option System
  run [] s = some s
  run (t ∷ ts) s = do s' ← step t s; run ts s'

-- What `start` leaves, once the listening socket is set up: the thread that accepts.
abbrev pub start : Server → History → System
start server h = record {
  server = server;
  owner = none;
  acceptor = Acceptor.checking;
  clients = [];
  history = h;
}

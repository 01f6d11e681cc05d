-- ===== src/Network/Automation.antt =====
-- epoll_vs_multithreaded_io/client_automation.cpp: any number of client threads, each of which sends a
-- number of messages and waits for an answer to each. A step is one attempt to connect, one operation
-- on the mutex, one call on the socket with what follows it, or one access to `messageCounter`.
pub mod Balance
pub mod Steps
pub mod Sends
pub mod Program
use low_latency_experiments.Common.{
  ℕ, zero, suc, ◌++◌, List, [], ◌∷◌, Bool, true, false, Option, none, some, leb, ltb, ◌==◌,
  if◌then◌else◌, ◌>>=◌,
}
use low_latency_experiments.Common.Int.{ℤ, pos, pos_part, int_max, to_int}
use low_latency_experiments.Common.Threads.{assign}
use low_latency_experiments.Network.System.{Text, History, Os}
use low_latency_experiments.Network.Message.{quit}
use low_latency_experiments.Network.Socket.Options.{Constants}
use low_latency_experiments.Network.Socket.{
  Socket, close, is_connection_lost, is_positive, is_zero, init as new_socket,
}
use low_latency_experiments.Network.Connection.{send, receive, connector_connect}
use low_latency_experiments.Network.Reactor.Program.{ip_address, port}

-- Where a thread stands in `clientThread`. `text` is `message.str()`, and `read` is `res`.
pub data Pc : Type 0 where
  connecting : Pc  -- in the first loop of attempts
  starting : Pc  -- before `i < messageIteration`
  locking : Pc  -- before `messageCounterMutex.lock()`
  counting : Pc  -- before `messageCounter++`
  sending : (text : Text) → Pc
  unlocking : (text : Text) → Pc
  receiving : (text : Text) → Pc
  received : (text : Text) (read : ℤ) (error : ℤ) → Pc  -- before `res > 0`
  reconnecting : (text : Text) (read : ℤ) → Pc  -- in the second loop of attempts
  done : Pc

-- A thread: the socket of its connector, and how many of its messages are still to be started.
pub record Client : Type 0 where
  pub pc : Pc
  pub socket : Socket
  pub rounds : ℕ

-- `losses` counts the increments of `numberDisconnections`.
pub record System : Type 0 where
  pub message_counter : ℕ
  pub owner : Option ℕ
  pub losses : ℕ
  pub clients : ℕ → Client
  pub history : History

-- `numberDisconnections`, an atomic int, which wraps around.
abbrev pub number_disconnections : System → ℤ
number_disconnections s = to_int (pos s.losses)

-- "message"
abbrev pub message : Text
message = b'm' ∷ b'e' ∷ b's' ∷ b's' ∷ b'a' ∷ b'g' ∷ b'e' ∷ []

-- `buffer[33]`, of which `receive` is given 32 bytes.
abbrev pub buffer_room : ℕ
buffer_room = 32

-- What the loop `while (res != 0)` does next.
abbrev pub wait_again : Text → ℤ → Pc
wait_again text read = if is_zero read then Pc.starting else Pc.receiving text

abbrev pub move : System → ℕ → Client → Pc → System
move s i cl pc = record s { clients = assign s.clients i (record cl { pc = pc }) }

-- `shown` is what `operator<<` prints for an int.
module _ (os : Os) (c : Constants) (shown : ℕ → Text) where
  -- One attempt to connect, with what the thread does when it succeeds.
  unfoldable pub attempt : System → ℕ → Client → (failed succeeded : Pc) → System
  attempt s i cl failed succeeded =
      let ((success, socket), h) = connector_connect os c cl.socket ip_address port s.history in
      record s {
        clients =
            assign s.clients i
              (record cl { pc = if success then succeeded else failed; socket = socket });
        history = h;
      }

  -- The head of the loop over the messages, and the end of the thread, which destroys the connector and
  -- closes its socket.
  unfoldable pub start_round : System → ℕ → Client → ℕ → System
  start_round s i cl zero =
      let (closed, h) = close os c cl.socket (send os c cl.socket quit (pos 0) s.history).1 in
      record s {
        clients = assign s.clients i (record cl { pc = Pc.done; socket = closed });
        history = h;
      }
  start_round s i cl (suc rounds) = record s {
    clients = assign s.clients i (record cl { pc = Pc.locking; rounds = rounds });
  }

  -- `messageCounter++`, where an overflow is undefined.
  unfoldable pub count : System → ℕ → Client → Option System
  count s i cl =
      if s.message_counter == int_max
      then none
      else some (record s {
        message_counter = suc s.message_counter;
        clients =
            assign s.clients i
              (record cl { pc = Pc.sending (message ++ shown (suc s.message_counter)) });
      })

  -- The connection is lost, or the error is passed over. The old connector is destroyed.
  unfoldable pub after_error : System → ℕ → Client → Text → ℤ → Bool × Socket → System
  after_error s i cl text read (false, socket) = record s {
    clients = assign s.clients i (record cl { pc = wait_again text read; socket = socket });
  }
  after_error s i cl text read (true, socket) =
      let (closed, h) = close os c socket s.history in
      let (destroyed, h') = close os c closed h in
      record s {
        losses = suc s.losses;
        clients =
            assign s.clients i (record cl { pc = Pc.reconnecting text read; socket = new_socket });
        history = h';
      }

  -- `if (res > 0)`; `buffer[res] = '\0'` is out of bounds past 32.
  unfoldable pub handle : System → ℕ → Client → Text → ℤ → ℤ → Option System
  handle s i cl text read error =
      if is_positive read
      then (if leb (pos_part read) buffer_room then some (move s i cl Pc.starting) else none)
      else some (after_error s i cl text read (is_connection_lost cl.socket error))

  -- An attempt to connect again; the message is sent again when it succeeds.
  unfoldable pub attempt_again : System → ℕ → Client → Text → ℤ → System
  attempt_again s i cl text read =
      let ((success, socket), h) = connector_connect os c cl.socket ip_address port s.history in
      if success
      then record s {
        clients = assign s.clients i (record cl { pc = wait_again text read; socket = socket });
        history = (send os c socket text (pos 0) h).1;
      }
      else record s {
        clients =
            assign s.clients i (record cl { pc = Pc.reconnecting text read; socket = socket });
        history = h;
      }

  -- The thread takes the mutex, or waits.
  unfoldable pub lock : Option ℕ → System → ℕ → Client → System
  lock none s i cl = record (move s i cl Pc.counting) { owner = some i }
  lock (some j) s i cl = s

  unfoldable pub step_client : Pc → System → ℕ → Client → Option System
  step_client Pc.connecting s i cl = some (attempt s i cl Pc.connecting Pc.starting)
  step_client Pc.starting s i cl = some (start_round s i cl cl.rounds)
  step_client Pc.locking s i cl = some (lock s.owner s i cl)
  step_client Pc.counting s i cl = count s i cl
  step_client (Pc.sending text) s i cl = some (record (move s i cl (Pc.unlocking text)) {
    history = (send os c cl.socket text (pos 0) s.history).1;
  })
  step_client (Pc.unlocking text) s i cl =
      some (record (move s i cl (Pc.receiving text)) { owner = none })
  step_client (Pc.receiving text) s i cl =
      let ((read, stored), h) = receive os c cl.socket buffer_room (pos 0) s.history in
      some (record (move s i cl (Pc.received text read (os.errno h))) { history = h })
  step_client (Pc.received text read error) s i cl = handle s i cl text read error
  step_client (Pc.reconnecting text read) s i cl = some (attempt_again s i cl text read)
  step_client Pc.done s i cl = some s

  -- One step of the thread that the scheduler picks among the first `n`.
  unfoldable pub step : ℕ → ℕ → System → Option System
  step n i s = if ltb i n then step_client (s.clients i).pc s i (s.clients i) else some s

  unfoldable pub run : ℕ → List ℕ → System → Option System
  run n [] s = some s
  run n (i ∷ is) s = do s' ← step n i s; run n is s'

-- `main`, when it has created its threads, each of which sends `message_iteration` messages.
abbrev pub start : (message_iteration : ℕ) → History → System
start message_iteration h = record {
  message_counter = 0;
  owner = none;
  losses = 0;
  clients = λ i. record { pc = Pc.connecting; socket = new_socket; rounds = message_iteration };
  history = h;
}

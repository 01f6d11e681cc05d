-- ===== src/Network/Socket.antt =====
-- `Socket` of epoll_vs_multithreaded_io/network/socket.h and socket.cpp, on Linux.
pub mod Options
pub mod Closing
pub mod Connecting
use low_latency_experiments.Common.{
  ℕ, List, [], ◌∷◌, Bool, true, false, Option, none, some, ◌&&◌, not, leb, if◌then◌else◌,
}
use low_latency_experiments.Common.Int.{ℤ, pos, negsuc}
use low_latency_experiments.Network.System.{
  Text, SockAddr, SocketType, tcp, udp, Call, Os, M, ◌>>=◌, ◌>>◌, pure, call,
}
use Options.{SocketOption, Constants, option_value}

-- `SOCKET_STATE`
pub data SocketState : Type 0 where
  disconnected bound connected listening accepted : SocketState

-- `Socket`; a member with no value yet is `none`.
pub record Socket : Type 0 where
  pub descriptor : ℤ
  pub state : SocketState
  pub port : ℤ
  pub pending_connections : ℤ
  pub socket_type : Option SocketType
  pub address : Text
  pub socket_address : Option SockAddr

-- The constructor.
abbrev pub init : Socket
init = record {
  descriptor = pos 0;
  state = disconnected;
  port = pos 0;
  pending_connections = pos 0;
  socket_type = none;
  address = [];
  socket_address = none;
}

abbrev pub is_positive : ℤ → Bool
is_positive (pos n) = leb 1 n
is_positive (negsuc n) = false

abbrev pub is_zero : ℤ → Bool
is_zero (pos n) = leb n 0
is_zero (negsuc n) = false

abbrev pub is_negative : ℤ → Bool
is_negative (pos n) = false
is_negative (negsuc n) = true

abbrev pub is_disconnected : SocketState → Bool
is_disconnected disconnected = true
is_disconnected _ = false

-- `SOCKET_STATE::LISTENING` or `ACCEPTED`.
abbrev pub is_accepting : SocketState → Bool
is_accepting listening = true
is_accepting accepted = true
is_accepting _ = false

-- `isConnectionLost`: the codes 100 to 104. The second parameter is not used.
unfoldable pub is_connection_lost : Socket → ℤ → Bool × Socket
is_connection_lost s error_code =
    let ret = in_range error_code in (ret, if ret then record s { state = disconnected } else s)
  where
    in_range : ℤ → Bool
    in_range (pos n) = leb 100 n && leb n 104
    in_range (negsuc n) = false

module _ (os : Os) (c : Constants) where
  -- `close`, which the destructor calls too.
  unfoldable pub close : Socket → M Socket
  close s = if is_disconnected s.state then pure s else (do
    elim (is_positive s.descriptor) [
      | true ↦ call os (Call.close s.descriptor)
      | false ↦ pure (pos 0)
    ]
    pure (record s { state = disconnected }))

  -- `setSocketOption`; an option whose value is 0 is not known to the system.
  unfoldable pub set_socket_option : Socket → SocketOption → ℤ → M (Unit {0})
  set_socket_option s option value =
      let actual = option_value c option in
      if leb actual 0
      then pure tt
      else (do call os (Call.setsockopt s.descriptor actual value); pure tt)

  -- `getSocketOption`
  unfoldable pub get_socket_option : Socket → SocketOption → M ℤ
  get_socket_option s option = call os (Call.getsockopt s.descriptor (option_value c option))

  -- `create`
  unfoldable pub create : Socket → SocketType → M (Bool × Socket)
  unfolding set_socket_option
  create s type = do
    fd ← call os (Call.socket type)
    let s' = record s { descriptor = fd }
    if is_negative fd then pure (false, s') else (do
      set_socket_option s' SocketOption.tcp_disable_nagle (pos 1)
      pure (true, record s' { socket_type = some type }))

  -- `listen`
  unfoldable pub listen : Socket → M (Bool × Socket)
  listen s = do
    result ← call os (Call.listen s.descriptor s.pending_connections)
    pure (if is_zero result then (true, record s { state = listening }) else (false, s))

  -- `setSocketAddress`: an address that is not resolved stays 0, as the `memset` left it, and
  -- `INADDR_ANY` is 0.
  unfoldable pub socket_address : Text → ℤ → SockAddr
  socket_address address port = record { port = os.htons port; host = host address }
    where
      or_zero : Option ℕ → ℕ
      or_zero none = 0
      or_zero (some a) = a

      resolve : Text → Option ℕ → ℕ
      resolve t (some a) = a
      resolve t none = or_zero (os.inet_pton t)

      host : Text → ℕ
      host [] = 0
      host (b ∷ bs) = resolve (b ∷ bs) (os.getaddrinfo (b ∷ bs))

  -- `initialise(address, port)`
  abbrev pub initialise : Socket → Text → ℤ → Socket
  initialise s address port = record s {
    port = port;
    address = address;
    socket_address = some (socket_address address port);
  }

  -- `bind`
  unfoldable pub bind : Socket → Text → ℤ → M (Bool × Socket)
  bind s address port = do
    let s' = initialise s address port
    result ← call os (Call.bind s'.descriptor (socket_address address port))
    pure (if is_zero result then (true, record s' { state = bound }) else (false, s'))

  -- `connect(address, port)`
  unfoldable pub connect : Socket → Text → ℤ → M (Bool × Socket)
  connect s address port = do
    let s' = initialise s address port
    result ← call os (Call.connect s'.descriptor (socket_address address port))
    pure (if is_zero result then (true, record s' { state = connected }) else (false, s'))

  -- `setBlockingMode`
  unfoldable pub set_blocking_mode : Socket → Bool → M (Unit {0})
  set_blocking_mode s blocking = do
    arg ← call os (Call.getfl s.descriptor)
    call os (Call.setfl s.descriptor arg (not blocking))
    pure tt

  -- `select`. The descriptor is one below FD_SETSIZE: `FD_SET` of any other is undefined.
  unfoldable pub select : Socket → Bool → Bool → ℤ → M Bool
  select s read write timeout = do
    result ← call os (Call.select s.descriptor read write timeout)
    pure (is_positive result)

  -- `connect(address, port, timeout)`
  unfoldable pub connect_within : Socket → Text → ℤ → ℤ → M (Bool × Socket)
  unfolding set_blocking_mode connect select
  connect_within s address port timeout = do
    set_blocking_mode s false
    (success, s') ← connect s address port
    success' ← (if success then pure true else select s' true true timeout)
    set_blocking_mode s' true
    pure (success', s')

  -- `initialise(socketDescriptor, socketAddress)` on a new socket, as `accept` calls it.
  abbrev pub new_peer : ℤ → SockAddr → Socket
  new_peer fd addr = record init {
    descriptor = fd;
    address = os.inet_ntop addr.host;
    port = os.ntohs addr.port;
    state = connected;
  }

  -- `accept`; `none` is the null pointer.
  unfoldable pub accept : Socket → ℤ → M (Option Socket × Socket)
  unfolding set_blocking_mode select
  accept s timeout =
      if is_accepting s.state
      then (do
        set_blocking_mode s false
        success ← select s true false timeout
        (fd, addr) ← (if success then take_peer else pure (negsuc 0, nobody))
        set_blocking_mode s true
        pure (
            if is_negative fd
            then (none, s)
            else (some (new_peer fd addr), record s { state = accepted })))
      else pure (none, s)
    where
      nobody : SockAddr
      nobody = record { port = 0; host = 0 }

      take_peer : M (ℤ × SockAddr)
      take_peer h =
          ((os.answer h (Call.accept s.descriptor), os.peer h), Call.accept s.descriptor ∷ h)

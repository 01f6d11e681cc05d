-- ===== src/Network/Connection.antt =====
-- `TCPConnection` and `TCPConnector` of epoll_vs_multithreaded_io/network/tcp_connection.cpp and
-- tcp_connector.cpp.
pub mod Attempts
use low_latency_experiments.Common.{ℕ, zero, suc, ◌∷◌, Bool, true, false, if◌then◌else◌, []}
use low_latency_experiments.Common.Int.{ℤ, pos}
use low_latency_experiments.Network.System.{
  Text, tcp, Call, History, Os, M, ◌>>=◌, ◌>>◌, pure, call,
}
use low_latency_experiments.Network.Socket.Options.{Constants}
use low_latency_experiments.Network.Socket.{
  Socket, is_positive, create, connect, connect_within, select,
}

module _ (os : Os) (c : Constants) where
  -- `TCPConnection::create`
  unfoldable pub create_tcp : Socket → M (Bool × Socket)
  create_tcp s = create os c s tcp

  -- `TCPConnection::send`
  unfoldable pub send : Socket → Text → ℤ → M ℤ
  unfolding select
  send s buffer timeout = do
    ready ← (if is_positive timeout then select os c s false true timeout else pure true)
    if ready then call os (Call.send s.descriptor buffer) else pure (pos 0)

  abbrev recv_into : Socket → ℕ → M (ℤ × Text)
  recv_into s len h =
      ((os.answer h (Call.recv s.descriptor len), os.incoming h), Call.recv s.descriptor len ∷ h)

  -- `TCPConnection::receive`: its result, and what it puts in the buffer.
  unfoldable pub receive : Socket → ℕ → ℤ → M (ℤ × Text)
  unfolding select
  receive s len timeout = do
    ready ← (if is_positive timeout then select os c s true false timeout else pure true)
    if ready then recv_into s len else pure (pos 0, [])

  -- `TCPConnector::connect`, on the connector's socket; the flag is whether the result is not null.
  -- The result of `create` is not looked at.
  unfoldable pub connector_connect : Socket → Text → ℤ → M (Bool × Socket)
  unfolding create_tcp create connect
  connector_connect s server port = do (made, s') ← create_tcp s; connect os c s' server port

  -- The overload with a time limit.
  unfoldable pub connector_connect_within : Socket → Text → ℤ → ℤ → M (Bool × Socket)
  unfolding create_tcp create connect_within
  connector_connect_within s server port timeout = do
    (made, s') ← create_tcp s
    connect_within os c s' server port timeout

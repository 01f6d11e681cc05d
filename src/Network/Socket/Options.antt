-- ===== src/Network/Socket/Options.antt =====
-- The options of `Socket` and their numbers, `getSocketOptionValue` of
-- epoll_vs_multithreaded_io/network/socket.cpp.
use low_latency_experiments.Common.{ℕ}

-- `SOCKET_OPTION`
pub data SocketOption : Type 0 where
  get_error_and_clear reuse_address reuse_port exclusive_address : SocketOption
  receive_buffer_size receive_buffer_timeout send_buffer_size send_buffer_timeout : SocketOption
  tcp_enable_cork tcp_enable_quickack tcp_disable_nagle polling_interval socket_priority :
      SocketOption

-- The numbers that the system's headers define; one that they do not define is 0.
pub record Constants : Type 0 where
  pub so_error : ℕ
  pub so_reuseaddr : ℕ
  pub so_reuseport : ℕ
  pub so_rcvbuf : ℕ
  pub so_rcvtimeo : ℕ
  pub so_sndbuf : ℕ
  pub so_sndtimeo : ℕ
  pub tcp_nodelay : ℕ
  pub tcp_quickack : ℕ
  pub tcp_cork : ℕ
  pub so_priority : ℕ
  pub so_busy_poll : ℕ

-- `getSocketOptionValue`; the `default` of its `switch` is not reached.
unfoldable pub option_value : Constants → SocketOption → ℕ
option_value c get_error_and_clear = c.so_error
option_value c reuse_address = c.so_reuseaddr
option_value c exclusive_address = c.so_reuseaddr
option_value c reuse_port = c.so_reuseport
option_value c receive_buffer_size = c.so_rcvbuf
option_value c receive_buffer_timeout = c.so_rcvtimeo
option_value c send_buffer_size = c.so_sndbuf
option_value c send_buffer_timeout = c.so_sndtimeo
option_value c tcp_disable_nagle = c.tcp_nodelay
option_value c tcp_enable_quickack = c.tcp_quickack
option_value c tcp_enable_cork = c.tcp_cork
option_value c socket_priority = c.so_priority
option_value c polling_interval = c.so_busy_poll

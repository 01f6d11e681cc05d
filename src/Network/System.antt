-- ===== src/Network/System.antt =====
-- The system calls that epoll_vs_multithreaded_io/network makes. The operating system is a parameter:
-- what a call answers may depend on all the calls before it. The calls made are kept, newest first.
use low_latency_experiments.Common.{ℕ, List, ◌∷◌, Bool, Option}
use low_latency_experiments.Common.Int.{ℤ}

abbrev pub Text : Type 0
Text = List ℕ

-- `struct sockaddr_in`, without its family, which is always `PF_INET`; `port` in network byte order.
pub record SockAddr : Type 0 where
  pub port : ℕ
  pub host : ℕ

pub data SocketType : Type 0 where
  tcp udp : SocketType

-- Calls with the arguments that matter. `setfl fd arg nonblock` is `fcntl(fd, F_SETFL, ...)` with
-- `arg` in which the bit `O_NONBLOCK` is set, or cleared.
pub data Call : Type 0 where
  socket : SocketType → Call
  close : ℤ → Call
  listen : ℤ → ℤ → Call
  bind : ℤ → SockAddr → Call
  connect : ℤ → SockAddr → Call
  accept : ℤ → Call
  select : ℤ → (read write : Bool) → (seconds : ℤ) → Call
  getsockopt : ℤ → ℕ → Call
  setsockopt : ℤ → ℕ → ℤ → Call
  getfl : ℤ → Call
  setfl : ℤ → ℤ → (nonblock : Bool) → Call
  send : ℤ → Text → Call
  recv : ℤ → ℕ → Call
  epoll_create : Call
  epoll_add : (epoll fd : ℤ) (edge : Bool) → Call
  epoll_delete : (epoll fd : ℤ) (edge : Bool) → Call
  epoll_wait : (epoll : ℤ) (room : ℕ) (milliseconds : ℤ) → Call

abbrev pub History : Type 0
History = List Call

-- The operating system and the C library. `answer h c` is what call `c` returns after the calls `h`
-- (for `getsockopt` the value that it stores); `peer h` is the address that `accept` stores,
-- `incoming h` the bytes that `recv` stores, and `errno h` the error number of the thread.
-- `getaddrinfo` and `inet_pton` give an address, or fail; `inet_ntop` gives a text.
pub record Os : Type 0 where
  pub answer : History → Call → ℤ
  pub peer : History → SockAddr
  pub incoming : History → Text
  pub errno : History → ℤ
  pub getaddrinfo : Text → Option ℕ
  pub inet_pton : Text → Option ℕ
  pub inet_ntop : ℕ → Text
  pub htons : ℤ → ℕ
  pub ntohs : ℕ → ℤ

-- A piece of code that makes calls.
abbrev pub M : Type 0 → Type 0
M A = History → A × History

infixl 5 ◌>>=◌ ◌>>◌
abbrev pub ◌>>=◌ : {A B : Type 0} → M A → (A → M B) → M B
◌>>=◌ m f h = let (a, h') = m h in f a h'

abbrev pub ◌>>◌ : {A B : Type 0} → M A → M B → M B
m >> n = m >>= λ _. n

abbrev pub pure : {A : Type 0} → A → M A
pure a h = (a, h)

abbrev pub call : Os → Call → M ℤ
call os c h = (os.answer h c, c ∷ h)

-- ===== src/Network/Listener.antt =====
-- `IOListenerEpoll` of epoll_vs_multithreaded_io/network/io_listener_epoll.h and
-- io_listener_epoll.cpp.
pub mod Behaviour
use low_latency_experiments.Common.{
  ℕ, suc, ◌+◌, ◌/◌, ◌∷◌, Bool, true, false, Option, none, some, ◌||◌, not, leb, if◌then◌else◌,
}
use low_latency_experiments.Common.Int.{ℤ, pos, negsuc, sub_ℕ, to_int}
use low_latency_experiments.Network.System.{Call, History, Os, M, ◌>>=◌, ◌>>◌, pure, call}

-- `EPOLL_MODE`
pub data EpollMode : Type 0 where
  level_triggered edge_triggered : EpollMode

-- What is read of a `struct epoll_event`: three bits of its mask, and its descriptor.
pub record Event : Type 0 where
  pub readable : Bool  -- EPOLLIN
  pub error : Bool  -- EPOLLERR
  pub hang_up : Bool  -- EPOLLHUP
  pub fd : ℤ

-- `events` is the length of the array `m_epollEvents`, or `none` where that is null.
pub record Listener : Type 0 where
  pub mode : EpollMode
  pub descriptor : ℤ
  pub events : Option ℕ
  pub timeout : ℤ
  pub max_events : ℕ

-- The constructor.
abbrev pub init : Listener
init = record {
  mode = level_triggered;
  descriptor = negsuc 0;
  events = none;
  timeout = pos 0;
  max_events = 64;
}

-- Division of a `long` by a positive one, towards 0.
abbrev pub divide : ℤ → ℕ → ℤ
divide (pos n) d = pos (n / d)
divide (negsuc n) d = sub_ℕ 0 (suc n / d)

abbrev pub is_edge : EpollMode → Bool
is_edge edge_triggered = true
is_edge level_triggered = false

-- `setTimeout`; the quotient is stored in an `int`.
unfoldable pub set_timeout : Listener → ℤ → Listener
set_timeout l micro_seconds = record l { timeout = to_int (divide micro_seconds 1000) }

-- `setMaxPollEvents`
unfoldable pub set_max_poll_events : Listener → ℕ → Listener
set_max_poll_events l n = record l { max_events = n }

-- `setEpollMode`
unfoldable pub set_epoll_mode : Listener → EpollMode → Listener
set_epoll_mode l m = record l { mode = m }

-- `stop`, which the destructor calls too. The epoll descriptor stays open.
unfoldable pub stop : Listener → Listener
stop l = elim l.events [ none ↦ l | some n ↦ record l { events = none } ]

-- `isValidEvent`
unfoldable pub is_valid_event : Event → Bool
is_valid_event e = if e.error || e.hang_up || not e.readable then false else true

module _ (os : Os) where
  -- `start`
  unfoldable pub start : Listener → M Listener
  start l = do
    fd ← call os Call.epoll_create
    pure (record l { descriptor = fd; events = some l.max_events })

  -- `addFileDescriptor`
  unfoldable pub add_file_descriptor : Listener → ℤ → M (Unit {0})
  add_file_descriptor l fd = do call os (Call.epoll_add l.descriptor fd (is_edge l.mode)); pure tt

  -- `removeFileDescriptor`
  unfoldable pub remove_file_descriptor : Listener → ℤ → M (Unit {0})
  remove_file_descriptor l fd = do
    call os (Call.epoll_delete l.descriptor fd (is_edge l.mode))
    pure tt

  -- `getNumberOfReadyFileDescriptors`: the system may store `max_events` events.
  unfoldable pub number_of_ready : Listener → M ℤ
  number_of_ready l = call os (Call.epoll_wait l.descriptor l.max_events l.timeout)

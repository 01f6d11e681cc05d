-- ===== src/Network/Socket/Closing.antt =====
-- When `Socket::close` closes its descriptor.
use low_latency_experiments.Common.{ℕ, suc, ◌≤◌, ◌≡◌, ◌≢◌, ◌∷◌, true, arith}
use low_latency_experiments.Common.Int.{pos}
use low_latency_experiments.Network.System.{Call, History, Os}
use low_latency_experiments.Network.Socket.Options.{Constants}
use low_latency_experiments.Network.Socket.{Socket, disconnected, is_connection_lost, close}

module _ (os : Os) (c : Constants) where
  -- After `close` the socket is disconnected, and closing it again, as the destructor does, makes no
  -- call: a descriptor is closed at most once.
  pub close-close :
      (s : Socket) (h : History)
      → let (s', h') = close os c s h in (s'.state ≡ disconnected) × (close os c s' h' ≡ (s', h'))
  unfolding close
  close-close s h = ground arith

  pub close_disconnected :
      (s : Socket) (h : History) → s.state ≡ disconnected → close os c s h ≡ (s, h)
  unfolding close
  close_disconnected s h e = rw e

  -- Unless the socket counts as disconnected, `close` closes a positive descriptor.
  pub close_lem :
      (s : Socket) (h : History) (k : ℕ)
      → s.descriptor ≡ pos (suc k)
      → s.state ≢ disconnected
      → close os c s h ≡ (record s { state = disconnected }, Call.close (pos (suc k)) ∷ h)
  unfolding close
  close_lem s h k e ne = ground arith

  -- A socket on which an error with a code from 100 to 104 was seen counts as lost and disconnected,
  -- and no later `close`, by hand or by the destructor, closes its descriptor.
  pub lost_stays_open :
      (s : Socket) (code : ℕ) (h : History)
      → 100 ≤ code
      → code ≤ 104
      → let (lost, s') = is_connection_lost s (pos code) in
        (lost ≡ true) × (s'.state ≡ disconnected) × (close os c s' h ≡ (s', h))
  unfolding is_connection_lost close
  lost_stays_open s code h l r = ground arith

-- ===== src/Network/Listener/Behaviour.antt =====
-- What the listener's calls do.
use low_latency_experiments.Common.{
  ℕ, suc, ◌≤◌, ◌<◌, ◌*◌, ◌≡◌, ◌↔◌, refl, ◌∷◌, true, false, some, arith,
}
use low_latency_experiments.Common.Int.{pos, negsuc, int_max}
use low_latency_experiments.Network.System.{Call, History, Os}
use low_latency_experiments.Network.Listener.{
  Event, Listener, set_timeout, set_max_poll_events, is_valid_event, start, number_of_ready,
}

-- An event is handled exactly when it is readable and shows neither an error nor a hang-up.
pub valid_event_iff :
    (e : Event)
    → (is_valid_event e ≡ true) ↔ ((e.readable ≡ true) × (e.error ≡ false) × (e.hang_up ≡ false))
unfolding is_valid_event
valid_event_iff e = (λ h. ground arith, λ h. ground arith)

-- A time limit of `n` microseconds with `1000 * k ≤ n < 1000 * (k + 1)` is stored as `k` milliseconds,
-- for `k` in the range of an `int`.
pub set_timeout_rounds :
    (l : Listener) (n k : ℕ)
    → k ≤ int_max
    → 1000 * k ≤ n
    → n < 1000 * suc k
    → (set_timeout l (pos n)).timeout ≡ pos k
unfolding set_timeout
set_timeout_rounds l n k small lo hi = ground arith

-- A negative time limit of less than a millisecond, such as -1, becomes 0, with which `epoll_wait`
-- does not wait at all.
pub set_timeout_negative :
    (l : Listener) (n : ℕ) → suc n < 1000 → (set_timeout l (negsuc n)).timeout ≡ pos 0
unfolding set_timeout
set_timeout_negative l n h = ground arith

-- The array has room for all events that `epoll_wait` may store, if the limit was set before `start`:
-- `start` makes an array of that length, and `epoll_wait` is given the same number.
pub start_room :
    (os : Os) (l : Listener) (n : ℕ) (h : History)
    → let (l', h') = start os (set_max_poll_events l n) h in
      (l'.events ≡ some n)
      × ((number_of_ready os l' h').1 ≡ Call.epoll_wait l'.descriptor n l'.timeout ∷ h')
unfolding start set_max_poll_events number_of_ready
start_room os l n h = (refl, refl)

-- ===== src/Ring/Counter.antt =====
-- lockless_spsc_sequantial_vs_acquirerelease/lockless_ring_buffer_spsc_acquire_release/
-- fine_grained_lockless_ring_buffer_spsc.cpp, and its sequentially consistent twin
-- ../lockless_ring_buffer_spsc_sequential/lockless_ring_buffer_spsc.cpp: a ring whose two counters
-- only grow, so that every cell can be used. The functions run alone here; `Counter/Threads` runs
-- the two threads an access at a time, under either memory order.
pub mod Order
pub mod Calls
pub mod Bounded
pub mod Threads
pub mod Invariant
pub mod Frames
pub mod Pushing
pub mod Popping
pub mod Runs
pub mod Safety
pub mod Weights
pub mod Waiting
pub mod Finishing
use low_latency_experiments.Common.{
  ℕ, ◌+◌, ◌-◌, ◌%◌, List, Bool, true, false, Option, none, some, ◌>>=◌, leb, ◌==◌, if◌then◌else◌,
}
use low_latency_experiments.Common.Int.{int_max, succ_below}
use low_latency_experiments.Ring.Window.{Value, window}
use low_latency_experiments.Ring.Memory.{ring_buffer_size, store, load}

-- `lockless_ring_buffer_spsc`. The counters start at 0 and come from `increment`, so they are never
-- negative.
pub record Ring : Type 0 where
  pub write : ℕ
  pub read : ℕ
  pub size : ℕ
  pub buffer : List Value

-- The constructor; the buffer is not initialised and holds what the memory held.
abbrev pub init : List Value → Ring
init memory = record { write = 0; read = 0; size = ring_buffer_size; buffer = memory }

-- `increment(int n)`: the parameter is an `int`, so `n + 1` is undefined at `int_max`.
unfoldable pub increment : ℕ → Option ℕ
increment n = succ_below int_max n

-- `current_tail - read.load() <= size - 1`, an order between integers.
abbrev pub has_room : ℕ → ℕ → ℕ → Bool
has_room size tail read = leb tail (read + (size - 1))

-- The flag is the result of the call.
unfoldable pub try_push : Ring → Value → Option (Bool × Ring)
try_push r val = do
  next_tail ← increment r.write
  if has_room r.size r.write r.read
      then (do
        buffer ← store r.buffer (r.write % r.size) val
        some (true, record r { buffer = buffer; write = next_tail }))
      else some (false, r)

-- `some v` for a call that returns true and puts `v` in `*pval`, `none` for one that returns false.
unfoldable pub try_pop : Ring → Option (Option Value × Ring)
try_pop r = if r.read == r.write then some (none, r) else do
  val ← load r.buffer (r.read % r.size)
  next_head ← increment r.read
  some (some val, record r { read = next_head })

abbrev pub stored : Ring → ℕ
stored r = r.write - r.read

abbrev pub contents : Ring → List Value
contents r = window r.buffer r.size r.read (stored r)

-- ===== src/Ring/Modular.antt =====
-- concurrency_spsc_ringbuffer_queue/lockless_ring_buffer_spsc/lockless_ring_buffer_spsc.cpp: a ring
-- whose two indices stay below the size, with one cell kept free. The functions run alone here;
-- `Modular/Threads` runs the two threads an access at a time.
pub mod Calls
pub mod Bounded
pub mod Threads
pub mod Invariant
pub mod Frames
pub mod Pushing
pub mod Popping
pub mod Runs
pub mod Safety
pub mod Weights
pub mod Waiting
pub mod Finishing
use low_latency_experiments.Common.{
  ℕ, ◌+◌, ◌-◌, ◌%◌, List, Bool, true, false, Option, none, some, ◌>>=◌, ◌==◌, if◌then◌else◌,
}
use low_latency_experiments.Common.Int.{int_max, succ_below}
use low_latency_experiments.Ring.Window.{Value, window}
use low_latency_experiments.Ring.Memory.{ring_buffer_size, store, load}

-- `lockless_ring_buffer_spsc`. The indices start at 0 and come from `increment`, so they are never
-- negative.
pub record Ring : Type 0 where
  pub write : ℕ
  pub read : ℕ
  pub size : ℕ
  pub buffer : List Value

-- The constructor; the buffer is not initialised and holds what the memory held.
abbrev pub init : List Value → Ring
init memory = record { write = 0; read = 0; size = ring_buffer_size; buffer = memory }

-- `increment(int n)`: the parameter is an `int`, so `n + 1` is undefined at `int_max`.
unfoldable pub increment : Ring → ℕ → Option ℕ
increment r n = do m ← succ_below int_max n; some (m % r.size)

-- The flag is the result of the call.
unfoldable pub try_push : Ring → Value → Option (Bool × Ring)
try_push r val = do
  next_tail ← increment r r.write
  if next_tail == r.read then some (false, r) else do
    buffer ← store r.buffer r.write val
    some (true, record r { buffer = buffer; write = next_tail })

-- `some v` for a call that returns true and puts `v` in `*pval`, `none` for one that returns false.
unfoldable pub try_pop : Ring → Option (Option Value × Ring)
try_pop r = if r.read == r.write then some (none, r) else do
  val ← load r.buffer r.read
  next_head ← increment r r.read
  some (some val, record r { read = next_head })

-- How many values the ring holds, and which.
abbrev pub stored : Ring → ℕ
stored r = (r.write + r.size - r.read) % r.size

abbrev pub contents : Ring → List Value
contents r = window r.buffer r.size r.read (stored r)

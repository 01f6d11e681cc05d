-- ===== src/Ring/Locked.antt =====
-- concurrency_spsc_ringbuffer_queue/locked_ring_buffer_spsc/locked_ring_buffer_spsc.cpp: a ring behind
-- one mutex. Each call holds the mutex from its first access to its last, so the calls of any number
-- of threads take effect one after another: a list of calls is one interleaving of them.
pub mod Refine
pub mod Overrun
use low_latency_experiments.Common.{
  ℕ, zero, suc, ◌+◌, ◌%◌, ◌≡◌, List, [], ◌∷◌, Option, none, some, ◌>>=◌, ltb, if◌then◌else◌,
}
use low_latency_experiments.Common.Int.{pos, int64_max, succ_below}
use low_latency_experiments.Ring.Window.{Value}
use low_latency_experiments.Ring.Memory.{ring_buffer_size, store, load}
use low_latency_experiments.Ring.Queue.{Call}

-- `lockled_ring_buffer_spsc`. The counters start at 0 and only grow, so they are never negative.
pub record Ring : Type 0 where
  pub write : ℕ
  pub read : ℕ
  pub size : ℕ
  pub buffer : List Value

-- A new ring; its buffer is not initialised and holds what the memory held.
abbrev pub init : List Value → Ring
init memory = record { write = 0; read = 0; size = ring_buffer_size; buffer = memory }

-- There is no test for a full ring.
unfoldable pub push : Ring → Value → Option Ring
push r val = do
  buffer ← store r.buffer (r.write % r.size) val
  write ← succ_below int64_max r.write
  some (record r { write = write; buffer = buffer })

-- There is no test for an empty ring. The first `size` pushes write the cells in order, so a cell has
-- been written when its index is below the number of pushes; a read of any other is undefined.
unfoldable pub pop : Ring → Option (Value × Ring)
pop r = do
  ret ← (if ltb (r.read % r.size) r.write then load r.buffer (r.read % r.size) else none)
  read ← succ_below int64_max r.read
  some (ret, record r { read = read })

-- The calls of all threads in the order in which they get the mutex; the values that the pops return.
unfoldable pub run : Ring → List Call → Option (List Value × Ring)
run r [] = some ([], r)
run r (Call.push v ∷ calls) = do r' ← push r v; run r' calls
run r (Call.pop ∷ calls) = do (v, r') ← pop r; (vs, r'') ← run r' calls; some (v ∷ vs, r'')

-- The loop of `write_thread`: `n` pushes of i, i + 1, ...
unfoldable pub write_thread : ℕ → ℕ → List Call
write_thread zero i = []
write_thread (suc n) i = Call.push (pos i) ∷ write_thread n (i + 1)

-- The loop of `read_thread`: `n` pops.
unfoldable pub read_thread : ℕ → List Call
read_thread zero = []
read_thread (suc n) = Call.pop ∷ read_thread n

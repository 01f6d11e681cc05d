-- ===== src/Ring/Memory.antt =====
-- What the four ring buffers share: `RING_BUFFER_SIZE` and the array `int64_t buffer[...]`.
use low_latency_experiments.Common.{
  ℕ, ◌<◌, ◌≡◌, List, Option, none, some, arith, length, get_elem?, get_elem?-eq-get_or, set, ltb,
  if◌then◌else◌,
}
use low_latency_experiments.Common.Int.{pos}
use low_latency_experiments.Ring.Window.{Value, cell}

-- `RING_BUFFER_SIZE`
abbrev pub ring_buffer_size : ℕ
ring_buffer_size = 1000

-- `buffer[i] = val`; outside the array the behaviour is undefined.
unfoldable pub store : List Value → ℕ → Value → Option (List Value)
store buf i v = if ltb i (length buf) then some (set buf i v) else none

-- `buffer[i]`, read; outside the array the behaviour is undefined. Whether the cell has been written
-- before is the business of the code that reads it.
unfoldable pub load : List Value → ℕ → Option Value
load buf i = get_elem? buf i

pub store-in :
    (buf : List Value) (i : ℕ) (v : Value) → i < length buf → store buf i v ≡ some (set buf i v)
unfolding store
store-in buf i v h = ground arith

pub load-in : (buf : List Value) (i : ℕ) → i < length buf → load buf i ≡ some (cell buf i)
unfolding load
load-in buf i h = get_elem?-eq-get_or buf i (pos 0) h

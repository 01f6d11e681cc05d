-- ===== src/Ring/Counter/Waiting.antt =====
-- What each access of the two threads of the ring with counters does to what they have still to do.
pub mod Pushing
pub mod Popping
use low_latency_experiments.Common.{
  ℕ, zero, suc, ◌+◌, ◌%◌, ◌≤◌, ◌<◌, ◌≡◌, ◌≢◌, ◌⊎◌, inl, inr, refl, List, [], ◌∷◌, true, false, some,
  arith, ℕ_discrete, dec_lt, Bool-cases,
}
use low_latency_experiments.Ring.Window.{Value}
use low_latency_experiments.Ring.Retry.{waits-le, waits_pos, waits_zero, waits_same}
use low_latency_experiments.Ring.Memory.{store-in, load-in}
use low_latency_experiments.Ring.Counter.{Ring, stored, has_room}
use low_latency_experiments.Ring.Counter.Order.{MemoryOrder}
use low_latency_experiments.Ring.Counter.Calls.{increment_lem, write_in, read_in}
use low_latency_experiments.Ring.Counter.Threads.{Producer, Consumer, System, produce, consume}
use low_latency_experiments.Ring.Counter.Invariant.{Inv, system}
use low_latency_experiments.Ring.Counter.Weights.{room, to_write, to_read, WriterReady, ReaderReady}

-- The pushing thread is never further ahead than the value of `read` that it saw last allows.
abbrev pub Tight : System → Type 0
Tight s = s.ring.write ≤ s.seen_read + s.ring.size

-- A load that is behind the other thread comes nearer to it.
abbrev pub CatchesUp : MemoryOrder → Type 0
CatchesUp order = (seen now choice : ℕ) → seen < now → seen < order.observe seen now choice

-- What a step of the pushing thread does to the measures.
pub record Wrote (s s' : System) : Type 0 where
  pub consumer_kept : s'.consumer ≡ s.consumer
  pub pops_kept : s'.pops ≡ s.pops
  pub tight : Tight s'
  pub more : stored s.ring ≤ stored s'.ring
  pub no_more_left : to_write s' ≤ to_write s
  pub brought_on : WriterReady (room s.ring) s.producer s.todo → to_write s' < to_write s

pub record Read (s s' : System) : Type 0 where
  pub producer_kept : s'.producer ≡ s.producer
  pub todo_kept : s'.todo ≡ s.todo
  pub tight : Tight s'
  pub more : room s.ring ≤ room s'.ring
  pub no_more_left : to_read s' ≤ to_read s
  pub brought_on : ReaderReady (stored s.ring) s.consumer s.pops → to_read s' < to_read s

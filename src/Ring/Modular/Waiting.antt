-- ===== src/Ring/Modular/Waiting.antt =====
-- What each access of the two threads of the modular ring does to what they have still to do.
pub mod Pushing
pub mod Popping
use low_latency_experiments.Common.{
  ℕ, zero, suc, ◌≤◌, ◌<◌, ◌≡◌, refl, List, [], ◌∷◌, some, arith, ℕ_discrete, ◌∙◌, sym,
}
use low_latency_experiments.Common.Int.{pos}
use low_latency_experiments.Ring.Window.{Value}
use low_latency_experiments.Ring.Retry.{waits-le, waits_pos, waits_zero, waits_same}
use low_latency_experiments.Ring.Memory.{store-in, load-in}
use low_latency_experiments.Ring.Modular.{Ring, stored}
use low_latency_experiments.Ring.Modular.Calls.{
  increment_lem, full_iff, empty_iff, stored-pushed, stored-popped, room_of_ne, stored_pos_of_ne,
}
use low_latency_experiments.Ring.Modular.Threads.{Producer, Consumer, System, produce, consume}
use low_latency_experiments.Ring.Modular.Invariant.{Inv, system}
use low_latency_experiments.Ring.Modular.Weights.{room, to_write, to_read, WriterReady, ReaderReady}

-- What a step of the pushing thread does to the measures.
pub record Wrote (s s' : System) : Type 0 where
  pub consumer_kept : s'.consumer ≡ s.consumer
  pub pops_kept : s'.pops ≡ s.pops
  pub more : stored s.ring ≤ stored s'.ring
  pub no_more_left : to_write s' ≤ to_write s
  pub brought_on : WriterReady (room s.ring) s.producer s.todo → to_write s' < to_write s

pub record Read (s s' : System) : Type 0 where
  pub producer_kept : s'.producer ≡ s.producer
  pub todo_kept : s'.todo ≡ s.todo
  pub more : room s.ring ≤ room s'.ring
  pub no_more_left : to_read s' ≤ to_read s
  pub brought_on : ReaderReady (stored s.ring) s.consumer s.pops → to_read s' < to_read s

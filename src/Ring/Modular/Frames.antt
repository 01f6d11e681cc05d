-- ===== src/Ring/Modular/Frames.antt =====
-- What one thread of the modular ring does, seen from the locals of the other.
use low_latency_experiments.Common.{◌-◌, ◌<◌, ◌∙◌, arith, sym, get_or-set_ne}
use low_latency_experiments.Ring.Window.{Value}
use low_latency_experiments.Ring.Modular.{Ring, stored}
use low_latency_experiments.Ring.Modular.Calls.{
  IsValid, empty_iff, written, advanced, popped, stored-pushed, stored-popped,
}
use low_latency_experiments.Ring.Modular.Threads.{Producer, Consumer}
use low_latency_experiments.Common.Int.{pos}
use low_latency_experiments.Ring.Modular.Invariant.{ProducerAgrees, ConsumerAgrees}

-- A write to the free cell, and the new write index, spare the thread that pops.
pub ConsumerAgrees-written :
    {r : Ring} (c : Consumer) (v : Value) (ok : IsValid r)
    → ConsumerAgrees r c
    → ConsumerAgrees (written ok v) c
ConsumerAgrees-written Consumer.between v ok h = tt
ConsumerAgrees-written Consumer.trying v ok h = tt
ConsumerAgrees-written (Consumer.testing head) v ok h = h
ConsumerAgrees-written (Consumer.loading head) v ok h = h
ConsumerAgrees-written {r} (Consumer.releasing head x) v ok h = (
  h.0,
  h.1,
  get_or-set_ne r.buffer r.write r.read v (pos 0) (λ e. omega (arith, (empty_iff ok).0 (sym e)))
      ∙ h.2,
)

pub ConsumerAgrees-advanced :
    {r : Ring} (c : Consumer) (ok : IsValid r)
    → stored r < r.size - 1
    → ConsumerAgrees r c
    → ConsumerAgrees (advanced ok) c
ConsumerAgrees-advanced Consumer.between ok room h = tt
ConsumerAgrees-advanced Consumer.trying ok room h = tt
ConsumerAgrees-advanced (Consumer.testing head) ok room h = h
ConsumerAgrees-advanced (Consumer.loading head) ok room h =
    (h.0, omega (arith, stored-pushed ok (pos 0) room))
ConsumerAgrees-advanced (Consumer.releasing head x) ok room h =
    (h.0, omega (arith, stored-pushed ok (pos 0) room), h.2)

-- The new read index spares the thread that pushes.
pub ProducerAgrees-popped :
    {r : Ring} (p : Producer) (ok : IsValid r)
    → 0 < stored r
    → ProducerAgrees r p
    → ProducerAgrees (popped ok) p
ProducerAgrees-popped Producer.between ok more h = tt
ProducerAgrees-popped (Producer.trying v) ok more h = tt
ProducerAgrees-popped (Producer.testing v tail next) ok more h = h
ProducerAgrees-popped (Producer.storing v tail next) ok more h =
    (h.0, h.1, omega (arith, stored-popped ok more))
ProducerAgrees-popped (Producer.publishing v next) ok more h =
    (h.0, omega (arith, stored-popped ok more), h.2)

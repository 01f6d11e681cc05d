-- ===== src/Ring/Counter/Frames.antt =====
-- What one thread of the ring with counters does, seen from the locals of the other.
use low_latency_experiments.Common.{ℕ, ◌+◌, ◌%◌, ◌≤◌, ◌<◌, ◌≡◌, ◌≢◌, ◌∙◌, arith, get_or-set_ne}
use low_latency_experiments.Common.Int.{pos}
use low_latency_experiments.Ring.Window.{Value, add-mod-ne}
use low_latency_experiments.Ring.Counter.{Ring, stored}
use low_latency_experiments.Ring.Counter.Calls.{IsValid, written, advanced, popped}
use low_latency_experiments.Ring.Counter.Threads.{Producer, Consumer}
use low_latency_experiments.Ring.Counter.Invariant.{ProducerAgrees, ConsumerAgrees}

-- A write to the free cell spares the thread that pops.
pub ConsumerAgrees-written :
    {r : Ring} {seen : ℕ} (c : Consumer) (v : Value) (ok : IsValid r)
    → stored r < r.size
    → seen ≤ r.write
    → ConsumerAgrees r seen c
    → ConsumerAgrees (written ok v) seen c
ConsumerAgrees-written Consumer.between v ok room le h = tt
ConsumerAgrees-written Consumer.trying v ok room le h = tt
ConsumerAgrees-written (Consumer.testing head) v ok room le h = h
ConsumerAgrees-written (Consumer.loading head) v ok room le h = h
ConsumerAgrees-written {r} (Consumer.releasing head x) v ok room le h =
    (h.0, h.1, get_or-set_ne r.buffer (r.write % r.size) (r.read % r.size) v (pos 0) apart ∙ h.2)
  where
    split : r.write ≡ r.read + stored r
    split = omega arith

    apart : r.write % r.size ≢ r.read % r.size
    apart = rw split (add-mod-ne r.size r.read (stored r) (omega arith) room)

pub ConsumerAgrees-advanced :
    {r : Ring} (seen : ℕ) (c : Consumer) (ok : IsValid r)
    → ConsumerAgrees r seen c
    → ConsumerAgrees (advanced ok) seen c
ConsumerAgrees-advanced seen Consumer.between ok h = tt
ConsumerAgrees-advanced seen Consumer.trying ok h = tt
ConsumerAgrees-advanced seen (Consumer.testing head) ok h = h
ConsumerAgrees-advanced seen (Consumer.loading head) ok h = h
ConsumerAgrees-advanced seen (Consumer.releasing head x) ok h = h

-- The new read counter spares the thread that pushes.
pub ProducerAgrees-popped :
    {r : Ring} (seen : ℕ) (p : Producer) (ok : IsValid r)
    → ProducerAgrees r seen p
    → ProducerAgrees (popped ok) seen p
ProducerAgrees-popped seen Producer.between ok h = tt
ProducerAgrees-popped seen (Producer.trying v) ok h = tt
ProducerAgrees-popped seen (Producer.testing v tail next) ok h = h
ProducerAgrees-popped seen (Producer.storing v tail next) ok h = h
ProducerAgrees-popped seen (Producer.publishing v next) ok h = h

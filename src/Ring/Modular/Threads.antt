-- ===== src/Ring/Modular/Threads.antt =====
-- The two threads of concurrency_spsc_ringbuffer_queue/lockless_ring_buffer_spsc/
-- lockless_ring_buffer_spsc.cpp, one access to the shared ring at a time. The loads and stores of
-- `write` and `read` name no memory order, so they are sequentially consistent and a step is one of
-- them, or one access to the buffer.
use low_latency_experiments.Common.{
  ℕ, zero, suc, List, [], ◌∷◌, ◌++◌, Option, some, ◌>>=◌, ◌==◌, if◌then◌else◌,
}
use low_latency_experiments.Ring.Window.{Value}
use low_latency_experiments.Ring.Memory.{store, load}
use low_latency_experiments.Ring.Modular.{Ring, init, increment}

-- Where the thread that pushes stands, with the locals of `push` and `try_push`.
pub data Producer : Type 0 where
  between : Producer  -- between two calls of `push`
  trying : (val : Value) → Producer  -- at the start of `try_push`
  testing : (val : Value) (current_tail next_tail : ℕ) → Producer  -- before `read.load()`
  storing : (val : Value) (current_tail next_tail : ℕ) → Producer  -- before the write to the buffer
  publishing : (val : Value) (next_tail : ℕ) → Producer  -- before `write.store`

-- Where the thread that pops stands.
pub data Consumer : Type 0 where
  between : Consumer  -- between two calls of `pop`
  trying : Consumer  -- at the start of `try_pop`
  testing : (current_head : ℕ) → Consumer  -- before `write.load()`
  loading : (current_head : ℕ) → Consumer  -- before the read of the buffer
  releasing : (current_head : ℕ) (val : Value) → Consumer  -- before `read.store`

-- The ring and both threads: the values still to be pushed, the pops still to be made, and the values
-- that the pops have returned.
pub record System : Type 0 where
  pub ring : Ring
  pub producer : Producer
  pub todo : List Value
  pub consumer : Consumer
  pub pops : ℕ
  pub got : List Value

-- One step of the loop `for (...) queue.push(i)`, `push` being `while (!try_push(val));`.
unfoldable pub produce : Producer → List Value → System → Option System
produce Producer.between [] s = some s
produce Producer.between (v ∷ vs) s = some (record s { producer = Producer.trying v; todo = vs })
produce (Producer.trying v) vs s = do
  next_tail ← increment s.ring s.ring.write
  some (record s { producer = Producer.testing v s.ring.write next_tail })
produce (Producer.testing v tail next) vs s = some (record s {
  producer = if next == s.ring.read then Producer.trying v else Producer.storing v tail next;
})
produce (Producer.storing v tail next) vs s = do
  buffer ← store s.ring.buffer tail v
  some
      (record s { ring = record s.ring { buffer = buffer }; producer = Producer.publishing v next })
produce (Producer.publishing v next) vs s =
    some (record s { ring = record s.ring { write = next }; producer = Producer.between })

-- One step of the loop `for (...) queue.pop()`, `pop` being `while (!try_pop(&ret)); return ret;`.
unfoldable pub consume : Consumer → ℕ → System → Option System
consume Consumer.between zero s = some s
consume Consumer.between (suc n) s = some (record s { consumer = Consumer.trying; pops = n })
consume Consumer.trying n s = some (record s { consumer = Consumer.testing s.ring.read })
consume (Consumer.testing head) n s = some (record s {
  consumer = if head == s.ring.write then Consumer.trying else Consumer.loading head;
})
consume (Consumer.loading head) n s = do
  val ← load s.ring.buffer head
  some (record s { consumer = Consumer.releasing head val })
consume (Consumer.releasing head v) n s = do
  next_head ← increment s.ring head
  some (record s {
    ring = record s.ring { read = next_head };
    consumer = Consumer.between;
    got = s.got ++ v ∷ [];
  })

-- The thread that the scheduler picks.
pub data Thread : Type 0 where
  writer reader : Thread

unfoldable pub step : Thread → System → Option System
unfolding produce consume
step writer s = produce s.producer s.todo s
step reader s = consume s.consumer s.pops s

-- Any schedule of the two threads; a thread that has finished does nothing.
unfoldable pub run : List Thread → System → Option System
run [] s = some s
run (t ∷ ts) s = do s' ← step t s; run ts s'

-- `main`: one thread pushes the values, the other makes `n` pops.
abbrev pub start : List Value → List Value → ℕ → System
start memory values n = record {
  ring = init memory;
  producer = Producer.between;
  todo = values;
  consumer = Consumer.between;
  pops = n;
  got = [];
}

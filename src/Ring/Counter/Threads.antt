-- ===== src/Ring/Counter/Threads.antt =====
-- The two threads of the ring with counters, one access to the shared ring at a time. A thread's
-- load of its own counter returns the current value; its load of the other's counter returns what
-- the memory order allows. The cells of the buffer are not atomic: an access that does not come after
-- the other thread's accesses to the cell, as far as the loads have synchronised, is a data race, which
-- is undefined. So push number `tail` may write only when the pop of the value that it overwrites,
-- number `tail - size`, comes before it, and pop number `head` may read only when push number `head`
-- does.
use low_latency_experiments.Common.{
  ℕ, zero, suc, ◌%◌, List, [], ◌∷◌, ◌++◌, Option, none, some, ◌+◌, ◌>>=◌, ◌==◌, ltb, if◌then◌else◌,
}
use low_latency_experiments.Ring.Window.{Value}
use low_latency_experiments.Ring.Memory.{store, load}
use low_latency_experiments.Ring.Counter.{Ring, init, increment, has_room}
use low_latency_experiments.Ring.Counter.Order.{MemoryOrder}

-- Where the thread that pushes stands, with the locals of `push` and `try_push`.
pub data Producer : Type 0 where
  between : Producer  -- between two calls of `push`
  trying : (val : Value) → Producer  -- at the start of `try_push`
  testing : (val : Value) (current_tail next_tail : ℕ) → Producer  -- before `read.load()`
  storing : (val : Value) (current_tail next_tail : ℕ) → Producer  -- before the write to the buffer
  publishing : (val : Value) (next_tail : ℕ) → Producer  -- before `write.store`

-- Where the thread that pops stands.
pub data Consumer : Type 0 where
  between : Consumer  -- between two calls of `pop`
  trying : Consumer  -- at the start of `try_pop`
  testing : (current_head : ℕ) → Consumer  -- before `write.load()`
  loading : (current_head : ℕ) → Consumer  -- before the read of the buffer
  releasing : (current_head : ℕ) (val : Value) → Consumer  -- before `read.store`

-- The ring and both threads. `seen_read` is the value of `read` that the pushing thread saw last,
-- `seen_write` that of `write` that the popping thread saw last.
pub record System : Type 0 where
  pub ring : Ring
  pub producer : Producer
  pub todo : List Value
  pub seen_read : ℕ
  pub consumer : Consumer
  pub pops : ℕ
  pub seen_write : ℕ
  pub got : List Value

module _ (order : MemoryOrder) where
  -- One step of the loop `for (...) queue.push(i)`, `push` being `while (!try_push(val));`.
  unfoldable pub produce : Producer → List Value → ℕ → System → Option System
  produce Producer.between [] choice s = some s
  produce Producer.between (v ∷ vs) choice s =
      some (record s { producer = Producer.trying v; todo = vs })
  produce (Producer.trying v) vs choice s = do
    next_tail ← increment s.ring.write
    some (record s { producer = Producer.testing v s.ring.write next_tail })
  produce (Producer.testing v tail next) vs choice s =
      let read = order.observe s.seen_read s.ring.read choice in
      some (record s {
        producer =
            if has_room s.ring.size tail read
            then Producer.storing v tail next
            else Producer.trying v;
        seen_read = read;
      })
  produce (Producer.storing v tail next) vs choice s = do
    buffer ←
        (if ltb tail (order.synchronised s.seen_read + s.ring.size)
          then store s.ring.buffer (tail % s.ring.size) v
          else none)
    some (record s {
      ring = record s.ring { buffer = buffer };
      producer = Producer.publishing v next;
    })
  produce (Producer.publishing v next) vs choice s =
      some (record s { ring = record s.ring { write = next }; producer = Producer.between })

  -- One step of the loop `for (...) queue.pop()`, `pop` being `while (!try_pop(&ret)); return ret;`.
  unfoldable pub consume : Consumer → ℕ → ℕ → System → Option System
  consume Consumer.between zero choice s = some s
  consume Consumer.between (suc n) choice s =
      some (record s { consumer = Consumer.trying; pops = n })
  consume Consumer.trying n choice s = some (record s { consumer = Consumer.testing s.ring.read })
  consume (Consumer.testing head) n choice s =
      let write = order.observe s.seen_write s.ring.write choice in
      some (record s {
        consumer = if head == write then Consumer.trying else Consumer.loading head;
        seen_write = write;
      })
  consume (Consumer.loading head) n choice s = do
    val ←
        (if ltb head (order.synchronised s.seen_write)
          then load s.ring.buffer (head % s.ring.size)
          else none)
    some (record s { consumer = Consumer.releasing head val })
  consume (Consumer.releasing head v) n choice s = do
    next_head ← increment head
    some (record s {
      ring = record s.ring { read = next_head };
      consumer = Consumer.between;
      got = s.got ++ v ∷ [];
    })

-- The thread that the scheduler picks.
pub data Thread : Type 0 where
  writer reader : Thread

module _ (order : MemoryOrder) where
  unfoldable pub step : Thread × ℕ → System → Option System
  unfolding produce consume
  step (writer, choice) s = produce order s.producer s.todo choice s
  step (reader, choice) s = consume order s.consumer s.pops choice s

  -- Any schedule of the two threads, with the memory's choices; a thread that has finished does
  -- nothing.
  unfoldable pub run : List (Thread × ℕ) → System → Option System
  run [] s = some s
  run (t ∷ ts) s = do s' ← step t s; run ts s'

-- `main`: one thread pushes the values, the other makes `n` pops.
abbrev pub start : List Value → List Value → ℕ → System
start memory values n = record {
  ring = init memory;
  producer = Producer.between;
  todo = values;
  seen_read = 0;
  consumer = Consumer.between;
  pops = n;
  seen_write = 0;
  got = [];
}

-- ===== src/Ring/Counter/Invariant.antt =====
-- What every interleaving of the two threads keeps, under any memory order.
use low_latency_experiments.Common.{ℕ, ◌+◌, ◌%◌, ◌≤◌, ◌<◌, ◌≡◌, List, [], ◌∷◌, ◌++◌, length}
use low_latency_experiments.Common.Int.{int_max}
use low_latency_experiments.Ring.Window.{Value, cell}
use low_latency_experiments.Ring.Counter.{Ring, contents}
use low_latency_experiments.Ring.Counter.Calls.{IsValid}
use low_latency_experiments.Ring.Counter.Threads.{Producer, Consumer, System}

-- What the locals of the thread that pushes, and the value of `read` that it saw, say of the ring.
abbrev pub ProducerAgrees : Ring → ℕ → Producer → Type 0
ProducerAgrees r seen Producer.between = Unit {0}
ProducerAgrees r seen (Producer.trying v) = Unit {0}
ProducerAgrees r seen (Producer.testing v tail next) = (tail ≡ r.write) × (next ≡ r.write + 1)
ProducerAgrees r seen (Producer.storing v tail next) =
    (tail ≡ r.write) × (next ≡ r.write + 1) × (r.write < seen + r.size)
ProducerAgrees r seen (Producer.publishing v next) =
    (next ≡ r.write + 1) × (r.write < seen + r.size) × (cell r.buffer (r.write % r.size) ≡ v)

-- What the locals of the thread that pops, and the value of `write` that it saw, say of the ring.
abbrev pub ConsumerAgrees : Ring → ℕ → Consumer → Type 0
ConsumerAgrees r seen Consumer.between = Unit {0}
ConsumerAgrees r seen Consumer.trying = Unit {0}
ConsumerAgrees r seen (Consumer.testing head) = head ≡ r.read
ConsumerAgrees r seen (Consumer.loading head) = (head ≡ r.read) × (r.read < seen)
ConsumerAgrees r seen (Consumer.releasing head v) =
    (head ≡ r.read) × (r.read < seen) × (cell r.buffer (r.read % r.size) ≡ v)

-- The value of a push that has not taken effect.
abbrev pub in_hand : Producer → List Value
in_hand Producer.between = []
in_hand (Producer.trying v) = v ∷ []
in_hand (Producer.testing v _ _) = v ∷ []
in_hand (Producer.storing v _ _) = v ∷ []
in_hand (Producer.publishing v _) = v ∷ []

-- The pop that is under way.
abbrev pub under_way : Consumer → ℕ
under_way Consumer.between = 0
under_way _ = 1

pub record Inv (values : List Value) (n : ℕ) (s : System) : Type 0 where
  pub few : length values ≤ int_max
  pub valid : IsValid s.ring
  pub read_seen : s.seen_read ≤ s.ring.read
  pub write_seen : s.seen_write ≤ s.ring.write
  pub read_le_seen : s.ring.read ≤ s.seen_write
  pub producer_agrees : ProducerAgrees s.ring s.seen_read s.producer
  pub consumer_agrees : ConsumerAgrees s.ring s.seen_write s.consumer
  pub in_order : s.got ++ (contents s.ring ++ (in_hand s.producer ++ s.todo)) ≡ values
  pub pushes : s.ring.write + length (in_hand s.producer ++ s.todo) ≡ length values
  pub counted : length s.got + under_way s.consumer + s.pops ≡ n

abbrev pub system : Ring → Producer → List Value → ℕ → Consumer → ℕ → ℕ → List Value → System
system r p vs sr c k sw got = record {
  ring = r;
  producer = p;
  todo = vs;
  seen_read = sr;
  consumer = c;
  pops = k;
  seen_write = sw;
  got = got;
}

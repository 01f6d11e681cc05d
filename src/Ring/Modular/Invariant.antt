-- ===== src/Ring/Modular/Invariant.antt =====
-- What every interleaving of the two threads keeps.
use low_latency_experiments.Common.{ℕ, ◌+◌, ◌-◌, ◌%◌, ◌<◌, ◌≡◌, List, [], ◌∷◌, ◌++◌, length}
use low_latency_experiments.Ring.Window.{Value, cell}
use low_latency_experiments.Ring.Modular.{Ring, stored, contents}
use low_latency_experiments.Ring.Modular.Calls.{IsValid}
use low_latency_experiments.Ring.Modular.Threads.{Producer, Consumer, System}

-- What the locals of the thread that pushes say of the ring.
abbrev pub ProducerAgrees : Ring → Producer → Type 0
ProducerAgrees r Producer.between = Unit {0}
ProducerAgrees r (Producer.trying v) = Unit {0}
ProducerAgrees r (Producer.testing v tail next) = (tail ≡ r.write) × (next ≡ (r.write + 1) % r.size)
ProducerAgrees r (Producer.storing v tail next) =
    (tail ≡ r.write) × (next ≡ (r.write + 1) % r.size) × (stored r < r.size - 1)
ProducerAgrees r (Producer.publishing v next) =
    (next ≡ (r.write + 1) % r.size) × (stored r < r.size - 1) × (cell r.buffer r.write ≡ v)

-- What the locals of the thread that pops say of the ring.
abbrev pub ConsumerAgrees : Ring → Consumer → Type 0
ConsumerAgrees r Consumer.between = Unit {0}
ConsumerAgrees r Consumer.trying = Unit {0}
ConsumerAgrees r (Consumer.testing head) = head ≡ r.read
ConsumerAgrees r (Consumer.loading head) = (head ≡ r.read) × (0 < stored r)
ConsumerAgrees r (Consumer.releasing head v) =
    (head ≡ r.read) × (0 < stored r) × (cell r.buffer r.read ≡ v)

-- The value of a push that has not taken effect.
abbrev pub in_hand : Producer → List Value
in_hand Producer.between = []
in_hand (Producer.trying v) = v ∷ []
in_hand (Producer.testing v _ _) = v ∷ []
in_hand (Producer.storing v _ _) = v ∷ []
in_hand (Producer.publishing v _) = v ∷ []

-- The pop that is under way.
abbrev pub under_way : Consumer → ℕ
under_way Consumer.between = 0
under_way _ = 1

pub record Inv (values : List Value) (n : ℕ) (s : System) : Type 0 where
  pub valid : IsValid s.ring
  pub producer_agrees : ProducerAgrees s.ring s.producer
  pub consumer_agrees : ConsumerAgrees s.ring s.consumer
  pub in_order : s.got ++ (contents s.ring ++ (in_hand s.producer ++ s.todo)) ≡ values
  pub counted : length s.got + under_way s.consumer + s.pops ≡ n

abbrev pub system : Ring → Producer → List Value → Consumer → ℕ → List Value → System
system r p vs c k got = record {
  ring = r;
  producer = p;
  todo = vs;
  consumer = c;
  pops = k;
  got = got;
}

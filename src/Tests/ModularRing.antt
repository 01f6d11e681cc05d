-- ===== src/Tests/ModularRing.antt =====
-- The modular ring at concrete inputs.
use low_latency_experiments.Common.{
  ◌≡◌, ◌≢◌, ◌<◌, refl, List, [], ◌∷◌, ◌++◌, some, length, set, replicate, length-replicate, arith,
  ℕ, zero, suc, inl, inr, Bool, Option, false,
}
use low_latency_experiments.Common.Int.{pos}
use low_latency_experiments.Ring.Window.{Value}
use low_latency_experiments.Ring.Memory.{ring_buffer_size, store, load}
use low_latency_experiments.Ring.Modular
use low_latency_experiments.Ring.Modular.{contents}
use low_latency_experiments.Ring.Modular.Calls
use low_latency_experiments.Ring.Modular.Threads.{
  Producer, Consumer, System, Thread, writer, reader, run, step, produce, consume, start,
}
use low_latency_experiments.Ring.Modular.Invariant.{in_hand}
use low_latency_experiments.Ring.Modular.Safety.{run_in_order, no_race, all_received}
use low_latency_experiments.Ring.Modular.Finishing.{Both, fair_schedule_finishes}
use low_latency_experiments.Common.Rounds.{Occurs, AllTakePart}
use mathlib.Core.List.{flatten}
use low_latency_experiments.Ring.Queue.{bounded_push, bounded_pop}
use low_latency_experiments.Ring.Modular.Bounded.{try_push-bounded, try_pop-bounded}

abbrev memory : List Value
memory = replicate ring_buffer_size (pos 0)

memory-length : length memory ≡ ring_buffer_size
memory-length = length-replicate ring_buffer_size (pos 0)

abbrev two_values : List Value
two_values = pos 7 ∷ pos 8 ∷ []

abbrev one_value : List Value
one_value = pos 7 ∷ []

-- One push, and the loop test of the next.
abbrev one_push : List Thread
one_push = replicate 5 writer

abbrev one_pop : List Thread
one_pop = replicate 5 reader

run_in_order_example :
    (s : System) × (run (one_push ++ one_pop) (start memory two_values 2) ≡ some s)
    × (s.got ++ (contents s.ring ++ (in_hand s.producer ++ s.todo)) ≡ two_values)
run_in_order_example = run_in_order memory two_values 2 memory-length (one_push ++ one_pop)

abbrev racing : System
racing = record {
  ring = record { write = 1; read = 0; size = ring_buffer_size; buffer = set memory 0 (pos 7) };
  producer = Producer.storing (pos 8) 1 2;
  todo = [];
  consumer = Consumer.loading 0;
  pops = 1;
  got = [];
}

racing-run :
    run (one_push ++ replicate 3 writer ++ replicate 3 reader) (start memory two_values 2)
    ≡ some racing
unfolding run step produce consume Modular.increment store load
racing-run = refl

no_race_example :
    (◌≢◌ {A = ℕ} 1 0) × (1 < length racing.ring.buffer) × (0 < length racing.ring.buffer)
no_race_example =
    no_race memory two_values 2 memory-length (one_push ++ replicate 3 writer ++ replicate 3 reader)
      racing-run refl refl

abbrev finished : System
finished = record {
  ring = record { write = 1; read = 1; size = ring_buffer_size; buffer = set memory 0 (pos 7) };
  producer = Producer.between;
  todo = [];
  consumer = Consumer.between;
  pops = 0;
  got = pos 7 ∷ [];
}

finished-run : run (one_push ++ one_pop) (start memory one_value 1) ≡ some finished
unfolding run step produce consume Modular.increment store load
finished-run = refl

all_received_test : finished.got ≡ one_value
all_received_test =
    all_received memory one_value 1 memory-length (one_push ++ one_pop) refl finished-run refl refl

-- The threads take turns.
abbrev in_turn : List Thread
in_turn = writer ∷ reader ∷ []

in_turn-AllTakePart : (n : ℕ) → AllTakePart (λ t. t) Both (replicate n in_turn)
in_turn-AllTakePart zero = tt
in_turn-AllTakePart (suc n) = (takes, in_turn-AllTakePart n)
  where
    takes : (t : Thread) → Both t → Occurs (λ t. t) t in_turn
    takes writer b = inl refl
    takes reader b = inr (inl refl)

fair_schedule_finishes_example :
    (s : System) × (run (flatten (replicate 12 in_turn)) (start memory one_value 1) ≡ some s)
    × (s.producer ≡ Producer.between)
    × (s.todo ≡ [])
    × (s.consumer ≡ Consumer.between)
    × (s.pops ≡ 0)
    × (s.got ≡ one_value)
fair_schedule_finishes_example =
    fair_schedule_finishes memory one_value memory-length (replicate 12 in_turn)
      (in_turn-AllTakePart 12) (omega arith)

-- A ring of three cells with one value, around the end of the buffer.
abbrev small : Modular.Ring
small = record { write = 0; read = 2; size = 3; buffer = pos 4 ∷ pos 5 ∷ pos 6 ∷ [] }

small-IsValid : Calls.IsValid small
small-IsValid = omega arith

try_push-bounded_example :
    (b : Bool) × (r' : Modular.Ring) × (Modular.try_push small (pos 9) ≡ some (b, r'))
    × ((b, contents r') ≡ bounded_push 2 (contents small) (pos 9))
    × Calls.IsValid r'
try_push-bounded_example = try_push-bounded small-IsValid (pos 9)

try_pop-bounded_test :
    (o : Option Value) × (r' : Modular.Ring) × (Modular.try_pop small ≡ some (o, r'))
    × ((o, contents r') ≡ bounded_pop (contents small))
    × Calls.IsValid r'
try_pop-bounded_test = try_pop-bounded small-IsValid

-- The pop takes the value at the end of the buffer and goes round.
small_pop : Modular.try_pop small ≡ some (some (pos 6), record small { read = 0 })
unfolding Modular.try_pop Modular.increment load
small_pop = refl

-- The ring of three cells holds two values at most.
small_full :
    Modular.try_push (record small { write = 1 }) (pos 9) ≡ some (false, record small { write = 1 })
unfolding Modular.try_push Modular.increment
small_full = refl

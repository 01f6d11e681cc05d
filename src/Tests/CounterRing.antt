-- ===== src/Tests/CounterRing.antt =====
-- The ring with counters at concrete inputs.
use low_latency_experiments.Common.{
  ℕ, zero, suc, inl, inr, Bool, Option, false, ◌%◌, ◌≡◌, ◌≢◌, ◌≤◌, refl, List, [], ◌∷◌, ◌++◌, some,
  length, set, replicate, length-replicate, arith, ◌-◌,
}
use low_latency_experiments.Common.Int.{pos, int_max}
use low_latency_experiments.Ring.Window.{Value}
use low_latency_experiments.Ring.Memory.{ring_buffer_size, store, load}
use low_latency_experiments.Common.Rounds.{Occurs, AllTakePart}
use mathlib.Core.List.{flatten}
use low_latency_experiments.Ring.Counter.Finishing.{Both, counter_fair_schedule_finishes}
use low_latency_experiments.Ring.Queue.{bounded_push, bounded_pop}
use low_latency_experiments.Ring.Counter
use low_latency_experiments.Ring.Counter.{contents, try_push, try_pop, increment}
use low_latency_experiments.Ring.Counter.Calls.{IsValid}
use low_latency_experiments.Ring.Counter.Bounded.{counter_try_push-bounded, counter_try_pop-bounded}
use low_latency_experiments.Ring.Counter.Order.{sequential, acquire_release}
use low_latency_experiments.Ring.Counter.Threads.{
  Producer, Consumer, System, Thread, writer, reader, run, step, produce, consume, start,
}
use low_latency_experiments.Ring.Counter.Invariant.{in_hand}
use low_latency_experiments.Ring.Counter.Safety.{
  counter_run_in_order, counter_no_race, counter_all_received,
}

abbrev memory : List Value
memory = replicate ring_buffer_size (pos 0)

memory-length : length memory ≡ ring_buffer_size
memory-length = length-replicate ring_buffer_size (pos 0)

abbrev two_values : List Value
two_values = pos 7 ∷ pos 8 ∷ []

two_values_few : length two_values ≤ int_max
two_values_few = omega arith

abbrev one_push : List (Thread × ℕ)
one_push = replicate 5 (writer, 0)

-- The pops see one push more at each look.
abbrev one_pop : List (Thread × ℕ)
one_pop = replicate 5 (reader, 1)

counter_run_in_order_example :
    (s : System) × (run acquire_release (one_push ++ one_pop) (start memory two_values 2) ≡ some s)
    × (s.got ++ (contents s.ring ++ (in_hand s.producer ++ s.todo)) ≡ two_values)
counter_run_in_order_example =
    counter_run_in_order acquire_release memory two_values 2 memory-length two_values_few
      (one_push ++ one_pop)

abbrev racing : System
racing = record {
  ring = record { write = 1; read = 0; size = ring_buffer_size; buffer = set memory 0 (pos 7) };
  producer = Producer.storing (pos 8) 1 2;
  todo = [];
  seen_read = 0;
  consumer = Consumer.loading 0;
  pops = 1;
  seen_write = 1;
  got = [];
}

abbrev to_race : List (Thread × ℕ)
to_race = one_push ++ replicate 3 (writer, 0) ++ replicate 3 (reader, 1)

racing-run : run acquire_release to_race (start memory two_values 2) ≡ some racing
unfolding run step produce consume increment store load
racing-run = refl

counter_no_race_example : 1 % racing.ring.size ≢ 0 % racing.ring.size
counter_no_race_example =
    counter_no_race acquire_release memory two_values 2 memory-length two_values_few to_race
      racing-run refl refl

abbrev one_value : List Value
one_value = pos 7 ∷ []

abbrev finished : System
finished = record {
  ring = record { write = 1; read = 1; size = ring_buffer_size; buffer = set memory 0 (pos 7) };
  producer = Producer.between;
  todo = [];
  seen_read = 0;
  consumer = Consumer.between;
  pops = 0;
  seen_write = 1;
  got = pos 7 ∷ [];
}

finished-run : run sequential (one_push ++ one_pop) (start memory one_value 1) ≡ some finished
unfolding run step produce consume increment store load
finished-run = refl

counter_all_received_test : finished.got ≡ one_value
counter_all_received_test =
    counter_all_received sequential memory one_value 1 memory-length (omega arith)
      (one_push ++ one_pop) refl finished-run refl refl

-- A full ring of two cells.
abbrev small : Counter.Ring
small = record { write = 7; read = 5; size = 2; buffer = pos 4 ∷ pos 5 ∷ [] }

small-IsValid : IsValid small
small-IsValid = omega arith

counter_try_push-bounded_example :
    (b : Bool) × (r' : Counter.Ring) × (try_push small (pos 9) ≡ some (b, r'))
    × ((b, contents r') ≡ bounded_push 2 (contents small) (pos 9))
    × IsValid r'
counter_try_push-bounded_example = counter_try_push-bounded small-IsValid (pos 9) (omega arith)

counter_try_pop-bounded_test :
    (o : Option Value) × (r' : Counter.Ring) × (try_pop small ≡ some (o, r'))
    × ((o, contents r') ≡ bounded_pop (contents small))
    × IsValid r'
counter_try_pop-bounded_test = counter_try_pop-bounded small-IsValid (omega arith)

small_push : try_push small (pos 9) ≡ some (false, small)
unfolding try_push increment
small_push = refl

small_pop : try_pop small ≡ some (some (pos 5), record small { read = 6 })
unfolding try_pop increment load
small_pop = refl

abbrev worn_out : Counter.Ring
worn_out = record { write = int_max; read = int_max - 1; size = 2; buffer = pos 4 ∷ pos 5 ∷ [] }

-- The threads take turns.
abbrev in_turn : List (Thread × ℕ)
in_turn = (writer, 0) ∷ (reader, 3) ∷ []

in_turn-AllTakePart : (n : ℕ) → AllTakePart (λ t. t.0) Both (replicate n in_turn)
in_turn-AllTakePart zero = tt
in_turn-AllTakePart (suc n) = (takes, in_turn-AllTakePart n)
  where
    takes : (t : Thread) → Both t → Occurs (λ u. u.0) t in_turn
    takes writer b = inl refl
    takes reader b = inr (inl refl)

counter_fair_schedule_finishes_example :
    (s : System) × (run sequential (flatten (replicate 24 in_turn)) (start memory two_values 2)
      ≡ some s)
    × (s.producer ≡ Producer.between)
    × (s.todo ≡ [])
    × (s.consumer ≡ Consumer.between)
    × (s.pops ≡ 0)
    × (s.got ≡ two_values)
counter_fair_schedule_finishes_example =
    counter_fair_schedule_finishes memory two_values memory-length two_values_few
      (replicate 24 in_turn) (in_turn-AllTakePart 24) (omega arith)

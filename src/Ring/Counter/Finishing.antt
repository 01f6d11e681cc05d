-- ===== src/Ring/Counter/Finishing.antt =====
-- Both threads of the ring with counters finish under every schedule that lets each of them go on.
use low_latency_experiments.Common.{
  ℕ, ◌+◌, ◌*◌, ◌≤◌, ◌<◌, ◌≡◌, ◌⊎◌, inl, inr, refl, ap, sym, ◌∙◌, subst, List, [], ◌++◌, some, arith,
  eq_of_some, length, length-append, ◌≢◌, eq-nil_of_length, prefix-whole,
}
use mathlib.Core.List.{flatten}
use low_latency_experiments.Common.Rounds.{AllTakePart, Progress, rounds_suffice}
use low_latency_experiments.Common.Int.{int_max}
use low_latency_experiments.Ring.Window.{Value, length-window}
use low_latency_experiments.Ring.Memory.{ring_buffer_size}
use low_latency_experiments.Ring.Counter.{stored, contents}
use low_latency_experiments.Ring.Counter.Order.{MemoryOrder, sequential}
use low_latency_experiments.Ring.Counter.Threads.{
  Producer, Consumer, System, Thread, writer, reader, step, run, start,
}
use low_latency_experiments.Ring.Counter.Invariant.{Inv, in_hand, under_way}
use low_latency_experiments.Ring.Counter.Runs.{step-Inv, start-Inv}
use low_latency_experiments.Ring.Counter.Waiting.{Tight, CatchesUp, Wrote, Read}
use low_latency_experiments.Ring.Counter.Waiting.Pushing.{produce-Wrote}
use low_latency_experiments.Ring.Counter.Waiting.Popping.{consume-Read}
use low_latency_experiments.Ring.Counter.Weights.{
  push_left, pop_left, room, to_write, to_read, WriterReady, ReaderReady, push_left-more,
  pop_left-more, WriterReady-more, ReaderReady-more, writer_cases, reader_cases, done_writer,
  done_reader,
}

abbrev left_over : System → ℕ
left_over s = to_write s + to_read s

abbrev Ready : Thread → System → Type 0
Ready writer s = WriterReady (room s.ring) s.producer s.todo
Ready reader s = ReaderReady (stored s.ring) s.consumer s.pops

abbrev pub Both : Thread → Type 0
Both t = Unit {0}

Wrote-to_read : {s s' : System} → Wrote s s' → to_read s' ≤ to_read s
Wrote-to_read {s} {s'} w = omega (
  arith,
  w.pops_kept,
  ap (pop_left (stored s'.ring)) w.consumer_kept,
  pop_left-more s.consumer (stored s.ring) (stored s'.ring) w.more,
)

Read-to_write : {s s' : System} → Read s s' → to_write s' ≤ to_write s
Read-to_write {s} {s'} w = omega (
  arith,
  ap (λ (vs : List Value). length vs) w.todo_kept,
  ap (push_left (room s'.ring)) w.producer_kept,
  push_left-more s.producer (room s.ring) (room s'.ring) w.more,
)

module _ (order : MemoryOrder) (catches : CatchesUp order) (values : List Value) where
  abbrev Kept : System → Type 0
  Kept s = Inv values (length values) s

  abbrev Good : System → Type 0
  Good s = Kept s × Tight s

  adds_up :
      (s : System)
      → Kept s
      → length s.got + stored s.ring + length (in_hand s.producer) + length s.todo ≡ length values
  adds_up s inv = omega (
    arith,
    ap (λ (vs : List Value). length vs) inv.in_order,
    length-append s.got (contents s.ring ++ (in_hand s.producer ++ s.todo)),
    length-append (contents s.ring) (in_hand s.producer ++ s.todo),
    length-append (in_hand s.producer) s.todo,
    length-window s.ring.buffer s.ring.size s.ring.read (stored s.ring),
  )

  idle_left :
      (s : System)
      → s.producer ≡ Producer.between
      → s.todo ≡ []
      → s.consumer ≡ Consumer.between
      → s.pops ≡ 0
      → left_over s ≡ 0
  idle_left s p vs c k = omega (
    arith,
    ap (push_left (room s.ring)) p,
    ap (λ (vs : List Value). length vs) vs,
    ap (pop_left (stored s.ring)) c,
    k,
  )

  step-Wrote : (i : ℕ) (s s' : System) → Good s → step order (writer, i) s ≡ some s' → Wrote s s'
  unfolding step
  step-Wrote i s s' (inv, tight) e =
      let (s1, ran, wrote) = produce-Wrote order catches s.producer s.todo i inv tight in
      subst (Wrote s) (eq_of_some (sym ran ∙ e)) wrote

  step-Read : (i : ℕ) (s s' : System) → Good s → step order (reader, i) s ≡ some s' → Read s s'
  unfolding step
  step-Read i s s' (inv, tight) e =
      let (s1, ran, read) = consume-Read order catches s.consumer s.pops i inv tight in
      subst (Read s) (eq_of_some (sym ran ∙ e)) read

  keeps :
      (t : Thread × ℕ) (s : System)
      → Good s
      → (s' : System) × (step order t s ≡ some s') × Good s' × (left_over s' ≤ left_over s)
  keeps (writer, i) s good =
      let (s', ran, inv') = step-Inv order writer i good.0 in
      let wrote = step-Wrote i s s' good ran in
      (s', ran, (inv', wrote.tight), omega (arith, wrote.no_more_left, Wrote-to_read wrote))
  keeps (reader, i) s good =
      let (s', ran, inv') = step-Inv order reader i good.0 in
      let read = step-Read i s s' good ran in
      (s', ran, (inv', read.tight), omega (arith, read.no_more_left, Read-to_write read))

  effect :
      (t : Thread × ℕ) (u : Thread) (s s' : System)
      → Good s
      → Ready u s
      → step order t s ≡ some s'
      → (left_over s' < left_over s) ⊎ ((t.0 ≢ u) × Ready u s')
  effect (writer, i) writer s s' good ready e =
      let wrote = step-Wrote i s s' good e in
      inl (omega (arith, wrote.brought_on ready, Wrote-to_read wrote))
  effect (reader, i) reader s s' good ready e =
      let read = step-Read i s s' good e in
      inl (omega (arith, read.brought_on ready, Read-to_write read))
  effect (writer, i) reader s s' good ready e =
      let w = step-Wrote i s s' good e in
      inr (
        λ f. cc,
        rw (w.consumer_kept, w.pops_kept)
            (ReaderReady-more s.consumer s.pops (stored s.ring) (stored s'.ring) w.more ready),
      )
  effect (reader, i) writer s s' good ready e =
      let w = step-Read i s s' good e in
      inr (
        λ f. cc,
        rw (w.producer_kept, w.todo_kept)
            (WriterReady-more s.producer s.todo (room s.ring) (room s'.ring) w.more ready),
      )

  awake : (s : System) → Good s → (left_over s ≡ 0) ⊎ ((t : Thread) × Both t × Ready t s)
  awake s (inv, tight) = elim (writer_cases (room s.ring) s.producer s.todo) [
    | inr (inl ready) ↦ inr (writer, tt, ready)
    | inl (idle, none_left) ↦ elim (reader_cases (stored s.ring) s.consumer s.pops) [
      | inr (inl ready) ↦ inr (reader, tt, ready)
      | inl (idle', none_left') ↦ inl (idle_left s idle none_left idle' none_left')
      | inr (inr (empty, under)) ↦ absurd (waiting_reader idle none_left empty under)
    ]
    | inr (inr (full, holds)) ↦ elim (reader_cases (stored s.ring) s.consumer s.pops) [
      | inr (inl ready) ↦ inr (reader, tt, ready)
      | inl (idle', none_left') ↦ absurd (waiting_writer full holds idle' none_left')
      | inr (inr (empty, under)) ↦ absurd (omega (arith, inv.valid.positive))
    ]
  ]
    where
      waiting_reader :
          s.producer ≡ Producer.between
          → s.todo ≡ []
          → stored s.ring ≡ 0
          → under_way s.consumer ≡ 1
          → ⊥
      waiting_reader idle none_left empty under = omega (
        arith,
        adds_up s inv,
        inv.counted,
        ap (λ (p : Producer). length (in_hand p)) idle,
        ap (λ (vs : List Value). length vs) none_left,
      )

      waiting_writer :
          room s.ring ≡ 0
          → length (in_hand s.producer) ≡ 1
          → s.consumer ≡ Consumer.between
          → s.pops ≡ 0
          → ⊥
      waiting_writer full holds idle none_left =
          omega (arith, adds_up s inv, inv.counted, inv.valid.positive, ap under_way idle)

  program : Progress (λ t. t.0) (step order) (run order) Good left_over Both Ready
  unfolding run
  program = record {
    run_none = λ s. refl;
    run_next = λ t ts s. refl;
    keeps = keeps;
    effect = effect;
    awake = awake;
  }

-- Sequentially consistent loads are never behind.
sequential-CatchesUp : CatchesUp sequential
sequential-CatchesUp seen now choice lt = lt

module _ (memory values : List Value) (new : length memory ≡ ring_buffer_size)
    (few : length values ≤ int_max) where
  -- From a new ring, with sequentially consistent accesses and as many pops as values, at most
  -- 2 ^ 31 - 1: every schedule that goes through 12 rounds for each value, in each of which both
  -- threads are picked at least once, is defined and lets both threads finish, and the pops have
  -- returned the values in order.
  pub counter_fair_schedule_finishes :
      (rounds : List (List (Thread × ℕ)))
      → AllTakePart (λ t. t.0) Both rounds
      → 12 * length values ≤ length rounds
      → (s : System) × (run sequential (flatten rounds) (start memory values (length values))
          ≡ some s)
        × (s.producer ≡ Producer.between)
        × (s.todo ≡ [])
        × (s.consumer ≡ Consumer.between)
        × (s.pops ≡ 0)
        × (s.got ≡ values)
  counter_fair_schedule_finishes rounds both enough =
      let (s, ran, (inv, tight), none_left) =
        rounds_suffice (program sequential sequential-CatchesUp values) rounds
          (start memory values (length values))
          (start-Inv memory values (length values) new few, omega arith) both (omega arith) in
      let idle = done_reader (stored s.ring) s.consumer (omega arith) in
      (
        s,
        ran,
        done_writer (room s.ring) s.producer (omega arith),
        eq-nil_of_length s.todo (omega arith),
        idle,
        omega arith,
        prefix-whole s.got _ values inv.in_order (omega (arith, inv.counted, ap under_way idle)),
      )

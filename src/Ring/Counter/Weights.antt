-- ===== src/Ring/Counter/Weights.antt =====
-- How much each thread of the ring with counters has still to do. A thread that waits for the other
-- weighs the same at every access of its retries.
use low_latency_experiments.Common.{
  ℕ, zero, suc, ◌+◌, ◌-◌, ◌*◌, ◌≤◌, ◌<◌, ◌≡◌, ◌⊎◌, inl, inr, refl, List, [], ◌∷◌, arith, length,
}
use low_latency_experiments.Ring.Window.{Value}
use low_latency_experiments.Ring.Retry.{waits}
use low_latency_experiments.Ring.Counter.{Ring, stored}
use low_latency_experiments.Ring.Counter.Threads.{Producer, Consumer, System}
use low_latency_experiments.Ring.Counter.Invariant.{in_hand, under_way}

-- `room` is how many values the ring can still take.
abbrev pub push_left : (room : ℕ) → Producer → ℕ
push_left room Producer.between = 0
push_left room (Producer.trying v) = waits room 4
push_left room (Producer.testing v _ _) = waits room 3
push_left room (Producer.storing v _ _) = 2
push_left room (Producer.publishing v _) = 1

abbrev pub pop_left : (stored : ℕ) → Consumer → ℕ
pop_left n Consumer.between = 0
pop_left n Consumer.trying = waits n 4
pop_left n (Consumer.testing _) = waits n 3
pop_left n (Consumer.loading _) = 2
pop_left n (Consumer.releasing _ _) = 1

abbrev pub room : Ring → ℕ
room r = r.size - stored r

abbrev pub to_write : System → ℕ
to_write s = 6 * length s.todo + push_left (room s.ring) s.producer

abbrev pub to_read : System → ℕ
to_read s = 6 * s.pops + pop_left (stored s.ring) s.consumer

-- Its next step brings the thread on.
abbrev pub WriterReady : (room : ℕ) → Producer → List Value → Type 0
WriterReady room Producer.between vs = 0 < length vs
WriterReady room (Producer.trying v) vs = 0 < room
WriterReady room (Producer.testing v _ _) vs = 0 < room
WriterReady room _ vs = Unit {0}

abbrev pub ReaderReady : (stored : ℕ) → Consumer → ℕ → Type 0
ReaderReady n Consumer.between k = 0 < k
ReaderReady n Consumer.trying k = 0 < n
ReaderReady n (Consumer.testing _) k = 0 < n
ReaderReady n _ k = Unit {0}

-- What the other thread has done does not hold a thread up.
pub push_left-more : (p : Producer) (j k : ℕ) → j ≤ k → push_left k p ≤ push_left j p
push_left-more Producer.between j k h = omega arith
push_left-more (Producer.trying v) j k h = ground arith
push_left-more (Producer.testing v _ _) j k h = ground arith
push_left-more (Producer.storing v _ _) j k h = omega arith
push_left-more (Producer.publishing v _) j k h = omega arith

pub pop_left-more : (c : Consumer) (j k : ℕ) → j ≤ k → pop_left k c ≤ pop_left j c
pop_left-more Consumer.between j k h = omega arith
pop_left-more Consumer.trying j k h = ground arith
pop_left-more (Consumer.testing _) j k h = ground arith
pop_left-more (Consumer.loading _) j k h = omega arith
pop_left-more (Consumer.releasing _ _) j k h = omega arith

pub WriterReady-more :
    (p : Producer) (vs : List Value) (j k : ℕ) → j ≤ k → WriterReady j p vs → WriterReady k p vs
WriterReady-more Producer.between vs j k h ready = ready
WriterReady-more (Producer.trying v) vs j k h ready = omega arith
WriterReady-more (Producer.testing v _ _) vs j k h ready = omega arith
WriterReady-more (Producer.storing v _ _) vs j k h ready = tt
WriterReady-more (Producer.publishing v _) vs j k h ready = tt

pub ReaderReady-more : (c : Consumer) (n j k : ℕ) → j ≤ k → ReaderReady j c n → ReaderReady k c n
ReaderReady-more Consumer.between n j k h ready = ready
ReaderReady-more Consumer.trying n j k h ready = omega arith
ReaderReady-more (Consumer.testing _) n j k h ready = omega arith
ReaderReady-more (Consumer.loading _) n j k h ready = tt
ReaderReady-more (Consumer.releasing _ _) n j k h ready = tt

-- Nothing left, able to go on, or waiting at a full or an empty ring.
pub writer_cases :
    (room : ℕ) (p : Producer) (vs : List Value)
    → ((p ≡ Producer.between) × (vs ≡ []))
      ⊎ (WriterReady room p vs ⊎ ((room ≡ 0) × (length (in_hand p) ≡ 1)))
writer_cases k Producer.between [] = inl (refl, refl)
writer_cases k Producer.between (v ∷ vs) = inr (inl (omega arith))
writer_cases zero (Producer.trying v) vs = inr (inr (refl, refl))
writer_cases zero (Producer.testing v _ _) vs = inr (inr (refl, refl))
writer_cases (suc k) (Producer.trying v) vs = inr (inl (omega arith))
writer_cases (suc k) (Producer.testing v _ _) vs = inr (inl (omega arith))
writer_cases k (Producer.storing v _ _) vs = inr (inl tt)
writer_cases k (Producer.publishing v _) vs = inr (inl tt)

pub reader_cases :
    (stored : ℕ) (c : Consumer) (n : ℕ)
    → ((c ≡ Consumer.between) × (n ≡ 0))
      ⊎ (ReaderReady stored c n ⊎ ((stored ≡ 0) × (under_way c ≡ 1)))
reader_cases k Consumer.between zero = inl (refl, refl)
reader_cases k Consumer.between (suc n) = inr (inl (omega arith))
reader_cases zero Consumer.trying n = inr (inr (refl, refl))
reader_cases zero (Consumer.testing _) n = inr (inr (refl, refl))
reader_cases (suc k) Consumer.trying n = inr (inl (omega arith))
reader_cases (suc k) (Consumer.testing _) n = inr (inl (omega arith))
reader_cases k (Consumer.loading _) n = inr (inl tt)
reader_cases k (Consumer.releasing _ _) n = inr (inl tt)

pub done_writer : (k : ℕ) (p : Producer) → push_left k p ≡ 0 → p ≡ Producer.between
done_writer k Producer.between e = refl
done_writer k (Producer.trying v) e = ground arith
done_writer k (Producer.testing v _ _) e = ground arith
done_writer k (Producer.storing v _ _) e = ground arith
done_writer k (Producer.publishing v _) e = ground arith

pub done_reader : (k : ℕ) (c : Consumer) → pop_left k c ≡ 0 → c ≡ Consumer.between
done_reader k Consumer.between e = refl
done_reader k Consumer.trying e = ground arith
done_reader k (Consumer.testing _) e = ground arith
done_reader k (Consumer.loading _) e = ground arith
done_reader k (Consumer.releasing _ _) e = ground arith

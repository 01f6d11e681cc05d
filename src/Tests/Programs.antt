-- ===== src/Tests/Programs.antt =====
-- The dispatch programs and the false sharing program at concrete inputs.
use low_latency_experiments.Common.{
  ℕ, ◌+◌, ◌*◌, ◌%◌, ◌^◌, ◌≡◌, ◌≢◌, ◌⊎◌, refl, true, false, List, [], ◌∷◌, none, some, arith,
}
use low_latency_experiments.Common.Int.{pos}
use low_latency_experiments.Ticks.Virtual.{test_virtual_methods}
use low_latency_experiments.Ticks.Crtp.{test_crtp}
use low_latency_experiments.Ticks.Agree.{map_object, dispatch_agree}
use low_latency_experiments.Ticks.Bounds.{counter_value, counter_overflow}
use low_latency_experiments.Sharing.{Thread, thread1, thread2, thread3, load, run, start, advance}
use low_latency_experiments.Sharing.Layout.{line, offset, aligned_apart, packed_share, alignment}
use low_latency_experiments.Sharing.Independent.{fields_counted}

dispatch_agree_example : test_virtual_methods (pos 4) ≡ map_object (test_crtp (pos 4))
dispatch_agree_example = dispatch_agree (pos 4)

counter_value_test :
    (c : ℕ) × (test_crtp (pos 4) ≡ some (record { m_counter = pos c }))
    × (2 * c + 4 * 4 ≡ 4 * 4 * 4)
counter_value_test = counter_value 4 (omega arith)

counter_overflow_example : test_crtp (pos 1626) ≡ none
counter_overflow_example = counter_overflow 1626 (omega arith)

aligned_apart_example : line (128 + offset true thread1 + 3) ≢ line (128 + offset true thread2 + 0)
unfolding alignment
aligned_apart_example =
    aligned_apart 128 3 0 thread1 thread2 refl (omega arith) (omega arith) (λ e. ground arith)

packed_share_test :
    (line (60 + offset false thread1) ≡ line (60 + offset false thread2))
    ⊎ (line (60 + offset false thread2) ≡ line (60 + offset false thread3))
unfolding alignment
packed_share_test = packed_share 60 refl

-- Two threads, with their accesses interleaved.
abbrev schedule : List Thread
schedule = thread1 ∷ thread2 ∷ thread1 ∷ thread2 ∷ thread1 ∷ thread1 ∷ []

fields_counted_example : load thread1 (run schedule (start 2)).object ≡ 2 % 2 ^ 32
unfolding run advance
fields_counted_example = fields_counted 2 schedule thread1 refl

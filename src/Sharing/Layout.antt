-- ===== src/Sharing/Layout.antt =====
-- Where the fields of `struct dummy` lie, with `CACHE_LINE_ALIGNED` defined, as in the source, and
-- without.
use low_latency_experiments.Common.{
  ℕ, ◌+◌, ◌-◌, ◌*◌, ◌/◌, ◌%◌, ◌<◌, ◌≡◌, ◌≢◌, Bool, true, false, arith, ◌⊎◌, refl,
}
use low_latency_experiments.Sharing.{Thread, thread1, thread2, thread3}

-- `CACHE_LINE_SIZE`
abbrev pub cache_line_size : ℕ
cache_line_size = 64

-- `sizeof(uint32_t)`
abbrev pub field_size : ℕ
field_size = 4

-- `alignas(CACHE_LINE_SIZE)`, or the alignment of a `uint32_t`.
unfoldable pub alignment : Bool → ℕ
alignment true = cache_line_size
alignment false = field_size

-- The first multiple of the alignment from `n` on.
unfoldable pub align_up : ℕ → ℕ → ℕ
align_up n a = (n + (a - 1)) / a * a

-- A field is put at the first offset behind the field before it that its alignment allows.
unfoldable pub offset : Bool → Thread → ℕ
unfolding align_up alignment
offset aligned thread1 = 0
offset aligned thread2 = align_up field_size (alignment aligned)
offset aligned thread3 =
    align_up (align_up field_size (alignment aligned) + field_size) (alignment aligned)

-- The cache line of a byte of an object at `base`.
abbrev pub line : ℕ → ℕ
line address = address / cache_line_size

-- With the alignment no byte of one field shares a cache line with a byte of another, wherever an
-- object of this alignment lies.
pub aligned_apart :
    (base i j : ℕ) (t u : Thread)
    → base % alignment true ≡ 0
    → i < field_size
    → j < field_size
    → t ≢ u
    → line (base + offset true t + i) ≢ line (base + offset true u + j)
unfolding offset
aligned_apart base i j thread1 thread1 e hi hj ne = absurd (ne refl)
aligned_apart base i j thread2 thread2 e hi hj ne = absurd (ne refl)
aligned_apart base i j thread3 thread3 e hi hj ne = absurd (ne refl)
aligned_apart base i j _ _ e hi hj ne = omega arith

-- Without it two of the three fields share a cache line, wherever the object lies.
pub packed_share :
    (base : ℕ)
    → base % alignment false ≡ 0
    → (line (base + offset false thread1) ≡ line (base + offset false thread2))
      ⊎ (line (base + offset false thread2) ≡ line (base + offset false thread3))
unfolding offset
packed_share base e = omega arith

-- ===== src/Ticks/Crtp.antt =====
-- virtual_methods_vs_crtp/crtp/crtp.cpp.
use low_latency_experiments.Common.{ℕ, zero, suc, ◌+◌, Option, none, some, ◌>>=◌}
use low_latency_experiments.Common.Int.{ℤ, pos, negsuc, int_max, add_below, pos_part}

-- What `CRTPBase<T>` asks of its argument `T`: `tick`, chosen when the program is compiled.
pub record Impl (T : Type 0) : Type 0 where
  pub tick : T → ℤ → Option (ℤ × T)

-- `CRTPBase<T>::tick`, `impl().tick(n)`.
module _ {T : Type 0} ⦃impl : Impl T⦄ where
  unfoldable pub tick : T → ℤ → Option (ℤ × T)
  tick object n = impl.tick object n

-- `CRTPDerived`
pub record CrtpDerived : Type 0 where
  pub m_counter : ℤ

-- The constructor.
abbrev pub new_derived : CrtpDerived
new_derived = record { m_counter = pos 0 }

-- `CRTPDerived::tick`; the sum is an `int`.
unfoldable pub derived_tick : CrtpDerived → ℤ → Option (ℤ × CrtpDerived)
derived_tick object n = do
  sum ← add_below int_max object.m_counter n
  some (sum, record { m_counter = sum })

-- `CRTPDerived : public CRTPBase<CRTPDerived>`
instance abbrev pub derived_impl : Impl CrtpDerived
derived_impl = record { tick = derived_tick }

-- `for (int j = ...; j < test_run; j++) pObj->tick(j);`, with `rounds` rounds to go.
unfoldable pub inner_loop : ℕ → ℕ → CrtpDerived → Option CrtpDerived
inner_loop zero j object = some object
inner_loop (suc rounds) j object = do
  (result, object') ← tick object (pos j)
  inner_loop rounds (j + 1) object'

unfoldable pub outer_loop : ℕ → ℕ → CrtpDerived → Option CrtpDerived
outer_loop zero width object = some object
outer_loop (suc rounds) width object = do
  object' ← inner_loop width 0 object
  outer_loop rounds width object'

-- The object after the loops of `test_crtp`; a `test_run` below 0 makes no round.
unfoldable pub test_crtp : ℤ → Option CrtpDerived
test_crtp test_run = outer_loop (pos_part test_run) (pos_part test_run) new_derived

-- `main`, by its exit code. `argument` is `argv[1]`, if there is one; `stoi` throws where it returns
-- `none`, which ends the program, and `none` stands for that too.
module _ {Text : Type 0} (stoi : Text → Option ℤ) where
  pub main : Option Text → Option ℤ
  main none = some (negsuc 0)
  main (some argument) = do test_run ← stoi argument; object ← test_crtp test_run; some (pos 0)

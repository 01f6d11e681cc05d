-- ===== src/Ticks/Virtual.antt =====
-- virtual_methods_vs_crtp/virtual_methods/virtual.cpp.
use low_latency_experiments.Common.{ℕ, zero, suc, ◌+◌, Option, none, some, ◌>>=◌}
use low_latency_experiments.Common.Int.{ℤ, pos, negsuc, int_max, add_below, pos_part}

-- An object behind a `VirtualBase*`: its dynamic type, with the members of that type. The one class
-- derived from `VirtualBase` is `VirtualDerived`.
pub data VirtualBase : Type 0 where
  virtual_derived : (m_counter : ℤ) → VirtualBase

-- The constructor of `VirtualDerived`.
abbrev pub new_derived : VirtualBase
new_derived = virtual_derived (pos 0)

-- The call of `tick` goes by the dynamic type. The sum is an `int`.
unfoldable pub tick : VirtualBase → ℤ → Option (ℤ × VirtualBase)
tick (virtual_derived m_counter) n = do
  sum ← add_below int_max m_counter n
  some (sum, virtual_derived sum)

-- `for (int j = ...; j < test_run; j++) pObj->tick(j);`, with `rounds` rounds to go. As `j` stays
-- below `test_run`, which is an `int`, `j++` is defined.
unfoldable pub inner_loop : ℕ → ℕ → VirtualBase → Option VirtualBase
inner_loop zero j object = some object
inner_loop (suc rounds) j object = do
  (result, object') ← tick object (pos j)
  inner_loop rounds (j + 1) object'

unfoldable pub outer_loop : ℕ → ℕ → VirtualBase → Option VirtualBase
outer_loop zero width object = some object
outer_loop (suc rounds) width object = do
  object' ← inner_loop width 0 object
  outer_loop rounds width object'

-- The object after the loops of `test_virtual_methods`; a `test_run` below 0 makes no round.
unfoldable pub test_virtual_methods : ℤ → Option VirtualBase
test_virtual_methods test_run = outer_loop (pos_part test_run) (pos_part test_run) new_derived

-- `main`, by its exit code. `argument` is `argv[1]`, if there is one; `stoi` throws where it returns
-- `none`, which ends the program, and `none` stands for that too.
module _ {Text : Type 0} (stoi : Text → Option ℤ) where
  pub main : Option Text → Option ℤ
  main none = some (negsuc 0)
  main (some argument) = do
    test_run ← stoi argument
    object ← test_virtual_methods test_run
    some (pos 0)

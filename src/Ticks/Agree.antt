-- ===== src/Ticks/Agree.antt =====
-- The two dispatches compute the same, and what they compute.
use low_latency_experiments.Common.{
  ℕ, zero, suc, ◌+◌, ◌≡◌, refl, Option, none, some, Option-cases, inl, inr,
}
use low_latency_experiments.Common.Int.{ℤ, pos, int_max, add_below, pos_part}
use low_latency_experiments.Ticks.Virtual
use low_latency_experiments.Ticks.Virtual.{VirtualBase, virtual_derived}
use low_latency_experiments.Ticks.Crtp
use low_latency_experiments.Ticks.Crtp.{CrtpDerived, derived_tick}

-- The object behind the virtual method with the members of the other.
abbrev pub as_virtual : CrtpDerived → VirtualBase
as_virtual object = virtual_derived object.m_counter

abbrev pub map_object : Option CrtpDerived → Option VirtualBase
map_object none = none
map_object (some object) = some (as_virtual object)

inner_agree :
    (rounds j : ℕ) (object : CrtpDerived)
    → Virtual.inner_loop rounds j (as_virtual object) ≡ map_object (Crtp.inner_loop rounds j object)
unfolding Virtual.inner_loop Crtp.inner_loop Virtual.tick Crtp.tick derived_tick
inner_agree zero j object = refl
inner_agree (suc rounds) j object =
    elim (Option-cases (add_below int_max object.m_counter (pos j))) [
      | inl e ↦ rw e
      | inr (sum, e) ↦ rw e (inner_agree rounds (j + 1) (record { m_counter = sum }))
    ]

outer_agree :
    (rounds width : ℕ) (object : CrtpDerived)
    → Virtual.outer_loop rounds width (as_virtual object)
      ≡ map_object (Crtp.outer_loop rounds width object)
unfolding Virtual.outer_loop Crtp.outer_loop
outer_agree zero width object = refl
outer_agree (suc rounds) width object = elim (Option-cases (Crtp.inner_loop width 0 object)) [
  | inl e ↦ rw (inner_agree width 0 object, e)
  | inr (next, e) ↦ rw (inner_agree width 0 object, e) (outer_agree rounds width next)
]

-- For every argument the two programs leave the same counter, or neither is defined.
pub dispatch_agree :
    (test_run : ℤ) → Virtual.test_virtual_methods test_run ≡ map_object (Crtp.test_crtp test_run)
unfolding Virtual.test_virtual_methods Crtp.test_crtp
dispatch_agree test_run = outer_agree (pos_part test_run) (pos_part test_run) Crtp.new_derived

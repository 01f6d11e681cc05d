-- ===== src/Ring/Counter/Order.antt =====
-- What a load of the other thread's counter may return. Each counter is written by one thread only
-- and only grows, so a thread that has seen the value `seen` of a counter that now stands at `now`
-- reads some value between the two: it never goes back behind what it has seen.
use low_latency_experiments.Common.{ℕ, ◌+◌, ◌≤◌, ◌≡◌, refl, arith, min}

-- `observe seen now choice`: the `choice` is the memory's. `synchronised seen` is how many of the
-- other thread's calls come before, in the order that C++ calls `happens before`, all that follows a
-- load that has returned `seen`: the store of the counter must release and the load acquire.
pub record MemoryOrder : Type 0 where
  pub observe : ℕ → ℕ → ℕ → ℕ
  pub not_older : (seen now choice : ℕ) → seen ≤ now → seen ≤ observe seen now choice
  pub not_newer : (seen now choice : ℕ) → seen ≤ now → observe seen now choice ≤ now
  pub synchronised : ℕ → ℕ
  pub synchronises : (seen : ℕ) → synchronised seen ≡ seen

-- Sequentially consistent loads return the current value, and acquire; the stores release.
abbrev pub sequential : MemoryOrder
sequential = record {
  observe = λ seen now choice. now;
  not_older = λ seen now choice h. h;
  not_newer = λ seen now choice h. omega arith;
  synchronised = λ seen. seen;
  synchronises = λ seen. refl;
}

-- Acquire loads may return an older value. A load that returns the value of a release store comes
-- after what the storing thread did before it: all accesses to the buffer in the calls counted. With
-- relaxed accesses `synchronised` would be 0, and `synchronises` would not hold.
abbrev pub acquire_release : MemoryOrder
acquire_release = record {
  observe = λ seen now choice. min (seen + choice) now;
  not_older = λ seen now choice h. omega arith;
  not_newer = λ seen now choice h. omega arith;
  synchronised = λ seen. seen;
  synchronises = λ seen. refl;
}

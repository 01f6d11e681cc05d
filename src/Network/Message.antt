-- ===== src/Network/Message.antt =====
-- The messages of the test programs of epoll_vs_multithreaded_io, and the C functions on them.
use low_latency_experiments.Common.{
  ℕ, zero, suc, [], ◌∷◌, Bool, true, false, ◌&&◌, ◌==◌, if◌then◌else◌,
}
use low_latency_experiments.Network.System.{Text}

abbrev pub quit : Text
quit = b'q' ∷ b'u' ∷ b'i' ∷ b't' ∷ []

-- "Exec report "
abbrev pub exec_report : Text
exec_report = b'E' ∷ b'x' ∷ b'e' ∷ b'c' ∷ b' ' ∷ b'r' ∷ b'e' ∷ b'p' ∷ b'o' ∷ b'r' ∷ b't' ∷ b' ' ∷ []

-- The text that a buffer holds as a C string: `n` bytes were stored in it, the rest is 0.
abbrev pub c_string : ℕ → Text → Text
c_string zero stored = []
c_string (suc n) [] = []
c_string (suc n) (b ∷ bs) = if b == 0 then [] else b ∷ c_string n bs

-- `!strcmp(a, b)`
abbrev pub same_text : Text → Text → Bool
same_text [] [] = true
same_text (a ∷ xs) (b ∷ ys) = a == b && same_text xs ys
same_text _ _ = false

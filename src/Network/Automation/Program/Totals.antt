-- ===== src/Network/Automation/Program/Totals.antt =====
-- What the clients of epoll_vs_multithreaded_io/client_automation.cpp have sent when `main` returns.
use low_latency_experiments.Common.{ℕ, ◌*◌, ◌≡◌, ◌≤◌, ◌<◌, Option, some}
use low_latency_experiments.Common.Int.{int_max}
use low_latency_experiments.Network.System.{Text, Os}
use low_latency_experiments.Network.Socket.Options.{Constants}
use low_latency_experiments.Network.Reactor.Serving.{ReceivesAtMost}
use low_latency_experiments.Network.Automation.{Pc, System}
use low_latency_experiments.Network.Automation
use low_latency_experiments.Network.Automation.Balance.{Balance}
use low_latency_experiments.Network.Automation.Program.{Main, creating, joining, Program, created}

-- The threads that have been joined.
abbrev joined_to : ℕ → Main → ℕ
joined_to n (creating k) = 0
joined_to n (joining k) = k
joined_to n _ = n

abbrev Ended : System → ℕ → Type 0
Ended s i = (s.clients i).pc ≡ Pc.done

module _ (os : Os) (c : Constants) (shown : ℕ → Text) (n iterations : ℕ)
    (at_most : ReceivesAtMost os) (few : n * iterations ≤ int_max) where
  record Inv (p : Program) : Type 0 where
    balance : Balance n iterations p.system
    made : created n iterations p.main ≤ n
    joined : (i : ℕ) → i < joined_to n p.main → Ended p.system i

  record Good (o : Option Program) : Type 0 where
    program : Program
    ran : o ≡ some program
    inv : Inv program

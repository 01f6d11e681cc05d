-- ===== src/Network/Automation/Program.antt =====
-- `main` of epoll_vs_multithreaded_io/client_automation.cpp, for two numbers that are not negative: it
-- creates the client threads, which start to run at once, joins them in order, and then takes the
-- average over all messages.
pub mod Others
pub mod Totals
pub mod Refused
use low_latency_experiments.Common.{
  ℕ, zero, suc, ◌*◌, List, [], ◌∷◌, Option, none, some, ◌>>=◌, leb, ltb, if◌then◌else◌,
}
use low_latency_experiments.Common.Int.{int_max}
use low_latency_experiments.Network.System.{Text, History, Os}
use low_latency_experiments.Network.Socket.Options.{Constants}
use low_latency_experiments.Network.Automation.{Pc, System, start}
use low_latency_experiments.Network.Automation

pub data Main : Type 0 where
  creating : (next : ℕ) → Main  -- before the test of the loop that creates
  joining : (next : ℕ) → Main  -- before the test of the loop that joins, or in the `join`
  averaging : Main  -- before `numberOfClients * messageIteration`
  returned : Main

pub data Thread : Type 0 where
  main_thread : Thread
  client_thread : (i : ℕ) → Thread

pub record Program : Type 0 where
  pub system : System
  pub main : Main

-- A `join` waits until the thread has ended.
abbrev pub after_join : ℕ → Pc → Main
after_join k Pc.done = joining (suc k)
after_join k _ = joining k

module _ (number_of_clients message_iteration : ℕ) where
  -- One step of `main`; the product is of two ints, whose overflow is undefined.
  unfoldable pub step_main : Main → System → Option Main
  step_main (creating k) s = some (if ltb k number_of_clients then creating (suc k) else joining 0)
  step_main (joining k) s =
      some (if ltb k number_of_clients then after_join k (s.clients k).pc else averaging)
  step_main averaging s =
      if leb (number_of_clients * message_iteration) int_max then some returned else none
  step_main returned s = some returned

  -- How many threads there are.
  abbrev pub created : Main → ℕ
  created (creating k) = k
  created _ = number_of_clients

  module _ (os : Os) (c : Constants) (shown : ℕ → Text) where
    unfoldable pub step : Thread → Program → Option Program
    step main_thread p = do m ← step_main p.main p.system; some (record p { main = m })
    step (client_thread i) p = do
      s ← Automation.step os c shown (created p.main) i p.system
      some (record p { system = s })

    unfoldable pub run : List Thread → Program → Option Program
    run [] p = some p
    run (t ∷ ts) p = do p' ← step t p; run ts p'

  -- Past the reading of the two numbers.
  abbrev pub launch : History → Program
  launch h = record { system = start message_iteration h; main = creating 0 }

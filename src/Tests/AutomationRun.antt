-- ===== src/Tests/AutomationRun.antt =====
-- The test client at concrete inputs: one thread with one message, whose connection is lost once.
use low_latency_experiments.Common.{
  ℕ, ℕ_discrete, zero, suc, ◌+◌, ◌*◌, ◌≤◌, ◌<◌, ◌≡◌, refl, List, [], ◌∷◌, Option, none, some, arith,
}
use low_latency_experiments.Common.Int.{int_max}
use low_latency_experiments.Common.Threads.{tally}
use low_latency_experiments.Network.System.{Text}
use low_latency_experiments.Network.Connection.{connector_connect, send, receive, create_tcp}
use low_latency_experiments.Network.Socket.{
  close, is_connection_lost, create, connect, set_socket_option, socket_address,
}
use low_latency_experiments.Network.Automation.{
  Pc, System, attempt, start_round, count, after_error, handle, attempt_again, lock, step_client,
  step, run, start,
}
use low_latency_experiments.Network.Automation.Balance.{sends, flying, finished, remaining}
use low_latency_experiments.Network.Automation.Sends.{sends_balanced, all_sent}
use low_latency_experiments.Tests.Sockets.{linux}
use low_latency_experiments.Tests.ReactorRun.{counting_os, counting-ReceivesAtMost}

-- One digit.
abbrev digit : ℕ → Text
digit k = (48 + k) ∷ []

abbrev always : List ℕ
always = 0 ∷ 0 ∷ 0 ∷ 0 ∷ 0 ∷ 0 ∷ 0 ∷ 0 ∷ 0 ∷ 0 ∷ []

one_message : 1 * 1 ≤ int_max
one_message = omega arith

sends_balanced_example :
    (s : System) × (run counting_os linux digit 1 always (start 1 []) ≡ some s)
    × (s.message_counter + tally remaining 1 s.clients ≡ 1 * 1)
    × (sends s.history + tally flying 1 s.clients
        ≡ s.message_counter + s.losses + tally finished 1 s.clients)
sends_balanced_example =
    sends_balanced counting_os linux digit 1 1 counting-ReceivesAtMost one_message always

abbrev value_of : Option System → System
value_of none = start 0 []
value_of (some s) = s

unfoldable ending : System
ending = value_of (run counting_os linux digit 1 always (start 1 []))

ending_lem : run counting_os linux digit 1 always (start 1 []) ≡ some ending
unfolding ending run step step_client attempt start_round lock count handle after_error
    attempt_again send receive close is_connection_lost connector_connect create_tcp create connect
    set_socket_option socket_address ℕ_discrete
ending_lem = refl

all_done : (i : ℕ) → i < 1 → (ending.clients i).pc ≡ Pc.done
unfolding ending run step step_client attempt start_round lock count handle after_error
    attempt_again send receive close is_connection_lost connector_connect create_tcp create connect
    set_socket_option socket_address ℕ_discrete
all_done zero lt = refl
all_done (suc i) lt = absurd (omega arith)

all_sent_test :
    (ending.message_counter ≡ 1 * 1) × (sends ending.history ≡ 1 * 1 + ending.losses + 1)
all_sent_test =
    all_sent counting_os linux digit 1 1 counting-ReceivesAtMost one_message always ending_lem
      all_done

-- ===== src/Tests/AutomationProgram.antt =====
-- The whole test client at concrete inputs: one client with one message.
use low_latency_experiments.Common.{
  ℕ, ℕ_discrete, ◌+◌, ◌≡◌, ◌≢◌, refl, List, [], ◌∷◌, Option, none, some, arith,
}
use low_latency_experiments.Common.Int.{ℤ, pos, negsuc}
use low_latency_experiments.Network.System.{Text, Call, History, Os}
use low_latency_experiments.Network.Connection.{connector_connect, send, receive, create_tcp}
use low_latency_experiments.Network.Socket.{
  close, is_connection_lost, create, connect, set_socket_option, socket_address,
}
use low_latency_experiments.Network.Automation.{
  Pc, attempt, start_round, count, after_error, handle, attempt_again, lock, step_client,
}
use low_latency_experiments.Network.Automation
use low_latency_experiments.Network.Automation.Program.{
  Main, creating, returned, Thread, main_thread, client_thread, Program, step_main, step, run,
  launch,
}
use low_latency_experiments.Network.Automation.Program.Refused.{RefusesAll, never_returns}
use low_latency_experiments.Tests.Sockets.{linux}
use low_latency_experiments.Tests.ReactorRun.{counting_os}

-- One digit.
abbrev digit : ℕ → Text
digit k = (48 + k) ∷ []

-- The client starts late, runs to its end, and is joined.
abbrev schedule : List Thread
schedule =
    client_thread 0
    ∷ main_thread
    ∷ main_thread
    ∷ client_thread 0
    ∷ client_thread 0
    ∷ client_thread 0
    ∷ client_thread 0
    ∷ client_thread 0
    ∷ client_thread 0
    ∷ main_thread
    ∷ client_thread 0
    ∷ client_thread 0
    ∷ client_thread 0
    ∷ client_thread 0
    ∷ main_thread
    ∷ main_thread
    ∷ main_thread
    ∷ []

abbrev main_of : Option Program → Main
main_of none = creating 0
main_of (some p) = p.main

schedule_returns_test :
    main_of (run 1 1 counting_os linux digit schedule (launch 1 1 [])) ≡ returned
unfolding run step step_main Automation.step step_client attempt start_round lock count handle
    after_error attempt_again send receive close is_connection_lost connector_connect create_tcp
    create connect set_socket_option socket_address ℕ_discrete
schedule_returns_test = refl

abbrev refusing_answer : History → Call → ℤ
refusing_answer h (Call.connect fd address) = negsuc 0
refusing_answer h _ = pos 3

abbrev refusing_os : Os
refusing_os = record counting_os { answer = refusing_answer }

refusing-RefusesAll : RefusesAll refusing_os
refusing-RefusesAll fd address h = refl

never_returns_example :
    (p : Program) × (run 2 1 refusing_os linux digit schedule (launch 2 1 []) ≡ some p)
    × (p.main ≢ returned)
    × ((i : ℕ) → (p.system.clients i).pc ≡ Pc.connecting)
    × (p.system.message_counter ≡ 0)
never_returns_example =
    never_returns refusing_os linux refusing-RefusesAll digit 2 1 (omega arith) schedule

-- ===== src/Tests/PerClientRun.antt =====
-- The server with one thread for each client at concrete inputs: a client is accepted and its thread
-- waits for a message.
use low_latency_experiments.Common.{
  ◌++◌, ◌⊎◌, ℕ, ◌≡◌, refl, true, false, replicate, List, [], ◌∷◌, Option, some, none, get_elem?,
  length,
}
use low_latency_experiments.Common.Int.{pos}
use low_latency_experiments.Network.Socket.{init as new_socket, listening, accept}
use low_latency_experiments.Network.Server.{Server, add_peer, place_peer}
use mathlib.Core.List.{flatten}
use low_latency_experiments.Network.PerClient.{
  Client, Thread, main_thread, acceptor_thread, client_thread, System, step_acceptor, step_client,
  step_found, step, run, start,
}
use low_latency_experiments.Network.PerClient.Invariant.{StandsAt}
use low_latency_experiments.Network.PerClient.Steps.{Early}
use low_latency_experiments.Network.PerClient.Mutex.{acceptor_holds}
use low_latency_experiments.Network.PerClient.Safety.{own_slot}
use low_latency_experiments.Network.PerClient.Program.{main, threads_defined}
use low_latency_experiments.Network.PerClient.Exclusion.{one_holder}
use low_latency_experiments.Network.PerClient.Blocking.{held_up}
use low_latency_experiments.Network.PerClient.Stopping
use low_latency_experiments.Network.PerClient.Stopping.{Program}
use low_latency_experiments.Tests.Sockets.{linux}
use low_latency_experiments.Tests.ReactorRun.{counting_os, counting-ReceivesAtMost}

abbrev nobody : Server
nobody = record {
  accept_timeout = pos 5;
  is_stopping = false;
  peers = [];
  flags = [];
  socket = record new_socket { descriptor = pos 3; state = listening };
}

-- A client is accepted, and its thread takes the mutex.
abbrev joining : List Thread
joining =
    acceptor_thread
    ∷ acceptor_thread
    ∷ acceptor_thread
    ∷ acceptor_thread
    ∷ acceptor_thread
    ∷ acceptor_thread
    ∷ client_thread 0
    ∷ client_thread 0
    ∷ client_thread 0
    ∷ []

threads_defined_example :
    ((s : System) × (main counting_os linux joining [] ≡ some s))
    ⊎ ((main counting_os linux joining [] ≡ none)
        × ((before : List Thread) × (t : Thread) × (after : List Thread) × (s : System) × (joining
              ≡ before ++ t ∷ after)
            × (main counting_os linux before [] ≡ some s)
            × Early t s))
threads_defined_example = threads_defined counting_os linux counting-ReceivesAtMost joining []

abbrev value_of : Option System → System
value_of none = start nobody []
value_of (some s) = s

unfoldable joined : System
unfolding run step step_acceptor step_found step_client add_peer place_peer accept
joined = value_of (run counting_os linux joining (start nobody []))

joined_lem : run counting_os linux joining (start nobody []) ≡ some joined
unfolding joined run step step_acceptor step_found step_client add_peer place_peer accept
joined_lem = refl

receives : StandsAt joined.clients 0 0 Client.receiving
unfolding joined run step step_acceptor step_found step_client add_peer place_peer accept
receives = refl

own_slot_example : (◌≡◌ {A = ℕ} 0 0) × (get_elem? joined.server.flags 0 ≡ some true)
own_slot_example =
    own_slot counting_os linux counting-ReceivesAtMost nobody [] (refl, refl) joining joined 0 0 0
      Client.receiving Client.receiving joined_lem receives receives refl refl

one_holder_example : (◌≡◌ {A = ℕ} 0 0) × (acceptor_holds joined.acceptor ≡ false)
one_holder_example =
    one_holder counting_os linux nobody [] joining joined 0 0 0 0 Client.receiving Client.receiving
      joined_lem receives receives refl refl

-- The thread that accepts has accepted a second client and wants the mutex.
abbrev waiting : List Thread
waiting = acceptor_thread ∷ acceptor_thread ∷ acceptor_thread ∷ acceptor_thread ∷ main_thread ∷ []

held_up_example :
    (t : System) × (run counting_os linux waiting joined ≡ some t)
    × StandsAt t.clients 0 0 Client.receiving
    × (length t.clients ≡ length joined.clients)
    × (t.server.flags ≡ joined.server.flags)
held_up_example =
    held_up counting_os linux nobody [] joining waiting joined 0 0 counting-ReceivesAtMost
      (refl, refl) joined_lem receives
      (λ e. cc e, (λ e. cc e, (λ e. cc e, (λ e. cc e, (λ e. cc e, tt)))))

-- Each thread takes its turn, one that may still be created too.
abbrev everyone : List Thread
everyone = main_thread ∷ acceptor_thread ∷ client_thread 0 ∷ client_thread 1 ∷ []

-- The rounds after `stop`.
abbrev nineteen : List Thread
nineteen = flatten (replicate 19 everyone)

-- The thread of the client runs before it is stored.
abbrev too_soon : List Thread
too_soon =
    acceptor_thread ∷ acceptor_thread ∷ acceptor_thread ∷ acceptor_thread ∷ client_thread 0 ∷ []

named_too_early_test : run counting_os linux too_soon (start nobody []) ≡ none
unfolding run step step_acceptor step_found step_client add_peer place_peer accept
named_too_early_test = refl

-- ===== src/Network/PerClient/Effort.antt =====
-- What the threads of the server have still to do once it is told to stop. A call of `accept` or
-- `receive` counts as one step: it is one that returns.
use low_latency_experiments.Common.{
  ℕ, zero, suc, ◌+◌, ◌≤◌, ◌<◌, List, [], ◌∷◌, ◌++◌, Bool, true, false, Option, some, ◌≡◌, refl, ap,
  set, length, arith,
}
use low_latency_experiments.Network.PerClient.{Acceptor, Client, Thread, System}
use low_latency_experiments.Network.PerClient.Invariant.{StandsAt}

abbrev pub acceptor_left : Acceptor → ℕ
acceptor_left Acceptor.checking = 1
acceptor_left Acceptor.accepting = 9
acceptor_left (Acceptor.locking peer) = 8
acceptor_left (Acceptor.adding peer) = 7
acceptor_left Acceptor.storing = 3
acceptor_left Acceptor.unlocking = 2
acceptor_left Acceptor.ended = 0

abbrev pub client_left : Client → ℕ
client_left Client.naming = 2
client_left Client.checking = 1
client_left Client.locking = 7
client_left Client.receiving = 6
client_left (Client.received read stored error) = 5
client_left (Client.handling read stored error) = 4
client_left Client.leaving = 3
client_left Client.removing = 2
client_left Client.left = 1
client_left Client.ended = 0

abbrev pub clients_left : List (ℕ × Client) → ℕ
clients_left [] = 0
clients_left ((slot, pc) ∷ clients) = client_left pc + clients_left clients

-- The threads that the acceptor may still create.
abbrev pub may_add : Acceptor → ℕ
may_add Acceptor.accepting = 1
may_add (Acceptor.locking peer) = 1
may_add (Acceptor.adding peer) = 1
may_add _ = 0

-- The thread has ended, or waits for the mutex.
abbrev pub acceptor_stuck : Option Thread → Acceptor → Bool
acceptor_stuck o Acceptor.ended = true
acceptor_stuck (some owner) (Acceptor.locking peer) = true
acceptor_stuck o _ = false

abbrev pub client_stuck : Option Thread → Client → Bool
client_stuck o Client.ended = true
client_stuck (some owner) Client.locking = true
client_stuck (some owner) Client.leaving = true
client_stuck o _ = false

pub clients_left-set :
    (clients : List (ℕ × Client)) (k i : ℕ) (pc pc' : Client)
    → StandsAt clients k i pc
    → clients_left (set clients k (i, pc')) + client_left pc
      ≡ clients_left clients + client_left pc'
clients_left-set [] k i pc pc' at = absurd (cc at)
clients_left-set ((j, q) ∷ clients) zero i pc pc' at =
    let same : q ≡ pc = cc at in omega (arith, ap client_left same)
clients_left-set ((j, q) ∷ clients) (suc k) i pc pc' at =
    omega (arith, clients_left-set clients k i pc pc' at)

pub clients_left-append :
    (clients : List (ℕ × Client)) (slot : ℕ)
    → clients_left (clients ++ ((slot, Client.naming) ∷ [])) ≡ clients_left clients + 2
clients_left-append [] slot = refl
clients_left-append ((j, q) ∷ clients) slot = omega (arith, clients_left-append clients slot)

abbrev pub threads_left : System → ℕ
threads_left s = acceptor_left s.acceptor + clients_left s.clients

-- A step of a stopping server that brings a thread nearer to its end; a new thread is to be joined
-- too.
pub record Nearer (s s' : System) : Type 0 where
  pub nearer : threads_left s' + length s'.clients < threads_left s + length s.clients
  pub longer : length s.clients ≤ length s'.clients
  pub few : length s'.clients + may_add s'.acceptor ≤ length s.clients + may_add s.acceptor
  pub stopping : s'.server.is_stopping ≡ true

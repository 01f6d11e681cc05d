-- ===== src/Network/PerClient/Waiting.antt =====
-- Which threads of the stopping server wait, and that a step of such a thread changes nothing.
use low_latency_experiments.Common.{
  ℕ, ◌+◌, ◌-◌, Bool, true, false, Option, none, some, ◌≡◌, refl, ap, get_elem?, length,
}
use low_latency_experiments.Network.System.{Os}
use low_latency_experiments.Network.Socket.Options.{Constants}
use low_latency_experiments.Network.PerClient.{
  Acceptor, Client, Thread, main_thread, acceptor_thread, client_thread, System, when_free,
  step_acceptor, step_client, step_found,
}
use low_latency_experiments.Network.PerClient
use low_latency_experiments.Network.PerClient.Effort.{acceptor_stuck, client_stuck, threads_left}
use low_latency_experiments.Network.PerClient.Stopping.{
  Main, serving, joining_acceptor, joining_client, stopped, Program, after_acceptor, after_client,
  step_main, step,
}

abbrev pub main_left : Main → (threads : ℕ) → ℕ
main_left serving n = n + 3
main_left joining_acceptor n = n + 2
main_left (joining_client k) n = n - k + 1
main_left stopped n = 0

abbrev pub left_to_do : Program → ℕ
left_to_do p = threads_left p.system + main_left p.main (length p.system.clients)

abbrev pub acceptor_runs : Acceptor → Bool
acceptor_runs Acceptor.ended = false
acceptor_runs _ = true

abbrev pub client_runs : Option (ℕ × Client) → Bool
client_runs none = false
client_runs (some (slot, Client.ended)) = false
client_runs (some (slot, _)) = true

-- The main thread waits in a `join`, or has returned.
abbrev pub main_stuck : Main → System → Bool
main_stuck serving s = false
main_stuck joining_acceptor s = acceptor_runs s.acceptor
main_stuck (joining_client k) s = client_runs (get_elem? s.clients k)
main_stuck stopped s = true

abbrev pub found_stuck : Option Thread → Option (ℕ × Client) → Bool
found_stuck o none = true
found_stuck o (some (slot, pc)) = client_stuck o pc

-- A step of the thread changes nothing.
abbrev pub stuck : Thread → Program → Bool
stuck main_thread p = main_stuck p.main p.system
stuck acceptor_thread p = acceptor_stuck p.system.owner p.system.acceptor
stuck (client_thread k) p = found_stuck p.system.owner (get_elem? p.system.clients k)

when_free-taken :
    (o : Option Thread) (f : Option Thread → Bool) (s t : System)
    → f none ≡ false
    → f o ≡ true
    → when_free o t s ≡ s
when_free-taken none f s t free taken = cc (free, taken)
when_free-taken (some owner) f s t free taken = refl

module _ (os : Os) (c : Constants) where
  step_acceptor-stuck :
      (pc : Acceptor) (s : System)
      → acceptor_stuck s.owner pc ≡ true
      → step_acceptor os c pc s ≡ some s
  unfolding step_acceptor
  step_acceptor-stuck Acceptor.ended s e = refl
  step_acceptor-stuck (Acceptor.locking peer) s e =
      ap some (when_free-taken s.owner (λ o. acceptor_stuck o (Acceptor.locking peer)) s _ refl e)
  step_acceptor-stuck _ s e = cc e

  step_client-stuck :
      (k slot : ℕ) (pc : Client) (s : System)
      → client_stuck s.owner pc ≡ true
      → step_client os c k slot pc s ≡ some s
  unfolding step_client
  step_client-stuck k slot Client.ended s e = refl
  step_client-stuck k slot Client.locking s e =
      ap some (when_free-taken s.owner (λ o. client_stuck o Client.locking) s _ refl e)
  step_client-stuck k slot Client.leaving s e =
      ap some (when_free-taken s.owner (λ o. client_stuck o Client.leaving) s _ refl e)
  step_client-stuck k slot _ s e = cc e

  step_found-stuck :
      (k : ℕ) (o : Option (ℕ × Client)) (s : System)
      → found_stuck s.owner o ≡ true
      → step_found os c k o s ≡ some s
  unfolding step_found
  step_found-stuck k none s e = refl
  step_found-stuck k (some (slot, pc)) s e = step_client-stuck k slot pc s e

  step_main-stuck :
      (m : Main) (s : System)
      → main_stuck m s ≡ true
      → step_main m s ≡ record { system = s; main = m }
  unfolding step_main
  step_main-stuck serving s e = cc e
  step_main-stuck joining_acceptor s e =
      ap (λ m. record { system = s; main = m }) (waits s.acceptor e)
    where
      waits : (a : Acceptor) → acceptor_runs a ≡ true → after_acceptor a ≡ joining_acceptor
      waits Acceptor.ended f = cc f
      waits _ f = refl
  step_main-stuck (joining_client k) s e =
      ap (λ m. record { system = s; main = m }) (waits (get_elem? s.clients k) e)
    where
      waits : (o : Option (ℕ × Client)) → client_runs o ≡ true → after_client k o ≡ joining_client k
      waits none f = cc f
      waits (some (slot, Client.ended)) f = cc f
      waits (some (slot, _)) f = refl
  step_main-stuck stopped s e = refl

  pub stuck_stays : (t : Thread) (p : Program) → stuck t p ≡ true → step os c t p ≡ some p
  unfolding step PerClient.step
  stuck_stays main_thread p e = ap some (step_main-stuck p.main p.system e)
  stuck_stays acceptor_thread p e = rw (step_acceptor-stuck p.system.acceptor p.system e) refl
  stuck_stays (client_thread k) p e =
      rw (step_found-stuck k (get_elem? p.system.clients k) p.system e) refl

-- ===== src/Network/PerClient/Moving.antt =====
-- The steps of the stopping program: none takes its threads further from their end.
use low_latency_experiments.Common.{
  [], ◌∷◌, ◌>>=◌, Option-cases, ℕ, suc, ◌+◌, ◌≤◌, ◌<◌, List, false, Option, none, some, ◌≡◌, ◌≢◌,
  ◌⊎◌, inl, inr, refl, ap, subst, get_elem?, get_elem?-lt, length, arith, Bool-cases, eq_of_some,
}
use low_latency_experiments.Common.Rounds.{Progress}
use low_latency_experiments.Network.System.{Os}
use low_latency_experiments.Network.Socket.Options.{Constants}
use low_latency_experiments.Network.Reactor.Serving.{ReceivesAtMost}
use low_latency_experiments.Network.PerClient.{
  Acceptor, Client, Thread, main_thread, acceptor_thread, client_thread, System, step_found, start,
}
use low_latency_experiments.Network.PerClient
use low_latency_experiments.Network.PerClient.Next.{Next}
use low_latency_experiments.Network.PerClient.Steps.{Early, step-Keeps}
use low_latency_experiments.Network.PerClient.Owners.{Owned, step-Owned}
use low_latency_experiments.Network.PerClient.Effort.{Nearer, clients_left-set}
use low_latency_experiments.Network.PerClient.Nearing.{step_acceptor-Nearer, step_client-Nearer}
use low_latency_experiments.Network.PerClient.Stopping.{
  Main, serving, joining_acceptor, joining_client, stopped, Program, after_acceptor, after_client,
  step_main, step, run,
}
use low_latency_experiments.Network.PerClient.Waiting.{
  main_left, left_to_do, acceptor_runs, client_runs, main_stuck, found_stuck, stuck, stuck_stays,
}
use low_latency_experiments.Network.PerClient.Awake.{Stopping, Counts, Ready, awake}

-- A step that brings a thread of the stopping program nearer to its end.
abbrev Moved : ℕ → Program → Option Program → Type 0
Moved bound p o = (q : Program) × (o ≡ some q) × Stopping bound q × (left_to_do q < left_to_do p)

-- A thread that comes too early has something left to do.
Early-left : (t : Thread) (p : Program) → Early t p.system → 0 < left_to_do p
Early-left (client_thread k) p (slot, at, storing, last) =
    omega (arith, clients_left-set p.system.clients k slot Client.naming Client.ended at)
Early-left main_thread p early = absurd early
Early-left acceptor_thread p early = absurd early

-- The program, or that it is undefined, when nothing is left to do.
abbrev pub StillStopping : ℕ → Option Program → Type 0
StillStopping bound none = Unit {0}
StillStopping bound (some p) = Stopping bound p

abbrev pub work_left : Option Program → ℕ
work_left none = 0
work_left (some p) = left_to_do p

abbrev CanStep : Thread → Option Program → Type 0
CanStep t none = ⊥
CanStep t (some p) = Ready t p

module _ (os : Os) (c : Constants) where
  -- A run from what an earlier step has left.
  abbrev step_on : Thread → Option Program → Option (Option Program)
  step_on t none = some none
  step_on t (some p) = some (step os c t p)

  abbrev pub run_on : List Thread → Option Program → Option (Option Program)
  run_on ts none = some none
  run_on ts (some p) = some (run os c ts p)

  run_next :
      (t : Thread) (ts : List Thread) (o : Option Program)
      → run_on (t ∷ ts) o ≡ (step_on t o >>= run_on ts)
  unfolding run
  run_next t ts none = refl
  run_next t ts (some p) = elim (Option-cases (step os c t p)) [
    | inl e ↦ rw e refl
    | inr (q, e) ↦ rw e refl
  ]

  run_none : (o : Option Program) → run_on [] o ≡ some o
  unfolding run
  run_none none = refl
  run_none (some p) = refl

main_left-more : (m : Main) (j k : ℕ) → j ≤ k → main_left m k + j ≤ main_left m j + k
main_left-more serving j k le = omega arith
main_left-more joining_acceptor j k le = omega arith
main_left-more (joining_client i) j k le = omega arith
main_left-more stopped j k le = omega arith

acceptor_joined : (a : Acceptor) → acceptor_runs a ≡ false → after_acceptor a ≡ joining_client 0
acceptor_joined Acceptor.ended e = refl
acceptor_joined _ e = cc e

client_joined :
    (clients : List (ℕ × Client)) (k : ℕ) (o : Option (ℕ × Client))
    → get_elem? clients k ≡ o
    → client_runs o ≡ false
    → (after_client k o ≡ stopped)
      ⊎ ((k < length clients) × (after_client k o ≡ joining_client (suc k)))
client_joined clients k none e free = inl refl
client_joined clients k (some (i, Client.ended)) e free = inr (get_elem?-lt clients k _ e, refl)
client_joined clients k (some (i, _)) e free = absurd (cc free)

-- The main thread goes on in `stop`.
main_goes_on :
    {bound : ℕ} (p : Program) (m : Main)
    → Stopping bound p
    → m ≢ serving
    → main_left m (length p.system.clients) < main_left p.main (length p.system.clients)
    → Moved bound p (some (record { system = p.system; main = m }))
main_goes_on p m inv called less = (
  _,
  refl,
  record {
    good = inv.good;
    owned = inv.owned;
    stopping = inv.stopping;
    called = called;
    few = inv.few;
  },
  omega (arith, less),
)

module _ (os : Os) (c : Constants) (at_most : ReceivesAtMost os) {bound : ℕ} where
  -- A step of the server, seen from the program.
  system-Moved :
      (t : Thread) (p : Program) (inv : Stopping bound p)
      → Next (Nearer p.system) (PerClient.step os c t p.system)
      → ((PerClient.step os c t p.system ≡ none) × (0 < left_to_do p))
        ⊎ ((s : System) × (PerClient.step os c t p.system ≡ some s)
            × Stopping bound (record p { system = s })
            × (left_to_do (record p { system = s }) < left_to_do p))
  system-Moved t p inv next = elim (step-Keeps os c at_most t p.system inv.good) [
    | inr (undefined, early) ↦ inl (undefined, Early-left t p early)
    | inl kept ↦
        let near : Nearer p.system kept.system = subst (Next (Nearer p.system)) kept.ran next in
        let owned : Owned kept.system =
          subst (Next Owned) kept.ran (step-Owned os c t p.system inv.owned) in
        inr (
          kept.system,
          kept.ran,
          record {
            good = kept.good;
            owned = owned;
            stopping = near.stopping;
            called = inv.called;
            few = omega (arith, near.few, inv.few);
          },
          omega (
            arith,
            near.nearer,
            near.longer,
            main_left-more p.main (length p.system.clients) (length kept.system.clients)
                near.longer,
          ),
        )
  ]

  client-Next :
      (k : ℕ) (p : Program) (inv : Stopping bound p) (o : Option (ℕ × Client))
      → get_elem? p.system.clients k ≡ o
      → found_stuck p.system.owner o ≡ false
      → Next (Nearer p.system) (step_found os c k o p.system)
  unfolding step_found
  client-Next k p inv none e free = absurd (cc free)
  client-Next k p inv (some (slot, pc)) e free =
      step_client-Nearer os c p.system inv.stopping k slot pc e free

  main-Moved :
      (m : Main) (p : Program)
      → p.main ≡ m
      → Stopping bound p
      → main_stuck m p.system ≡ false
      → Moved bound p (some (step_main m p.system))
  unfolding step_main
  main-Moved serving p e inv free = absurd (inv.called e)
  main-Moved joining_acceptor p e inv free =
      let next = acceptor_joined p.system.acceptor free in
      main_goes_on p _ inv (λ f. cc (f, next))
        (omega (
          arith,
          ap (λ m. main_left m (length p.system.clients)) next,
          ap (λ m. main_left m (length p.system.clients)) e,
        ))
  main-Moved (joining_client k) p e inv free =
      main_goes_on p _ inv (λ f. joined_called next f)
        (omega (arith, joined_less next, ap (λ m. main_left m (length p.system.clients)) e))
    where
      next :
          (after_client k (get_elem? p.system.clients k) ≡ stopped)
          ⊎ ((k < length p.system.clients)
              × (after_client k (get_elem? p.system.clients k) ≡ joining_client (suc k)))
      next = client_joined p.system.clients k (get_elem? p.system.clients k) refl free

      joined_called :
          {m : Main}
          → (m ≡ stopped) ⊎ ((k < length p.system.clients) × (m ≡ joining_client (suc k)))
          → m ≢ serving
      joined_called (inl g) f = cc (f, g)
      joined_called (inr g) f = cc (f, g.1)

      joined_less :
          {m : Main}
          → (m ≡ stopped) ⊎ ((k < length p.system.clients) × (m ≡ joining_client (suc k)))
          → main_left m (length p.system.clients)
            < main_left (joining_client k) (length p.system.clients)
      joined_less (inl g) = omega (arith, ap (λ m. main_left m (length p.system.clients)) g)
      joined_less (inr (lt, g)) = omega (arith, ap (λ m. main_left m (length p.system.clients)) g)
  main-Moved stopped p e inv free = absurd (cc free)

  moved :
      (t : Thread) (p : Program)
      → Stopping bound p
      → Ready t p
      → ((step os c t p ≡ none) × (0 < left_to_do p)) ⊎ Moved bound p (step os c t p)
  unfolding step PerClient.step
  moved main_thread p inv free = inr (main-Moved p.main p refl inv free)
  moved acceptor_thread p inv free =
      elim (system-Moved acceptor_thread p inv
        (step_acceptor-Nearer os c p.system inv.stopping p.system.acceptor refl free)) [
          | inl (undefined, left) ↦ inl (rw undefined refl, left)
          | inr (s, ran, inv', less) ↦ inr (record p { system = s }, rw ran refl, inv', less)
        ]
  moved (client_thread k) p inv free =
      elim (system-Moved (client_thread k) p inv
        (client-Next k p inv (get_elem? p.system.clients k) refl free)) [
          | inl (undefined, left) ↦ inl (rw undefined refl, left)
          | inr (s, ran, inv', less) ↦ inr (record p { system = s }, rw ran refl, inv', less)
        ]

  kept_on :
      (t : Thread) (p : Program)
      → Stopping bound p
      → StillStopping bound (step os c t p) × (work_left (step os c t p) ≤ left_to_do p)
  kept_on t p inv = elim (Bool-cases (stuck t p)) [
    | inl waits ↦ rw (stuck_stays os c t p waits) (inv, omega arith)
    | inr free ↦ elim (moved t p inv free) [
      | inl (undefined, left) ↦ rw undefined (tt, omega arith)
      | inr (q, ran, inv', less) ↦ rw ran (inv', omega (arith, less))
    ]
  ]

  keeps :
      (t : Thread) (o : Option Program)
      → StillStopping bound o
      → (o' : Option Program) × (step_on os c t o ≡ some o')
        × StillStopping bound o'
        × (work_left o' ≤ work_left o)
  keeps t none inv = (none, refl, tt, omega arith)
  keeps t (some p) inv = let (inv', le) = kept_on t p inv in (step os c t p, refl, inv', le)

  effect_on :
      (t u : Thread) (p : Program)
      → Stopping bound p
      → Ready u p
      → (work_left (step os c t p) < left_to_do p) ⊎ ((t ≢ u) × CanStep u (step os c t p))
  effect_on t u p inv ready = elim (Bool-cases (stuck t p)) [
    | inl waits ↦
        rw (stuck_stays os c t p waits) (inr (λ f. cc (waits, ready, ap (λ r. stuck r p) f), ready))
    | inr free ↦ elim (moved t p inv free) [
      | inl (undefined, left) ↦ rw undefined (inl left)
      | inr (q, ran, inv', less) ↦ rw ran (inl less)
    ]
  ]

module _ (os : Os) (c : Constants) (at_most : ReceivesAtMost os) (bound : ℕ) where
  effect :
      (t u : Thread) (o o' : Option Program)
      → StillStopping bound o
      → CanStep u o
      → step_on os c t o ≡ some o'
      → (work_left o' < work_left o) ⊎ ((t ≢ u) × CanStep u o')
  effect t u none o' inv ready e = absurd ready
  effect t u (some p) o' inv ready e =
      subst (λ r. (work_left r < left_to_do p) ⊎ ((t ≢ u) × CanStep u r)) (eq_of_some e)
        (effect_on os c at_most t u p inv ready)

  awake_on :
      (o : Option Program)
      → StillStopping bound o
      → (work_left o ≡ 0) ⊎ ((t : Thread) × Counts bound t × CanStep t o)
  awake_on none inv = inl refl
  awake_on (some p) inv = awake inv

  pub program :
      Progress
        (λ t. t)
        (step_on os c)
        (run_on os c)
        (StillStopping bound)
        work_left
        (Counts bound)
        CanStep
  program = record {
    run_none = run_none os c;
    run_next = run_next os c;
    keeps = keeps os c at_most;
    effect = effect;
    awake = awake_on;
  }

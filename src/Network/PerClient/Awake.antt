-- ===== src/Network/PerClient/Awake.antt =====
-- While the stopping server has something left to do, some thread of it does not wait.
use low_latency_experiments.Common.{
  ℕ, zero, suc, ◌+◌, ◌≤◌, ◌<◌, List, [], ◌∷◌, true, false, Option, none, some, ◌≡◌, ◌≢◌, ◌⊎◌, inl,
  inr, refl, ap, ◌∙◌, get_elem?, get_elem?-lt, length, arith,
}
use low_latency_experiments.Network.PerClient.{
  Acceptor, Client, Thread, main_thread, acceptor_thread, client_thread,
}
use low_latency_experiments.Network.PerClient.Invariant.{StandsAt}
use low_latency_experiments.Network.PerClient.Steps.{Good}
use low_latency_experiments.Network.PerClient.Mutex.{holds, acceptor_holds}
use low_latency_experiments.Network.PerClient.Owners.{OwnerHolds, Owned}
use low_latency_experiments.Network.PerClient.Effort.{
  acceptor_left, client_left, clients_left, may_add, acceptor_stuck, client_stuck,
}
use low_latency_experiments.Network.PerClient.Stopping.{
  Main, serving, joining_acceptor, joining_client, stopped, Program,
}
use low_latency_experiments.Network.PerClient.Waiting.{
  main_left, left_to_do, acceptor_runs, client_runs, main_stuck, found_stuck, stuck,
}

-- `stop` has been called, and at most `bound` threads of clients will have been created.
pub record Stopping (bound : ℕ) (p : Program) : Type 0 where
  pub good : Good p.system
  pub owned : Owned p.system
  pub stopping : p.system.server.is_stopping ≡ true
  pub called : p.main ≢ serving
  pub few : length p.system.clients + may_add p.system.acceptor ≤ bound

-- The threads of the server, and the main thread.
abbrev pub Counts : ℕ → Thread → Type 0
Counts bound (client_thread k) = k < bound
Counts bound _ = Unit {0}

abbrev pub Ready : Thread → Program → Type 0
Ready t p = stuck t p ≡ false

pub all_ended :
    (clients : List (ℕ × Client)) (k i : ℕ) (pc : Client)
    → clients_left clients ≡ 0
    → StandsAt clients k i pc
    → client_left pc ≡ 0
all_ended [] k i pc e at = absurd (cc at)
all_ended ((j, q) ∷ clients) zero i pc e at =
    let same : q ≡ pc = cc at in omega (arith, ap client_left same)
all_ended ((j, q) ∷ clients) (suc k) i pc e at = all_ended clients k i pc (omega arith) at

pub ended_client : (pc : Client) → client_left pc ≡ 0 → pc ≡ Client.ended
ended_client Client.ended e = refl
ended_client _ e = absurd (omega arith)

pub ended_acceptor : (a : Acceptor) → acceptor_left a ≡ 0 → a ≡ Acceptor.ended
ended_acceptor Acceptor.ended e = refl
ended_acceptor _ e = absurd (omega arith)

-- With the mutex free, a thread that has not ended is not stuck.
free_acceptor : (a : Acceptor) → (a ≡ Acceptor.ended) ⊎ (acceptor_stuck none a ≡ false)
free_acceptor Acceptor.ended = inl refl
free_acceptor (Acceptor.locking peer) = inr refl
free_acceptor _ = inr refl

free_client : (pc : Client) → (client_left pc ≡ 0) ⊎ (client_stuck none pc ≡ false)
free_client Client.ended = inl refl
free_client Client.locking = inr refl
free_client Client.leaving = inr refl
free_client _ = inr refl

find_running :
    (clients : List (ℕ × Client))
    → (clients_left clients ≡ 0)
      ⊎ ((k : ℕ) × (i : ℕ) × (pc : Client) × StandsAt clients k i pc
          × (client_stuck none pc ≡ false))
find_running [] = inl refl
find_running ((i, pc) ∷ clients) = elim (free_client pc) [
  | inr free ↦ inr (0, i, pc, refl, free)
  | inl done ↦ elim (find_running clients) [
    | inl none_left ↦ inl (omega arith)
    | inr (k, j, q, at, free) ↦ inr (suc k, j, q, at, free)
  ]
]

-- The thread that has the mutex is not stuck.
holding_acceptor :
    (o : Option Thread) (a : Acceptor) → acceptor_holds a ≡ true → acceptor_stuck o a ≡ false
holding_acceptor o (Acceptor.adding peer) e = refl
holding_acceptor o Acceptor.storing e = refl
holding_acceptor o Acceptor.unlocking e = refl
holding_acceptor o _ e = absurd (cc e)

holding_client : (o : Option Thread) (pc : Client) → holds pc ≡ true → client_stuck o pc ≡ false
holding_client o Client.receiving e = refl
holding_client o (Client.received read stored error) e = refl
holding_client o Client.removing e = refl
holding_client o Client.left e = refl
holding_client o _ e = absurd (cc e)

module _ {bound : ℕ} {p : Program} (inv : Stopping bound p) where
  -- Some thread can be brought nearer to its end.
  abbrev pub CanGo : Type 0
  CanGo = (t : Thread) × Counts bound t × Ready t p

  client-CanGo :
      (k i : ℕ) (pc : Client)
      → StandsAt p.system.clients k i pc
      → client_stuck p.system.owner pc ≡ false
      → CanGo
  client-CanGo k i pc at free = (
    client_thread k,
    omega (arith, inv.few, get_elem?-lt p.system.clients k (i, pc) at),
    ap (found_stuck p.system.owner) at ∙ free,
  )

  owner-CanGo :
      (o : Option Thread) → OwnerHolds o p.system.acceptor p.system.clients → (o ≡ none) ⊎ CanGo
  owner-CanGo none h = inl refl
  owner-CanGo (some main_thread) h = absurd h
  owner-CanGo (some acceptor_thread) h =
      inr (acceptor_thread, tt, holding_acceptor p.system.owner p.system.acceptor h)
  owner-CanGo (some (client_thread k)) (i, pc, at, h) =
      inr (client-CanGo k i pc at (holding_client p.system.owner pc h))

  main-CanGo :
      p.system.acceptor ≡ Acceptor.ended
      → clients_left p.system.clients ≡ 0
      → (m : Main) → p.main ≡ m
      → (p.main ≡ stopped) ⊎ CanGo
  main-CanGo a none_left serving e = absurd (inv.called e)
  main-CanGo a none_left joining_acceptor e =
      inr (main_thread, tt, ap (λ m. main_stuck m p.system) e ∙ ap acceptor_runs a)
  main-CanGo a none_left (joining_client k) e = inr (
    main_thread,
    tt,
    ap (λ m. main_stuck m p.system) e ∙ over (get_elem? p.system.clients k) refl,
  )
    where
      over : (o : Option (ℕ × Client)) → get_elem? p.system.clients k ≡ o → client_runs o ≡ false
      over none f = refl
      over (some (i, pc)) f =
          let done = ended_client pc (all_ended p.system.clients k i pc none_left f) in
          ap (λ q. client_runs (some (i, q))) done
  main-CanGo a none_left stopped e = inl e

  free-CanGo : p.system.owner ≡ none → (left_to_do p ≡ 0) ⊎ CanGo
  free-CanGo free = elim (free_acceptor p.system.acceptor) [
    | inr runs ↦ inr (acceptor_thread, tt, rw free runs)
    | inl a ↦ elim (find_running p.system.clients) [
      | inr (k, i, pc, at, runs) ↦ inr (client-CanGo k i pc at (rw free runs))
      | inl none_left ↦ elim (main-CanGo a none_left p.main refl) [
        | inl e ↦ inl (
            omega (
              arith,
              ap acceptor_left a,
              none_left,
              ap (λ m. main_left m (length p.system.clients)) e,
            ))
        | inr can ↦ inr can
      ]
    ]
  ]

  pub awake : (left_to_do p ≡ 0) ⊎ CanGo
  awake = elim (owner-CanGo p.system.owner inv.owned) [
    | inl free ↦ free-CanGo free
    | inr can ↦ inr can
  ]

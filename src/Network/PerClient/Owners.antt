-- ===== src/Network/PerClient/Owners.antt =====
-- The owner of `m_peerSocketsLock` is between taking the mutex and releasing it.
use low_latency_experiments.Common.{
  ltb, length, ℕ, List, [], ◌∷◌, ◌++◌, true, Option, none, some, ◌≡◌, ◌≢◌, refl, sym, ap, ◌∙◌,
  subst, get_elem?, set, get_elem?-lt, get_elem?-set_self, get_elem?-set_ne, get_elem?-append_ne,
  ℕ_discrete, arith, leb, length,
}
use low_latency_experiments.Common.Int.{ℤ, pos_part}
use low_latency_experiments.Network.System.{Text, History, Os}
use low_latency_experiments.Network.Socket.Options.{Constants}
use low_latency_experiments.Network.Socket.{Socket, is_positive}
use low_latency_experiments.Network.Server.{Server, remove_peer}
use low_latency_experiments.Network.Server
use low_latency_experiments.Network.PerClient.{
  stored_threads, Acceptor, Client, Thread, main_thread, acceptor_thread, client_thread, System,
  buffer_room, step_acceptor, handle_read, remove_step, step_client, step_found, step,
}
use low_latency_experiments.Network.PerClient.Invariant.{StandsAt}
use low_latency_experiments.Network.PerClient.Next.{Next, when_free-Next, if-Next, >>=-Next}
use low_latency_experiments.Network.PerClient.Mutex.{holds, acceptor_holds}

abbrev pub OwnerHolds : Option Thread → Acceptor → List (ℕ × Client) → Type 0
OwnerHolds none acceptor clients = Unit {0}
OwnerHolds (some main_thread) acceptor clients = ⊥
OwnerHolds (some acceptor_thread) acceptor clients = acceptor_holds acceptor ≡ true
OwnerHolds (some (client_thread k)) acceptor clients =
    (i : ℕ) × (pc : Client) × StandsAt clients k i pc × (holds pc ≡ true)

abbrev pub Owned : System → Type 0
Owned s = OwnerHolds s.owner s.acceptor s.clients

OwnerHolds-acceptor :
    (o : Option Thread) (a a' : Acceptor) (clients : List (ℕ × Client))
    → (acceptor_holds a ≡ true → acceptor_holds a' ≡ true)
    → OwnerHolds o a clients
    → OwnerHolds o a' clients
OwnerHolds-acceptor none a a' clients keep h = tt
OwnerHolds-acceptor (some main_thread) a a' clients keep h = h
OwnerHolds-acceptor (some acceptor_thread) a a' clients keep h = keep h
OwnerHolds-acceptor (some (client_thread k)) a a' clients keep h = h

stands_lt :
    (clients : List (ℕ × Client)) (k i : ℕ) (pc : Client)
    → StandsAt clients k i pc
    → k ≢ length clients
stands_lt clients k i pc at e = omega (arith, get_elem?-lt clients k (i, pc) at)

OwnerHolds-add :
    (o : Option Thread) (a : Acceptor) (clients : List (ℕ × Client)) (x : ℕ × Client)
    → OwnerHolds o a clients
    → OwnerHolds o a (clients ++ (x ∷ []))
OwnerHolds-add none a clients x h = tt
OwnerHolds-add (some main_thread) a clients x h = h
OwnerHolds-add (some acceptor_thread) a clients x h = h
OwnerHolds-add (some (client_thread k)) a clients x (i, pc, at, h) =
    (i, pc, get_elem?-append_ne clients x k (stands_lt clients k i pc at) ∙ at, h)

-- Thread `k` goes on, and keeps the mutex where it had it.
OwnerHolds-move :
    (o : Option Thread) (a : Acceptor) (clients : List (ℕ × Client)) (k slot : ℕ) (pc pc' : Client)
    → StandsAt clients k slot pc
    → (holds pc ≡ true → holds pc' ≡ true)
    → OwnerHolds o a clients
    → OwnerHolds o a (set clients k (slot, pc'))
OwnerHolds-move none a clients k slot pc pc' at keep h = tt
OwnerHolds-move (some main_thread) a clients k slot pc pc' at keep h = h
OwnerHolds-move (some acceptor_thread) a clients k slot pc pc' at keep h = h
OwnerHolds-move (some (client_thread j)) a clients k slot pc pc' at keep (i, q, at', h) =
    elim (ℕ_discrete j k) [
      | yes e ↦
          let same : q ≡ pc = cc (at, subst (λ n. StandsAt clients n i q) e at') in
          (
            slot,
            pc',
            subst (λ n. StandsAt (set clients k (slot, pc')) n slot pc') (sym e)
                (get_elem?-set_self clients k (slot, pc') (get_elem?-lt clients k (slot, pc) at)),
            keep (ap holds (sym same) ∙ h),
          )
      | no ne ↦ (i, q, get_elem?-set_ne clients k j (slot, pc') ne ∙ at', h)
    ]

module _ (os : Os) (c : Constants) where
  step_acceptor-Owned :
      (pc : Acceptor) (s : System)
      → s.acceptor ≡ pc
      → Owned s
      → Next Owned (step_acceptor os c pc s)
  unfolding step_acceptor
  step_acceptor-Owned Acceptor.checking s e h =
      OwnerHolds-acceptor s.owner s.acceptor _ s.clients (λ f. absurd (cc (f, ap acceptor_holds e)))
        h
  step_acceptor-Owned Acceptor.accepting s e h =
      OwnerHolds-acceptor s.owner s.acceptor _ s.clients (λ f. absurd (cc (f, ap acceptor_holds e)))
        h
  step_acceptor-Owned (Acceptor.locking peer) s e h =
      when_free-Next Owned s.owner _ s (λ free. refl) h
  step_acceptor-Owned (Acceptor.adding peer) s e h =
      OwnerHolds-acceptor s.owner s.acceptor Acceptor.storing _ (λ f. refl)
        (OwnerHolds-add s.owner s.acceptor s.clients _ h)
  step_acceptor-Owned Acceptor.storing s e h =
      OwnerHolds-acceptor s.owner s.acceptor Acceptor.unlocking s.clients (λ f. refl) h
  step_acceptor-Owned Acceptor.unlocking s e h = tt
  step_acceptor-Owned Acceptor.ended s e h = h

  module _ (s : System) (h : Owned s) (k slot : ℕ) where
    moves :
        (pc pc' : Client)
        → StandsAt s.clients k slot pc
        → (holds pc ≡ true → holds pc' ≡ true)
        → OwnerHolds s.owner s.acceptor (set s.clients k (slot, pc'))
    moves pc pc' at keep = OwnerHolds-move s.owner s.acceptor s.clients k slot pc pc' at keep h

    takes :
        (pc pc' : Client)
        → StandsAt s.clients k slot pc
        → holds pc' ≡ true
        → OwnerHolds (some (client_thread k)) s.acceptor (set s.clients k (slot, pc'))
    takes pc pc' at held = (
      slot,
      pc',
      get_elem?-set_self s.clients k (slot, pc') (get_elem?-lt s.clients k (slot, pc) at),
      held,
    )

    handle_read-Owned :
        (peer : Socket) (read : ℤ) (stored : Text) (error : ℤ)
        → StandsAt s.clients k slot (Client.handling read stored error)
        → Next Owned (handle_read os c s k slot peer read stored error)
    unfolding handle_read
    handle_read-Owned peer read stored error at =
        if-Next Owned (is_positive read) _ _
          (if-Next Owned (leb (pos_part read) buffer_room) _ none (moves _ _ at (λ f. cc f)) tt)
          (moves _ _ at (λ f. cc f))

    remove_step-Owned :
        (o : Option Server × History)
        → StandsAt s.clients k slot Client.removing
        → Next Owned (remove_step os c s k slot o)
    unfolding remove_step
    remove_step-Owned (none, g) at = tt
    remove_step-Owned (some server, g) at = moves Client.removing Client.left at (λ f. refl)

    step_client-Owned :
        (pc : Client) → StandsAt s.clients k slot pc → Next Owned (step_client os c k slot pc s)
    unfolding step_client
    step_client-Owned Client.naming at =
        if-Next Owned (ltb slot (stored_threads s.acceptor (length s.clients))) _ none
          (moves _ _ at (λ f. cc f)) tt
    step_client-Owned Client.checking at = moves _ _ at (λ f. cc f)
    step_client-Owned Client.locking at =
        when_free-Next Owned s.owner _ s (λ free. takes _ _ at refl) h
    step_client-Owned Client.receiving at =
        >>=-Next Owned (get_elem? s.server.peers slot) _ (λ peer. moves _ _ at (λ f. refl))
    step_client-Owned (Client.received read stored error) at = tt
    step_client-Owned (Client.handling read stored error) at =
        >>=-Next Owned (get_elem? s.server.peers slot) _
          (λ peer. handle_read-Owned peer read stored error at)
    step_client-Owned Client.leaving at =
        when_free-Next Owned s.owner _ s (λ free. takes _ _ at refl) h
    step_client-Owned Client.removing at =
        remove_step-Owned (remove_peer os c s.server slot s.history) at
    step_client-Owned Client.left at = tt
    step_client-Owned Client.ended at = h

  step_found-Owned :
      (s : System) (k : ℕ) (o : Option (ℕ × Client))
      → Owned s
      → get_elem? s.clients k ≡ o
      → Next Owned (step_found os c k o s)
  unfolding step_found
  step_found-Owned s k none h e = h
  step_found-Owned s k (some (slot, pc)) h e = step_client-Owned s h k slot pc e

  pub step-Owned : (t : Thread) (s : System) → Owned s → Next Owned (step os c t s)
  unfolding step Server.stop
  step-Owned main_thread s h = h
  step-Owned acceptor_thread s h = step_acceptor-Owned s.acceptor s refl h
  step-Owned (client_thread k) s h = step_found-Owned s k (get_elem? s.clients k) h refl

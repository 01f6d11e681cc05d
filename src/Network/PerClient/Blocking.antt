-- ===== src/Network/PerClient/Blocking.antt =====
-- What a client that sends nothing does to the others, since `handleClient` of
-- epoll_vs_multithreaded_io/server_thread_per_client.cpp receives under the mutex.
use low_latency_experiments.Common.{
  ltb, length, ℕ, List, [], ◌∷◌, Bool, true, Option, none, some, ◌≡◌, ◌≢◌, refl, sym, ap, ◌∙◌,
  subst, inl, inr, get_elem?, set, length, length-set, get_elem?-set_ne, leb,
}
use low_latency_experiments.Common.Int.{ℤ, pos_part}
use low_latency_experiments.Network.System.{Text, History, Os}
use low_latency_experiments.Network.Socket.Options.{Constants}
use low_latency_experiments.Network.Socket.{Socket, is_positive}
use low_latency_experiments.Network.Server.{Server, remove_peer}
use low_latency_experiments.Network.Server
use low_latency_experiments.Network.PerClient.{
  stored_threads, Acceptor, Client, Thread, main_thread, acceptor_thread, client_thread, System,
  buffer_room, when_free, step_acceptor, handle_read, step_client, step_found, step, run, start,
}
use low_latency_experiments.Network.PerClient.Invariant.{StandsAt}
use low_latency_experiments.Network.PerClient.Steps.{Good, Early, step-Keeps}
use low_latency_experiments.Network.PerClient.Next.{Next, if-Next, >>=-Next}
use low_latency_experiments.Network.PerClient.Mutex.{holds, acceptor_holds}
use low_latency_experiments.Network.PerClient.Exclusion.{Locked, step-Next, run-Next, start-Locked}
use low_latency_experiments.Network.Reactor.Serving.{ReceivesAtMost}
use low_latency_experiments.Network.PerClient.Safety.{IsEmpty, reached}

-- The schedule has no step of the thread.
abbrev pub Without : ℕ → List Thread → Type 0
Without k [] = Unit {0}
Without k (t ∷ ts) = (t ≢ client_thread k) × Without k ts

module _ (k slot : ℕ) (flags : List Bool) (n : ℕ) where
  -- Thread `k` still receives; there are `n` threads of clients, and `flags` say who is connected.
  pub record Held (s : System) : Type 0 where
    pub receives : StandsAt s.clients k slot Client.receiving
    pub same_flags : s.server.flags ≡ flags
    pub same_threads : length s.clients ≡ n

  module _ (s : System) (inv : Locked s) (held : Held s) where
    owned : s.owner ≡ some (client_thread k)
    owned = inv.of_client k slot Client.receiving held.receives refl

    -- A thread that wants the mutex waits.
    waits : (t : System) → Next Held (some (when_free s.owner t s))
    waits t = taken s.owner owned
      where
        taken :
            (o : Option Thread) → o ≡ some (client_thread k) → Next Held (some (when_free o t s))
        taken none e = absurd (cc e)
        taken (some owner) e = held

  module _ (os : Os) (c : Constants) (s : System) (inv : Locked s) (held : Held s) where
    step_acceptor-Held : (pc : Acceptor) → s.acceptor ≡ pc → Next Held (step_acceptor os c pc s)
    unfolding step_acceptor
    step_acceptor-Held Acceptor.checking e = record {
      receives = held.receives;
      same_flags = held.same_flags;
      same_threads = held.same_threads;
    }
    step_acceptor-Held Acceptor.accepting e = record {
      receives = held.receives;
      same_flags = held.same_flags;
      same_threads = held.same_threads;
    }
    step_acceptor-Held (Acceptor.locking peer) e = waits s inv held _
    step_acceptor-Held (Acceptor.adding peer) e =
        absurd (cc (owned s inv held, inv.of_acceptor (ap acceptor_holds e)))
    step_acceptor-Held Acceptor.storing e =
        absurd (cc (owned s inv held, inv.of_acceptor (ap acceptor_holds e)))
    step_acceptor-Held Acceptor.unlocking e =
        absurd (cc (owned s inv held, inv.of_acceptor (ap acceptor_holds e)))
    step_acceptor-Held Acceptor.ended e = held

    module _ (j i : ℕ) (other : j ≢ k) where
      moved : (q : Client) → StandsAt (set s.clients j (i, q)) k slot Client.receiving
      moved q = get_elem?-set_ne s.clients j k (i, q) (λ e. other (sym e)) ∙ held.receives

      counted : (q : Client) → length (set s.clients j (i, q)) ≡ n
      counted q = length-set s.clients j (i, q) ∙ held.same_threads

      not_there : (q : Client) → StandsAt s.clients j i q → holds q ≡ true → ⊥
      not_there q at h = other (cc (owned s inv held, inv.of_client j i q at h))

      handle_read-Held :
          (peer : Socket) (read : ℤ) (stored : Text) (error : ℤ)
          → Next Held (handle_read os c s j i peer read stored error)
      unfolding handle_read
      handle_read-Held peer read stored error =
          if-Next Held (is_positive read) _ _
            (if-Next Held (leb (pos_part read) buffer_room) _ none
              (record {
                receives = moved _;
                same_flags = held.same_flags;
                same_threads = counted _;
              })
              tt)
            (record { receives = moved _; same_flags = held.same_flags; same_threads = counted _ })

      step_client-Held :
          (q : Client) → StandsAt s.clients j i q → Next Held (step_client os c j i q s)
      unfolding step_client
      step_client-Held Client.naming at =
          if-Next Held (ltb i (stored_threads s.acceptor (length s.clients))) _ none
            (record { receives = moved _; same_flags = held.same_flags; same_threads = counted _ })
            tt
      step_client-Held Client.checking at = record {
        receives = moved _;
        same_flags = held.same_flags;
        same_threads = counted _;
      }
      step_client-Held Client.locking at = waits s inv held _
      step_client-Held Client.receiving at = absurd (not_there Client.receiving at refl)
      step_client-Held (Client.received read stored error) at = absurd (not_there _ at refl)
      step_client-Held (Client.handling read stored error) at =
          >>=-Next Held (get_elem? s.server.peers i) _
            (λ peer. handle_read-Held peer read stored error)
      step_client-Held Client.leaving at = waits s inv held _
      step_client-Held Client.removing at = absurd (not_there Client.removing at refl)
      step_client-Held Client.left at = absurd (not_there Client.left at refl)
      step_client-Held Client.ended at = held

    step_found-Held :
        (j : ℕ) (o : Option (ℕ × Client))
        → j ≢ k
        → get_elem? s.clients j ≡ o
        → Next Held (step_found os c j o s)
    unfolding step_found
    step_found-Held j none other e = held
    step_found-Held j (some (i, q)) other e = step_client-Held j i other q e

    step-Held : (t : Thread) → t ≢ client_thread k → Next Held (step os c t s)
    unfolding step Server.stop
    step-Held main_thread ne = record {
      receives = held.receives;
      same_flags = held.same_flags;
      same_threads = held.same_threads;
    }
    step-Held acceptor_thread ne = step_acceptor-Held s.acceptor refl
    step-Held (client_thread j) ne =
        step_found-Held j (get_elem? s.clients j) (λ e. ne (ap client_thread e)) refl

  -- The thread that accepts is not about to store a thread, since it would hold the mutex.
  not-Early : (t : Thread) (s : System) → Locked s → Held s → Early t s → ⊥
  not-Early (client_thread j) s inv held (slot, at, storing, last) =
      absurd (cc (owned s inv held, inv.of_acceptor (ap acceptor_holds storing)))
  not-Early main_thread s inv held early = early
  not-Early acceptor_thread s inv held early = early

  run-Held :
      (os : Os) (c : Constants)
      → ReceivesAtMost os
      → (ts : List Thread) (s : System) → Without k ts
      → Good s
      → Locked s
      → Held s
      → (t : System) × (run os c ts s ≡ some t) × Held t
  unfolding run
  run-Held os c at_most [] s w good inv held = (s, refl, held)
  run-Held os c at_most (t ∷ ts) s (ne, w) good inv held = elim (step-Keeps os c at_most t s good) [
    | inr (undefined, early) ↦ absurd (not-Early t s inv held early)
    | inl kept ↦
        let locked : Locked kept.system = subst (Next Locked) kept.ran (step-Next os c t s inv) in
        let next : Held kept.system = subst (Next Held) kept.ran (step-Held os c s inv held t ne) in
        let (u, ran, held') = run-Held os c at_most ts kept.system w kept.good locked next in
        (u, rw (kept.ran) ran, held')
  ]

-- If `recv` stores no more than it is asked for: after any schedule from a server without peers,
-- let a client thread stand before its `receive` with the mutex. Every schedule in which this thread
-- takes no step is defined, and after it the thread stands there still, there are as many client
-- threads as before, and the same slots count as connected.
pub held_up :
    (os : Os) (c : Constants) (v : Server) (h : History) (before after : List Thread) (s : System)
    (k slot : ℕ)
    → ReceivesAtMost os
    → IsEmpty v
    → run os c before (start v h) ≡ some s
    → StandsAt s.clients k slot Client.receiving
    → Without k after
    → (t : System) × (run os c after s ≡ some t)
      × StandsAt t.clients k slot Client.receiving
      × (length t.clients ≡ length s.clients)
      × (t.server.flags ≡ s.server.flags)
held_up os c v h before after s k slot at_most empty ran at w =
    let inv : Locked s =
      subst (Next Locked) ran (run-Next os c before (start v h) (start-Locked os c v h)) in
    let now : Held k slot s.server.flags (length s.clients) s = record {
      receives = at;
      same_flags = refl;
      same_threads = refl;
    } in
    let (t, ran', then) =
      run-Held k slot s.server.flags (length s.clients) os c at_most after s w
        (reached os c at_most v h empty before s ran) inv now in
    (t, ran', then.receives, then.same_threads, then.same_flags)

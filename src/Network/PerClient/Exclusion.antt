-- ===== src/Network/PerClient/Exclusion.antt =====
-- How the threads of the server use `m_peerSocketsLock` of
-- epoll_vs_multithreaded_io/network/tcp_server_thread_per_client.h.
use low_latency_experiments.Common.{
  ltb, length, ℕ, List, [], ◌∷◌, Bool, true, false, Option, none, some, ◌≡◌, refl, ap, subst, inl,
  inr, get_elem?, Option-cases, Bool-cases, leb, if◌then◌else◌,
}
use low_latency_experiments.Common.Int.{ℤ, pos_part}
use low_latency_experiments.Network.System.{Text, History, Os}
use low_latency_experiments.Network.Socket.Options.{Constants}
use low_latency_experiments.Network.Socket.{Socket, is_positive}
use low_latency_experiments.Network.Server.{Server, remove_peer}
use low_latency_experiments.Network.Server
use low_latency_experiments.Network.PerClient.{
  stored_threads, Acceptor, Client, Thread, main_thread, acceptor_thread, client_thread, System,
  after_message, after_accept, buffer_room, step_acceptor, handle_read, remove_step, step_client,
  step_found, step, run, start,
}
use low_latency_experiments.Network.PerClient.Invariant.{StandsAt}
use low_latency_experiments.Network.PerClient.Next.{Next, when_free-Next, if-Next, >>=-Next}
use low_latency_experiments.Network.PerClient.Mutex.{
  holds, acceptor_holds, LockInv, LockInv-acceptor, LockInv-acceptor_takes,
  LockInv-acceptor_releases, LockInv-add, LockInv-takes, LockInv-releases, LockInv-move,
}

abbrev pub Locked : System → Type 0
Locked s = LockInv s.owner s.acceptor s.clients

-- A peer that was accepted is about to be locked for.
after_accept-free : (o : Option Socket) → acceptor_holds (after_accept o) ≡ false
after_accept-free none = refl
after_accept-free (some peer) = refl

after_message-free : (b : Bool) → holds (after_message b) ≡ false
after_message-free true = refl
after_message-free false = refl

going_on-free : (b : Bool) → holds (if b then Client.ended else Client.locking) ≡ false
going_on-free true = refl
going_on-free false = refl

looking-free :
    (b : Bool) → acceptor_holds (if b then Acceptor.ended else Acceptor.accepting) ≡ false
looking-free true = refl
looking-free false = refl

module _ (os : Os) (c : Constants) where
  step_acceptor-Next :
      (pc : Acceptor) (s : System)
      → s.acceptor ≡ pc
      → Locked s
      → Next Locked (step_acceptor os c pc s)
  unfolding step_acceptor
  step_acceptor-Next Acceptor.checking s e inv =
      LockInv-acceptor inv _ (λ f. absurd (cc (f, looking-free s.server.is_stopping)))
  step_acceptor-Next Acceptor.accepting s e inv =
      LockInv-acceptor inv _ (λ f. absurd (cc (f, after_accept-free _)))
  step_acceptor-Next (Acceptor.locking peer) s e inv =
      when_free-Next Locked s.owner _ s (λ free. LockInv-acceptor_takes inv _ free) inv
  step_acceptor-Next (Acceptor.adding peer) s e inv =
      LockInv-acceptor (LockInv-add inv _) Acceptor.storing (λ f. ap acceptor_holds e)
  step_acceptor-Next Acceptor.storing s e inv =
      LockInv-acceptor inv Acceptor.unlocking (λ f. ap acceptor_holds e)
  step_acceptor-Next Acceptor.unlocking s e inv =
      LockInv-acceptor_releases inv Acceptor.checking (ap acceptor_holds e) refl
  step_acceptor-Next Acceptor.ended s e inv = inv

  module _ (s : System) (inv : Locked s) (k slot : ℕ) where
    handle_read-Next :
        (pc : Client) (peer : Socket) (read : ℤ) (stored : Text) (error : ℤ)
        → StandsAt s.clients k slot pc
        → Next Locked (handle_read os c s k slot peer read stored error)
    unfolding handle_read
    handle_read-Next pc peer read stored error at =
        if-Next Locked (is_positive read) _ _
          (if-Next Locked (leb (pos_part read) buffer_room) _ none
            (LockInv-move inv k slot _ pc at (λ f. absurd (cc (f, after_message-free _)))) tt)
          (LockInv-move inv k slot _ pc at (λ f. absurd (cc (f, after_message-free _))))

    remove_step-Next :
        (o : Option Server × History)
        → StandsAt s.clients k slot Client.removing
        → Next Locked (remove_step os c s k slot o)
    unfolding remove_step
    remove_step-Next (none, h) at = tt
    remove_step-Next (some server, h) at =
        LockInv-move inv k slot Client.left Client.removing at (λ f. refl)

    step_client-Next :
        (pc : Client) → StandsAt s.clients k slot pc → Next Locked (step_client os c k slot pc s)
    unfolding step_client
    step_client-Next Client.naming at =
        if-Next Locked (ltb slot (stored_threads s.acceptor (length s.clients))) _ none
          (LockInv-move inv k slot Client.checking Client.naming at (λ f. cc f)) tt
    step_client-Next Client.checking at =
        LockInv-move inv k slot _ Client.checking at
          (λ f. absurd (cc (f, going_on-free s.server.is_stopping)))
    step_client-Next Client.locking at =
        when_free-Next Locked s.owner _ s (λ free. LockInv-takes inv k slot Client.receiving free)
          inv
    step_client-Next Client.receiving at =
        >>=-Next Locked (get_elem? s.server.peers slot) _
          (λ peer. LockInv-move inv k slot _ Client.receiving at (λ f. refl))
    step_client-Next (Client.received read stored error) at =
        LockInv-releases inv k slot (Client.handling read stored error) _ at refl refl
    step_client-Next (Client.handling read stored error) at =
        >>=-Next Locked (get_elem? s.server.peers slot) _
          (λ peer. handle_read-Next (Client.handling read stored error) peer read stored error at)
    step_client-Next Client.leaving at =
        when_free-Next Locked s.owner _ s (λ free. LockInv-takes inv k slot Client.removing free)
          inv
    step_client-Next Client.removing at =
        remove_step-Next (remove_peer os c s.server slot s.history) at
    step_client-Next Client.left at =
        LockInv-releases inv k slot Client.ended Client.left at refl refl
    step_client-Next Client.ended at = inv

  step_found-Next :
      (s : System) (k : ℕ) (o : Option (ℕ × Client))
      → Locked s
      → get_elem? s.clients k ≡ o
      → Next Locked (step_found os c k o s)
  unfolding step_found
  step_found-Next s k none inv e = inv
  step_found-Next s k (some (slot, pc)) inv e = step_client-Next s inv k slot pc e

  pub step-Next : (t : Thread) (s : System) → Locked s → Next Locked (step os c t s)
  unfolding step Server.stop
  step-Next main_thread s inv = inv
  step-Next acceptor_thread s inv = step_acceptor-Next s.acceptor s refl inv
  step-Next (client_thread k) s inv = step_found-Next s k (get_elem? s.clients k) inv refl

  pub run-Next : (ts : List Thread) (s : System) → Locked s → Next Locked (run os c ts s)
  unfolding run
  run-Next [] s inv = inv
  run-Next (t ∷ ts) s inv = elim (Option-cases (step os c t s)) [
    | inl e ↦ rw e tt
    | inr (s', e) ↦
        let next : Locked s' = subst (Next Locked) e (step-Next t s inv) in
        rw e (run-Next ts s' next)
  ]

  pub start-Locked : (v : Server) (h : History) → Locked (start v h)
  start-Locked v h = record {
    of_client = λ k i pc at f. absurd (cc at);
    of_acceptor = λ f. absurd (cc f);
  }

  -- On every schedule of the server, from its start, two client threads that are between taking
  -- the mutex and releasing it are the same, and the thread that accepts is then not there.
  pub one_holder :
      (v : Server) (h : History) (ts : List Thread) (s : System) (j k i l : ℕ) (p q : Client)
      → run os c ts (start v h) ≡ some s
      → StandsAt s.clients j i p
      → StandsAt s.clients k l q
      → holds p ≡ true
      → holds q ≡ true
      → (j ≡ k) × (acceptor_holds s.acceptor ≡ false)
  one_holder v h ts s j k i l p q ran a b mine also =
      let inv : Locked s = subst (Next Locked) ran (run-Next ts (start v h) (start-Locked v h)) in
      let first = inv.of_client j i p a mine in
      (
        cc (first, inv.of_client k l q b also),
        elim (Bool-cases (acceptor_holds s.acceptor)) [
          | inl e ↦ absurd (cc (first, inv.of_acceptor e))
          | inr e ↦ e
        ],
      )

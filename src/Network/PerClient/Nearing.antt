-- ===== src/Network/PerClient/Nearing.antt =====
-- A step of the stopping server, by a thread that does not wait, brings that thread nearer to its end.
use low_latency_experiments.Common.{
  ltb, length, ℕ, ◌≤◌, ◌<◌, [], ◌∷◌, Bool, true, false, Option, none, some, ◌≡◌, ◌≢◌, refl, ap, ◌∙◌,
  get_elem?, set, length-set, length-append, arith, leb, if◌then◌else◌,
}
use low_latency_experiments.Common.Int.{ℤ, pos_part}
use low_latency_experiments.Network.System.{Text, History, Os}
use low_latency_experiments.Network.Socket.Options.{Constants}
use low_latency_experiments.Network.Socket.{Socket, is_positive, accept}
use low_latency_experiments.Network.Server.{Server, add_peer, place_peer, remove_peer, remove_found}
use low_latency_experiments.Network.PerClient.{
  stored_threads, Acceptor, Client, Thread, client_thread, System, when_free, buffer_room,
  after_accept, after_message, step_acceptor, handle_read, remove_step, step_client,
}
use low_latency_experiments.Network.PerClient.Invariant.{StandsAt}
use low_latency_experiments.Network.PerClient.Next.{Next, if-Next, >>=-Next}
use low_latency_experiments.Network.PerClient.Effort.{
  acceptor_left, client_left, may_add, acceptor_stuck, client_stuck, clients_left-set,
  clients_left-append, Nearer,
}

looks_once :
    (b : Bool)
    → b ≡ true
    → (acceptor_left (if b then Acceptor.ended else Acceptor.accepting) ≡ 0)
      × (may_add (if b then Acceptor.ended else Acceptor.accepting) ≡ 0)
looks_once true e = (refl, refl)
looks_once false e = absurd (cc e)

client_looks_once :
    (b : Bool) → b ≡ true → client_left (if b then Client.ended else Client.locking) ≡ 0
client_looks_once true e = refl
client_looks_once false e = absurd (cc e)

-- The mutex is free.
when_free-free :
    (P : System → Type 0) (o : Option Thread) (s t : System)
    → ((owner : Thread) → o ≢ some owner)
    → P s
    → Next P (some (when_free o s t))
when_free-free P none s t free h = h
when_free-free P (some owner) s t free h = absurd (free owner refl)

not_taken :
    (o : Option Thread) (f : Option Thread → Bool)
    → ((owner : Thread) → f (some owner) ≡ true)
    → f o ≡ false
    → (owner : Thread) → o ≢ some owner
not_taken o f stuck free owner e = cc (ap f e, stuck owner, free)

after_message-left : (b : Bool) → client_left (after_message b) ≤ 3
after_message-left true = omega arith
after_message-left false = omega arith

module _ (os : Os) (c : Constants) where
  place_peer-stopping :
      (v : Server) (peer : Socket) (o : Option ℕ) (h : History)
      → (place_peer os c v peer o h).0.1.is_stopping ≡ v.is_stopping
  unfolding place_peer
  place_peer-stopping v peer none h = refl
  place_peer-stopping v peer (some i) h = refl

  add_peer-stopping :
      (v : Server) (peer : Socket) (h : History)
      → (add_peer os c v peer h).0.1.is_stopping ≡ v.is_stopping
  unfolding add_peer
  add_peer-stopping v peer h = place_peer-stopping v peer _ h

  module _ (s : System) (stopping : s.server.is_stopping ≡ true) where
    after_accept-left :
        (o : Option Socket) → (acceptor_left (after_accept o) ≤ 8) × (may_add (after_accept o) ≤ 1)
    after_accept-left none = omega arith
    after_accept-left (some peer) = omega arith

    pub step_acceptor-Nearer :
        (pc : Acceptor)
        → s.acceptor ≡ pc
        → acceptor_stuck s.owner pc ≡ false
        → Next (Nearer s) (step_acceptor os c pc s)
    unfolding step_acceptor
    step_acceptor-Nearer Acceptor.checking e free = record {
      nearer = omega (arith, ap acceptor_left e, looks_once s.server.is_stopping stopping);
      longer = omega arith;
      few = omega (arith, looks_once s.server.is_stopping stopping);
      stopping = stopping;
    }
    step_acceptor-Nearer Acceptor.accepting e free =
        let (peer, socket) = (accept os c s.server.socket s.server.accept_timeout s.history).0 in
        record {
          nearer = omega (arith, ap acceptor_left e, after_accept-left peer);
          longer = omega arith;
          few = omega (arith, ap may_add e, after_accept-left peer);
          stopping = stopping;
        }
    step_acceptor-Nearer (Acceptor.locking peer) e free =
        when_free-free (Nearer s) s.owner _ s
          (not_taken s.owner (λ o. acceptor_stuck o (Acceptor.locking peer)) (λ o. refl) free)
          record {
            nearer = omega (arith, ap acceptor_left e);
            longer = omega arith;
            few = omega (arith, ap may_add e);
            stopping = stopping;
          }
    step_acceptor-Nearer (Acceptor.adding peer) e free =
        let slot = (add_peer os c s.server peer s.history).0.0 in
        record {
          nearer = omega (
            arith,
            ap acceptor_left e,
            clients_left-append s.clients slot,
            length-append s.clients ((slot, Client.naming) ∷ []),
          );
          longer = omega (arith, length-append s.clients ((slot, Client.naming) ∷ []));
          few = omega (arith, ap may_add e, length-append s.clients ((slot, Client.naming) ∷ []));
          stopping = add_peer-stopping s.server peer s.history ∙ stopping;
        }
    step_acceptor-Nearer Acceptor.storing e free = record {
      nearer = omega (arith, ap acceptor_left e);
      longer = omega arith;
      few = omega arith;
      stopping = stopping;
    }
    step_acceptor-Nearer Acceptor.unlocking e free = record {
      nearer = omega (arith, ap acceptor_left e);
      longer = omega arith;
      few = omega arith;
      stopping = stopping;
    }
    step_acceptor-Nearer Acceptor.ended e free = absurd (cc free)

    module _ (k slot : ℕ) where
      -- A client's thread goes on, the server still stops.
      came-Nearer :
          (pc pc' : Client) (v : Server) (o : Option Thread) (h : History)
          → StandsAt s.clients k slot pc
          → client_left pc' < client_left pc
          → v.is_stopping ≡ true
          → Nearer s (record s {
            server = v;
            owner = o;
            clients = set s.clients k (slot, pc');
            history = h;
          })
      came-Nearer pc pc' v o h at less stops = record {
        nearer = omega (
          arith,
          clients_left-set s.clients k slot pc pc' at,
          length-set s.clients k (slot, pc'),
          less,
        );
        longer = omega (arith, length-set s.clients k (slot, pc'));
        few = omega (arith, length-set s.clients k (slot, pc'));
        stopping = stops;
      }

      handle_read-Nearer :
          (peer : Socket) (read : ℤ) (stored : Text) (error : ℤ)
          → StandsAt s.clients k slot (Client.handling read stored error)
          → Next (Nearer s) (handle_read os c s k slot peer read stored error)
      unfolding handle_read
      handle_read-Nearer peer read stored error at =
          if-Next (Nearer s) (is_positive read) _ _
            (if-Next (Nearer s) (leb (pos_part read) buffer_room) _ none
              (came-Nearer _ _ s.server s.owner _ at (omega (arith, after_message-left _)) stopping)
              tt)
            (came-Nearer _ _ _ s.owner s.history at (omega (arith, after_message-left _)) stopping)

      remove_step-Nearer :
          (o : Option Socket) (h : History)
          → StandsAt s.clients k slot Client.removing
          → Next (Nearer s) (remove_step os c s k slot (remove_found os c s.server slot o h))
      unfolding remove_step remove_found
      remove_step-Nearer none h at = tt
      remove_step-Nearer (some peer) h at =
          came-Nearer _ Client.left _ s.owner _ at (omega arith) stopping

      pub step_client-Nearer :
          (pc : Client)
          → StandsAt s.clients k slot pc
          → client_stuck s.owner pc ≡ false
          → Next (Nearer s) (step_client os c k slot pc s)
      unfolding step_client remove_peer
      step_client-Nearer Client.naming at free =
          if-Next (Nearer s) (ltb slot (stored_threads s.acceptor (length s.clients))) _ none
            (came-Nearer _ _ s.server s.owner s.history at (omega arith) stopping) tt
      step_client-Nearer Client.checking at free =
          came-Nearer _ _ s.server s.owner s.history at
            (omega (arith, client_looks_once s.server.is_stopping stopping)) stopping
      step_client-Nearer Client.locking at free =
          when_free-free (Nearer s) s.owner _ s
            (not_taken s.owner (λ o. client_stuck o Client.locking) (λ o. refl) free)
            (came-Nearer _ Client.receiving s.server (some (client_thread k)) s.history at
              (omega arith) stopping)
      step_client-Nearer Client.receiving at free =
          >>=-Next (Nearer s) (get_elem? s.server.peers slot) _
            (λ peer. came-Nearer _ _ s.server s.owner _ at (omega arith) stopping)
      step_client-Nearer (Client.received read stored error) at free =
          came-Nearer _ _ s.server none s.history at (omega arith) stopping
      step_client-Nearer (Client.handling read stored error) at free =
          >>=-Next (Nearer s) (get_elem? s.server.peers slot) _
            (λ peer. handle_read-Nearer peer read stored error at)
      step_client-Nearer Client.leaving at free =
          when_free-free (Nearer s) s.owner _ s
            (not_taken s.owner (λ o. client_stuck o Client.leaving) (λ o. refl) free)
            (came-Nearer _ Client.removing s.server (some (client_thread k)) s.history at
              (omega arith) stopping)
      step_client-Nearer Client.removing at free =
          remove_step-Nearer (get_elem? s.server.peers slot) s.history at
      step_client-Nearer Client.left at free =
          came-Nearer _ _ s.server none s.history at (omega arith) stopping
      step_client-Nearer Client.ended at free = absurd (cc free)

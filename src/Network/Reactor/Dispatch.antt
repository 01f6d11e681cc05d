-- ===== src/Network/Reactor/Dispatch.antt =====
-- The reactor's loop over the events, and its rounds.
use low_latency_experiments.Common.{
  ℕ, zero, suc, List, [], ◌∷◌, ◌≤◌, ◌≡◌, ◌≢◌, ◌⊎◌, inl, inr, refl, sym, ap, ◌∙◌, Option, some, true,
  false, Bool-cases, length, arith,
}
use low_latency_experiments.Common.Int.{ℤ, eqb, eqb_refl, eqb_of_ne}
use low_latency_experiments.Network.System.{History, Os}
use low_latency_experiments.Network.Socket.Options.{Constants}
use low_latency_experiments.Network.Socket.{Socket}
use low_latency_experiments.Network.Listener.{Event, is_valid_event}
use low_latency_experiments.Network.Partial.{>>=-some, pure}
use low_latency_experiments.Network.Reactor.{Reactor, on_client_disconnected, accept_new_connection}
use low_latency_experiments.Network.Reactor.Loop.{handle_client, handle_event, handle_events}
use low_latency_experiments.Network.Reactor.Kernel.{GivesFresh}
use low_latency_experiments.Network.Reactor.Invariant.{Holds, Live, listening, Inv, Outcome}
use low_latency_experiments.Network.Reactor.Leaving.{on_client_disconnected-Outcome}
use low_latency_experiments.Network.Reactor.Joining.{accept_new_connection-Accepted}
use low_latency_experiments.Network.Reactor.Serving.{ReceivesAtMost, handle_client-Outcome}

module _ (os : Os) (c : Constants) {r : Reactor} {h : History} {i : ℕ} {s : Socket}
    (inv : Inv os r h) (a : Holds r.server i s) (e : Event) (own : e.fd ≡ s.descriptor) where
  -- In every state that satisfies the invariant of the reactor, a readable event on the descriptor of
  -- a connected peer is handled for the slot that holds this peer.
  pub handle_event-own :
      is_valid_event e ≡ true → handle_event os c r e h ≡ handle_client os c r i h
  unfolding handle_event
  handle_event-own valid =
      let other : eqb e.fd (listening r) ≡ false =
        eqb_of_ne e.fd (listening r) (λ f. inv.listener_apart i s a (sym own ∙ f)) in
      let index : r.table e.fd ≡ i = ap r.table own ∙ inv.found i s a in
      rw (valid, other, index) refl

  -- An error or a hang-up on it disconnects the peer of that slot.
  pub handle_event-gone :
      is_valid_event e ≡ false → handle_event os c r e h ≡ on_client_disconnected os c r i h
  unfolding handle_event
  handle_event-gone invalid =
      let index : r.table e.fd ≡ i = ap r.table own ∙ inv.found i s a in rw (invalid, index) refl

-- The event is on a connected peer, or is a request on the listening socket.
abbrev pub Expected : Reactor → Event → Type 0
Expected r e = Live r.server e.fd ⊎ ((e.fd ≡ listening r) × (is_valid_event e ≡ true))

abbrev pub Apart : ℤ → List Event → Type 0
Apart fd [] = Unit {0}
Apart fd (e ∷ es) = (e.fd ≢ fd) × Apart fd es

-- No two events are on one descriptor.
abbrev pub AllApart : List Event → Type 0
AllApart [] = Unit {0}
AllApart (e ∷ es) = Apart e.fd es × AllApart es

abbrev pub AllExpected : Reactor → List Event → Type 0
AllExpected r [] = Unit {0}
AllExpected r (e ∷ es) = Expected r e × AllExpected r es

-- The code is defined, and keeps the invariant and the listening descriptor.
pub record Goes (os : Os) (r : Reactor) (result : Option (Reactor × History)) : Type 0 where
  pub reactor : Reactor
  pub history : History
  pub ran : result ≡ some (reactor, history)
  pub inv : Inv os reactor history
  pub same : listening reactor ≡ listening r

AllExpected-later :
    {os : Os} {r : Reactor} {fd : ℤ} {result : Option (Reactor × History)}
    (o : Outcome os r fd result) (es : List Event)
    → Apart fd es
    → AllExpected r es
    → AllExpected o.reactor es
AllExpected-later o [] apart expected = tt
AllExpected-later {os} {r} o (e ∷ es) (ne, apart) (ex, expected) =
    (next ex, AllExpected-later o es apart expected)
  where
    next : Expected r e → Expected o.reactor e
    next (inl l) = inl (o.others e.fd ne l)
    next (inr (f, v)) = inr (f ∙ sym o.same, v)

module _ (os : Os) (c : Constants) (gives_fresh : GivesFresh os) (at_most : ReceivesAtMost os) where
  handle_event-Outcome :
      {r : Reactor} {h : History} (e : Event)
      → Inv os r h
      → Expected r e
      → Outcome os r e.fd (handle_event os c r e h)
  unfolding handle_event
  handle_event-Outcome {r} {h} e inv (inl (i, s, a, own)) = elim (Bool-cases (is_valid_event e)) [
    | inl valid ↦
        rw (handle_event-own os c inv a e (sym own) valid, ← own)
          (handle_client-Outcome os c at_most inv a)
    | inr invalid ↦
        rw (handle_event-gone os c inv a e (sym own) invalid, ← own)
          (on_client_disconnected-Outcome os c inv a)
  ]
  handle_event-Outcome {r} {h} e inv (inr (own, valid)) =
      let accepted = accept_new_connection-Accepted os c gives_fresh inv in
      let listener : eqb e.fd (listening r) ≡ true = rw own (eqb_refl (listening r)) in
      record {
        reactor = accepted.reactor;
        history = accepted.history;
        ran =
            rw (valid, listener)
              (>>=-some (accept_new_connection os c r) (λ x. pure x.1) accepted.ran);
        inv = accepted.inv;
        same = accepted.same;
        others = λ d ne l. accepted.others d l;
      }

  pub handle_events-Goes :
      (n : ℕ) (es : List Event) {r : Reactor} {h : History}
      → n ≤ length es
      → Inv os r h
      → AllApart es
      → AllExpected r es
      → Goes os r (handle_events os c n es r h)
  unfolding handle_events
  handle_events-Goes zero es {r} {h} le inv apart expected = record {
    reactor = r;
    history = h;
    ran = refl;
    inv = inv;
    same = refl;
  }
  handle_events-Goes (suc n) [] le inv apart expected = absurd (omega arith)
  handle_events-Goes (suc n) (e ∷ es) {r} {h} le inv (now, apart) (ex, expected) =
      let o = handle_event-Outcome e inv ex in
      let rest =
        handle_events-Goes n es (omega arith) o.inv apart (AllExpected-later o es now expected) in
      record {
        reactor = rest.reactor;
        history = rest.history;
        ran = >>=-some (handle_event os c r e) (handle_events os c n es) o.ran ∙ rest.ran;
        inv = rest.inv;
        same = rest.same ∙ o.same;
      }

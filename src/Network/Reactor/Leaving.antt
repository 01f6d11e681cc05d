-- ===== src/Network/Reactor/Leaving.antt =====
-- A client leaves the reactor.
use low_latency_experiments.Common.{
  ℕ, ◌∷◌, ◌≡◌, ◌≢◌, inl, inr, refl, sym, ap, ◌∙◌, subst, some, true, false, get_elem?, set,
  get_elem?-set_cases, get_elem?-set_ne, length-set,
}
use low_latency_experiments.Common.Int.{ℤ}
use low_latency_experiments.Network.System.{Call, History, Os}
use low_latency_experiments.Network.Socket.Options.{Constants}
use low_latency_experiments.Network.Socket.{Socket, close}
use low_latency_experiments.Network.Listener.{remove_file_descriptor, is_edge}
use low_latency_experiments.Network.Server.{remove_peer, remove_found}
use low_latency_experiments.Network.Reactor.{Reactor, on_client_disconnected}
use low_latency_experiments.Network.Reactor.Kernel.{IsOpen, close_keeps}
use low_latency_experiments.Network.Reactor.Invariant.{
  Holds, Live, listening, Inv, Outcome, Holds-unique,
}

module _ (os : Os) (c : Constants) {r : Reactor} {h : History} {i : ℕ} {s : Socket}
    (inv : Inv os r h) (a : Holds r.server i s) where
  -- The history when the socket is closed.
  abbrev unwatched : History
  unwatched = Call.epoll_delete r.listener.descriptor s.descriptor (is_edge r.listener.mode) ∷ h

  abbrev closed : Socket
  closed = (close os c s unwatched).0

  abbrev pub left : Reactor
  left = record r {
    server = record r.server {
      flags = set r.server.flags i false;
      peers = set r.server.peers i closed;
    };
  }

  abbrev pub after : History
  after = (close os c s unwatched).1

  on_client_disconnected_lem : on_client_disconnected os c r i h ≡ some (left, after)
  unfolding on_client_disconnected remove_file_descriptor remove_peer remove_found
  on_client_disconnected_lem = rw a.peer refl

  -- Who is still there was there before, in another slot.
  Holds-left : (j : ℕ) (t : Socket) → Holds left.server j t → (j ≢ i) × Holds r.server j t
  Holds-left j t b = elim (get_elem?-set_cases r.server.flags i j false true b.flag) [
    | inl (e, f) ↦ absurd (cc f)
    | inr (ne, f) ↦ (
      ne,
      record { flag = f; peer = sym (get_elem?-set_ne r.server.peers i j closed ne) ∙ b.peer },
    )
  ]

  Holds-stays : (j : ℕ) (t : Socket) → j ≢ i → Holds r.server j t → Holds left.server j t
  Holds-stays j t ne b = record {
    flag = get_elem?-set_ne r.server.flags i j false ne ∙ b.flag;
    peer = get_elem?-set_ne r.server.peers i j closed ne ∙ b.peer;
  }

  Live-stays : (d : ℤ) → d ≢ s.descriptor → Live r.server d → Live left.server d
  Live-stays d ne (j, t, b, e) = (j, t, Holds-stays j t apart b, e)
    where
      apart : j ≢ i
      apart f = ne (sym e ∙ same_peer (subst (λ k. get_elem? r.server.peers k ≡ some t) f b.peer))
        where
          same_peer : get_elem? r.server.peers i ≡ some t → t.descriptor ≡ s.descriptor
          same_peer g = cc (g, a.peer)

  still-IsOpen : (d : ℤ) → d ≢ s.descriptor → IsOpen os d h → IsOpen os d after
  still-IsOpen d ne o = (close_keeps os c s unwatched).1 d ne o

  Inv-left : Inv os left after
  Inv-left = record {
    well_formed =
        length-set r.server.flags i false
        ∙ inv.well_formed
        ∙ sym (length-set r.server.peers i closed);
    found = λ j t b. inv.found j t (Holds-left j t b).1;
    peer_open = λ j t b.
        let (ne, b') = Holds-left j t b in
        still-IsOpen t.descriptor (λ e. ne (Holds-unique inv b' a e)) (inv.peer_open j t b');
    listener_apart = λ j t b. inv.listener_apart j t (Holds-left j t b).1;
    freed = λ j t f g. elim (get_elem?-set_cases r.server.peers i j closed t g) [
      | inl (e, k) ↦ ap (λ (u : Socket). u.state) k ∙ (close_keeps os c s unwatched).0
      | inr (ne, k) ↦ inv.freed j t (sym (get_elem?-set_ne r.server.flags i j false ne) ∙ f) k
    ];
    listener_open =
        still-IsOpen (listening r) (λ e. inv.listener_apart i s a (sym e)) inv.listener_open;
    not_listed = inv.not_listed;
    watched = λ fd w.
        let (ne, w') = (close_keeps os c s unwatched).2 fd w in
        elim (inv.watched fd w') [
          | inl e ↦ inl e
          | inr l ↦ inr (Live-stays fd (λ e. ne (sym e)) l)
        ];
  }

  -- A connected client that leaves is taken out, and nothing else changes.
  pub on_client_disconnected-Outcome : Outcome os r s.descriptor (on_client_disconnected os c r i h)
  on_client_disconnected-Outcome = record {
    reactor = left;
    history = after;
    ran = on_client_disconnected_lem;
    inv = Inv-left;
    same = refl;
    others = Live-stays;
  }

-- ===== src/Network/Reactor/Joining.antt =====
-- A client joins the reactor.
use low_latency_experiments.Common.{
  ℕ, ◌∷◌, ◌≡◌, ◌≢◌, ◌⊎◌, inl, inr, refl, sym, ap, ◌∙◌, subst, Option, none, some, true, false,
  get_elem?, ℕ_discrete,
}
use low_latency_experiments.Common.Int.{ℤ, eqb_refl, eqb_of_ne}
use low_latency_experiments.Network.System.{Call, History, Os}
use low_latency_experiments.Network.Socket.Options.{Constants}
use low_latency_experiments.Network.Socket.{Socket, disconnected, set_blocking_mode, accept}
use low_latency_experiments.Network.Socket.Closing.{close_disconnected}
use low_latency_experiments.Network.Listener.{add_file_descriptor, is_edge}
use low_latency_experiments.Network.Server.{Server, add_peer, place_peer, destroy, first_free}
use low_latency_experiments.Network.Server.Slots.{
  IsWellFormed, add_peer-slot, add_peer-others, first_free-some,
}
use low_latency_experiments.Network.Reactor.{
  Reactor, put, on_client_connected, add_accepted, accept_new_connection,
}
use low_latency_experiments.Network.Reactor.Kernel.{
  IsOpen, IsWatched, accept_lem, GivesFresh, IsNew,
}
use low_latency_experiments.Network.Reactor.Invariant.{
  Holds, Live, listening, Inv, false-ne-true, Inv-later,
}
use mathlib.Core.Option.{some-injective}

-- The peer in a slot that is used again has been closed before, so that its end makes no call.
module _ (os : Os) (c : Constants) where
  destroy_lem :
      (o : Option Socket) (h : History)
      → ((s : Socket) → o ≡ some s → s.state ≡ disconnected)
      → destroy os c o h ≡ h
  unfolding destroy
  destroy_lem none h closed = refl
  destroy_lem (some s) h closed =
      ap (λ (x : Socket × History). x.1) (close_disconnected os c s h (closed s refl))

  place_peer-history :
      (v : Server) (peer : Socket) (o : Option ℕ) (h : History)
      → first_free v.flags ≡ o
      → ((i : ℕ) (s : Socket)
          → get_elem? v.flags i ≡ some false
          → get_elem? v.peers i ≡ some s
          → s.state ≡ disconnected)
      → (place_peer os c v peer o h).1 ≡ h
  unfolding place_peer
  place_peer-history v peer none h e freed = refl
  place_peer-history v peer (some i) h e freed =
      destroy_lem (get_elem? v.peers i) h (λ s f. freed i s (first_free-some v.flags i e).0 f)

  place_peer-socket :
      (v : Server) (peer : Socket) (o : Option ℕ) (h : History)
      → (place_peer os c v peer o h).0.1.socket ≡ v.socket
  unfolding place_peer
  place_peer-socket v peer none h = refl
  place_peer-socket v peer (some i) h = refl

put_self : (t : ℤ → ℕ) (d : ℤ) (i : ℕ) → put t d i d ≡ i
put_self t d i = rw (eqb_refl d)

put_ne : (t : ℤ → ℕ) (d k : ℤ) (i : ℕ) → k ≢ d → put t d i k ≡ t k
put_ne t d k i ne = rw (eqb_of_ne k d ne)

module _ (os : Os) (c : Constants) {r : Reactor} {h : History} (p : Socket) (inv : Inv os r h)
    (fresh : (i : ℕ) (s : Socket) → Holds r.server i s → s.descriptor ≢ p.descriptor)
    (apart : listening r ≢ p.descriptor) (opened : IsOpen os p.descriptor h) where
  abbrev slot : ℕ
  slot = (add_peer os c r.server p h).0.0

  abbrev served : Server
  served = (add_peer os c r.server p h).0.1

  abbrev joined : Reactor
  joined = record r { server = served; table = put r.table p.descriptor slot }

  taken :
      (get_elem? r.server.flags slot ≢ some true)
      × (get_elem? served.flags slot ≡ some true)
      × (get_elem? served.peers slot ≡ some p)
      × IsWellFormed served
  taken = add_peer-slot os c r.server p h inv.well_formed

  add_peer-history : (add_peer os c r.server p h).1 ≡ h
  unfolding add_peer
  add_peer-history = place_peer-history os c r.server p (first_free r.server.flags) h refl inv.freed

  same_socket : served.socket ≡ r.server.socket
  unfolding add_peer
  same_socket = place_peer-socket os c r.server p (first_free r.server.flags) h

  -- Who is there is the new peer, or was there before in another slot.
  Holds-joined :
      (j : ℕ) (t : Socket)
      → Holds served j t
      → ((j ≡ slot) × (t ≡ p)) ⊎ ((j ≢ slot) × Holds r.server j t)
  Holds-joined j t b = elim (ℕ_discrete j slot) [
    | yes e ↦ inl (e, some-injective _ _ (sym b.peer ∙ ap (get_elem? served.peers) e ∙ taken.2))
    | no ne ↦
        let (flag, place) = add_peer-others os c r.server p h j inv.well_formed ne in
        inr (ne, record { flag = sym flag ∙ b.flag; peer = sym place ∙ b.peer })
  ]

  Holds-stays : (j : ℕ) (t : Socket) → Holds r.server j t → (j ≢ slot) × Holds served j t
  Holds-stays j t b =
      let (flag, place) = add_peer-others os c r.server p h j inv.well_formed ne in
      (ne, record { flag = flag ∙ b.flag; peer = place ∙ b.peer })
    where
      ne : j ≢ slot
      ne e = taken.0 (sym (ap (get_elem? r.server.flags) e) ∙ b.flag)

  -- The new peer is watched, and its descriptor is set not to block.
  abbrev watching : History
  watching = Call.epoll_add r.listener.descriptor p.descriptor (is_edge r.listener.mode) ∷ h

  abbrev welcomed : History
  welcomed = (set_blocking_mode os c p false watching).1

  add_accepted_lem : add_accepted os c (some p) r h ≡ some ((0, joined), welcomed)
  unfolding add_accepted on_client_connected add_file_descriptor
  add_accepted_lem = rw (add_peer-history, taken.2) refl

  same_listening : listening joined ≡ listening r
  same_listening = ap (λ (x : Socket). x.descriptor) same_socket

  welcomed-IsOpen : (d : ℤ) → IsOpen os d h → IsOpen os d welcomed
  unfolding set_blocking_mode
  welcomed-IsOpen d o = o

  welcomed-IsWatched : (d : ℤ) → IsWatched d welcomed → (p.descriptor ≡ d) ⊎ IsWatched d h
  unfolding set_blocking_mode
  welcomed-IsWatched d w = w

  Live-stays : (d : ℤ) → Live r.server d → Live served d
  Live-stays d (j, t, b, e) = (j, t, (Holds-stays j t b).1, e)

  Inv-joined : Inv os joined welcomed
  Inv-joined = record {
    well_formed = taken.3;
    found = λ j t b. elim (Holds-joined j t b) [
      | inl (e, f) ↦
          ap (λ (x : Socket). joined.table x.descriptor) f
          ∙ put_self r.table p.descriptor slot
          ∙ sym e
      | inr (ne, b') ↦
          put_ne r.table p.descriptor t.descriptor slot (fresh j t b') ∙ inv.found j t b'
    ];
    peer_open = λ j t b. elim (Holds-joined j t b) [
      | inl (e, f) ↦
          subst (λ (x : Socket). IsOpen os x.descriptor welcomed) (sym f)
            (welcomed-IsOpen p.descriptor opened)
      | inr (ne, b') ↦ welcomed-IsOpen t.descriptor (inv.peer_open j t b')
    ];
    listener_apart = λ j t b g. elim (Holds-joined j t b) [
      | inl (e, f) ↦ apart (sym same_listening ∙ sym g ∙ ap (λ (x : Socket). x.descriptor) f)
      | inr (ne, b') ↦ inv.listener_apart j t b' (g ∙ same_listening)
    ];
    freed = λ j t f g. elim (ℕ_discrete j slot) [
      | yes e ↦ absurd (false-ne-true (sym f ∙ ap (get_elem? served.flags) e ∙ taken.1))
      | no ne ↦
          let (flag, place) = add_peer-others os c r.server p h j inv.well_formed ne in
          inv.freed j t (sym flag ∙ f) (sym place ∙ g)
    ];
    listener_open =
        subst (λ d. IsOpen os d welcomed) (sym same_listening)
          (welcomed-IsOpen (listening r) inv.listener_open);
    not_listed =
        put_ne r.table p.descriptor (listening joined) slot (λ e. apart (sym same_listening ∙ e))
        ∙ ap r.table same_listening
        ∙ inv.not_listed;
    watched = λ fd w. elim (welcomed-IsWatched fd w) [
      | inl e ↦ inr (slot, p, record { flag = taken.1; peer = taken.2 }, e)
      | inr w' ↦ elim (inv.watched fd w') [
        | inl e ↦ inl (e ∙ sym same_listening)
        | inr l ↦ inr (Live-stays fd l)
      ]
    ];
  }

-- `accept` replaces the listening socket by one with the same descriptor.
abbrev with_socket : Reactor → Socket → Reactor
with_socket r s = record r { server = record r.server { socket = s } }

Inv-with_socket :
    {os : Os} {r : Reactor} {h : History} (s : Socket)
    → s.descriptor ≡ listening r
    → Inv os r h
    → Inv os (with_socket r s) h
Inv-with_socket {os} {r} {h} s same inv = record {
  well_formed = inv.well_formed;
  found = λ i t a. inv.found i t (held a);
  peer_open = λ i t a. inv.peer_open i t (held a);
  listener_apart = λ i t a e. inv.listener_apart i t (held a) (e ∙ same);
  freed = inv.freed;
  listener_open = subst (λ d. IsOpen os d h) (sym same) inv.listener_open;
  not_listed = ap r.table same ∙ inv.not_listed;
  watched = λ fd w. elim (inv.watched fd w) [
    | inl e ↦ inl (e ∙ sym same)
    | inr (i, t, a, e) ↦ inr (i, t, record { flag = a.flag; peer = a.peer }, e)
  ];
}
  where
    held : {i : ℕ} {t : Socket} → Holds (with_socket r s).server i t → Holds r.server i t
    held a = record { flag = a.flag; peer = a.peer }

Live-with_socket : {v : Server} (s : Socket) (d : ℤ) → Live v d → Live (record v { socket = s }) d
Live-with_socket s d (i, t, a, e) = (i, t, record { flag = a.flag; peer = a.peer }, e)

-- What accepting comes to: it is defined, keeps the invariant and the listening descriptor, and every
-- peer stays.
pub record Accepted (os : Os) (r : Reactor) (result : Option ((ℕ × Reactor) × History))
    : Type 0 where
  pub reactor : Reactor
  pub history : History
  pub ran : result ≡ some ((0, reactor), history)
  pub inv : Inv os reactor history
  pub same : listening reactor ≡ listening r
  pub others : (d : ℤ) → Live r.server d → Live reactor.server d

module _ (os : Os) (c : Constants) (gives_fresh : GivesFresh os) where
  add_accepted-Accepted :
      (o : Option Socket) {r : Reactor} {h h' : History}
      → Inv os r h
      → Inv os r h'
      → IsNew os c o h h'
      → Accepted os r (add_accepted os c o r h')
  unfolding add_accepted
  add_accepted-Accepted none {r} {h} {h'} inv inv' new = record {
    reactor = r;
    history = h';
    ran = refl;
    inv = inv';
    same = refl;
    others = λ d l. l;
  }
  add_accepted-Accepted (some p) {r} {h} {h'} inv inv' new =
      let fresh : (i : ℕ) (s : Socket) → Holds r.server i s → s.descriptor ≢ p.descriptor =
        λ i s a e. new.1 (subst (λ d. IsOpen os d h) e (inv.peer_open i s a)) in
      let apart : listening r ≢ p.descriptor =
        λ e. new.1 (subst (λ d. IsOpen os d h) e inv.listener_open) in
      record {
        reactor = joined os c p inv' fresh apart new.0;
        history = welcomed os c p inv' fresh apart new.0;
        ran = add_accepted_lem os c p inv' fresh apart new.0;
        inv = Inv-joined os c p inv' fresh apart new.0;
        same = same_listening os c p inv' fresh apart new.0;
        others = Live-stays os c p inv' fresh apart new.0;
      }

  -- Accepting on a reactor in order.
  pub accept_new_connection-Accepted :
      {r : Reactor} {h : History} → Inv os r h → Accepted os r (accept_new_connection os c r h)
  unfolding accept_new_connection
  accept_new_connection-Accepted {r} {h} inv =
      let ((o, s), h') = accept os c r.server.socket r.server.accept_timeout h in
      let facts = accept_lem os c r.server.socket r.server.accept_timeout h gives_fresh in
      let before = Inv-with_socket s facts.0 inv in
      let result = add_accepted-Accepted o before (Inv-later facts.1 facts.2 before) facts.3 in
      record {
        reactor = result.reactor;
        history = result.history;
        ran = result.ran;
        inv = result.inv;
        same = result.same ∙ facts.0;
        others = λ d l. result.others d (Live-with_socket s d l);
      }

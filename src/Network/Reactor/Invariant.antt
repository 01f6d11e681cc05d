-- ===== src/Network/Reactor/Invariant.antt =====
-- What every step of the reactor keeps.
use low_latency_experiments.Common.{
  ℕ, ◌≡◌, ◌≢◌, ◌⊎◌, inl, inr, refl, sym, ap, ◌∙◌, subst, Option, some, Bool, true, false, get_elem?,
  set, get_elem?-set_self, get_elem?-set_ne, get_elem?-lt, length-set, length, ℕ_discrete, ◌<◌,
  get_elem?-set_cases,
}
use low_latency_experiments.Common.Int.{ℤ}
use low_latency_experiments.Network.System.{History, Os}
use low_latency_experiments.Network.Socket.{Socket, disconnected}
use low_latency_experiments.Network.Server.{Server}
use low_latency_experiments.Network.Server.Slots.{IsWellFormed}
use low_latency_experiments.Network.Reactor.{Reactor}
use low_latency_experiments.Network.Reactor.Loop.{set_peer}
use low_latency_experiments.Network.Reactor.Kernel.{IsOpen, IsWatched}
use mathlib.Core.Option.{some-injective}

-- Slot `i` holds the connected peer `s`.
pub record Holds (v : Server) (i : ℕ) (s : Socket) : Type 0 where
  pub flag : get_elem? v.flags i ≡ some true
  pub peer : get_elem? v.peers i ≡ some s

-- A connected peer has the descriptor.
abbrev pub Live : Server → ℤ → Type 0
Live v fd = (i : ℕ) × (s : Socket) × Holds v i s × (s.descriptor ≡ fd)

abbrev pub listening : Reactor → ℤ
listening r = r.server.socket.descriptor

pub record Inv (os : Os) (r : Reactor) (h : History) : Type 0 where
  pub well_formed : IsWellFormed r.server
  pub found : (i : ℕ) (s : Socket) → Holds r.server i s → r.table s.descriptor ≡ i
  pub peer_open : (i : ℕ) (s : Socket) → Holds r.server i s → IsOpen os s.descriptor h
  pub listener_apart : (i : ℕ) (s : Socket) → Holds r.server i s → s.descriptor ≢ listening r
  pub freed :
      (i : ℕ) (s : Socket)
      → get_elem? r.server.flags i ≡ some false
      → get_elem? r.server.peers i ≡ some s
      → s.state ≡ disconnected
  pub listener_open : IsOpen os (listening r) h
  pub not_listed : r.table (listening r) ≡ 0
  pub watched : (fd : ℤ) → IsWatched fd h → (fd ≡ listening r) ⊎ Live r.server fd

-- Two slots do not share a descriptor.
pub Holds-unique :
    {os : Os} {r : Reactor} {h : History} {i j : ℕ} {s t : Socket}
    → Inv os r h
    → Holds r.server i s
    → Holds r.server j t
    → s.descriptor ≡ t.descriptor
    → i ≡ j
Holds-unique {os} {r} {h} {i} {j} {s} {t} inv a b e =
    sym (inv.found i s a) ∙ ap r.table e ∙ inv.found j t b

-- A later history that closes nothing and watches nothing new.
pub Inv-later :
    {os : Os} {r : Reactor} {h h' : History}
    → ((fd : ℤ) → IsOpen os fd h → IsOpen os fd h')
    → ((fd : ℤ) → IsWatched fd h' → IsWatched fd h)
    → Inv os r h
    → Inv os r h'
Inv-later {os} {r} o w inv = record {
  well_formed = inv.well_formed;
  found = inv.found;
  peer_open = λ i s a. o s.descriptor (inv.peer_open i s a);
  listener_apart = inv.listener_apart;
  freed = inv.freed;
  listener_open = o (listening r) inv.listener_open;
  not_listed = inv.not_listed;
  watched = λ fd x. inv.watched fd (w fd x);
}

pub false-ne-true : ◌≢◌ {A = Option Bool} (some false) (some true)
false-ne-true e = cc

module _ {v : Server} {i : ℕ} {s : Socket} (a : Holds v i s) where
  pub flag-lt : i < length v.flags
  flag-lt = get_elem?-lt v.flags i true a.flag

  pub peer-lt : i < length v.peers
  peer-lt = get_elem?-lt v.peers i s a.peer

-- A peer changes, and keeps its descriptor.
module _ {os : Os} {r : Reactor} {h : History} {i : ℕ} {s : Socket} (inv : Inv os r h)
    (a : Holds r.server i s) (p : Socket) (same : p.descriptor ≡ s.descriptor) where
  pub Holds-changed :
      (j : ℕ) (t : Socket)
      → Holds (set_peer r i p).server j t
      → (u : Socket) × Holds r.server j u × (u.descriptor ≡ t.descriptor)
  Holds-changed j t b = elim (get_elem?-set_cases r.server.peers i j p t b.peer) [
    | inl (e, f) ↦ (s, subst (λ k. Holds r.server k s) (sym e) a, sym same ∙ ap descriptor (sym f))
    | inr (ne, f) ↦ (t, record { flag = b.flag; peer = f }, refl)
  ]
    where
      descriptor : Socket → ℤ
      descriptor u = u.descriptor

  pub Holds-kept :
      (j : ℕ) (u : Socket)
      → Holds r.server j u
      → (t : Socket) × Holds (set_peer r i p).server j t × (t.descriptor ≡ u.descriptor)
  Holds-kept j u b = elim (ℕ_discrete j i) [
    | yes e ↦ (
      p,
      record {
        flag = b.flag;
        peer =
            subst (λ k. get_elem? (set r.server.peers i p) k ≡ some p) (sym e)
              (get_elem?-set_self r.server.peers i p (peer-lt a));
      },
      same
          ∙ ap descriptor (
              some-injective _ _
                (sym a.peer ∙ subst (λ k. get_elem? r.server.peers k ≡ some u) e b.peer)),
    )
    | no ne ↦ (
      u,
      record { flag = b.flag; peer = get_elem?-set_ne r.server.peers i j p ne ∙ b.peer },
      refl,
    )
  ]
    where
      descriptor : Socket → ℤ
      descriptor t = t.descriptor

  pub Inv-set_peer : Inv os (set_peer r i p) h
  Inv-set_peer = record {
    well_formed = inv.well_formed ∙ sym (length-set r.server.peers i p);
    found = λ j t b. let (u, c, e) = Holds-changed j t b in ap r.table (sym e) ∙ inv.found j u c;
    peer_open = λ j t b.
        let (u, c, e) = Holds-changed j t b in subst (λ d. IsOpen os d h) e (inv.peer_open j u c);
    listener_apart =
        λ j t b. let (u, c, e) = Holds-changed j t b in λ f. inv.listener_apart j u c (e ∙ f);
    freed = λ j t f g. elim (get_elem?-set_cases r.server.peers i j p t g) [
      | inl (e, k) ↦ absurd (
          false-ne-true
            (sym f ∙ subst (λ n. get_elem? r.server.flags n ≡ some true) (sym e) a.flag))
      | inr (ne, k) ↦ inv.freed j t f k
    ];
    listener_open = inv.listener_open;
    not_listed = inv.not_listed;
    watched = λ fd w. elim (inv.watched fd w) [
      | inl e ↦ inl e
      | inr (j, u, b, e) ↦ let (t, c, f) = Holds-kept j u b in inr (j, t, c, f ∙ e)
    ];
  }

-- What a step on the descriptor `fd` comes to: it is defined, keeps the invariant and the listening
-- descriptor, and every other peer stays.
pub record Outcome (os : Os) (r : Reactor) (fd : ℤ) (result : Option (Reactor × History))
    : Type 0 where
  pub reactor : Reactor
  pub history : History
  pub ran : result ≡ some (reactor, history)
  pub inv : Inv os reactor history
  pub same : listening reactor ≡ listening r
  pub others : (d : ℤ) → d ≢ fd → Live r.server d → Live reactor.server d

-- ===== src/Network/PerClient/Safety.antt =====
-- What holds on every schedule of the threads of the server.
use low_latency_experiments.Common.{
  ℕ, List, [], ◌∷◌, ◌++◌, true, none, some, ◌≡◌, ◌⊎◌, inl, inr, refl, sym, ap, ◌∙◌, get_elem?,
  subst, eq_of_some,
}
use low_latency_experiments.Network.System.{History, Os}
use low_latency_experiments.Network.Socket.Options.{Constants}
use low_latency_experiments.Network.Server.{Server}
use low_latency_experiments.Network.Reactor.Serving.{ReceivesAtMost}
use low_latency_experiments.Network.PerClient.{Client, Thread, System, step, run, start}
use low_latency_experiments.Network.PerClient.Invariant.{serves, StandsAt, SlotInv-empty}
use low_latency_experiments.Network.PerClient.Steps.{Good, Keeps, Early, step-Keeps}

-- Nobody is connected yet.
abbrev pub IsEmpty : Server → Type 0
IsEmpty v = (v.peers ≡ []) × (v.flags ≡ [])

pub start-Good : (v : Server) (h : History) → IsEmpty v → Good (start v h)
start-Good v h (p, f) = rw (p, f) SlotInv-empty

module _ (os : Os) (c : Constants) (at_most : ReceivesAtMost os) where
  -- On some way along the schedule a thread comes too early.
  abbrev pub RanEarly : List Thread → System → Type 0
  RanEarly ts s =
      (before : List Thread) × (t : Thread) × (after : List Thread) × (s' : System) × (ts
        ≡ before ++ t ∷ after)
      × (run os c before s ≡ some s')
      × Early t s'

  pub step-Good : (t : Thread) (s s' : System) → Good s → step os c t s ≡ some s' → Good s'
  step-Good t s s' good e = elim (step-Keeps os c at_most t s good) [
    | inl kept ↦ subst Good (eq_of_some (sym kept.ran ∙ e)) kept.good
    | inr (undefined, early) ↦ absurd (cc (undefined, e))
  ]

  RanEarly-next :
      (t : Thread) (ts : List Thread) (s s' : System)
      → step os c t s ≡ some s'
      → RanEarly ts s'
      → RanEarly (t ∷ ts) s
  unfolding run
  RanEarly-next t ts s s' e (before, u, after, r, parts, ran, early) =
      (t ∷ before, u, after, r, ap (λ us. t ∷ us) parts, rw e ran, early)

  pub run-Keeps :
      (ts : List Thread) (s : System)
      → Good s
      → Keeps (run os c ts s) ⊎ ((run os c ts s ≡ none) × RanEarly ts s)
  unfolding run
  run-Keeps [] s good = inl (record { system = s; ran = refl; good = good })
  run-Keeps (t ∷ ts) s good = elim (step-Keeps os c at_most t s good) [
    | inr (undefined, early) ↦ inr (rw undefined refl, ([], t, ts, s, refl, refl, early))
    | inl next ↦ elim (run-Keeps ts next.system next.good) [
      | inl rest ↦
          inl (record { system = rest.system; ran = rw (next.ran) rest.ran; good = rest.good })
      | inr (undefined, early) ↦
          inr (rw (next.ran) undefined, RanEarly-next t ts s next.system next.ran early)
    ]
  ]

  module _ (v : Server) (h : History) (empty : IsEmpty v) (ts : List Thread) where
    pub reached : (s : System) → run os c ts (start v h) ≡ some s → Good s
    reached s ran = elim (run-Keeps ts (start v h) (start-Good v h empty)) [
      | inl kept ↦ subst Good (eq_of_some (sym kept.ran ∙ ran)) kept.good
      | inr (undefined, early) ↦ absurd (cc (undefined, ran))
    ]

    -- If `recv` stores no more than it is asked for: on every schedule from a server without
    -- peers, two threads that have not removed their peer and serve the same slot are the same
    -- thread, and that slot counts as connected.
    pub own_slot :
        (s : System) (j k slot : ℕ) (p q : Client)
        → run os c ts (start v h) ≡ some s
        → StandsAt s.clients j slot p
        → StandsAt s.clients k slot q
        → serves p ≡ true
        → serves q ≡ true
        → (j ≡ k) × (get_elem? s.server.flags slot ≡ some true)
    own_slot s j k slot p q ran a b serving also =
        let good = reached s ran in
        (good.unique j k slot p q a b serving also, good.in_use j slot p a serving)

-- ===== src/Network/PerClient/Next.antt =====
-- What holds of the state after a step, where there is one.
use low_latency_experiments.Common.{
  Bool, true, false, Option, none, some, ◌≡◌, refl, if◌then◌else◌, ◌>>=◌,
}
use low_latency_experiments.Network.PerClient.{Thread, System, when_free}

abbrev pub Next : (System → Type 0) → Option System → Type 0
Next P none = Unit {0}
Next P (some s) = P s

module _ (P : System → Type 0) where
  pub when_free-Next :
      (o : Option Thread) (s t : System) → (o ≡ none → P s) → P t → Next P (some (when_free o s t))
  when_free-Next none s t free busy = free refl
  when_free-Next (some owner) s t free busy = busy

  pub if-Next : (b : Bool) (o p : Option System) → Next P o → Next P p → Next P (if b then o else p)
  if-Next true o p x y = x
  if-Next false o p x y = y

  pub >>=-Next :
      {A : Type 0} (o : Option A) (f : A → Option System)
      → ((a : A) → Next P (f a))
      → Next P (o >>= f)
  >>=-Next none f k = tt
  >>=-Next (some a) f k = k a

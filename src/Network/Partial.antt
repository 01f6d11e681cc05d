-- ===== src/Network/Partial.antt =====
-- Pieces of code that make system calls and may have no defined behaviour.
use low_latency_experiments.Common.{Option, none, some, ◌≡◌, refl}
use low_latency_experiments.Network.System.{History, M}

-- `none` stands for undefined behaviour.
abbrev pub U : Type 0 → Type 0
U A = History → Option (A × History)

infixl 5 ◌>>=◌ ◌>>◌
abbrev pub ◌>>=◌ : {A B : Type 0} → U A → (A → U B) → U B
◌>>=◌ m f h = elim (m h) [ none ↦ none | some (a, h') ↦ f a h' ]

abbrev pub ◌>>◌ : {A B : Type 0} → U A → U B → U B
m >> n = m >>= λ _. n

abbrev pub pure : {A : Type 0} → A → U A
pure a h = some (a, h)

-- Code that is always defined.
abbrev pub lift : {A : Type 0} → M A → U A
lift m h = some (m h)

-- Undefined where there is no value.
abbrev pub defined : {A : Type 0} → Option A → U A
defined none h = none
defined (some a) h = some (a, h)

abbrev pub undefined : {A : Type 0} → U A
undefined h = none

-- A first piece that is defined gives way to the second.
pub >>=-some :
    {A B : Type 0} (m : U A) (f : A → U B) {h h' : History} {a : A}
    → m h ≡ some (a, h')
    → (m >>= f) h ≡ f a h'
>>=-some m f e = rw (e, ◌>>=◌) refl

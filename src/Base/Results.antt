-- ===== src/Base/Results.antt =====
-- Results of code that may raise, with the exception as a value.
use mathlib.Core.Path.{◌≡◌, refl}
use mathlib.Core.Logic.{◌≢◌, ◌⊎◌, inl, inr}

pub data Result (X A : Type 0) : Type 0 where
  ok : A → Result X A
  raise : X → Result X A

infixl 5 ◌>>=◌
abbrev pub ◌>>=◌ : {X A B : Type 0} → Result X A → (A → Result X B) → Result X B
raise x >>= next = raise x
ok a >>= next = next a

-- What returns has returned at every step.
pub bind_returns :
    {X A B : Type 0} (step : Result X A) (next : A → Result X B) {out : B}
    → (step >>= next) ≡ ok out
    → (got : A) × (step ≡ ok got) × (next got ≡ ok out)
bind_returns (raise x) next same = cc
bind_returns (ok got) next same = (got, refl, same)

pub ok_injective : {X A : Type 0} {a b : A} → ◌≡◌ {A = Result X A} (ok a) (ok b) → a ≡ b
ok_injective h = cc

pub Result-cases :
    {X A : Type 0} (r : Result X A) → ((a : A) × (r ≡ ok a)) ⊎ ((x : X) × (r ≡ raise x))
Result-cases (ok a) = inl (a, refl)
Result-cases (raise x) = inr (x, refl)

pub raise_ok : {X A : Type 0} {x : X} {a : A} → ◌≢◌ {A = Result X A} (raise x) (ok a)
raise_ok h = cc

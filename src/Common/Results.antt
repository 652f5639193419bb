-- ===== src/Common/Results.antt =====
-- The outcome of code that may raise: `err` carries the exception.
use mathlib.Core.Path.{◌≡◌, refl}
use mathlib.Core.Logic.{◌⊎◌, inl, inr}
use mathlib.Core.Option.{Option, some}

pub data Result {ε ℓ} (E : Type ε) (A : Type ℓ) : Type (ε ⊔ ℓ) where
  err : E → Result E A
  ok : A → Result E A

-- A `do` block goes on after `ok` and stops at the first exception.
infixl 5 ◌>>=◌
abbrev pub ◌>>=◌ {ε ℓ κ} :
    {E : Type ε} {A : Type ℓ} {B : Type κ} → Result E A → (A → Result E B) → Result E B
outcome >>= rest = elim outcome [ err e ↦ err e | ok a ↦ rest a ]

-- An exception or a value, with the equation.
pub Result-cases {ε ℓ} :
    {E : Type ε} {A : Type ℓ} (r : Result E A) → ((a : A) × (r ≡ ok a)) ⊎ ((e : E) × (r ≡ err e))
Result-cases (err e) = inr (e, refl)
Result-cases (ok a) = inl (a, refl)

module _ {ε ℓ κ} {E : Type ε} {A : Type ℓ} {B : Type κ} where
  -- What a block that returned did at its first step.
  pub >>=-eq-ok :
      (r : Result E A) (rest : A → Result E B) {b : B}
      → (r >>= rest) ≡ ok b
      → (a : A) × (r ≡ ok a) × (rest a ≡ ok b)
  >>=-eq-ok (err e) rest raised = cc
  >>=-eq-ok (ok a) rest returned = (a, refl, returned)

  pub bind_congr :
      (r : Result E A) {f g : A → Result E B} → ((a : A) → f a ≡ g a) → (r >>= f) ≡ (r >>= g)
  bind_congr (err e) same = refl
  bind_congr (ok a) same = same a

pub ok_inj {ε ℓ} : {E : Type ε} {A : Type ℓ} {a b : A} → ◌≡◌ {A = Result E A} (ok a) (ok b) → a ≡ b
ok_inj e = cc

pub some_inj {ℓ} : {A : Type ℓ} {a b : A} → ◌≡◌ {A = Option A} (some a) (some b) → a ≡ b
some_inj e = cc

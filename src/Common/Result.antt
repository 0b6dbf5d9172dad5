-- ===== src/Common/Result.antt =====
-- The outcome of a call: a value, an error value, or a panic (`expect`, `debug_assert!`), and
-- calls on a state, which keep the state that they reached whatever the outcome is.
use mathlib.Core.Path.{◌≡◌, refl}
use mathlib.Core.Logic.{◌⊎◌, inl, inr}
use mathlib.Core.Bool.{Bool, true, false}
use mathlib.Core.Option.{Option, none, some}

pub data Outcome {ℓ κ} (E : Type κ) (A : Type ℓ) : Type (ℓ ⊔ κ) where
  ok : A → Outcome E A
  err : E → Outcome E A
  panicked : Outcome E A

-- `&mut self` methods.
abbrev pub Call {ℓ κ μ} : Type μ → Type κ → Type ℓ → Type (ℓ ⊔ κ ⊔ μ)
Call S E A = S → Outcome E A × S

abbrev pub continue {ℓ λ₁ κ μ} :
    {S : Type μ} {E : Type κ} {A : Type ℓ} {B : Type λ₁}
    → Outcome E A
    → S
    → (A → Call S E B)
    → Outcome E B × S
continue (ok a) s f = f a s
continue (err e) s f = (err e, s)
continue panicked s f = (panicked, s)

infixl 5 ◌>>=◌ ◌>>◌
abbrev pub ◌>>=◌ {ℓ λ₁ κ μ} :
    {S : Type μ} {E : Type κ} {A : Type ℓ} {B : Type λ₁}
    → Call S E A
    → (A → Call S E B)
    → Call S E B
◌>>=◌ m f s = let (r, s') = m s in continue r s' f

abbrev pub ◌>>◌ {ℓ κ μ} :
    {S : Type μ} {E : Type κ} {B : Type ℓ} → Call S E (Unit {0}) → Call S E B → Call S E B
m >> k = m >>= λ _. k

module _ {ℓ κ μ} {S : Type μ} {E : Type κ} {A : Type ℓ} where
  abbrev pub pure : A → Call S E A
  pure a s = (ok a, s)

  abbrev pub raise : E → Call S E A
  raise e s = (err e, s)

  abbrev pub gets : (S → A) → Call S E A
  gets f s = (ok (f s), s)

  -- `?` on the result of a call that changes nothing.
  abbrev pub check : Outcome E A → Call S E A
  check r s = (r, s)

  -- `.ok_or(e)?`
  abbrev pub or_raise : Option A → E → Call S E A
  or_raise none e = raise e
  or_raise (some a) e = pure a

  -- `.expect(..)`
  abbrev pub expect : Option A → Call S E A
  expect none s = (panicked, s)
  expect (some a) s = (ok a, s)

module _ {κ μ} {S : Type μ} {E : Type κ} where
  abbrev pub modify : (S → S) → Call S E (Unit {0})
  modify f s = (ok tt, f s)

  -- `if c { return Err(e) }`
  abbrev pub raise_if : Bool → E → Call S E (Unit {0})
  raise_if true e s = (err e, s)
  raise_if false e s = (ok tt, s)

  -- `debug_assert!(c)`
  abbrev pub debug_assert : Bool → Call S E (Unit {0})
  debug_assert true s = (ok tt, s)
  debug_assert false s = (panicked, s)

pub Outcome-cases {ℓ κ} :
    {E : Type κ} {A : Type ℓ} (o : Outcome E A)
    → ((a : A) × (o ≡ ok a)) ⊎ (((e : E) × (o ≡ err e)) ⊎ (o ≡ panicked))
Outcome-cases (ok a) = inl (a, refl)
Outcome-cases (err e) = inr (inl (e, refl))
Outcome-cases panicked = inr (inr refl)

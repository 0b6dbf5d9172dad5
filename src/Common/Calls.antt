-- ===== src/Common/Calls.antt =====
-- Chains of calls, read backwards: what a chain that returns says of the calls in it.
use mathlib.Core.Path.{◌≡◌, refl}
use mathlib.Core.Bool.{Bool, true, false}
use zorya.Common.Result.{
  Outcome, ok, err, panicked, Call, ◌>>=◌, ◌>>◌, raise_if, debug_assert, continue,
}

-- A fact taken apart once, so that what follows stands on its parts alone.
pub given {ℓ λ₁} : {A : Type ℓ} {B : Type λ₁} → A → (A → B) → B
given a k = k a

module _ {ℓ λ₁ κ μ} {S : Type μ} {E : Type κ} {A : Type ℓ} {B : Type λ₁} where
  continue-ok :
      (r : Outcome E A × S) (f : A → Call S E B) {s' : S} {b : B}
      → continue r.0 r.1 f ≡ (ok b, s')
      → (a : A) × (t : S) × (r ≡ (ok a, t)) × (f a t ≡ (ok b, s'))
  continue-ok (ok a, t) f k = (a, t, refl, k)
  continue-ok (err x, t) f k = absurd cc
  continue-ok (panicked, t) f k = absurd cc

  -- A chain that returns has a first call that returns.
  pub bind-ok :
      (m : Call S E A) (f : A → Call S E B) (s : S) {s' : S} {b : B}
      → (m >>= f) s ≡ (ok b, s')
      → (a : A) × (t : S) × (m s ≡ (ok a, t)) × (f a t ≡ (ok b, s'))
  bind-ok m f s h = continue-ok (m s) f h

module _ {ℓ κ μ} {S : Type μ} {E : Type κ} {B : Type ℓ} where
  pub raise_if-ok :
      (c : Bool) (e : E) (k : Call S E B) (s : S) {s' : S} {b : B}
      → (raise_if c e >> k) s ≡ (ok b, s')
      → (c ≡ false) × (k s ≡ (ok b, s'))
  raise_if-ok true e k s h = absurd cc
  raise_if-ok false e k s h = (refl, h)

  pub debug_assert-ok :
      (c : Bool) (k : Call S E B) (s : S) {s' : S} {b : B}
      → (debug_assert c >> k) s ≡ (ok b, s')
      → (c ≡ true) × (k s ≡ (ok b, s'))
  debug_assert-ok true k s h = (refl, h)
  debug_assert-ok false k s h = absurd cc

-- ===== src/Record/Check.antt =====
-- Checks that have no state: `?` on an outcome.
use zorya.Common.{if◌then◌else◌, ◌≡◌, refl, Bool, true, false, Outcome, ok, err, panicked}

infixr 5 ◌>>=◌ ◌>>◌
abbrev pub ◌>>=◌ {ℓ λ₁ κ} :
    {E : Type κ} {A : Type ℓ} {B : Type λ₁} → Outcome E A → (A → Outcome E B) → Outcome E B
ok a >>= f = f a
err e >>= f = err e
panicked >>= f = panicked

abbrev pub ◌>>◌ {ℓ κ} : {E : Type κ} {B : Type ℓ} → Outcome E (Unit {0}) → Outcome E B → Outcome E B
m >> k = m >>= λ _. k

-- `if c { return Err(e) }`
abbrev pub fail_if {κ} : {E : Type κ} → Bool → E → Outcome E (Unit {0})
fail_if true e = err e
fail_if false e = ok tt

-- A chain of checks passes when each of them does.
pub then-ok {ℓ κ} :
    {E : Type κ} {B : Type ℓ}
    → (m : Outcome E (Unit {0})) → (k : Outcome E B) → (b : B) → m >> k ≡ ok b
    → (m ≡ ok tt) × (k ≡ ok b)
then-ok (ok a) k b h = (refl, h)
then-ok (err e) k b h = absurd cc
then-ok panicked k b h = absurd cc

pub fail_if-ok {κ} : {E : Type κ} → (c : Bool) → (e : E) → fail_if c e ≡ ok tt → c ≡ false
fail_if-ok true e h = absurd cc
fail_if-ok false e h = refl

-- `if c { return Err(e) }` before the rest, in a function that returns.
pub guard-ok {ℓ κ} :
    {E : Type κ} {A : Type ℓ} (c : Bool) (e : E) (k : Outcome E A) {a : A}
    → (if c then err e else k) ≡ ok a
    → (c ≡ false) × (k ≡ ok a)
guard-ok true e k h = absurd cc
guard-ok false e k h = (refl, h)

-- `?` before the rest, in a function that returns.
pub try-ok {ℓ λ₁ κ} :
    {E : Type κ} {A : Type ℓ} {B : Type λ₁} (m : Outcome E A) (f : A → Outcome E B) {b : B}
    → m >>= f ≡ ok b
    → (a : A) × (m ≡ ok a) × (f a ≡ ok b)
try-ok (ok a) f h = (a, refl, h)
try-ok (err e) f h = absurd cc
try-ok panicked f h = absurd cc

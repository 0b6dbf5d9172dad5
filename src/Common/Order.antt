-- ===== src/Common/Order.antt =====
-- Lists of items whose identifiers rise strictly, as the identifier counters produce them.
use Prim.Native.Nat.{ℕ, zero, suc, ◌≤◌}
use mathlib.Core.Path.{◌≡◌, refl}
use mathlib.Core.Logic.{inl, inr}
use mathlib.Core.Bool.{Bool}
use mathlib.Core.List.{List, [], ◌∷◌, ◌++◌}
use mathlib.Core.Option.{none, some}
use native.Mathlib.Omega.{arith}
use zorya.Common.Tests.{◌==◌, Bool-cases}
use zorya.Common.Lists.{take, drop, get_elem?, position, remove_at, update_first, retain}

-- Every key lies in [lo, hi), and the keys rise strictly along the list.
module _ {ℓ} {A : Type ℓ} (key : A → ℕ) where
  abbrev pub Rising : ℕ → List A → ℕ → Type 0
  Rising lo [] hi = lo ≤ hi
  Rising lo (x ∷ xs) hi = (lo ≤ key x) × Rising (suc (key x)) xs hi

  pub Rising-le : (lo : ℕ) (xs : List A) (hi : ℕ) → Rising lo xs hi → lo ≤ hi
  Rising-le lo [] hi r = r
  Rising-le lo (x ∷ xs) hi r = omega (arith, Rising-le (suc (key x)) xs hi r.1)

  pub Rising-widen :
      (lo lo' : ℕ) (xs : List A) (hi hi' : ℕ)
      → lo' ≤ lo
      → hi ≤ hi'
      → Rising lo xs hi
      → Rising lo' xs hi'
  Rising-widen lo lo' [] hi hi' p q r = omega arith
  Rising-widen lo lo' (x ∷ xs) hi hi' p q r =
      (omega arith, Rising-widen (suc (key x)) (suc (key x)) xs hi hi' (omega arith) q r.1)

  pub Rising-append :
      (lo : ℕ) (xs : List A) (mid : ℕ) (ys : List A) (hi : ℕ)
      → Rising lo xs mid
      → Rising mid ys hi
      → Rising lo (xs ++ ys) hi
  Rising-append lo [] mid ys hi r s = Rising-widen mid lo ys hi hi r (omega arith) s
  Rising-append lo (x ∷ xs) mid ys hi r s = (r.0, Rising-append (suc (key x)) xs mid ys hi r.1 s)

  pub take-Rising : (n lo : ℕ) (xs : List A) (hi : ℕ) → Rising lo xs hi → Rising lo (take n xs) hi
  take-Rising zero lo xs hi r = Rising-le lo xs hi r
  take-Rising (suc n) lo [] hi r = r
  take-Rising (suc n) lo (x ∷ xs) hi r = (r.0, take-Rising n (suc (key x)) xs hi r.1)

  pub drop-Rising : (n lo : ℕ) (xs : List A) (hi : ℕ) → Rising lo xs hi → Rising lo (drop n xs) hi
  drop-Rising zero lo xs hi r = r
  drop-Rising (suc n) lo [] hi r = r
  drop-Rising (suc n) lo (x ∷ xs) hi r =
      Rising-widen (suc (key x)) lo (drop n xs) hi hi (omega arith) (omega arith)
        (drop-Rising n (suc (key x)) xs hi r.1)

  pub remove_at-Rising :
      (i lo : ℕ) (xs : List A) (hi : ℕ) → Rising lo xs hi → Rising lo (remove_at i xs) hi
  unfolding remove_at
  remove_at-Rising i lo [] hi r = r
  remove_at-Rising zero lo (x ∷ xs) hi r =
      Rising-widen (suc (key x)) lo xs hi hi (omega arith) (omega arith) r.1
  remove_at-Rising (suc i) lo (x ∷ xs) hi r = (r.0, remove_at-Rising i (suc (key x)) xs hi r.1)

  pub retain-Rising :
      (p : A → Bool) (lo : ℕ) (xs : List A) (hi : ℕ) → Rising lo xs hi → Rising lo (retain p xs) hi
  unfolding retain
  retain-Rising p lo [] hi r = r
  retain-Rising p lo (x ∷ xs) hi r = ground (
    arith,
    retain-Rising p (suc (key x)) xs hi r.1,
    λ (s : Rising (suc (key x)) (retain p xs) hi).
        Rising-widen (suc (key x)) lo (retain p xs) hi hi (omega arith) (omega arith) s,
  )

  pub update_first-Rising :
      (p : A → Bool) (f : A → A) (lo : ℕ) (xs : List A) (hi : ℕ)
      → ((x : A) → key (f x) ≡ key x)
      → Rising lo xs hi
      → Rising lo (update_first p f xs) hi
  unfolding update_first
  update_first-Rising p f lo [] hi same r = r
  update_first-Rising p f lo (x ∷ xs) hi same r = elim (Bool-cases (p x)) [
    | inl e ↦ rw (e, same x) r
    | inr e ↦ rw e (r.0, update_first-Rising p f (suc (key x)) xs hi same r.1)
  ]

  -- A key at or above the bound is found nowhere.
  pub position-Rising_above :
      (k lo : ℕ) (xs : List A) (hi : ℕ)
      → Rising lo xs hi
      → hi ≤ k
      → position (λ x. key x == k) xs ≡ none
  unfolding position
  position-Rising_above k lo [] hi r h = refl
  position-Rising_above k lo (x ∷ xs) hi r h =
      ground
        (arith, Rising-le (suc (key x)) xs hi r.1, position-Rising_above k (suc (key x)) xs hi r.1)

  pub get_elem?-Rising :
      (i lo : ℕ) (xs : List A) (hi : ℕ) (x : A)
      → Rising lo xs hi
      → get_elem? xs i ≡ some x
      → lo ≤ key x
  get_elem?-Rising i lo [] hi x r h = cc
  get_elem?-Rising zero lo (y ∷ ys) hi x r h = ground arith
  get_elem?-Rising (suc i) lo (y ∷ ys) hi x r h =
      omega (arith, get_elem?-Rising i (suc (key y)) ys hi x r.1 h)

  -- An item is found by its key where it stands.
  pub position-get_elem? :
      (i lo : ℕ) (xs : List A) (hi : ℕ) (x : A)
      → Rising lo xs hi
      → get_elem? xs i ≡ some x
      → position (λ y. key y == key x) xs ≡ some i
  unfolding position
  position-get_elem? i lo [] hi x r h = cc
  position-get_elem? zero lo (y ∷ ys) hi x r h = ground arith
  position-get_elem? (suc i) lo (y ∷ ys) hi x r h = ground (
    arith,
    get_elem?-Rising i (suc (key y)) ys hi x r.1 h,
    position-get_elem? i (suc (key y)) ys hi x r.1 h,
  )

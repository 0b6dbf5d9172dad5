-- ===== src/Common/Lists.antt =====
-- Lists measured and indexed by native numbers, under the library's names.
use Prim.Native.Nat.{ℕ, zero, suc, ◌+◌, ◌-◌, ◌≤◌, min}
use mathlib.Core.Path.{◌≡◌, refl, ap}
use mathlib.Core.Bool.{Bool, true, false}
use mathlib.Core.Logic.{inl, inr}
use mathlib.Core.List.{List, [], ◌∷◌, ◌++◌}
use mathlib.Core.Option.{Option, none, some}
use native.Mathlib.Omega.{arith}
use zorya.Common.Tests.{if◌then◌else◌, is_some, Bool-cases, Option-cases}

module _ {ℓ} {A : Type ℓ} where
  abbrev pub length : List A → ℕ
  length [] = 0
  length (x ∷ xs) = suc (length xs)

  -- `slice::get`
  abbrev pub get_elem? : List A → ℕ → Option A
  get_elem? [] i = none
  get_elem? (x ∷ xs) zero = some x
  get_elem? (x ∷ xs) (suc i) = get_elem? xs i

  abbrev pub take : ℕ → List A → List A
  take zero xs = []
  take (suc n) [] = []
  take (suc n) (x ∷ xs) = x ∷ take n xs

  abbrev pub drop : ℕ → List A → List A
  drop zero xs = xs
  drop (suc n) [] = []
  drop (suc n) (x ∷ xs) = drop n xs

  pub length-append : (xs ys : List A) → length (xs ++ ys) ≡ length xs + length ys
  length-append [] ys = omega arith
  length-append (x ∷ xs) ys = omega (arith, length-append xs ys)

  pub length-take : (n : ℕ) (xs : List A) → length (take n xs) ≡ min n (length xs)
  length-take zero xs = omega arith
  length-take (suc n) [] = omega arith
  length-take (suc n) (x ∷ xs) = omega (arith, length-take n xs)

  pub length-drop : (n : ℕ) (xs : List A) → length (drop n xs) ≡ length xs - n
  length-drop zero xs = omega arith
  length-drop (suc n) [] = omega arith
  length-drop (suc n) (x ∷ xs) = omega (arith, length-drop n xs)

  -- A predicate at every element; it computes to a tuple.
  abbrev pub All {κ} : (A → Type κ) → List A → Type κ
  All P [] = Unit
  All P (x ∷ xs) = P x × All P xs

  pub All-append {κ} : (P : A → Type κ) (xs ys : List A) → All P xs → All P ys → All P (xs ++ ys)
  All-append P [] ys hx hy = hy
  All-append P (x ∷ xs) ys hx hy = (hx.0, All-append P xs ys hx.1 hy)

abbrev pub raise_index : Option ℕ → Option ℕ
raise_index none = none
raise_index (some i) = some (suc i)

module _ {ℓ} {A : Type ℓ} where
  -- `iter().find`
  unfoldable pub find : (A → Bool) → List A → Option A
  find p [] = none
  find p (x ∷ xs) = if p x then some x else find p xs

  -- `iter().position`
  unfoldable pub position : (A → Bool) → List A → Option ℕ
  position p [] = none
  position p (x ∷ xs) = if p x then some 0 else raise_index (position p xs)

  -- `iter().any`
  unfoldable pub any : (A → Bool) → List A → Bool
  any p [] = false
  any p (x ∷ xs) = if p x then true else any p xs

  -- `Vec::remove` at an index in range
  unfoldable pub remove_at : ℕ → List A → List A
  remove_at i [] = []
  remove_at zero (x ∷ xs) = xs
  remove_at (suc i) (x ∷ xs) = x ∷ remove_at i xs

  -- `Vec::insert`
  unfoldable pub insert_at : ℕ → A → List A → List A
  insert_at zero v xs = v ∷ xs
  insert_at (suc i) v [] = v ∷ []
  insert_at (suc i) v (x ∷ xs) = x ∷ insert_at i v xs

  -- `iter_mut().find(p)` and a write through the reference
  unfoldable pub update_first : (A → Bool) → (A → A) → List A → List A
  update_first p f [] = []
  update_first p f (x ∷ xs) = if p x then f x ∷ xs else x ∷ update_first p f xs

  -- `Vec::retain`
  unfoldable pub retain : (A → Bool) → List A → List A
  retain p [] = []
  retain p (x ∷ xs) = if p x then x ∷ retain p xs else retain p xs

module _ {ℓ} {A : Type ℓ} where
  pub drop-append : (n : ℕ) (xs ys : List A) → n ≤ length xs → drop n (xs ++ ys) ≡ drop n xs ++ ys
  drop-append zero xs ys h = refl
  drop-append (suc n) [] ys h = absurd (omega arith)
  drop-append (suc n) (x ∷ xs) ys h = drop-append n xs ys (omega arith)

  pub any-append_right : (p : A → Bool) (xs ys : List A) → any p ys ≡ true → any p (xs ++ ys) ≡ true
  unfolding any
  any-append_right p [] ys h = h
  any-append_right p (x ∷ xs) ys h = ground (arith, any-append_right p xs ys h)

  pub length-update_first :
      (p : A → Bool) (f : A → A) (xs : List A) → length (update_first p f xs) ≡ length xs
  unfolding update_first
  length-update_first p f [] = refl
  length-update_first p f (x ∷ xs) = ground (arith, length-update_first p f xs)

  -- A rewrite that keeps the tested property keeps `any`.
  pub any-update_first :
      (q p : A → Bool) (f : A → A) (xs : List A)
      → ((x : A) → q (f x) ≡ q x)
      → any q (update_first p f xs) ≡ any q xs
  unfolding any update_first
  any-update_first q p f [] same = refl
  any-update_first q p f (x ∷ xs) same = ground (arith, same x, any-update_first q p f xs same)

  -- `find` and `any` agree.
  pub find-eq-none : (p : A → Bool) (xs : List A) → find p xs ≡ none → any p xs ≡ false
  unfolding any find
  find-eq-none p [] h = refl
  find-eq-none p (x ∷ xs) h = ground (arith, find-eq-none p xs)

  pub position-eq-none : (p : A → Bool) (xs : List A) → position p xs ≡ none → any p xs ≡ false
  unfolding any position
  position-eq-none p [] h = refl
  position-eq-none p (x ∷ xs) h = ground (arith, position-eq-none p xs)

  pub find-eq-some : (p : A → Bool) (xs : List A) (a : A) → find p xs ≡ some a → any p xs ≡ true
  unfolding any find
  find-eq-some p [] a h = cc
  find-eq-some p (x ∷ xs) a h = ground (arith, find-eq-some p xs a)

  -- A position holds an item that passes the test.
  pub position-eq-some :
      (p : A → Bool) (xs : List A) (i : ℕ)
      → position p xs ≡ some i
      → (x : A) × (get_elem? xs i ≡ some x) × (p x ≡ true)
  unfolding position
  position-eq-some p [] i h = cc
  position-eq-some p (x ∷ xs) i h = elim (Bool-cases (p x)) [
    | inl hit ↦ (x, ground arith, hit)
    | inr miss ↦ elim (Option-cases (position p xs)) [
      | inl e ↦ absurd (ground arith)
      | inr (j, e) ↦ let rest = position-eq-some p xs j e in (rest.0, ground arith, rest.2)
    ]
  ]

  pub take-update_first :
      (p : A → Bool) (f : A → A) (xs : List A) (i : ℕ)
      → position p xs ≡ some i
      → take i (update_first p f xs) ≡ take i xs
  unfolding position update_first
  take-update_first p f [] i h = cc
  take-update_first p f (x ∷ xs) zero h = refl
  take-update_first p f (x ∷ xs) (suc i) h = ground (arith, take-update_first p f xs i)

  pub drop-update_first :
      (p : A → Bool) (f : A → A) (xs : List A) (i : ℕ)
      → position p xs ≡ some i
      → drop (suc i) (update_first p f xs) ≡ drop (suc i) xs
  unfolding position update_first
  drop-update_first p f [] i h = cc
  drop-update_first p f (x ∷ xs) zero h = ground arith
  drop-update_first p f (x ∷ xs) (suc i) h = ground (arith, drop-update_first p f xs i)

  pub get_elem?-update_first :
      (p : A → Bool) (f : A → A) (xs : List A) (i : ℕ) (x : A)
      → position p xs ≡ some i
      → get_elem? xs i ≡ some x
      → get_elem? (update_first p f xs) i ≡ some (f x)
  unfolding position update_first
  get_elem?-update_first p f [] i x h k = cc
  get_elem?-update_first p f (y ∷ ys) zero x h k = ground arith
  get_elem?-update_first p f (y ∷ ys) (suc i) x h k =
      ground (arith, get_elem?-update_first p f ys i x)

  pub position-update_first :
      (q p : A → Bool) (f : A → A) (xs : List A)
      → ((x : A) → q (f x) ≡ q x)
      → position q (update_first p f xs) ≡ position q xs
  unfolding position update_first
  position-update_first q p f [] same = refl
  position-update_first q p f (x ∷ xs) same =
      ground (arith, same x, position-update_first q p f xs same)

  pub position-any : (p : A → Bool) (xs : List A) → any p xs ≡ true → is_some (position p xs) ≡ true
  unfolding position any
  position-any p [] h = cc
  position-any p (x ∷ xs) h = ground (arith, position-any p xs)

  pub find-position :
      (p : A → Bool) (xs : List A)
      → find p xs ≡ elim (position p xs) [ none ↦ none | some i ↦ get_elem? xs i ]
  unfolding position find
  find-position p [] = refl
  find-position p (x ∷ xs) = ground (arith, find-position p xs)

  pub find_holds : (p : A → Bool) (xs : List A) (x : A) → find p xs ≡ some x → p x ≡ true
  unfolding find
  find_holds p [] x h = cc
  find_holds p (y ∷ ys) x h = elim (Bool-cases (p y)) [
    | inl hit ↦ ground arith
    | inr miss ↦ find_holds p ys x (ground arith)
  ]

  pub get_elem?_of_lt :
      (xs : List A) (i : ℕ) → suc i ≤ length xs → (x : A) × (get_elem? xs i ≡ some x)
  get_elem?_of_lt [] i h = absurd (omega arith)
  get_elem?_of_lt (x ∷ xs) zero h = (x, refl)
  get_elem?_of_lt (x ∷ xs) (suc i) h = get_elem?_of_lt xs i (omega arith)

  pub lt_of_get_elem? : (xs : List A) (i : ℕ) (x : A) → get_elem? xs i ≡ some x → suc i ≤ length xs
  lt_of_get_elem? [] i x h = cc
  lt_of_get_elem? (y ∷ ys) zero x h = omega arith
  lt_of_get_elem? (y ∷ ys) (suc i) x h = omega (arith, lt_of_get_elem? ys i x h)

  pub length-remove_at :
      (xs : List A) (i : ℕ) (x : A)
      → get_elem? xs i ≡ some x
      → suc (length (remove_at i xs)) ≡ length xs
  unfolding remove_at
  length-remove_at [] i x h = cc
  length-remove_at (y ∷ ys) zero x h = refl
  length-remove_at (y ∷ ys) (suc i) x h = ap suc (length-remove_at ys i x h)

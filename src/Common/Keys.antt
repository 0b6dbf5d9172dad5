-- ===== src/Common/Keys.antt =====
-- Lists of items with distinct identifiers, and what removal, insertion and update keep of them.
use Prim.Native.Nat.{ℕ, zero, suc, ◌≤◌}
use mathlib.Core.Path.{◌≡◌, refl, subst, ◌∙◌}
use mathlib.Core.Logic.{inl, inr}
use mathlib.Core.Bool.{Bool, true, false, not, ◌||◌}
use mathlib.Core.List.{List, [], ◌∷◌, ◌++◌}
use mathlib.Core.Option.{some}
use native.Mathlib.Omega.{arith}
use zorya.Common.Tests.{◌==◌, ==_refl, Bool-cases}
use zorya.Common.Lists.{
  get_elem?, any, position, remove_at, insert_at, retain, update_first, any-update_first, All, find,
}

module _ {ℓ} {A : Type ℓ} where
  pub any-append : (q : A → Bool) (xs ys : List A) → any q (xs ++ ys) ≡ (any q xs || any q ys)
  unfolding any
  any-append q [] ys = refl
  any-append q (x ∷ xs) ys = ground (arith, any-append q xs ys)

  pub any-remove_at-false :
      (q : A → Bool) (i : ℕ) (xs : List A) → any q xs ≡ false → any q (remove_at i xs) ≡ false
  unfolding any remove_at
  any-remove_at-false q i [] h = refl
  any-remove_at-false q zero (x ∷ xs) h = ground arith
  any-remove_at-false q (suc i) (x ∷ xs) h = ground (arith, any-remove_at-false q i xs)

  -- What is removed does not pass the test, so what passes it stays.
  pub any-remove_at-true :
      (q : A → Bool) (i : ℕ) (xs : List A) (x : A)
      → get_elem? xs i ≡ some x
      → q x ≡ false
      → any q xs ≡ true
      → any q (remove_at i xs) ≡ true
  unfolding any remove_at
  any-remove_at-true q i [] x h miss k = cc
  any-remove_at-true q zero (y ∷ ys) x h miss k = ground arith
  any-remove_at-true q (suc i) (y ∷ ys) x h miss k = ground (arith, any-remove_at-true q i ys x)

  pub any-insert_at :
      (q : A → Bool) (i : ℕ) (y : A) (xs : List A) → any q (insert_at i y xs) ≡ (q y || any q xs)
  unfolding any insert_at
  any-insert_at q zero y xs = ground arith
  any-insert_at q (suc i) y [] = ground arith
  any-insert_at q (suc i) y (x ∷ xs) = ground (arith, any-insert_at q i y xs)

  pub any-get_elem? :
      (q : A → Bool) (i : ℕ) (xs : List A) (x : A)
      → get_elem? xs i ≡ some x
      → q x ≡ true
      → any q xs ≡ true
  unfolding any
  any-get_elem? q i [] x h k = cc
  any-get_elem? q zero (y ∷ ys) x h k = ground arith
  any-get_elem? q (suc i) (y ∷ ys) x h k = ground (arith, any-get_elem? q i ys x)

  pub All-get_elem? {κ} :
      (P : A → Type κ) (i : ℕ) (xs : List A) (x : A) → All P xs → get_elem? xs i ≡ some x → P x
  All-get_elem? P i [] x h e = cc
  All-get_elem? P zero (y ∷ ys) x h e = subst P (ground arith) h.0
  All-get_elem? P (suc i) (y ∷ ys) x h e = All-get_elem? P i ys x h.1 e

  pub All-find {κ} :
      (P : A → Type κ) (p : A → Bool) (xs : List A) (x : A) → All P xs → find p xs ≡ some x → P x
  unfolding find
  All-find P p [] x h e = cc
  All-find P p (y ∷ ys) x h e = elim (Bool-cases (p y)) [
    | inl hit ↦ subst P (ground arith) h.0
    | inr miss ↦ All-find P p ys x h.1 (ground arith)
  ]

  pub All-remove_at {κ} : (P : A → Type κ) (i : ℕ) (xs : List A) → All P xs → All P (remove_at i xs)
  unfolding remove_at
  All-remove_at P i [] h = h
  All-remove_at P zero (x ∷ xs) h = h.1
  All-remove_at P (suc i) (x ∷ xs) h = (h.0, All-remove_at P i xs h.1)

  pub All-insert_at {κ} :
      (P : A → Type κ) (i : ℕ) (y : A) (xs : List A) → P y → All P xs → All P (insert_at i y xs)
  unfolding insert_at
  All-insert_at P zero y xs py h = (py, h)
  All-insert_at P (suc i) y [] py h = (py, h)
  All-insert_at P (suc i) y (x ∷ xs) py h = (h.0, All-insert_at P i y xs py h.1)

  pub All-update_first {κ} :
      (P : A → Type κ) (p : A → Bool) (f : A → A) (xs : List A)
      → ((x : A) → P x → P (f x))
      → All P xs
      → All P (update_first p f xs)
  unfolding update_first
  All-update_first P p f [] keep h = h
  All-update_first P p f (x ∷ xs) keep h = elim (Bool-cases (p x)) [
    | inl e ↦ rw e (keep x h.0, h.1)
    | inr e ↦ rw e (h.0, All-update_first P p f xs keep h.1)
  ]

  pub All-map {κ μ} :
      (P : A → Type κ) (Q : A → Type μ) (xs : List A) → ((x : A) → P x → Q x) → All P xs → All Q xs
  All-map P Q [] keep h = tt
  All-map P Q (x ∷ xs) keep h = (keep x h.0, All-map P Q xs keep h.1)

module _ {ℓ} {A : Type ℓ} (key : A → ℕ) where
  abbrev pub Distinct : List A → Type 0
  Distinct [] = Unit
  Distinct (x ∷ xs) = (any (λ y. key y == key x) xs ≡ false) × Distinct xs

  pub Distinct-append :
      (xs : List A) (y : A)
      → any (λ x. key x == key y) xs ≡ false
      → Distinct xs
      → Distinct (xs ++ y ∷ [])
  unfolding any
  Distinct-append [] y h d = (refl, tt)
  Distinct-append (x ∷ xs) y h d = (
    any-append (λ z. key z == key x) xs (y ∷ []) ∙ (ground (arith, d.0)),
    Distinct-append xs y (ground arith) d.1,
  )

  pub Distinct-remove_at : (i : ℕ) (xs : List A) → Distinct xs → Distinct (remove_at i xs)
  unfolding remove_at
  Distinct-remove_at i [] d = d
  Distinct-remove_at zero (x ∷ xs) d = d.1
  Distinct-remove_at (suc i) (x ∷ xs) d =
      (any-remove_at-false (λ y. key y == key x) i xs d.0, Distinct-remove_at i xs d.1)

  pub Distinct-insert_at :
      (i : ℕ) (y : A) (xs : List A)
      → any (λ x. key x == key y) xs ≡ false
      → Distinct xs
      → Distinct (insert_at i y xs)
  unfolding insert_at any
  Distinct-insert_at zero y xs h d = (h, d)
  Distinct-insert_at (suc i) y [] h d = (refl, tt)
  Distinct-insert_at (suc i) y (x ∷ xs) h d = (
    any-insert_at (λ z. key z == key x) i y xs ∙ (ground (arith, d.0)),
    Distinct-insert_at i y xs (ground arith) d.1,
  )

  -- An item that is removed is gone.
  pub any-remove_at_self :
      (i : ℕ) (xs : List A) (x : A)
      → Distinct xs
      → get_elem? xs i ≡ some x
      → any (λ y. key y == key x) (remove_at i xs) ≡ false
  unfolding any remove_at
  any-remove_at_self i [] x d h = refl
  any-remove_at_self zero (y ∷ ys) x d h = ground (arith, d.0)
  any-remove_at_self (suc i) (y ∷ ys) x d h =
      ground
        (arith, d.0, any-remove_at_self i ys x d.1 h, any-get_elem? (λ z. key z == key y) i ys x h)

  pub Distinct-update_first :
      (p : A → Bool) (f : A → A) (xs : List A)
      → ((x : A) → key (f x) ≡ key x)
      → Distinct xs
      → Distinct (update_first p f xs)
  unfolding update_first
  Distinct-update_first p f [] same d = d
  Distinct-update_first p f (x ∷ xs) same d = elim (Bool-cases (p x)) [
    | inl e ↦ rw (e, same x) d
    | inr e ↦ rw e (
      any-update_first (λ y. key y == key x) p f xs (λ z. rw (same z)) ∙ d.0,
      Distinct-update_first p f xs same d.1,
    )
  ]

  -- Below a bound, the bound itself is a fresh identifier.
  pub fresh_any :
      (n : ℕ) (xs : List A) → All (λ x. suc (key x) ≤ n) xs → any (λ x. key x == n) xs ≡ false
  unfolding any
  fresh_any n [] h = refl
  fresh_any n (x ∷ xs) h = ground (arith, fresh_any n xs h.1)

  pub retain_absent :
      (k : ℕ) (xs : List A)
      → any (λ x. key x == k) xs ≡ false
      → retain (λ x. not (key x == k)) xs ≡ xs
  unfolding any retain
  retain_absent k [] h = refl
  retain_absent k (x ∷ xs) h = ground (arith, retain_absent k xs)

  -- Taking an item out by its position is taking its identifier out.
  pub remove_at-retain :
      (k i : ℕ) (xs : List A)
      → Distinct xs
      → position (λ x. key x == k) xs ≡ some i
      → remove_at i xs ≡ retain (λ x. not (key x == k)) xs
  unfolding position remove_at retain
  remove_at-retain k i [] d e = cc
  remove_at-retain k zero (x ∷ xs) d e =
      let hit : key x ≡ k = ground arith in
      ground (arith, retain_absent k xs (subst (λ n. any (λ y. key y == n) xs ≡ false) hit d.0))
  remove_at-retain k (suc i) (x ∷ xs) d e = ground (arith, remove_at-retain k i xs d.1)

  pub retain-insert_at :
      (k i : ℕ) (x : A) (xs : List A)
      → (key x == k) ≡ true
      → retain (λ y. not (key y == k)) (insert_at i x xs) ≡ retain (λ y. not (key y == k)) xs
  unfolding insert_at retain
  retain-insert_at k zero x xs h = ground arith
  retain-insert_at k (suc i) x [] h = ground arith
  retain-insert_at k (suc i) x (y ∷ ys) h = ground (arith, retain-insert_at k i x ys h)

  pub retain-retain :
      (k : ℕ) (xs : List A)
      → retain (λ y. not (key y == k)) (retain (λ y. not (key y == k)) xs)
        ≡ retain (λ y. not (key y == k)) xs
  unfolding retain
  retain-retain k [] = refl
  retain-retain k (x ∷ xs) = ground (arith, retain-retain k xs)

  -- With distinct identifiers an item is found where it stands.
  pub position-Distinct :
      (i : ℕ) (xs : List A) (x : A)
      → Distinct xs
      → get_elem? xs i ≡ some x
      → position (λ y. key y == key x) xs ≡ some i
  unfolding position
  position-Distinct i [] x d h = cc
  position-Distinct zero (y ∷ ys) x d h = ground (arith, ==_refl (key x))
  position-Distinct (suc i) (y ∷ ys) x d h =
      ground (arith, position-Distinct i ys x d.1, any-get_elem? (λ z. key z == key y) i ys x h)

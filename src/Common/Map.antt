-- ===== src/Common/Map.antt =====
-- `BTreeMap` from identifiers: an association list kept in the order of its keys.
use Prim.Native.Nat.{ℕ}
use mathlib.Core.Path.{◌≡◌, refl}
use mathlib.Core.Logic.{inl, inr}
use mathlib.Core.List.{List, [], ◌∷◌}
use mathlib.Core.Option.{Option, none, some}
use native.Mathlib.Omega.{arith}
use zorya.Common.Tests.{◌==◌, ltb, if◌then◌else◌, ==_iff, Bool-cases}
use zorya.Common.Lists.{All}

module _ {ℓ} {V : Type ℓ} where
  unfoldable pub get : ℕ → List (ℕ × V) → Option V
  get k [] = none
  get k ((j, w) ∷ m) = if j == k then some w else get k m

  unfoldable pub insert : ℕ → V → List (ℕ × V) → List (ℕ × V)
  insert k v [] = (k, v) ∷ []
  insert k v ((j, w) ∷ m) =
      let rest = (j, w) ∷ insert k v m in
      if j == k then (k, v) ∷ m else if ltb k j then (k, v) ∷ (j, w) ∷ m else rest

  unfoldable pub remove : ℕ → List (ℕ × V) → List (ℕ × V)
  remove k [] = []
  remove k ((j, w) ∷ m) = let rest = remove k m in if j == k then rest else (j, w) ∷ rest

  pub get-insert :
      (k j : ℕ) (v : V) (m : List (ℕ × V))
      → get j (insert k v m) ≡ (if k == j then some v else get j m)
  unfolding get insert
  get-insert k j v [] = refl
  get-insert k j v ((i, w) ∷ m) = ground (arith, get-insert k j v m)

  pub get-remove :
      (k j : ℕ) (m : List (ℕ × V)) → get j (remove k m) ≡ (if k == j then none else get j m)
  unfolding get remove
  get-remove k j [] = ground arith
  get-remove k j ((i, w) ∷ m) = ground (arith, get-remove k j m)

  abbrev pub AllEntries {κ} : (ℕ → V → Type κ) → List (ℕ × V) → Type κ
  AllEntries P = All (λ e. P e.0 e.1)

  pub AllEntries-get {κ} :
      (P : ℕ → V → Type κ) (k : ℕ) (m : List (ℕ × V)) (v : V)
      → AllEntries P m
      → get k m ≡ some v
      → P k v
  unfolding get
  AllEntries-get P k [] v h e = cc
  AllEntries-get P k ((j, w) ∷ m) v h e = elim (Bool-cases (j == k)) [
    | inl hit ↦
        let same : j ≡ k = (==_iff j k).0 hit in
        let value : w ≡ v = ground arith in rw (← same, ← value) h.0
    | inr miss ↦ AllEntries-get P k m v h.1 (ground arith)
  ]

  pub AllEntries-insert {κ} :
      (P : ℕ → V → Type κ) (k : ℕ) (v : V) (m : List (ℕ × V))
      → P k v
      → AllEntries P m
      → AllEntries P (insert k v m)
  unfolding insert
  AllEntries-insert P k v [] p h = (p, tt)
  AllEntries-insert P k v ((j, w) ∷ m) p h = elim (Bool-cases (j == k)) [
    | inl hit ↦ rw hit (p, h.1)
    | inr miss ↦ elim (Bool-cases (ltb k j)) [
      | inl less ↦ rw (miss, less) (p, h)
      | inr more ↦ rw (miss, more) (h.0, AllEntries-insert P k v m p h.1)
    ]
  ]

  pub AllEntries-remove {κ} :
      (P : ℕ → V → Type κ) (k : ℕ) (m : List (ℕ × V)) → AllEntries P m → AllEntries P (remove k m)
  unfolding remove
  AllEntries-remove P k [] h = h
  AllEntries-remove P k ((j, w) ∷ m) h = elim (Bool-cases (j == k)) [
    | inl hit ↦ rw hit (AllEntries-remove P k m h.1)
    | inr miss ↦ rw miss (h.0, AllEntries-remove P k m h.1)
  ]

-- ===== src/Window/Cycle.antt =====
-- Cycling through the tabs: `cycle_target` of `BrowserWindow` in src/app.rs.
use zorya.Common.{
  ℕ, zero, suc, ◌+◌, ◌-◌, ◌%◌, ◌≤◌, ◌<◌, ◌≡◌, inl, inr, ◌⊎◌, Option, none, some, arith, ==_refl,
  ==_iff, ap, dec_lt, Option-cases, length, get_elem?, position, lt_of_get_elem?, any-get_elem?,
  position-eq-some, position-Distinct,
}
use native.Mathlib.Nat.{mod-eq_of_lt, mod_self}
use zorya.Activation.{TabCycleDirection, next, previous}
use zorya.Window.{Tab, BrowserWindow, has_id, cycle_target, cycle_index, cycle_anchor}
use zorya.Window.Shape.{Counters, HasTab, IsValid}

-- Where a target of the cycle stands.
cycle_target-eq-some :
    (w : BrowserWindow) (direction : TabCycleDirection) (target : ℕ)
    → cycle_target w direction ≡ some target
    → (anchor i : ℕ) × (t : Tab) × (cycle_anchor w ≡ some anchor)
      × (position (has_id anchor) w.tabs ≡ some i)
      × (get_elem? w.tabs (cycle_index direction i (length w.tabs)) ≡ some t)
      × (t.id ≡ target)
      × (2 ≤ length w.tabs)
cycle_target-eq-some w direction target h = elim (Option-cases (cycle_anchor w)) [
  | inl e ↦ absurd (unfold cycle_target in ground arith)
  | inr (anchor, e) ↦ elim (Option-cases (position (has_id anchor) w.tabs)) [
    | inl q ↦ absurd (unfold cycle_target in ground arith)
    | inr (i, q) ↦
        elim (Option-cases (get_elem? w.tabs (cycle_index direction i (length w.tabs)))) [
          | inl r ↦ absurd (unfold cycle_target in ground arith)
          | inr (t, r) ↦ (
            anchor,
            i,
            t,
            e,
            q,
            r,
            unfold cycle_target in ground arith,
            unfold cycle_target in ground arith,
          )
        ]
  ]
]

-- A tab that the cycle targets is a tab of the window.
pub cycle_target-HasTab :
    (w : BrowserWindow) (direction : TabCycleDirection) (target : ℕ)
    → cycle_target w direction ≡ some target
    → HasTab w.tabs target
cycle_target-HasTab w direction target h =
    let (_, i, t, _, _, r, same, _) = cycle_target-eq-some w direction target h in
    any-get_elem? (has_id target) (cycle_index direction i (length w.tabs)) w.tabs t r
      (rw same (==_refl target))

abbrev pub opposite : TabCycleDirection → TabCycleDirection
opposite next = previous
opposite previous = next

-- The next index either is one more or wraps to 0.
next_index :
    (i n : ℕ) → i < n → ((i + 1 < n) × ((i + 1) % n ≡ i + 1)) ⊎ ((i + 1 ≡ n) × ((i + 1) % n ≡ 0))
next_index i n lt = elim (dec_lt (i + 1) n) [
  | yes p ↦ inl (p, mod-eq_of_lt p)
  | no p ↦ let e : i + 1 ≡ n = omega arith in inr (e, rw e (mod_self n))
]

cycle_index-opposite :
    (d : TabCycleDirection) (i n : ℕ)
    → i < n
    → 2 ≤ n
    → cycle_index (opposite d) (cycle_index d i n) n ≡ i
cycle_index-opposite next i n lt two = ground (arith, next_index i n lt)
cycle_index-opposite previous zero n lt two = ground (arith, next_index (n - 1) n (omega arith))
cycle_index-opposite previous (suc i) n lt two = ground (arith, next_index i n (omega arith))

-- In a valid window with no pending activation where a step of the cycle has a target, the step the
-- other way, with that target active, leads back to the active tab.
pub cycle_target-opposite :
    {c : Counters} (w : BrowserWindow) (direction : TabCycleDirection) (target : ℕ)
    → IsValid c w
    → w.pending_activation ≡ none
    → cycle_target w direction ≡ some target
    → cycle_target (record w { active_tab = some target }) (opposite direction) ≡ w.active_tab
unfolding cycle_target
cycle_target-opposite w direction target v idle h =
    let (anchor, i, t, e, q, r, same, two) = cycle_target-eq-some w direction target h in
    let (a, at_i, hit) = position-eq-some (has_id anchor) w.tabs i q in
    let n = length w.tabs in
    let j = cycle_index direction i n in
    let there : position (has_id target) w.tabs ≡ some j =
      rw (← same) (position-Distinct (λ x. x.id) j w.tabs t v.tabs_distinct r) in
    let back : cycle_index (opposite direction) j n ≡ i =
      cycle_index-opposite direction i n (lt_of_get_elem? w.tabs i a at_i) two in
    ground
      (arith, there, ap (get_elem? w.tabs) back, ==_iff a.id anchor, e, ap (λ (o : Option ℕ). o) e)

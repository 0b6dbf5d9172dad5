-- ===== src/Window/Close.antt =====
-- Closing a tab: `close_tab` of `BrowserWindow` in src/app.rs.
use zorya.Common.{
  ℕ, zero, suc, ◌-◌, ◌≤◌, ◌≡◌, refl, ap, ◌∙◌, inl, inr, ◌⊎◌, false, Option, none, some, List, [],
  ◌∷◌, arith, ◌==◌, ==_iff, ==_refl, is_just, Bool-cases, Option-cases, if◌then◌else◌, length,
  get_elem?, position, any, remove_at, retain, not, remove_at-retain, Distinct-remove_at,
  position-eq-none, any-get_elem?, any-remove_at-true, get_elem?_of_lt, lt_of_get_elem?,
  length-remove_at, All-remove_at, position-eq-some, find-position,
}
use zorya.AddressBar.{AddressBarState, cancel_for_tab}
use zorya.Activation.{TabActivationIntent}
use zorya.Window.{Tab, BrowserWindow, has_id, touches, neighbour, find_tab, close_tab, close_tab_at}
use zorya.Window.Shape.{Counters, TabValid, HasTab, ActiveKnown, PendingKnown, EditKnown, IsValid}

first_of_none : (tabs : List Tab) → get_elem? tabs 0 ≡ none → ActiveKnown tabs (neighbour tabs 0)
first_of_none [] e = refl
first_of_none (t ∷ ts) e = cc

neighbour-ActiveKnown :
    (tabs : List Tab) (i : ℕ) → i ≤ length tabs → ActiveKnown tabs (neighbour tabs i)
neighbour-ActiveKnown tabs i h = go i h (get_elem? tabs i) refl
  where
    left :
        (i : ℕ) (l : Option Tab)
        → get_elem? tabs i ≡ l
        → suc i ≤ length tabs
        → ActiveKnown tabs (elim l [ none ↦ none | some tab ↦ some tab.id ])
    left i none e h = let (t, f) = get_elem?_of_lt tabs i h in absurd (ground arith)
    left i (some t) e h = any-get_elem? (has_id t.id) i tabs t e (==_refl t.id)

    go :
        (i : ℕ)
        → i ≤ length tabs
        → (r : Option Tab) → get_elem? tabs i ≡ r
        → ActiveKnown tabs (neighbour tabs i)
    go i h (some t) e =
        rw (e, neighbour, ActiveKnown) (any-get_elem? (has_id t.id) i tabs t e (==_refl t.id))
    go zero h none e = first_of_none tabs e
    go (suc i) h none e =
        let positive : (suc i == 0) ≡ false = ground arith in
        let before : suc i - 1 ≡ i = omega arith in
        rw (e, neighbour, positive, before) (left i (get_elem? tabs i) refl h)

-- The tab that `close_tab` finds.
pub close_tab_cases :
    (w : BrowserWindow) (tab : ℕ)
    → ((any (has_id tab) w.tabs ≡ false) × (close_tab w tab ≡ (none, w)))
      ⊎ ((i : ℕ) × (removed : Tab) × (position (has_id tab) w.tabs ≡ some i)
          × (get_elem? w.tabs i ≡ some removed)
          × (removed.id ≡ tab)
          × (close_tab w tab
              ≡ (some (close_tab_at w tab i removed).0, (close_tab_at w tab i removed).1)))
close_tab_cases w tab = elim (Option-cases (position (has_id tab) w.tabs)) [
  | inl e ↦ inl (position-eq-none (has_id tab) w.tabs e, (unfold close_tab in rw (e, close_tab)))
  | inr (i, e) ↦
      let (removed, at_i, hit) = position-eq-some (has_id tab) w.tabs i e in
      inr (
        i,
        removed,
        e,
        at_i,
        (==_iff removed.id tab).0 hit,
        (unfold close_tab in rw (e, at_i, close_tab)),
      )
]

module _ (tabs : List Tab) (i : ℕ) (removed : Tab) (at_i : get_elem? tabs i ≡ some removed) where
  stays : (id : ℕ) → (removed.id == id) ≡ false → HasTab tabs id → HasTab (remove_at i tabs) id
  stays id miss h = any-remove_at-true (has_id id) i tabs removed at_i miss h

  -- The active tab after the close.
  close-ActiveKnown :
      (a : Option ℕ)
      → ActiveKnown tabs a
      → ActiveKnown
          (remove_at i tabs)
          (if is_just a removed.id then neighbour (remove_at i tabs) i else a)
  close-ActiveKnown none h =
      let full : suc i ≤ length tabs = lt_of_get_elem? tabs i removed at_i in
      let empty : length tabs ≡ 0 = ap length h in absurd (omega arith)
  close-ActiveKnown (some a) h = elim (Bool-cases (a == removed.id)) [
    | inl e ↦ rw e (
        neighbour-ActiveKnown (remove_at i tabs) i (
          omega (arith, length-remove_at tabs i removed at_i, lt_of_get_elem? tabs i removed at_i)))
    | inr e ↦ rw (e, ActiveKnown) (stays a (ground arith) h)
  ]

  close-PendingKnown :
      (n : ℕ) (a : Option ℕ) (p : Option TabActivationIntent)
      → PendingKnown n tabs a p
      → PendingKnown n
          (remove_at i tabs)
          (if is_just a removed.id then neighbour (remove_at i tabs) i else a)
          (if touches p removed.id then none else p)
  close-PendingKnown n a none h = tt
  close-PendingKnown n a (some intent) h = elim (Bool-cases (touches (some intent) removed.id)) [
    | inl e ↦ rw (e, PendingKnown) tt
    | inr e ↦
        let from : is_just a removed.id ≡ false = rw h.0 (ground arith) in
        rw (e, from, PendingKnown) (h.0, stays intent.to (ground arith) h.1, h.2)
  ]

close-EditKnown :
    (other a : Option ℕ) (id : ℕ) (bar : AddressBarState)
    → EditKnown a bar.edit
    → EditKnown (if is_just a id then other else a) (cancel_for_tab bar id).1.edit
unfolding cancel_for_tab
close-EditKnown other a id bar h = ground arith

close_tab_at-IsValid :
    {c : Counters} (w : BrowserWindow) (i : ℕ) (removed : Tab)
    → get_elem? w.tabs i ≡ some removed
    → IsValid c w
    → IsValid c (close_tab_at w removed.id i removed).1
unfolding close_tab_at
close_tab_at-IsValid {c} w i removed at_i v = record {
  tabs_distinct = Distinct-remove_at (λ t. t.id) i w.tabs v.tabs_distinct;
  tabs_valid = All-remove_at (TabValid c) i w.tabs v.tabs_valid;
  active_known = close-ActiveKnown w.tabs i removed at_i w.active_tab v.active_known;
  pending_known =
      close-PendingKnown w.tabs i removed at_i c.activation w.active_tab w.pending_activation
        v.pending_known;
  edit_known = close-EditKnown _ w.active_tab removed.id w.address_bar v.edit_known;
}

-- Closing a tab keeps a window valid.
pub close_tab-IsValid :
    {c : Counters} (w : BrowserWindow) (tab : ℕ) → IsValid c w → IsValid c (close_tab w tab).1
close_tab-IsValid w tab v = elim (close_tab_cases w tab) [
  | inl (_, e) ↦ rw e v
  | inr (i, removed, _, at_i, same, e) ↦ rw (e, ← same) (close_tab_at-IsValid w i removed at_i v)
]

-- The tab to the right of `tab`, or else the one to its left (`before`).
unfoldable pub successor : Option ℕ → ℕ → List Tab → Option ℕ
successor before tab [] = none
successor before tab (t ∷ ts) =
    if t.id == tab
    then elim ts [ [] ↦ before | right ∷ _ ↦ some right.id ]
    else successor (some t.id) tab ts

-- `neighbour`, with the answer for the first position as a parameter.
abbrev neighbour_or : Option ℕ → List Tab → ℕ → Option ℕ
neighbour_or before tabs position = elim (get_elem? tabs position) [
  | some tab ↦ some tab.id
  | none ↦
      if position == 0
      then before
      else elim (get_elem? tabs (position - 1)) [ none ↦ none | some tab ↦ some tab.id ]
]

neighbour_or-cons :
    (before : Option ℕ) (t : Tab) (ts : List Tab) (i : ℕ)
    → neighbour_or before (t ∷ ts) (suc i) ≡ neighbour_or (some t.id) ts i
neighbour_or-cons before t ts zero = ground arith
neighbour_or-cons before t ts (suc i) =
    let one : suc (suc i) - 1 ≡ suc i = omega arith in
    let other : suc i - 1 ≡ i = omega arith in
    ground (arith, ap (get_elem? (t ∷ ts)) one, ap (get_elem? ts) other)

successor_lem :
    (before : Option ℕ) (tab i : ℕ) (tabs : List Tab)
    → position (has_id tab) tabs ≡ some i
    → neighbour_or before (remove_at i tabs) i ≡ successor before tab tabs
unfolding position remove_at successor
successor_lem before tab i [] e = cc
successor_lem before tab zero (t ∷ []) e = ground arith
successor_lem before tab zero (t ∷ u ∷ ts) e = ground arith
successor_lem before tab (suc i) (t ∷ ts) e =
    neighbour_or-cons before t (remove_at i ts) i
    ∙ ground (arith, successor_lem (some t.id) tab i ts)

pub find_tab-position :
    (w : BrowserWindow) (tab i : ℕ) (found : Tab)
    → position (has_id tab) w.tabs ≡ some i
    → get_elem? w.tabs i ≡ some found
    → find_tab w tab ≡ some found
unfolding find_tab
find_tab-position w tab i found at at_i = find-position (has_id tab) w.tabs ∙ rw at at_i

-- In a valid window that has the tab, `close_tab` takes out that tab and no other, leaves the rest
-- in order, and returns the tab as it was, with its navigation. If the tab was active, the one to its right becomes active, or
-- else the one to its left; otherwise the active tab stays. A pending activation that the tab
-- takes part in is dropped and returned; any other stays.
pub close_tab_lem :
    {c : Counters} (w : BrowserWindow) (tab : ℕ)
    → IsValid c w
    → HasTab w.tabs tab
    → let w' = (close_tab w tab).1 in
      let next = if is_just w.active_tab tab then successor none tab w.tabs else w.active_tab in
      (w'.tabs ≡ retain (λ t. not (t.id == tab)) w.tabs)
      × (w'.active_tab ≡ next)
      × (w'.pending_activation
          ≡ (if touches w.pending_activation tab then none else w.pending_activation))
      × ((removed : Tab) × (find_tab w tab ≡ some removed)
          × (removed.id ≡ tab)
          × ((close_tab w tab).0
              ≡ some (record {
                tab = removed;
                invalidated_activation =
                    if touches w.pending_activation tab then w.pending_activation else none;
                active_tab = next;
              })))
close_tab_lem w tab v there = elim (close_tab_cases w tab) [
  | inl (absent, _) ↦ absurd (cc (there, absent))
  | inr (i, removed, at, at_i, same, e) ↦
      let next = if is_just w.active_tab tab then successor none tab w.tabs else w.active_tab in
      let active : (if is_just w.active_tab tab
            then neighbour (remove_at i w.tabs) i
            else w.active_tab)
          ≡ next =
        ap (λ o. if is_just w.active_tab tab then o else w.active_tab)
          (successor_lem none tab i w.tabs at) in
      rw e (
        unfold close_tab_at in remove_at-retain (λ t. t.id) tab i w.tabs v.tabs_distinct at,
        unfold close_tab_at in active,
        unfold close_tab_at in refl,
        (
          removed,
          find_tab-position w tab i removed at at_i,
          same,
          unfold close_tab_at in rw active,
        ),
      )
]

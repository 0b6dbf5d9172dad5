-- ===== src/Window/Order.antt =====
-- The order of the tabs: `move_tab_before` of `BrowserWindow` in src/app.rs.
use zorya.Common.{
  ℕ, zero, suc, ◌≤◌, ◌≡◌, refl, ap, ◌∙◌, inl, inr, false, not, Option, none, some, List, [], ◌∷◌,
  ◌++◌, arith, ◌==◌, ==_iff, is_just, Bool-cases, Option-cases, if◌then◌else◌, length, get_elem?,
  position, any, remove_at, insert_at, retain, Distinct-remove_at, Distinct-insert_at,
  position-eq-none, any-remove_at-true, any-remove_at_self, any-insert_at, lt_of_get_elem?,
  All-remove_at, All-insert_at, All-get_elem?, position-eq-some, Outcome, remove_at-retain,
}
use zorya.Activation.{TabActivationIntent}
use zorya.Window.Close.{find_tab-position}
use zorya.Window.{Tab, BrowserWindow, has_id, find_tab, destination, move_other, move_tab_before}
use zorya.Window.Shape.{Counters, TabValid, HasTab, ActiveKnown, PendingKnown, IsValid}

-- The tab of an identifier that the window has.
pub locate :
    (tabs : List Tab) (id : ℕ)
    → HasTab tabs id
    → (i : ℕ) × (t : Tab) × (position (has_id id) tabs ≡ some i)
      × (get_elem? tabs i ≡ some t)
      × (t.id ≡ id)
locate tabs id h = elim (Option-cases (position (has_id id) tabs)) [
  | inl e ↦ absurd (cc (h, position-eq-none (has_id id) tabs e))
  | inr (i, e) ↦
      let (t, at_i, hit) = position-eq-some (has_id id) tabs i e in
      (i, t, e, at_i, (==_iff t.id id).0 hit)
]

abbrev pub others : ℕ → List Tab → List Tab
others id = retain (λ t. not (t.id == id))

-- The tab put right before the anchor, or last if there is none.
unfoldable pub placed : Option ℕ → Tab → List Tab → List Tab
placed none moved tabs = tabs ++ moved ∷ []
placed (some anchor) moved [] = []
placed (some anchor) moved (t ∷ ts) =
    if t.id == anchor then moved ∷ t ∷ ts else t ∷ placed (some anchor) moved ts

-- The move, at the positions that it finds.
abbrev moved_to : ℕ → ℕ → Tab → BrowserWindow → BrowserWindow
moved_to to from moved w = record w { tabs = insert_at to moved (remove_at from w.tabs) }

placed-insert_end :
    (moved : Tab) (rest : List Tab) → insert_at (length rest) moved rest ≡ placed none moved rest
unfolding placed insert_at
placed-insert_end moved [] = refl
placed-insert_end moved (t ∷ ts) = ap (◌∷◌ t) (placed-insert_end moved ts)

placed-insert_before :
    (moved : Tab) (rest : List Tab) (anchor to : ℕ)
    → position (has_id anchor) rest ≡ some to
    → insert_at to moved rest ≡ placed (some anchor) moved rest
unfolding placed insert_at position
placed-insert_before moved [] anchor to e = cc
placed-insert_before moved (t ∷ ts) anchor zero e = ground arith
placed-insert_before moved (t ∷ ts) anchor (suc to) e =
    ground (arith, placed-insert_before moved ts anchor to)

abbrev pub AnchorKnown : List Tab → Option ℕ → Type 0
AnchorKnown tabs none = Unit
AnchorKnown tabs (some anchor) = HasTab tabs anchor

-- Where the destination is, once the tab is out.
destination_lem :
    (moved : Tab) (rest : List Tab) (before : Option ℕ)
    → AnchorKnown rest before
    → (to : ℕ) × (destination rest before ≡ some to)
      × (insert_at to moved rest ≡ placed before moved rest)
destination_lem moved rest none k = (length rest, refl, placed-insert_end moved rest)
destination_lem moved rest (some anchor) k =
    let (to, t, e, _, _) = locate rest anchor k in
    (to, e, placed-insert_before moved rest anchor to e)

-- What a move does: the window that it leaves, in terms of the two positions.
move_other_lem {κ} :
    {E : Type κ} {c : Counters} (w : BrowserWindow) (tab : ℕ) (before : Option ℕ)
    → IsValid c w
    → HasTab w.tabs tab
    → AnchorKnown w.tabs before
    → is_just before tab ≡ false
    → (from to : ℕ) × (moved : Tab) × (moved.id ≡ tab)
      × (position (has_id tab) w.tabs ≡ some from)
      × (get_elem? w.tabs from ≡ some moved)
      × (move_other {E = E} tab before w ≡ (Outcome.ok tt, moved_to to from moved w))
      × (insert_at to moved (remove_at from w.tabs) ≡ placed before moved (remove_at from w.tabs))
move_other_lem {c} w tab before v there known ne =
    let (from, moved, e, at, same) = locate w.tabs tab there in
    let rest = remove_at from w.tabs in
    let (to, d, f) = destination_lem moved rest before (keep from moved at same before known ne) in
    (from, to, moved, same, e, at, (unfold move_other in rw (e, at, d)), f)
  where
    keep :
        (from : ℕ) (moved : Tab)
        → get_elem? w.tabs from ≡ some moved
        → moved.id ≡ tab
        → (before : Option ℕ) → AnchorKnown w.tabs before
        → is_just before tab ≡ false
        → AnchorKnown (remove_at from w.tabs) before
    keep from moved at same none k ne = tt
    keep from moved at same (some anchor) k ne =
        any-remove_at-true (has_id anchor) from w.tabs moved at (ground arith) k

module _ {c : Counters} (w : BrowserWindow) (v : IsValid c w) (from to : ℕ) (moved : Tab)
    (at : get_elem? w.tabs from ≡ some moved) where
  rest-gone : any (has_id moved.id) (remove_at from w.tabs) ≡ false
  rest-gone = any-remove_at_self (λ t. t.id) from w.tabs moved v.tabs_distinct at

  moved_to-HasTab : (id : ℕ) → HasTab w.tabs id → HasTab (moved_to to from moved w).tabs id
  moved_to-HasTab id h = elim (Bool-cases (moved.id == id)) [
    | inl hit ↦ any-insert_at (has_id id) to moved (remove_at from w.tabs) ∙ rw hit
    | inr miss ↦
        any-insert_at (has_id id) to moved (remove_at from w.tabs)
        ∙ rw (miss, any-remove_at-true (has_id id) from w.tabs moved at miss h)
  ]

  moved_to-IsValid : IsValid c (moved_to to from moved w)
  moved_to-IsValid = record {
    tabs_distinct =
        Distinct-insert_at (λ t. t.id) to moved (remove_at from w.tabs) rest-gone
          (Distinct-remove_at (λ t. t.id) from w.tabs v.tabs_distinct);
    tabs_valid =
        All-insert_at (TabValid c) to moved (remove_at from w.tabs)
          (All-get_elem? (TabValid c) from w.tabs moved v.tabs_valid at)
          (All-remove_at (TabValid c) from w.tabs v.tabs_valid);
    active_known = active w.active_tab v.active_known;
    pending_known = pending w.pending_activation v.pending_known;
    edit_known = v.edit_known;
  }
    where
      active : (a : Option ℕ) → ActiveKnown w.tabs a → ActiveKnown (moved_to to from moved w).tabs a
      active none h =
          let full : suc from ≤ length w.tabs = lt_of_get_elem? w.tabs from moved at in
          let empty : length w.tabs ≡ 0 = ap length h in absurd (omega arith)
      active (some a) h = moved_to-HasTab a h

      pending :
          (p : Option TabActivationIntent)
          → PendingKnown c.activation w.tabs w.active_tab p
          → PendingKnown c.activation (moved_to to from moved w).tabs w.active_tab p
      pending none h = tt
      pending (some i) h = (h.0, moved_to-HasTab i.to h.1, h.2)

-- With its tab and its anchor there, a move does not panic and keeps the window valid.
pub move_tab_before-IsValid {κ} :
    {E : Type κ} {c : Counters} (w : BrowserWindow) (tab : ℕ) (before : Option ℕ)
    → IsValid c w
    → HasTab w.tabs tab
    → AnchorKnown w.tabs before
    → ((move_tab_before {E = E} tab before w).0 ≡ Outcome.ok tt)
      × IsValid c (move_tab_before {E = E} tab before w).1
unfolding move_tab_before
move_tab_before-IsValid {E} {c} w tab before v there known =
    elim (Bool-cases (is_just before tab)) [
      | inl same ↦ rw (same, move_tab_before) (refl, v)
      | inr other ↦
          let (from, to, moved, _, _, at, e, _) =
            move_other_lem {E = E} w tab before v there known other in
          rw (other, e, move_tab_before) (refl, moved_to-IsValid w v from to moved at)
    ]

-- In a valid window that has the tab, and another tab as its anchor or no anchor: a move does not
-- panic, and leaves the window as it was but for the place of the tab, which is right before the
-- anchor, or last if there is none, among the other tabs in their order.
pub move_tab_before_lem {κ} :
    {E : Type κ} {c : Counters} (w : BrowserWindow) (tab : ℕ) (before : Option ℕ)
    → IsValid c w
    → HasTab w.tabs tab
    → AnchorKnown w.tabs before
    → is_just before tab ≡ false
    → (moved : Tab) × (find_tab w tab ≡ some moved)
      × (move_tab_before {E = E} tab before w
          ≡ (Outcome.ok tt, record w { tabs = placed before moved (others tab w.tabs) }))
unfolding move_tab_before
move_tab_before_lem {E} w tab before v there known other =
    let (from, to, moved, same, e, at, r, f) =
      move_other_lem {E = E} w tab before v there known other in
    let rest = remove_at-retain (λ t. t.id) tab from w.tabs v.tabs_distinct e in
    (
      moved,
      find_tab-position w tab from moved e at,
      rw (other, r, move_tab_before)
          (ap (λ tabs. (Outcome.ok tt, record w { tabs = tabs }))
            (f ∙ ap (placed before moved) rest)),
    )

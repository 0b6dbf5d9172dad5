-- ===== src/Window/Shape.antt =====
-- The invariant of a window, for `BrowserWindow` of src/app.rs, and its methods.
use zorya.Common.{
  ℕ, ◌≤◌, ◌<◌, ◌≡◌, refl, ◌∙◌, inl, inr, true, false, Option, none, some, List, [], ◌∷◌, arith,
  ==_refl, is_just, Bool-cases, Option-cases, if◌then◌else◌, any, All, All-append, Distinct,
  Distinct-append, any-append, find_holds, Outcome, All-map, update_first, All-update_first,
  Distinct-update_first, any-update_first,
}
use zorya.Navigation.{TabNavigation, NavigationIntent}
use zorya.Navigation.Shape as NavShape
use zorya.AddressBar.{AddressBarEdit, cancel}
use zorya.Activation.{TabActivationIntent}
use zorya.Window.{
  Tab, BrowserWindow, has_id, new, active, find_tab, insert_tab, set_active_tab,
  begin_tab_activation, take_tab_activation, begin_address_bar_edit, set_address_bar_text,
  cancel_address_bar_edit, submit_address_bar_edit, activation_id,
}

-- The next identifiers that the application will give out.
pub record Counters : Type 0 where
  pub tab : ℕ
  pub activation : ℕ
  pub navigation : ℕ
  pub entry : ℕ

abbrev pub IntentBelow : ℕ → Option NavigationIntent → Type 0
IntentBelow n none = Unit
IntentBelow n (some intent) = intent.id < n

pub record TabValid (c : Counters) (t : Tab) : Type 0 where
  pub id_below : t.id < c.tab
  pub navigation_valid : NavShape.IsValid c.entry t.navigation
  pub intent_below : IntentBelow c.navigation t.navigation.pending

-- The window has a tab with this identifier.
abbrev pub HasTab : List Tab → ℕ → Type 0
HasTab tabs id = any (has_id id) tabs ≡ true

-- A tab is active, unless the window has none.
abbrev pub ActiveKnown : List Tab → Option ℕ → Type 0
ActiveKnown tabs none = tabs ≡ []
ActiveKnown tabs (some id) = HasTab tabs id

-- A pending activation leads from the active tab to a tab of the window.
abbrev pub PendingKnown : ℕ → List Tab → Option ℕ → Option TabActivationIntent → Type 0
PendingKnown n tabs active none = Unit
PendingKnown n tabs active (some intent) =
    (active ≡ some intent.from) × HasTab tabs intent.to × (intent.id < n)

-- Only the active tab's address is edited.
abbrev pub EditKnown : Option ℕ → Option AddressBarEdit → Type 0
EditKnown active none = Unit
EditKnown active (some edit) = active ≡ some edit.tab

pub record IsValid (c : Counters) (w : BrowserWindow) : Type 0 where
  pub tabs_distinct : Distinct (λ (t : Tab). t.id) w.tabs
  pub tabs_valid : All (TabValid c) w.tabs
  pub active_known : ActiveKnown w.tabs w.active_tab
  pub pending_known : PendingKnown c.activation w.tabs w.active_tab w.pending_activation
  pub edit_known : EditKnown w.active_tab w.address_bar.edit

pub new-IsValid : (c : Counters) (id : ℕ) → IsValid c (new id)
unfolding new
new-IsValid c id = record {
  tabs_distinct = tt;
  tabs_valid = tt;
  active_known = refl;
  pending_known = tt;
  edit_known = tt;
}

pub insert_tab-IsValid :
    {c : Counters} (w : BrowserWindow) (t : Tab)
    → TabValid c t
    → any (has_id t.id) w.tabs ≡ false
    → IsValid c w
    → IsValid c (insert_tab w t)
unfolding insert_tab any
insert_tab-IsValid {c} w t tv fresh v = record {
  tabs_distinct = Distinct-append (λ x. x.id) w.tabs t fresh v.tabs_distinct;
  tabs_valid = All-append (TabValid c) w.tabs (t ∷ []) v.tabs_valid (tv, tt);
  active_known = grind (arith, any-append, ==_refl);
  pending_known = grind (arith, any-append);
  edit_known = ground arith;
}

pub begin_tab_activation-IsValid :
    {c : Counters} (w : BrowserWindow) (intent : TabActivationIntent)
    → w.active_tab ≡ some intent.from
    → HasTab w.tabs intent.to
    → intent.id < c.activation
    → IsValid c w
    → IsValid c (begin_tab_activation w intent).1
unfolding begin_tab_activation
begin_tab_activation-IsValid w intent from to below v = record {
  tabs_distinct = v.tabs_distinct;
  tabs_valid = v.tabs_valid;
  active_known = v.active_known;
  pending_known = (from, to, below);
  edit_known = v.edit_known;
}

-- Dropping the pending activation.
abbrev pub settle : BrowserWindow → BrowserWindow
settle w = record w { pending_activation = none }

pub settle-IsValid : {c : Counters} (w : BrowserWindow) → IsValid c w → IsValid c (settle w)
settle-IsValid w v = record {
  tabs_distinct = v.tabs_distinct;
  tabs_valid = v.tabs_valid;
  active_known = v.active_known;
  pending_known = tt;
  edit_known = v.edit_known;
}

pub take_tab_activation-IsValid :
    {c : Counters} (w : BrowserWindow) (activation : ℕ)
    → IsValid c w
    → IsValid c (take_tab_activation w activation).1
unfolding take_tab_activation
take_tab_activation-IsValid w activation v =
    elim (Bool-cases (is_just (activation_id w.pending_activation) activation)) [
      | inl e ↦ rw (e, take_tab_activation) (settle-IsValid w v)
      | inr e ↦ rw (e, take_tab_activation) v
    ]

-- The window that `set_active_tab` leaves.
abbrev pub activated : ℕ → BrowserWindow → BrowserWindow
activated tab w = record w {
  active_tab = some tab;
  pending_activation = none;
  address_bar = if is_just w.active_tab tab then w.address_bar else record { edit = none };
}

-- With its target there, `set_active_tab` does not panic.
pub set_active_tab_lem {κ} :
    {E : Type κ} (w : BrowserWindow) (tab : ℕ)
    → HasTab w.tabs tab
    → set_active_tab {E = E} tab w ≡ (Outcome.ok w.pending_activation, activated tab w)
unfolding set_active_tab cancel
set_active_tab_lem w tab there = rw there

pub activated-IsValid :
    {c : Counters} (w : BrowserWindow) (tab : ℕ)
    → HasTab w.tabs tab
    → IsValid c w
    → IsValid c (activated tab w)
activated-IsValid w tab there v = record {
  tabs_distinct = v.tabs_distinct;
  tabs_valid = v.tabs_valid;
  active_known = there;
  pending_known = tt;
  edit_known = ground arith;
}

-- The active tab bears the active identifier.
active-active_tab :
    (w : BrowserWindow) (tab : Tab) → active w ≡ some tab → w.active_tab ≡ some tab.id
active-active_tab w tab e = go w.active_tab refl
  where
    go : (a : Option ℕ) → w.active_tab ≡ a → w.active_tab ≡ some tab.id
    go none q = absurd (unfold active in ground arith)
    go (some a) q =
        let hit : has_id a tab ≡ true =
          find_holds (has_id a) w.tabs tab (unfold active find_tab in ground arith) in
        ground arith

pub begin_address_bar_edit-IsValid :
    {c : Counters} (w : BrowserWindow) → IsValid c w → IsValid c (begin_address_bar_edit w).1
unfolding begin_address_bar_edit
begin_address_bar_edit-IsValid w v = elim (Option-cases (active w)) [
  | inl e ↦ rw (e, begin_address_bar_edit) v
  | inr (tab, e) ↦
      rw (e, begin_address_bar_edit)
        record {
          tabs_distinct = v.tabs_distinct;
          tabs_valid = v.tabs_valid;
          active_known = v.active_known;
          pending_known = v.pending_known;
          edit_known = active-active_tab w tab e;
        }
]

pub set_address_bar_text-IsValid :
    {c : Counters} (w : BrowserWindow) (text : List ℕ)
    → IsValid c w
    → IsValid c (set_address_bar_text w text).1
unfolding set_address_bar_text
set_address_bar_text-IsValid w text v = record {
  tabs_distinct = v.tabs_distinct;
  tabs_valid = v.tabs_valid;
  active_known = v.active_known;
  pending_known = v.pending_known;
  edit_known = ground arith;
}

-- Neither cancelling nor submitting leaves an edit.
abbrev unedited : BrowserWindow → BrowserWindow
unedited w = record w { address_bar = record { edit = none } }

unedited-IsValid : {c : Counters} (w : BrowserWindow) → IsValid c w → IsValid c (unedited w)
unedited-IsValid w v = record {
  tabs_distinct = v.tabs_distinct;
  tabs_valid = v.tabs_valid;
  active_known = v.active_known;
  pending_known = v.pending_known;
  edit_known = tt;
}

pub cancel_address_bar_edit-IsValid :
    {c : Counters} (w : BrowserWindow) → IsValid c w → IsValid c (cancel_address_bar_edit w).1
unfolding cancel_address_bar_edit
cancel_address_bar_edit-IsValid w v = unedited-IsValid w v

pub submit_address_bar_edit-IsValid :
    {c : Counters} (w : BrowserWindow) → IsValid c w → IsValid c (submit_address_bar_edit w).1
unfolding submit_address_bar_edit
submit_address_bar_edit-IsValid w v = unedited-IsValid w v

-- A rewrite of the tab's navigation, as through `tab_mut`.
abbrev pub with_navigation : (TabNavigation → TabNavigation) → Tab → Tab
with_navigation f tab = record tab { navigation = f tab.navigation }

abbrev pub update_tab : ℕ → (TabNavigation → TabNavigation) → BrowserWindow → BrowserWindow
update_tab id f w = record w { tabs = update_first (has_id id) (with_navigation f) w.tabs }

HasTab-update_first :
    (id id' : ℕ) (f : TabNavigation → TabNavigation) (tabs : List Tab)
    → HasTab tabs id'
    → HasTab (update_first (has_id id) (with_navigation f) tabs) id'
HasTab-update_first id id' f tabs h =
    any-update_first (has_id id') (has_id id) (with_navigation f) tabs (λ x. refl) ∙ h

pub update_tab-IsValid :
    {c : Counters} (w : BrowserWindow) (id : ℕ) (f : TabNavigation → TabNavigation)
    → ((t : Tab) → TabValid c t → TabValid c (with_navigation f t))
    → IsValid c w
    → IsValid c (update_tab id f w)
update_tab-IsValid {c} w id f keep v = record {
  tabs_distinct = Distinct-update_first (λ t. t.id) _ _ w.tabs (λ x. refl) v.tabs_distinct;
  tabs_valid = All-update_first (TabValid c) _ _ w.tabs keep v.tabs_valid;
  active_known = go w.active_tab v.active_known;
  pending_known = pend w.pending_activation v.pending_known;
  edit_known = v.edit_known;
}
  where
    go :
        (a : Option ℕ)
        → ActiveKnown w.tabs a
        → ActiveKnown (update_first (has_id id) (with_navigation f) w.tabs) a
    go none h = rw h (unfold update_first in refl)
    go (some a) h = HasTab-update_first id a f w.tabs h

    pend :
        (p : Option TabActivationIntent)
        → PendingKnown c.activation w.tabs w.active_tab p
        → PendingKnown c.activation
            (update_first (has_id id) (with_navigation f) w.tabs)
            w.active_tab
            p
    pend none h = tt
    pend (some i) h = (h.0, HasTab-update_first id i.to f w.tabs h.1, h.2)

-- A larger set of counters serves too.
pub record CountersLe (c d : Counters) : Type 0 where
  pub tab : c.tab ≤ d.tab
  pub activation : c.activation ≤ d.activation
  pub navigation : c.navigation ≤ d.navigation
  pub entry : c.entry ≤ d.entry

TabValid-widen : {c d : Counters} → CountersLe c d → (t : Tab) → TabValid c t → TabValid d t
TabValid-widen {c} {d} le t v = record {
  id_below = omega (arith, le.tab);
  navigation_valid = NavShape.IsValid-widen t.navigation le.entry v.navigation_valid;
  intent_below = go t.navigation.pending v.intent_below;
}
  where
    go : (p : Option NavigationIntent) → IntentBelow c.navigation p → IntentBelow d.navigation p
    go none h = tt
    go (some i) h = omega (arith, le.navigation)

pub IsValid-widen :
    {c d : Counters} → CountersLe c d → (w : BrowserWindow) → IsValid c w → IsValid d w
IsValid-widen {c} {d} le w v = record {
  tabs_distinct = v.tabs_distinct;
  tabs_valid = All-map (TabValid c) (TabValid d) w.tabs (TabValid-widen le) v.tabs_valid;
  active_known = v.active_known;
  pending_known = go w.pending_activation v.pending_known;
  edit_known = v.edit_known;
}
  where
    go :
        (p : Option TabActivationIntent)
        → PendingKnown c.activation w.tabs w.active_tab p
        → PendingKnown d.activation w.tabs w.active_tab p
    go none h = tt
    go (some i) h = (h.0, h.1, omega (arith, le.activation))

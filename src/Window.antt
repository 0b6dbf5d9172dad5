-- ===== src/Window.antt =====
-- `BrowserWindow` of src/app.rs: the tabs of one window, the active one, the pending activation
-- and the address bar.
pub mod Shape
pub mod Close
pub mod Order
pub mod Cycle
use zorya.Common.{
  ℕ, suc, ◌+◌, ◌-◌, ◌%◌, Bool, true, false, Option, none, some, List, [], ◌∷◌, ◌++◌, ◌||◌,
  if◌then◌else◌, ltb, ◌==◌, is_just, is_some, length, get_elem?, find, position, any, remove_at,
  insert_at, Call, ◌>>=◌, ◌>>◌, pure, modify, expect, debug_assert, gets,
}
use zorya.Navigation.{TabNavigation, Text, current_entry, display_location, HistoryEntry}
use zorya.AddressBar
use zorya.AddressBar.{AddressBarState, AddressBarSubmission}
use zorya.Activation.{TabActivationIntent, TabActivationStart, TabCycleDirection, next, previous}

pub record Tab : Type 0 where
  pub id : ℕ
  pub navigation : TabNavigation

pub record TabCloseResult : Type 0 where
  pub tab : Tab
  pub invalidated_activation : Option TabActivationIntent
  pub active_tab : Option ℕ

pub record BrowserWindow : Type 0 where
  pub id : ℕ
  pub tabs : List Tab
  pub active_tab : Option ℕ
  pub pending_activation : Option TabActivationIntent
  pub address_bar : AddressBarState

unfoldable pub new : ℕ → BrowserWindow
unfolding AddressBar.default
new id = record {
  id = id;
  tabs = [];
  active_tab = none;
  pending_activation = none;
  address_bar = AddressBar.default;
}

abbrev pub has_id : ℕ → Tab → Bool
has_id id tab = tab.id == id

-- `BrowserWindow::tab`
unfoldable pub find_tab : BrowserWindow → ℕ → Option Tab
find_tab w id = find (has_id id) w.tabs

-- `BrowserWindow::active_tab`
unfoldable pub active : BrowserWindow → Option Tab
unfolding find_tab
active w = elim w.active_tab [ none ↦ none | some id ↦ find_tab w id ]

abbrev entry_location : Option HistoryEntry → Option Text
entry_location none = none
entry_location (some entry) = some entry.location

unfoldable pub active_committed_location : BrowserWindow → Option Text
unfolding active
active_committed_location w = elim (active w) [
  | none ↦ none
  | some tab ↦ entry_location (current_entry tab.navigation)
]

abbrev or_empty : Option Text → Text
or_empty none = []
or_empty (some text) = text

abbrev shown_location : Option Tab → Text
shown_location none = []
shown_location (some tab) = or_empty (display_location tab.navigation)

unfoldable pub address_bar_text : BrowserWindow → Text
unfolding active
address_bar_text w = elim w.address_bar.edit [
  | none ↦ shown_location (active w)
  | some edit ↦ if is_just w.active_tab edit.tab then edit.text else shown_location (active w)
]

unfoldable pub begin_address_bar_edit : BrowserWindow → Option ℕ × BrowserWindow
unfolding active AddressBar.begin
begin_address_bar_edit w = elim (active w) [
  | none ↦ (none, w)
  | some tab ↦ (
    some tab.id,
    record w { address_bar = AddressBar.begin tab.id (or_empty (display_location tab.navigation)) },
  )
]

unfoldable pub set_address_bar_text : BrowserWindow → Text → Bool × BrowserWindow
unfolding AddressBar.set_text
set_address_bar_text w text =
    let (done, bar) = AddressBar.set_text w.address_bar text in
    (done, record w { address_bar = bar })

unfoldable pub cancel_address_bar_edit : BrowserWindow → Bool × BrowserWindow
unfolding AddressBar.cancel
cancel_address_bar_edit w =
    let (done, bar) = AddressBar.cancel w.address_bar in (done, record w { address_bar = bar })

unfoldable pub submit_address_bar_edit : BrowserWindow → Option AddressBarSubmission × BrowserWindow
unfolding AddressBar.submit
submit_address_bar_edit w =
    let (submission, bar) = AddressBar.submit w.address_bar in
    (submission, record w { address_bar = bar })

unfoldable pub insert_tab : BrowserWindow → Tab → BrowserWindow
insert_tab w tab = record w {
  tabs = w.tabs ++ tab ∷ [];
  active_tab = elim w.active_tab [ none ↦ some tab.id | some id ↦ some id ];
}

abbrev pub touches : Option TabActivationIntent → ℕ → Bool
touches none tab = false
touches (some activation) tab = activation.from == tab || activation.to == tab

-- The tab at `position`, or else the one before it, as `tabs.get` and `checked_sub` find them.
abbrev pub neighbour : List Tab → ℕ → Option ℕ
neighbour tabs position = elim (get_elem? tabs position) [
  | some tab ↦ some tab.id
  | none ↦
      if position == 0
      then none
      else elim (get_elem? tabs (position - 1)) [ none ↦ none | some tab ↦ some tab.id ]
]

-- `close_tab`, for the tab `removed` that stands at `position`.
unfoldable pub close_tab_at : BrowserWindow → ℕ → ℕ → Tab → TabCloseResult × BrowserWindow
unfolding AddressBar.cancel_for_tab
close_tab_at w tab position removed =
    let invalidated : Option TabActivationIntent =
      if touches w.pending_activation tab then w.pending_activation else none in
    let tabs : List Tab = remove_at position w.tabs in
    let active_tab : Option ℕ =
      if is_just w.active_tab tab then neighbour tabs position else w.active_tab in
    (
      record { tab = removed; invalidated_activation = invalidated; active_tab = active_tab },
      record w {
        tabs = tabs;
        active_tab = active_tab;
        pending_activation =
            if touches w.pending_activation tab then none else w.pending_activation;
        address_bar = (AddressBar.cancel_for_tab w.address_bar tab).1;
      },
    )

unfoldable pub close_tab : BrowserWindow → ℕ → Option TabCloseResult × BrowserWindow
close_tab w tab = elim (position (has_id tab) w.tabs) [
  | none ↦ (none, w)
  | some index ↦ elim (get_elem? w.tabs index) [
    | none ↦ (none, w)
    | some removed ↦ let (result, w') = close_tab_at w tab index removed in (some result, w')
  ]
]

-- `set_active_tab` begins with a `debug_assert!` that the tab is there.
unfoldable pub set_active_tab {κ} :
    {E : Type κ} → ℕ → Call BrowserWindow E (Option TabActivationIntent)
unfolding AddressBar.cancel
set_active_tab tab = do
  w ← gets (λ w. w)
  debug_assert (any (has_id tab) w.tabs)
  modify (λ w. record w {
    active_tab = some tab;
    pending_activation = none;
    address_bar =
        if is_just w.active_tab tab then w.address_bar else (AddressBar.cancel w.address_bar).1;
  })
  pure w.pending_activation

unfoldable pub begin_tab_activation :
    BrowserWindow → TabActivationIntent → TabActivationStart × BrowserWindow
begin_tab_activation w intent = (
  record { intent = intent; superseded = w.pending_activation },
  record w { pending_activation = some intent },
)

abbrev pub activation_id : Option TabActivationIntent → Option ℕ
activation_id none = none
activation_id (some intent) = some intent.id

unfoldable pub take_tab_activation : BrowserWindow → ℕ → Option TabActivationIntent × BrowserWindow
take_tab_activation w activation =
    if is_just (activation_id w.pending_activation) activation
    then (w.pending_activation, record w { pending_activation = none })
    else (none, w)

abbrev pub cycle_anchor : BrowserWindow → Option ℕ
cycle_anchor w = elim w.pending_activation [ none ↦ w.active_tab | some intent ↦ some intent.to ]

-- `n` is the number of tabs, which is not 0 where this is called.
abbrev pub cycle_index : TabCycleDirection → ℕ → ℕ → ℕ
cycle_index next index n = (index + 1) % n
cycle_index previous index n = if index == 0 then n - 1 else index - 1

unfoldable pub cycle_target : BrowserWindow → TabCycleDirection → Option ℕ
cycle_target w direction = if ltb (length w.tabs) 2 then none else elim (cycle_anchor w) [
  | none ↦ none
  | some anchor ↦ elim (position (has_id anchor) w.tabs) [
    | none ↦ none
    | some index ↦ elim (get_elem? w.tabs (cycle_index direction index (length w.tabs))) [
      | none ↦ none
      | some tab ↦ some tab.id
    ]
  ]
]

-- The destination of a moved tab among the tabs that stay.
abbrev pub destination : List Tab → Option ℕ → Option ℕ
destination tabs none = some (length tabs)
destination tabs (some anchor) = position (has_id anchor) tabs

-- `move_tab_before`, for two different tabs: both positions are expected to be there.
unfoldable pub move_other {κ} : {E : Type κ} → ℕ → Option ℕ → Call BrowserWindow E (Unit {0})
move_other tab before = do
  w ← gets (λ w. w)
  from ← expect (position (has_id tab) w.tabs)
  moved ← expect (get_elem? w.tabs from)
  let rest = remove_at from w.tabs
  to ← expect (destination rest before)
  modify (λ w. record w { tabs = insert_at to moved rest })

unfoldable pub move_tab_before {κ} : {E : Type κ} → ℕ → Option ℕ → Call BrowserWindow E (Unit {0})
unfolding move_other
move_tab_before tab before = if is_just before tab then pure tt else move_other tab before

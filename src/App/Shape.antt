-- ===== src/App/Shape.antt =====
-- The invariant of the application, and the steps that its commands are made of.
use zorya.Common.{
  ℕ, ◌+◌, ◌≤◌, ◌<◌, ◌≡◌, inl, inr, ◌⊎◌, none, some, arith, Option-cases, checked_add, Outcome, ok,
  err, panicked, Call,
}
use zorya.Common.Map
use zorya.Common.Map.{AllEntries, AllEntries-get, AllEntries-insert, AllEntries-remove}
use zorya.Common.{All-map, All-find}
use zorya.Navigation.{TabNavigation}
use zorya.Navigation.Shape as NavShape
use zorya.Window.{BrowserWindow, Tab, has_id, find_tab}
use zorya.Window.Shape as Shape
use zorya.Window.Shape.{Counters, CountersLe, TabValid, IntentBelow, HasTab, update_tab}
use zorya.App.{
  BrowserModelError, unknown_window, unknown_tab, BrowserApp, new, on_window, tab, on_navigation,
  allocate_tab_id, allocate_tab_activation_id, allocate_navigation_id, allocate_history_entry_id,
  tab_id_exhausted, navigation_id_exhausted, tab_activation_id_exhausted,
  history_entry_id_exhausted,
}

abbrev pub counters : BrowserApp → Counters
counters app = record {
  tab = app.next_tab_id;
  activation = app.next_tab_activation_id;
  navigation = app.next_navigation_id;
  entry = app.next_history_entry_id;
}

abbrev pub WindowValid : ℕ → Counters → ℕ → BrowserWindow → Type 0
WindowValid next_window c id w = (id < next_window) × Shape.IsValid c w

pub record IsValid (app : BrowserApp) : Type 0 where
  pub windows_valid : AllEntries (WindowValid app.next_window_id (counters app)) app.windows
  pub entry_positive : 1 ≤ app.next_history_entry_id

abbrev pub NoPanic {ℓ κ} : {E : Type κ} {A : Type ℓ} → Outcome E A → Type 0
NoPanic (ok a) = Unit
NoPanic (err e) = Unit
NoPanic panicked = ⊥

-- A call that did not panic and left a valid application.
abbrev pub Fine {ℓ} : {A : Type ℓ} → Outcome BrowserModelError A × BrowserApp → Type 0
Fine r = NoPanic r.0 × IsValid r.1

pub new-IsValid : IsValid new
unfolding new
new-IsValid = record { windows_valid = tt; entry_positive = omega arith }

-- Larger counters serve too.
pub IsValid-widen :
    (app : BrowserApp) (next : ℕ) (c : Counters)
    → app.next_window_id ≤ next
    → CountersLe (counters app) c
    → IsValid app
    → IsValid (record {
      windows = app.windows;
      next_window_id = next;
      next_tab_id = c.tab;
      next_tab_activation_id = c.activation;
      next_navigation_id = c.navigation;
      next_history_entry_id = c.entry;
    })
IsValid-widen app next c more le v = record {
  windows_valid =
      All-map _ _ app.windows (λ e h. (omega (arith, h.0), Shape.IsValid-widen le e.1 h.1))
        v.windows_valid;
  entry_positive = omega (arith, v.entry_positive, le.entry);
}

-- A valid window put in the place of another.
abbrev pub put_window : ℕ → BrowserWindow → BrowserApp → BrowserApp
put_window id w app = record app { windows = Map.insert id w app.windows }

pub put_window-IsValid :
    (app : BrowserApp) (id : ℕ) (w : BrowserWindow)
    → id < app.next_window_id
    → Shape.IsValid (counters app) w
    → IsValid app
    → IsValid (put_window id w app)
put_window-IsValid app id w below wv v = record {
  windows_valid = AllEntries-insert _ id w app.windows (below, wv) v.windows_valid;
  entry_positive = v.entry_positive;
}

pub get-WindowValid :
    (app : BrowserApp) (id : ℕ) (w : BrowserWindow)
    → IsValid app
    → Map.get id app.windows ≡ some w
    → WindowValid app.next_window_id (counters app) id w
get-WindowValid app id w v e = AllEntries-get _ id app.windows w v.windows_valid e

-- A method that is safe on valid windows is safe on the application.
pub on_window-Fine :
    {A : Type 0} (id : ℕ) (method : Call BrowserWindow BrowserModelError A) (app : BrowserApp)
    → ((w : BrowserWindow)
        → Shape.IsValid (counters app) w
        → NoPanic (method w).0 × Shape.IsValid (counters app) (method w).1)
    → IsValid app
    → Fine (on_window id method app)
unfolding on_window
on_window-Fine id method app safe v = elim (Option-cases (Map.get id app.windows)) [
  | inl e ↦ rw (e, on_window) (tt, v)
  | inr (w, e) ↦
      let (below, wv) = get-WindowValid app id w v e in
      let (calm, wv') = safe w wv in
      rw (e, on_window) (calm, put_window-IsValid app id (method w).1 below wv' v)
]

-- `BrowserApp::tab` finds the tab or fails, and changes nothing.
pub tab_cases :
    (window_id tab_id : ℕ) (app : BrowserApp)
    → ((e : BrowserModelError) × (tab window_id tab_id app ≡ (err e, app)))
      ⊎ ((w : BrowserWindow) × (t : Tab) × (Map.get window_id app.windows ≡ some w)
          × (find_tab w tab_id ≡ some t)
          × (tab window_id tab_id app ≡ (ok t, app)))
tab_cases window_id tab_id app = elim (Option-cases (Map.get window_id app.windows)) [
  | inl e ↦ inl (unknown_window window_id, (unfold tab in rw (e, tab)))
  | inr (w, e) ↦ elim (Option-cases (find_tab w tab_id)) [
    | inl f ↦ inl (unknown_tab window_id tab_id, (unfold tab in rw (e, f, tab)))
    | inr (t, f) ↦ inr (w, t, e, f, (unfold tab in rw (e, f, tab)))
  ]
]

abbrev pub set_navigation : ℕ → ℕ → BrowserWindow → TabNavigation → BrowserApp → BrowserApp
set_navigation window_id tab_id w n app = put_window window_id (update_tab tab_id (λ _. n) w) app

pub on_navigation_cases :
    {A : Type 0} (window_id tab_id : ℕ) (method : TabNavigation → A × TabNavigation)
    (app : BrowserApp)
    → ((e : BrowserModelError) × (on_navigation window_id tab_id method app ≡ (err e, app)))
      ⊎ ((w : BrowserWindow) × (t : Tab) × (Map.get window_id app.windows ≡ some w)
          × (find_tab w tab_id ≡ some t)
          × (on_navigation window_id tab_id method app ≡ (
            ok (method t.navigation).0,
            set_navigation window_id tab_id w (method t.navigation).1 app,
          )))
on_navigation_cases window_id tab_id method app = elim (tab_cases window_id tab_id app) [
  | inl (e, f) ↦ inl (e, (unfold on_navigation in simp (f, on_navigation)))
  | inr (w, t, e, f, g) ↦ inr (w, t, e, f, (unfold on_navigation in simp (g, e, on_navigation)))
]

-- A valid navigation put in the place of a tab's.
pub set_navigation-IsValid :
    (app : BrowserApp) (window_id tab_id : ℕ) (w : BrowserWindow) (n : TabNavigation)
    → Map.get window_id app.windows ≡ some w
    → NavShape.IsValid app.next_history_entry_id n
    → IntentBelow app.next_navigation_id n.pending
    → IsValid app
    → IsValid (set_navigation window_id tab_id w n app)
set_navigation-IsValid app window_id tab_id w n e nv below v =
    let (known, wv) = get-WindowValid app window_id w v e in
    put_window-IsValid app window_id (update_tab tab_id (λ _. n) w) known
      (Shape.update_tab-IsValid w tab_id (λ _. n)
        (λ t tv. record { id_below = tv.id_below; navigation_valid = nv; intent_below = below }) wv)
      v

-- The tab that is found is valid.
pub find_tab-TabValid :
    (app : BrowserApp) (window_id tab_id : ℕ) (w : BrowserWindow) (t : Tab)
    → Map.get window_id app.windows ≡ some w
    → find_tab w tab_id ≡ some t
    → IsValid app
    → TabValid (counters app) t
find_tab-TabValid app window_id tab_id w t e f v =
    All-find (TabValid (counters app)) (has_id tab_id) w.tabs t
      (get-WindowValid app window_id w v e).1.tabs_valid (unfold find_tab in f)

-- A navigation call that keeps the tab's navigation valid is safe on the application.
pub on_navigation-Fine :
    {A : Type 0} (window_id tab_id : ℕ) (method : TabNavigation → A × TabNavigation)
    (app : BrowserApp)
    → ((t : Tab)
        → TabValid (counters app) t
        → NavShape.IsValid app.next_history_entry_id (method t.navigation).1
          × IntentBelow app.next_navigation_id (method t.navigation).1.pending)
    → IsValid app
    → Fine (on_navigation window_id tab_id method app)
on_navigation-Fine window_id tab_id method app keep v =
    elim (on_navigation_cases window_id tab_id method app) [
      | inl (e, f) ↦ rw f (tt, v)
      | inr (w, t, e, f, g) ↦
          let (nv, below) = keep t (find_tab-TabValid app window_id tab_id w t e f v) in
          rw g
            (tt, set_navigation-IsValid app window_id tab_id w (method t.navigation).1 e nv below v)
    ]

-- Each counter is given out and moves on, or is exhausted and stays.
abbrev pub next_tab : BrowserApp → BrowserApp
next_tab app = record app { next_tab_id = app.next_tab_id + 1 }

abbrev pub next_activation : BrowserApp → BrowserApp
next_activation app = record app { next_tab_activation_id = app.next_tab_activation_id + 1 }

abbrev pub next_navigation : BrowserApp → BrowserApp
next_navigation app = record app { next_navigation_id = app.next_navigation_id + 1 }

abbrev pub next_entry : BrowserApp → BrowserApp
next_entry app = record app { next_history_entry_id = app.next_history_entry_id + 1 }

pub checked_add_cases : (n : ℕ) → (checked_add n 1 ≡ none) ⊎ (checked_add n 1 ≡ some (n + 1))
checked_add_cases n = ground arith

pub allocate_tab_id_cases :
    (app : BrowserApp)
    → (allocate_tab_id app ≡ (err tab_id_exhausted, app))
      ⊎ (allocate_tab_id app ≡ (ok app.next_tab_id, next_tab app))
allocate_tab_id_cases app = elim (checked_add_cases app.next_tab_id) [
  | inl e ↦ inl (unfold allocate_tab_id in rw (e, allocate_tab_id))
  | inr e ↦ inr (unfold allocate_tab_id in rw (e, allocate_tab_id))
]

pub allocate_tab_activation_id_cases :
    (app : BrowserApp)
    → (allocate_tab_activation_id app ≡ (err tab_activation_id_exhausted, app))
      ⊎ (allocate_tab_activation_id app ≡ (ok app.next_tab_activation_id, next_activation app))
allocate_tab_activation_id_cases app = elim (checked_add_cases app.next_tab_activation_id) [
  | inl e ↦ inl (unfold allocate_tab_activation_id in rw (e, allocate_tab_activation_id))
  | inr e ↦ inr (unfold allocate_tab_activation_id in rw (e, allocate_tab_activation_id))
]

pub allocate_navigation_id_cases :
    (app : BrowserApp)
    → (allocate_navigation_id app ≡ (err navigation_id_exhausted, app))
      ⊎ (allocate_navigation_id app ≡ (ok app.next_navigation_id, next_navigation app))
allocate_navigation_id_cases app = elim (checked_add_cases app.next_navigation_id) [
  | inl e ↦ inl (unfold allocate_navigation_id in rw (e, allocate_navigation_id))
  | inr e ↦ inr (unfold allocate_navigation_id in rw (e, allocate_navigation_id))
]

pub allocate_history_entry_id_cases :
    (app : BrowserApp)
    → (allocate_history_entry_id app ≡ (err history_entry_id_exhausted, app))
      ⊎ (allocate_history_entry_id app ≡ (ok app.next_history_entry_id, next_entry app))
allocate_history_entry_id_cases app = elim (checked_add_cases app.next_history_entry_id) [
  | inl e ↦ inl (unfold allocate_history_entry_id in rw (e, allocate_history_entry_id))
  | inr e ↦ inr (unfold allocate_history_entry_id in rw (e, allocate_history_entry_id))
]

pub next_tab-IsValid : (app : BrowserApp) → IsValid app → IsValid (next_tab app)
next_tab-IsValid app v =
    IsValid-widen app app.next_window_id (counters (next_tab app)) (omega arith) (omega arith) v

pub next_activation-IsValid : (app : BrowserApp) → IsValid app → IsValid (next_activation app)
next_activation-IsValid app v =
    IsValid-widen app app.next_window_id (counters (next_activation app)) (omega arith)
      (omega arith) v

pub next_navigation-IsValid : (app : BrowserApp) → IsValid app → IsValid (next_navigation app)
next_navigation-IsValid app v =
    IsValid-widen app app.next_window_id (counters (next_navigation app)) (omega arith)
      (omega arith) v

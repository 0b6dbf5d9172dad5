-- ===== src/App/Safe.antt =====
-- The commands of `BrowserApp` on windows and tabs, in a valid application.
use zorya.Common.{
  ℕ, suc, ◌+◌, ◌≤◌, ◌≡◌, refl, inl, inr, Option, none, some, arith, Option-cases, Outcome, ok, err,
  panicked, find-eq-some, fresh_any, All-map, continue, or_raise,
}
use zorya.Common.Map
use zorya.Common.Map.{AllEntries-remove}
use zorya.Navigation
use zorya.Navigation.Shape as NavShape
use zorya.Window
use zorya.Window.{BrowserWindow, Tab, has_id, find_tab, activation_id}
use zorya.Window.Shape as Shape
use zorya.Window.Shape.{Counters, TabValid, HasTab, activated, set_active_tab_lem}
use zorya.Window.Close
use zorya.App.{
  BrowserModelError, BrowserApp, Action, create_window, close_window, create_tab, close_tab,
  reset_window_for_profile_switch, fresh_tab,
}
use zorya.App.Tabs.{set_active_tab}
use zorya.App.Shape.{
  counters, IsValid, Fine, on_window-Fine, put_window-IsValid, get-WindowValid, IsValid-widen,
  allocate_tab_id_cases, next_tab, next_tab-IsValid, checked_add_cases,
}

-- A safe call followed by a safe call is safe.
pub continue-Fine :
    {A B : Type 0} (r : Outcome BrowserModelError A × BrowserApp) (f : A → Action B)
    → ((a : A) (app : BrowserApp) → r.0 ≡ ok a → IsValid app → Fine (f a app))
    → Fine r
    → Fine (continue r.0 r.1 f)
continue-Fine (ok a, app) f safe h = safe a app refl h.1
continue-Fine (err e, app) f safe h = h
continue-Fine (panicked, app) f safe h = h

pub or_raise-Fine :
    {A : Type 0} (o : Option A) (e : BrowserModelError) (app : BrowserApp)
    → IsValid app
    → Fine (or_raise {S = BrowserApp} o e app)
or_raise-Fine none e app v = (tt, v)
or_raise-Fine (some a) e app v = (tt, v)

pub create_window-Fine : (app : BrowserApp) → IsValid app → Fine (create_window app)
unfolding create_window
create_window-Fine app v = elim (checked_add_cases app.next_window_id) [
  | inl e ↦ rw (e, create_window) (tt, v)
  | inr e ↦
      rw (e, create_window)
        (
          tt,
          put_window-IsValid (record app { next_window_id = app.next_window_id + 1 })
              app.next_window_id (Window.new app.next_window_id) (omega arith)
              (Shape.new-IsValid (counters app) app.next_window_id)
              (IsValid-widen app (app.next_window_id + 1) (counters app) (omega arith) (omega arith)
                v),
        )
]

pub close_window-Fine : (id : ℕ) (app : BrowserApp) → IsValid app → Fine (close_window id app)
unfolding close_window
close_window-Fine id app v = (
  tt,
  record {
    windows_valid = AllEntries-remove _ id app.windows v.windows_valid;
    entry_positive = v.entry_positive;
  },
)

-- A tab with the next identifier, in a valid window.
insert_fresh :
    (app : BrowserApp) (w : BrowserWindow)
    → IsValid app
    → Shape.IsValid (counters app) w
    → Shape.IsValid (counters (next_tab app)) (Window.insert_tab w (fresh_tab app.next_tab_id))
insert_fresh app w v wv =
    let c = counters app in
    Shape.insert_tab-IsValid w (fresh_tab app.next_tab_id)
      (record {
        id_below = omega arith;
        navigation_valid = NavShape.new-IsValid app.next_history_entry_id v.entry_positive;
        intent_below = (unfold Navigation.new in tt);
      })
      (fresh_any (λ t. t.id) app.next_tab_id w.tabs
        (All-map (TabValid c) (λ t. suc t.id ≤ app.next_tab_id) w.tabs (λ t tv. tv.id_below)
          wv.tabs_valid))
      (Shape.IsValid-widen (omega arith) w wv)

pub reset_window-Fine :
    (id : ℕ) (app : BrowserApp) → IsValid app → Fine (reset_window_for_profile_switch id app)
unfolding reset_window_for_profile_switch
reset_window-Fine id app v = elim (Option-cases (Map.get id app.windows)) [
  | inl e ↦ rw (e, reset_window_for_profile_switch) (tt, v)
  | inr (w, e) ↦ elim (allocate_tab_id_cases app) [
    | inl f ↦ simp (e, f, reset_window_for_profile_switch) (tt, v)
    | inr f ↦
        simp (e, f, reset_window_for_profile_switch)
          (
            tt,
            put_window-IsValid (next_tab app) id _ (get-WindowValid app id w v e).0
                (insert_fresh app (Window.new id) v (Shape.new-IsValid (counters app) id))
                (next_tab-IsValid app v),
          )
  ]
]

pub create_tab-Fine : (id : ℕ) (app : BrowserApp) → IsValid app → Fine (create_tab id app)
unfolding create_tab
create_tab-Fine id app v = elim (Option-cases (Map.get id app.windows)) [
  | inl e ↦ rw (e, create_tab) (tt, v)
  | inr (w, e) ↦ elim (allocate_tab_id_cases app) [
    | inl f ↦ simp (e, f, create_tab) (tt, v)
    | inr f ↦
        let (below, wv) = get-WindowValid app id w v e in
        simp (e, f, create_tab)
          (
            tt,
            put_window-IsValid (next_tab app) id _ below (insert_fresh app w v wv)
                (next_tab-IsValid app v),
          )
  ]
]

pub close_tab-Fine : (id tab : ℕ) (app : BrowserApp) → IsValid app → Fine (close_tab id tab app)
unfolding close_tab
close_tab-Fine id tab app v =
    continue-Fine _ _ (λ a app' _ v'. or_raise-Fine a _ app' v')
      (on_window-Fine id _ app (λ w wv. (tt, Close.close_tab-IsValid w tab wv)) v)

pub found-HasTab :
    (w : BrowserWindow) (id : ℕ) (t : Tab) → find_tab w id ≡ some t → HasTab w.tabs id
unfolding find_tab
found-HasTab w id t e = find-eq-some (has_id id) w.tabs t e

pub set_active_tab-Fine :
    (id tab : ℕ) (app : BrowserApp) → IsValid app → Fine (set_active_tab id tab app)
unfolding set_active_tab
set_active_tab-Fine id tab app v =
    on_window-Fine id _ app
      (λ w wv. elim (Option-cases (find_tab w tab)) [
        | inl e ↦ rw e (tt, wv)
        | inr (t, e) ↦
            let there = found-HasTab w tab t e in
            simp (e, set_active_tab_lem {E = BrowserModelError} w tab there)
              (tt, Shape.activated-IsValid w tab there wv)
      ])
      v

-- ===== src/App/Browse.antt =====
-- The commands of `BrowserApp` that begin and stop navigations, in a valid application.
use zorya.Common.{
  ℕ, zero, suc, ◌+◌, ◌-◌, ◌≡◌, refl, sym, ◌∙◌, inl, inr, Option, none, some, List, arith,
  Option-cases, ok, ◌==◌, ==_iff, ==_refl, find-eq-some, find, any-get_elem?, get_elem?, find_holds,
}
use zorya.Common.Map
use zorya.Navigation
use zorya.Navigation.{
  Text, TabNavigation, NavigationIntent, NavigationIntentKind, new_document, reload,
  traverse_history, HistoryEntry, pending_for, pending_id, current_index, current_entry,
  back_target, forward_target, reload_target, entry_target, commit_new, commit_existing, push_entry,
  revisit_entry, fail, start, contains_history_entry,
}
use zorya.Navigation.Shape as NavShape
use zorya.Navigation.Shape.{Known, KindKnown, idle, idle-IsValid}
use zorya.Navigation.Traverse.{entry_target-eq-some}
use zorya.Window.{BrowserWindow, Tab, find_tab}
use zorya.App.{BrowserApp, tab, on_navigation}
use zorya.App.Navigate.{
  begin_navigation, begin_existing_navigation, begin_back_navigation, begin_forward_navigation,
  begin_reload, stop_navigation,
}
use zorya.App.Shape.{
  IsValid, Fine, tab_cases, set_navigation, set_navigation-IsValid, on_navigation-Fine,
  find_tab-TabValid, allocate_navigation_id_cases, next_navigation, next_navigation-IsValid,
}

-- The tab `t` of the window `w` is the one that the identifiers name.
module _ (app : BrowserApp) (window_id tab_id : ℕ) (w : BrowserWindow) (t : Tab)
    (here : Map.get window_id app.windows ≡ some w) (found : find_tab w tab_id ≡ some t) where
  pub tab_lem : tab window_id tab_id app ≡ (ok t, app)
  unfolding tab
  tab_lem = rw (here, found, tab)

  pub on_navigation_lem :
      {A : Type 0} (method : TabNavigation → A × TabNavigation)
      → on_navigation window_id tab_id method app ≡ (
        ok (method t.navigation).0,
        set_navigation window_id tab_id w (method t.navigation).1 app,
      )
  unfolding on_navigation
  on_navigation_lem method = simp (tab_lem, here, on_navigation)

entry_target-Known :
    (history : List HistoryEntry) (i id : ℕ) (location : Text)
    → entry_target (get_elem? history i) ≡ some (id, location)
    → Known history id
entry_target-Known history i id location h =
    let (entry, at, same) = entry_target-eq-some (get_elem? history i) id location h in
    any-get_elem? (λ e. e.id == id) i history entry at (rw same (==_refl id))

-- The three targets are entries of the history.
back_target-Known :
    (t : TabNavigation) (id : ℕ) (location : Text)
    → back_target t ≡ some (id, location)
    → Known t.history id
unfolding back_target
back_target-Known t id location h = elim (Option-cases (current_index t)) [
  | inl e ↦ absurd (ground arith)
  | inr (zero, e) ↦ absurd (ground arith)
  | inr (suc i, e) ↦ entry_target-Known t.history (suc i - 1) id location (ground arith)
]

forward_target-Known :
    (t : TabNavigation) (id : ℕ) (location : Text)
    → forward_target t ≡ some (id, location)
    → Known t.history id
unfolding forward_target
forward_target-Known t id location h = elim (Option-cases (current_index t)) [
  | inl e ↦ absurd (ground arith)
  | inr (i, e) ↦ entry_target-Known t.history (i + 1) id location (ground arith)
]

reload_target-Known :
    (t : TabNavigation) (id : ℕ) (location : Text)
    → reload_target t ≡ some (id, location)
    → Known t.history id
unfolding reload_target current_entry
reload_target-Known t id location h = go t.current refl
  where
    go : (c : Option ℕ) → t.current ≡ c → Known t.history id
    go none e = absurd (ground arith)
    go (some c) e =
        let (entry, at, same) =
          entry_target-eq-some (find (λ x. x.id == c) t.history) id location (ground arith) in
        let hit : entry.id ≡ c =
          (==_iff entry.id c).0 (find_holds (λ x. x.id == c) t.history entry at) in
        let target : c ≡ id = sym hit ∙ same in
        rw (← target) (find-eq-some (λ x. x.id == c) t.history entry at)

pub begin_navigation-Fine :
    (window_id tab_id : ℕ) (requested : Text) (app : BrowserApp)
    → IsValid app
    → Fine (begin_navigation window_id tab_id requested app)
unfolding begin_navigation
begin_navigation-Fine window_id tab_id requested app v = elim (tab_cases window_id tab_id app) [
  | inl (e, f) ↦ simp (f, begin_navigation) (tt, v)
  | inr (w, t, e, found, f) ↦ elim (allocate_navigation_id_cases app) [
    | inl h ↦ simp (f, h, begin_navigation) (tt, v)
    | inr h ↦
        simp (f, h, begin_navigation)
          (on_navigation-Fine window_id tab_id _ (next_navigation app)
            (λ t tv. (
              NavShape.start-IsValid t.navigation _ tt tv.navigation_valid,
              unfold start in omega arith,
            ))
            (next_navigation-IsValid app v))
  ]
]

begin_existing-Fine :
    (app : BrowserApp) (window_id tab_id : ℕ) (w : BrowserWindow) (t : Tab)
    (target : Option (ℕ × Text)) (kind : ℕ → NavigationIntentKind)
    → Map.get window_id app.windows ≡ some w
    → find_tab w tab_id ≡ some t
    → ((id : ℕ) (location : Text)
        → target ≡ some (id, location)
        → KindKnown t.navigation.history (kind id))
    → IsValid app
    → Fine (begin_existing_navigation window_id tab_id target kind app)
unfolding begin_existing_navigation
begin_existing-Fine app window_id tab_id w t none kind e f known v = (tt, v)
begin_existing-Fine app window_id tab_id w t (some (id, location)) kind e f known v =
    elim (allocate_navigation_id_cases app) [
      | inl h ↦ simp (h, begin_existing_navigation) (tt, v)
      | inr h ↦
          let tv = find_tab-TabValid app window_id tab_id w t e f v in
          simp
            (
              h,
              on_navigation_lem (next_navigation app) window_id tab_id w t e f,
              begin_existing_navigation,
            )
            (
              tt,
              set_navigation-IsValid (next_navigation app) window_id tab_id w _ e
                  (NavShape.start-IsValid t.navigation _ (known id location refl)
                    tv.navigation_valid)
                  (unfold start in omega arith) (next_navigation-IsValid app v),
            )
    ]

pub begin_back_navigation-Fine :
    (window_id tab_id : ℕ) (app : BrowserApp)
    → IsValid app
    → Fine (begin_back_navigation window_id tab_id app)
unfolding begin_back_navigation
begin_back_navigation-Fine window_id tab_id app v = elim (tab_cases window_id tab_id app) [
  | inl (e, f) ↦ simp (f, begin_back_navigation) (tt, v)
  | inr (w, t, e, found, f) ↦
      simp (f, begin_back_navigation)
        (begin_existing-Fine app window_id tab_id w t (back_target t.navigation) traverse_history e
          found (back_target-Known t.navigation) v)
]

pub begin_forward_navigation-Fine :
    (window_id tab_id : ℕ) (app : BrowserApp)
    → IsValid app
    → Fine (begin_forward_navigation window_id tab_id app)
unfolding begin_forward_navigation
begin_forward_navigation-Fine window_id tab_id app v = elim (tab_cases window_id tab_id app) [
  | inl (e, f) ↦ simp (f, begin_forward_navigation) (tt, v)
  | inr (w, t, e, found, f) ↦
      simp (f, begin_forward_navigation)
        (begin_existing-Fine app window_id tab_id w t (forward_target t.navigation) traverse_history
          e found (forward_target-Known t.navigation) v)
]

pub begin_reload-Fine :
    (window_id tab_id : ℕ) (app : BrowserApp)
    → IsValid app
    → Fine (begin_reload window_id tab_id app)
unfolding begin_reload
begin_reload-Fine window_id tab_id app v = elim (tab_cases window_id tab_id app) [
  | inl (e, f) ↦ simp (f, begin_reload) (tt, v)
  | inr (w, t, e, found, f) ↦
      simp (f, begin_reload)
        (begin_existing-Fine app window_id tab_id w t (reload_target t.navigation) reload e found
          (reload_target-Known t.navigation) v)
]

pub stop_navigation-Fine :
    (window_id tab_id : ℕ) (app : BrowserApp)
    → IsValid app
    → Fine (stop_navigation window_id tab_id app)
unfolding stop_navigation
stop_navigation-Fine window_id tab_id app v =
    on_navigation-Fine window_id tab_id _ app
      (λ t tv. (
        NavShape.stop_loading-IsValid t.navigation tv.navigation_valid,
        unfold Navigation.stop_loading in tt,
      ))
      v

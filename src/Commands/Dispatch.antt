-- ===== src/Commands/Dispatch.antt =====
-- The commands of src/commands.rs in a valid application.
use zorya.Common.{
  ℕ, ◌≡◌, ap, subst, inl, inr, true, Option, some, ==_refl, Option-cases, ok, arith, find_holds,
}
use zorya.Common.Calls.{given}
use zorya.Common.Map
use zorya.Navigation
use zorya.Navigation.{NavigationIntent, is_loading}
use zorya.Window
use zorya.Window.{BrowserWindow, Tab, find_tab, has_id}
use zorya.Window.Shape.{HasTab, ActiveKnown}
use zorya.App.{BrowserApp, on_window}
use zorya.App.Tabs.{begin_address_bar_edit}
use zorya.App.Navigate.{stop_navigation}
use zorya.App.Shape.{IsValid, Fine, get-WindowValid}
use zorya.App.Safe
use zorya.App.Safe.{continue-Fine}
use zorya.App.Activate
use zorya.App.Browse
use zorya.App.Browse.{on_navigation_lem}
use zorya.TabClose.Fallback.{begin_tab_close-Fine}
use zorya.Commands.{
  BrowserCommand, new_tab, close_tab, focus_address_bar, back, forward, reload_or_stop, cycle_tab,
  reload_or_stop_tab, dispatch_to, dispatch_active, dispatch_browser_command,
}

-- The commands that are sent to the active tab.
abbrev ForActive : BrowserCommand → Type 0
ForActive new_tab = ⊥
ForActive close_tab = Unit
ForActive focus_address_bar = Unit
ForActive back = Unit
ForActive forward = Unit
ForActive reload_or_stop = Unit
ForActive (cycle_tab d) = ⊥

-- The active tab is found.
active_found :
    (app : BrowserApp) (id : ℕ) (w : BrowserWindow) (a : ℕ)
    → IsValid app
    → Map.get id app.windows ≡ some w
    → w.active_tab ≡ some a
    → (t : Tab) × (find_tab w a ≡ some t) × (t.id ≡ a)
active_found app id w a v here active =
    let (below, wv) = get-WindowValid app id w v here in
    let there : HasTab w.tabs a = subst (ActiveKnown w.tabs) active wv.active_known in
    elim (Option-cases (find_tab w a)) [
      | inl missing ↦ absurd (ground (arith, Activate.HasTab-found w a there))
      | inr (t, found) ↦
          let holds : has_id a t ≡ true =
            find_holds (has_id a) w.tabs t (unfold find_tab in found) in
          (t, found, ground arith)
    ]

module _ (app : BrowserApp) (id : ℕ) (w : BrowserWindow) (a : ℕ) (t : Tab) (v : IsValid app)
    (here : Map.get id app.windows ≡ some w) (active : w.active_tab ≡ some a)
    (found : find_tab w a ≡ some t) (same : t.id ≡ a) where
  edited : (begin_address_bar_edit id app).0 ≡ ok (some a)
  unfolding begin_address_bar_edit on_window Window.begin_address_bar_edit Window.active
  edited = simp (
    begin_address_bar_edit, on_window, here, Window.begin_address_bar_edit, Window.active, active,
    found, same,
  )

  stopped : (stop_navigation id a app).0 ≡ ok t.navigation.pending
  unfolding stop_navigation Navigation.stop_loading
  stopped = ap (λ p. p.0) (on_navigation_lem app id a w t here found Navigation.stop_loading)

  stopped_is :
      (x : Option NavigationIntent)
      → (stop_navigation id a app).0 ≡ ok x
      → (intent : NavigationIntent) → t.navigation.pending ≡ some intent
      → x ≡ some intent
  stopped_is x e intent loading = let known = stopped in cc

  reload_or_stop_tab-Fine : Fine (reload_or_stop_tab id a (is_loading t.navigation) app)
  unfolding reload_or_stop_tab is_loading
  reload_or_stop_tab-Fine = elim (Option-cases t.navigation.pending) [
    | inl idle ↦
        rw idle (continue-Fine _ _ (λ x app' _ v'. (tt, v')) (Browse.begin_reload-Fine id a app v))
    | inr (intent, loading) ↦ rw loading (
        continue-Fine _ _
          (λ x app' e v'.
            let known : x ≡ some intent = stopped_is x e intent loading in rw known (tt, v'))
          (Browse.stop_navigation-Fine id a app v))
  ]

  dispatch_to-Fine : (c : BrowserCommand) → ForActive c → Fine (dispatch_to id a c app)
  unfolding dispatch_to
  dispatch_to-Fine new_tab h = absurd h
  dispatch_to-Fine close_tab h =
      continue-Fine _ _ (λ x app' _ v'. (tt, v')) (begin_tab_close-Fine id a app v)
  dispatch_to-Fine focus_address_bar h =
      continue-Fine _ _
        (λ x app' e v'.
          let known : x ≡ some a = (let first = edited in cc) in rw (known, ==_refl a) (tt, v'))
        (Activate.begin_address_bar_edit-Fine id app v)
  dispatch_to-Fine back h =
      continue-Fine _ _ (λ x app' _ v'. (tt, v')) (Browse.begin_back_navigation-Fine id a app v)
  dispatch_to-Fine forward h =
      continue-Fine _ _ (λ x app' _ v'. (tt, v')) (Browse.begin_forward_navigation-Fine id a app v)
  dispatch_to-Fine reload_or_stop h = simp (here, found) reload_or_stop_tab-Fine
  dispatch_to-Fine (cycle_tab d) h = absurd h

dispatch_active-Fine :
    (id : ℕ) (c : BrowserCommand) (app : BrowserApp)
    → ForActive c
    → IsValid app
    → Fine (dispatch_active id c app)
unfolding dispatch_active
dispatch_active-Fine id c app h v = elim (Option-cases (Map.get id app.windows)) [
  | inl missing ↦ rw (dispatch_active, missing) (tt, v)
  | inr (w, here) ↦ elim (Option-cases w.active_tab) [
    | inl none_active ↦ simp (dispatch_active, here, none_active) (tt, v)
    | inr (a, active) ↦ given (active_found app id w a v here active) λ (t, found, same).
        simp (dispatch_active, here, active)
          (dispatch_to-Fine app id w a t v here active found same c h)
  ]
]

-- Every browser command, sent to any window of a valid application, ends without a panic: no
-- `unreachable!`, `expect` or assertion of the dispatch is met, and the application stays valid.
pub dispatch_browser_command-Fine :
    (id : ℕ) (c : BrowserCommand) (app : BrowserApp)
    → IsValid app
    → Fine (dispatch_browser_command id c app)
unfolding dispatch_browser_command
dispatch_browser_command-Fine id new_tab app v =
    continue-Fine _ _ (λ x app' _ v'. (tt, v')) (Safe.create_tab-Fine id app v)
dispatch_browser_command-Fine id (cycle_tab d) app v =
    continue-Fine _ _ (λ x app' _ v'. (tt, v')) (Activate.begin_tab_cycle-Fine id d app v)
dispatch_browser_command-Fine id close_tab app v = dispatch_active-Fine id close_tab app tt v
dispatch_browser_command-Fine id focus_address_bar app v =
    dispatch_active-Fine id focus_address_bar app tt v
dispatch_browser_command-Fine id back app v = dispatch_active-Fine id back app tt v
dispatch_browser_command-Fine id forward app v = dispatch_active-Fine id forward app tt v
dispatch_browser_command-Fine id reload_or_stop app v =
    dispatch_active-Fine id reload_or_stop app tt v

-- ===== src/Commands.antt =====
-- src/commands.rs: the browser's commands, sent to the active tab of a window.
pub mod Dispatch
use zorya.Common.{
  true, false, ℕ, ◌==◌, Bool, Option, none, some, Call, ◌>>=◌, ◌>>◌, pure, gets, or_raise, expect,
  debug_assert, panicked, if◌then◌else◌,
}
use zorya.Common.Map
use zorya.Navigation.{NavigationIntent, NavigationStart, is_loading}
use zorya.Activation.{TabActivationStart, TabCycleDirection}
use zorya.Window.{Tab, find_tab}
use zorya.App
use zorya.App.{BrowserApp, BrowserModelError, unknown_window, no_active_tab}
use zorya.App.Tabs
use zorya.App.Navigate
use zorya.TabClose.{TabCloseStart, begin_tab_close}

pub data BrowserCommand : Type 0 where
  new_tab close_tab focus_address_bar back forward reload_or_stop : BrowserCommand
  cycle_tab : TabCycleDirection → BrowserCommand

pub data BrowserCommandEffect : Type 0 where
  tab_created : (tab : ℕ) → BrowserCommandEffect
  tab_close_started : TabCloseStart → BrowserCommandEffect
  address_bar_edit_started : (tab : ℕ) → BrowserCommandEffect
  navigation_started : NavigationStart → BrowserCommandEffect
  navigation_stopped : NavigationIntent → BrowserCommandEffect
  tab_activation_started : TabActivationStart → BrowserCommandEffect
  unavailable : BrowserCommandEffect

-- `.map(effect).unwrap_or(Unavailable)`
abbrev pub available : {A : Type 0} → (A → BrowserCommandEffect) → Option A → BrowserCommandEffect
available effect none = unavailable
available effect (some a) = effect a

-- The end of `ReloadOrStop`, on whether the tab is loading.
unfoldable pub reload_or_stop_tab : ℕ → ℕ → Bool → App.Action BrowserCommandEffect
reload_or_stop_tab window tab true = do
  stopped ← Navigate.stop_navigation window tab
  intent ← expect stopped
  pure (navigation_stopped intent)
reload_or_stop_tab window tab false = do
  started ← Navigate.begin_reload window tab
  pure (available navigation_started started)

-- The `match` on a command for the active tab; `unreachable!` panics.
unfoldable pub dispatch_to : ℕ → ℕ → BrowserCommand → App.Action BrowserCommandEffect
dispatch_to window tab new_tab app = (panicked, app)
dispatch_to window tab close_tab app =
    (do started ← begin_tab_close window tab; pure (tab_close_started started)) app
dispatch_to window tab focus_address_bar app =
    (do
      edited ← Tabs.begin_address_bar_edit window
      edited_tab ← expect edited
      debug_assert (edited_tab == tab)
      pure (address_bar_edit_started edited_tab))
      app
dispatch_to window tab back app =
    (do
      started ← Navigate.begin_back_navigation window tab
      pure (available navigation_started started))
      app
dispatch_to window tab forward app =
    (do
      started ← Navigate.begin_forward_navigation window tab
      pure (available navigation_started started))
      app
dispatch_to window tab reload_or_stop app =
    (do
      w ← expect (← gets (λ app. Map.get window app.windows))
      t ← expect (find_tab w tab)
      reload_or_stop_tab window tab (is_loading t.navigation))
      app
dispatch_to window tab (cycle_tab direction) app = (panicked, app)

unfoldable pub dispatch_active : ℕ → BrowserCommand → App.Action BrowserCommandEffect
dispatch_active window command = do
  w ← or_raise (← gets (λ app. Map.get window app.windows)) (unknown_window window)
  active ← or_raise w.active_tab (no_active_tab window)
  dispatch_to window active command

unfoldable pub dispatch_browser_command : ℕ → BrowserCommand → App.Action BrowserCommandEffect
dispatch_browser_command window new_tab = do tab ← App.create_tab window; pure (tab_created tab)
dispatch_browser_command window (cycle_tab direction) = do
  started ← Tabs.begin_tab_cycle window direction
  pure (available tab_activation_started started)
dispatch_browser_command window close_tab = dispatch_active window close_tab
dispatch_browser_command window focus_address_bar = dispatch_active window focus_address_bar
dispatch_browser_command window back = dispatch_active window back
dispatch_browser_command window forward = dispatch_active window forward
dispatch_browser_command window reload_or_stop = dispatch_active window reload_or_stop

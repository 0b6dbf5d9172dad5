-- ===== src/App.antt =====
-- `BrowserApp` of src/app.rs: the windows, the identifier counters and every command on them.
pub mod Tabs
pub mod Navigate
pub mod Shape
pub mod Safe
pub mod Browse
pub mod Commit
pub mod Command
pub mod Activate
use zorya.Common.{
  ℕ, Bool, true, false, not, Option, none, some, List, [], ◌∷◌, is_some, is_just, if◌then◌else◌,
  u64_max, checked_add, Outcome, ok, err, panicked, Call, ◌>>=◌, ◌>>◌, pure, raise, gets, modify,
  or_raise, expect, raise_if, debug_assert,
}
use zorya.Common.Map
use zorya.Navigation
use zorya.Navigation.{
  Text, TabNavigation, NavigationIntent, NavigationIntentKind, new_document, reload,
  traverse_history, NavigationStart, HistoryEntry, NavigationFailure,
}
use zorya.AddressBar.{AddressBarSubmission}
use zorya.Activation.{TabActivationIntent, TabActivationStart, TabCycleDirection}
use zorya.Window
use zorya.Window.{BrowserWindow, Tab, TabCloseResult, find_tab, activation_id}
use zorya.Window.Shape.{update_tab}

pub data BrowserModelError : Type 0 where
  window_id_exhausted tab_id_exhausted navigation_id_exhausted : BrowserModelError
  history_entry_id_exhausted tab_activation_id_exhausted : BrowserModelError
  unknown_window : ℕ → BrowserModelError
  unknown_tab : (window tab : ℕ) → BrowserModelError
  stale_navigation : (window tab : ℕ) → (expected : Option ℕ) → (actual : ℕ) → BrowserModelError
  missing_history_entry : (window tab entry : ℕ) → BrowserModelError
  address_bar_not_editing : (window : ℕ) → BrowserModelError
  no_active_tab : (window : ℕ) → BrowserModelError
  stale_tab_activation : (window : ℕ) → (expected : Option ℕ) → (actual : ℕ) → BrowserModelError

pub record BrowserApp : Type 0 where
  pub windows : List (ℕ × BrowserWindow)
  pub next_window_id : ℕ
  pub next_tab_id : ℕ
  pub next_tab_activation_id : ℕ
  pub next_navigation_id : ℕ
  pub next_history_entry_id : ℕ

abbrev pub Action : Type 0 → Type 0
Action A = Call BrowserApp BrowserModelError A

unfoldable pub new : BrowserApp
new = record {
  windows = [];
  next_window_id = 1;
  next_tab_id = 1;
  next_tab_activation_id = 1;
  next_navigation_id = 1;
  next_history_entry_id = 1;
}

-- `self.windows.get_mut(&window).ok_or(UnknownWindow)?` and a method call on the window.
unfoldable pub on_window : {A : Type 0} → ℕ → Call BrowserWindow BrowserModelError A → Action A
on_window window method app = elim (Map.get window app.windows) [
  | none ↦ (err (unknown_window window), app)
  | some w ↦
      let (result, w') = method w in
      (result, record app { windows = Map.insert window w' app.windows })
]

-- A method of the window that neither fails nor panics.
abbrev pub calls :
    {A : Type 0} → (BrowserWindow → A × BrowserWindow) → Call BrowserWindow BrowserModelError A
calls method w = let (a, w') = method w in (ok a, w')

unfoldable pub window : BrowserApp → ℕ → Option BrowserWindow
window app id = Map.get id app.windows

-- `BrowserApp::tab`
unfoldable pub tab : ℕ → ℕ → Action Tab
tab window_id tab_id = do
  w ← or_raise (← gets (λ app. Map.get window_id app.windows)) (unknown_window window_id)
  or_raise (find_tab w tab_id) (unknown_tab window_id tab_id)

-- `self.tab_mut(window, tab)?.navigation`, and a method call on it.
unfoldable pub on_navigation : {A : Type 0} → ℕ → ℕ → (TabNavigation → A × TabNavigation) → Action A
on_navigation window_id tab_id method = do
  t ← tab window_id tab_id
  let result = method t.navigation
  modify (λ app. record app {
    windows = elim (Map.get window_id app.windows) [
      | none ↦ app.windows
      | some w ↦ Map.insert window_id (update_tab tab_id (λ _. result.1) w) app.windows
    ];
  })
  pure result.0

unfoldable pub allocate_tab_id : Action ℕ
allocate_tab_id = do
  id ← gets (λ app. app.next_tab_id)
  next ← or_raise (checked_add id 1) tab_id_exhausted
  modify (λ app. record app { next_tab_id = next })
  pure id

unfoldable pub allocate_tab_activation_id : Action ℕ
allocate_tab_activation_id = do
  id ← gets (λ app. app.next_tab_activation_id)
  next ← or_raise (checked_add id 1) tab_activation_id_exhausted
  modify (λ app. record app { next_tab_activation_id = next })
  pure id

unfoldable pub allocate_navigation_id : Action ℕ
allocate_navigation_id = do
  id ← gets (λ app. app.next_navigation_id)
  next ← or_raise (checked_add id 1) navigation_id_exhausted
  modify (λ app. record app { next_navigation_id = next })
  pure id

unfoldable pub allocate_history_entry_id : Action ℕ
allocate_history_entry_id = do
  id ← gets (λ app. app.next_history_entry_id)
  next ← or_raise (checked_add id 1) history_entry_id_exhausted
  modify (λ app. record app { next_history_entry_id = next })
  pure id

unfoldable pub create_window : Action ℕ
create_window = do
  id ← gets (λ app. app.next_window_id)
  next ← or_raise (checked_add id 1) window_id_exhausted
  modify (λ app. record app {
    next_window_id = next;
    windows = Map.insert id (Window.new id) app.windows;
  })
  pure id

unfoldable pub close_window : ℕ → Action (Option BrowserWindow)
close_window id = do
  closed ← gets (λ app. Map.get id app.windows)
  modify (λ app. record app { windows = Map.remove id app.windows })
  pure closed

abbrev pub fresh_tab : ℕ → Tab
fresh_tab id = record { id = id; navigation = Navigation.new }

unfoldable pub reset_window_for_profile_switch : ℕ → Action ℕ
reset_window_for_profile_switch window_id = do
  raise_if (not (is_some (← gets (λ app. Map.get window_id app.windows))))
      (unknown_window window_id)
  id ← allocate_tab_id
  modify (λ app. record app {
    windows =
        Map.insert window_id (Window.insert_tab (Window.new window_id) (fresh_tab id)) app.windows;
  })
  pure id

-- `expect("window existence checked …")` is the panic of a window that is gone.
abbrev pub expect_window : {A : Type 0} → ℕ → (BrowserWindow → A × BrowserWindow) → Action A
expect_window window_id method = do
  w ← expect (← gets (λ app. Map.get window_id app.windows))
  let result = method w
  modify (λ app. record app { windows = Map.insert window_id result.1 app.windows })
  pure result.0

unfoldable pub create_tab : ℕ → Action ℕ
create_tab window_id = do
  raise_if (not (is_some (← gets (λ app. Map.get window_id app.windows))))
      (unknown_window window_id)
  id ← allocate_tab_id
  expect_window window_id (λ w. (tt {0}, Window.insert_tab w (fresh_tab id)))
  pure id

unfoldable pub bootstrap : Action (Unit {0})
bootstrap = do id ← create_window; _ ← create_tab id; pure tt

unfoldable pub close_tab : ℕ → ℕ → Action TabCloseResult
close_tab window_id tab_id = do
  closed ← on_window window_id (calls (λ w. Window.close_tab w tab_id))
  or_raise closed (unknown_tab window_id tab_id)

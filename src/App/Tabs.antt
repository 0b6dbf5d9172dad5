-- ===== src/App/Tabs.antt =====
-- The commands of `BrowserApp` on active tabs, the tab order and the address bar.
use zorya.Common.{
  ℕ, Bool, true, not, Option, none, some, ◌||◌, is_some, is_just, if◌then◌else◌, Call, ◌>>=◌, ◌>>◌,
  pure, gets, or_raise, expect, raise_if, debug_assert,
}
use zorya.Common.Map
use zorya.Navigation.{Text}
use zorya.AddressBar.{AddressBarSubmission}
use zorya.Activation.{TabActivationIntent, TabActivationStart, TabCycleDirection}
use zorya.Window
use zorya.Window.{BrowserWindow, find_tab, activation_id}
use zorya.App.{
  BrowserModelError, unknown_window, unknown_tab, address_bar_not_editing, no_active_tab,
  stale_tab_activation, Action, on_window, calls, expect_window, tab, allocate_tab_activation_id,
}

unfoldable pub set_active_tab : ℕ → ℕ → Action (Option TabActivationIntent)
set_active_tab window_id tab_id = on_window window_id do
  w ← gets (λ w. w)
  raise_if (not (is_some (find_tab w tab_id))) (unknown_tab window_id tab_id)
  Window.set_active_tab tab_id

abbrev pub anchor_missing : BrowserWindow → Option ℕ → Option ℕ
anchor_missing w none = none
anchor_missing w (some anchor) = if is_some (find_tab w anchor) then none else some anchor

abbrev reject_anchor : ℕ → Option ℕ → Call BrowserWindow BrowserModelError (Unit {0})
reject_anchor window_id none = pure tt
reject_anchor window_id (some anchor) = raise_if true (unknown_tab window_id anchor)

unfoldable pub move_tab_before : ℕ → ℕ → Option ℕ → Action (Unit {0})
move_tab_before window_id tab_id before = on_window window_id do
  w ← gets (λ w. w)
  raise_if (not (is_some (find_tab w tab_id))) (unknown_tab window_id tab_id)
  reject_anchor window_id (anchor_missing w before)
  Window.move_tab_before tab_id before

unfoldable pub begin_tab_activation : ℕ → ℕ → Action TabActivationStart
begin_tab_activation window_id tab_id = do
  _ ← tab window_id tab_id
  w ← expect (← gets (λ app. Map.get window_id app.windows))
  active ← or_raise w.active_tab (no_active_tab window_id)
  id ← allocate_tab_activation_id
  expect_window window_id
      (λ w. Window.begin_tab_activation w (record { id = id; from = active; to = tab_id }))

abbrev pub start_cycle : ℕ → Option ℕ → Action (Option TabActivationStart)
start_cycle window_id none = pure none
start_cycle window_id (some target) = do
  start ← begin_tab_activation window_id target
  pure (some start)

unfoldable pub begin_tab_cycle : ℕ → TabCycleDirection → Action (Option TabActivationStart)
begin_tab_cycle window_id direction = do
  w ← or_raise (← gets (λ app. Map.get window_id app.windows)) (unknown_window window_id)
  start_cycle window_id (Window.cycle_target w direction)

-- `commit_tab_activation`, in its window.
unfoldable pub commit_activation : ℕ → ℕ → Call BrowserWindow BrowserModelError ℕ
commit_activation window_id activation = do
  w ← gets (λ w. w)
  raise_if (not (is_just (activation_id w.pending_activation) activation))
      (stale_tab_activation window_id (activation_id w.pending_activation) activation)
  intent ← expect w.pending_activation
  raise_if (not (is_just w.active_tab intent.from) || not (is_some (find_tab w intent.to)))
      (stale_tab_activation window_id (some activation) activation)
  taken ← calls (λ w. Window.take_tab_activation w activation)
  current ← expect taken
  invalidated ← Window.set_active_tab current.to
  debug_assert (not (is_some invalidated))
  pure current.to

unfoldable pub commit_tab_activation : ℕ → ℕ → Action ℕ
commit_tab_activation window_id activation =
    on_window window_id (commit_activation window_id activation)

unfoldable pub cancel_tab_activation : ℕ → ℕ → Action TabActivationIntent
cancel_tab_activation window_id activation = on_window window_id do
  expected ← gets (λ w. activation_id w.pending_activation)
  taken ← calls (λ w. Window.take_tab_activation w activation)
  or_raise taken (stale_tab_activation window_id expected activation)

unfoldable pub begin_address_bar_edit : ℕ → Action (Option ℕ)
begin_address_bar_edit window_id = on_window window_id (calls Window.begin_address_bar_edit)

unfoldable pub set_address_bar_text : ℕ → Text → Action (Unit {0})
set_address_bar_text window_id text = on_window window_id do
  done ← calls (λ w. Window.set_address_bar_text w text)
  raise_if (not done) (address_bar_not_editing window_id)

unfoldable pub cancel_address_bar_edit : ℕ → Action Bool
cancel_address_bar_edit window_id = on_window window_id (calls Window.cancel_address_bar_edit)

unfoldable pub submit_address_bar_edit : ℕ → Action AddressBarSubmission
submit_address_bar_edit window_id = on_window window_id do
  submission ← calls Window.submit_address_bar_edit
  or_raise submission (address_bar_not_editing window_id)

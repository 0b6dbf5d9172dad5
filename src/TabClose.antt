-- ===== src/TabClose.antt =====
-- src/tab_close.rs: closing a tab. The active tab is closed in two steps, so that no Web content is
-- on screen when the chrome goes on to the tab that takes its place.
pub mod Closed
pub mod Fallback
pub mod Begin
pub mod Commit
pub mod Protocol
pub mod Neutral
pub mod Last
use zorya.Common.{
  ℕ, ◌+◌, ◌-◌, Bool, true, false, not, Option, none, some, List, [], ◌∷◌, ◌==◌, is_just, length,
  get_elem?, position, if◌then◌else◌, Outcome, ok, err, panicked, Call, ◌>>=◌, ◌>>◌, pure, raise,
  gets, or_raise, raise_if, debug_assert,
}
use zorya.Common.Map
use zorya.Activation.{TabActivationIntent, TabActivationStart}
use zorya.Window.{BrowserWindow, Tab, TabCloseResult, has_id, activation_id}
use zorya.App
use zorya.App.{BrowserApp, BrowserModelError, unknown_window, unknown_tab}
use zorya.App.Tabs
use zorya.Handoff.{WebContentPresentation, neutral, tab, TabPresentationHandoff}

pub record ActiveTabCloseHandoff : Type 0 where
  pub closing : ℕ
  pub activation : TabActivationStart

pub record LastTabCloseHandoff : Type 0 where
  pub closing : ℕ
  pub invalidated_activation : Option TabActivationIntent

pub data TabCloseStart : Type 0 where
  closed : TabCloseResult → TabCloseStart
  active_with_fallback : ActiveTabCloseHandoff → TabCloseStart
  active_last : LastTabCloseHandoff → TabCloseStart

abbrev pub fallback_tab : ActiveTabCloseHandoff → ℕ
fallback_tab close = close.activation.intent.to

pub data TabCloseCommitError : Type 0 where
  browser : BrowserModelError → TabCloseCommitError
  presented_tab_mismatch : (expected actual : ℕ) → TabCloseCommitError
  neutral_content_required : (tab : ℕ) → TabCloseCommitError
  presentation_activation_mismatch : (expected actual : Option ℕ) → TabCloseCommitError
  active_tab_changed : (expected : ℕ) → (actual : Option ℕ) → TabCloseCommitError
  last_tab_shape_changed : (closing tab_count : ℕ) → TabCloseCommitError

abbrev tab_id : Option Tab → Option ℕ
tab_id none = none
tab_id (some t) = some t.id

-- The tab after the position, or else the one before it.
abbrev pub fallback : List Tab → ℕ → Option ℕ
fallback tabs position = elim (get_elem? tabs (position + 1)) [
  | some t ↦ some t.id
  | none ↦ if position == 0 then none else tab_id (get_elem? tabs (position - 1))
]

-- The end of `begin_tab_close`; the Boolean tells whether the tab is active.
abbrev pub begin_close : ℕ → ℕ → Bool → Option ℕ → App.Action TabCloseStart
begin_close window_id closing false place = do
  result ← App.close_tab window_id closing
  pure (closed result)
begin_close window_id closing true (some place) = do
  activation ← Tabs.begin_tab_activation window_id place
  pure (active_with_fallback (record { closing = closing; activation = activation }))
begin_close window_id closing true none = do
  invalidated ← Tabs.set_active_tab window_id closing
  pure (active_last (record { closing = closing; invalidated_activation = invalidated }))

unfoldable pub begin_tab_close : ℕ → ℕ → App.Action TabCloseStart
begin_tab_close window_id closing = do
  w ← or_raise (← gets (λ app. Map.get window_id app.windows)) (unknown_window window_id)
  index ← or_raise (position (has_id closing) w.tabs) (unknown_tab window_id closing)
  begin_close window_id closing (is_just w.active_tab closing) (fallback w.tabs index)

abbrev pub Action : Type 0 → Type 0
Action A = Call BrowserApp TabCloseCommitError A

-- `?` on an error of the browser model.
abbrev pub from_browser :
    {A : Type 0}
    → Outcome BrowserModelError A × BrowserApp
    → Outcome TabCloseCommitError A × BrowserApp
from_browser (ok a, app) = (ok a, app)
from_browser (err e, app) = (err (browser e), app)
from_browser (panicked, app) = (panicked, app)

abbrev pub on_browser : {A : Type 0} → App.Action A → Action A
on_browser method app = from_browser (method app)

-- `==` on optional identifiers.
abbrev pub same_id : Option ℕ → Option ℕ → Bool
same_id none none = true
same_id none (some b) = false
same_id (some a) none = false
same_id (some a) (some b) = a == b

abbrev pub require_neutral : ℕ → WebContentPresentation → Action (Unit {0})
require_neutral closing neutral = pure tt
require_neutral closing (tab owner) = raise (neutral_content_required closing)

unfoldable pub validate_neutral_presentation :
    TabPresentationHandoff → ℕ → Option ℕ → Action (Unit {0})
validate_neutral_presentation presentation closing activation = do
  raise_if (not (presentation.represented_tab == closing))
      (presented_tab_mismatch closing presentation.represented_tab)
  require_neutral closing presentation.content
  raise_if (not (same_id (activation_id presentation.pending_activation) activation))
      (presentation_activation_mismatch activation (activation_id presentation.pending_activation))

unfoldable pub commit_active_tab_close_after_neutral :
    ℕ → ActiveTabCloseHandoff → TabPresentationHandoff → Action TabCloseResult
commit_active_tab_close_after_neutral window_id close presentation = do
  validate_neutral_presentation presentation close.closing (some close.activation.intent.id)
  w ← or_raise (← gets (λ app. Map.get window_id app.windows)) (browser (unknown_window window_id))
  raise_if (not (is_just w.active_tab close.closing))
      (active_tab_changed close.closing w.active_tab)
  committed ← on_browser (Tabs.commit_tab_activation window_id close.activation.intent.id)
  debug_assert (committed == fallback_tab close)
  result ← on_browser (App.close_tab window_id close.closing)
  debug_assert (is_just result.active_tab committed)
  pure result

unfoldable pub commit_last_tab_close_after_neutral :
    ℕ → LastTabCloseHandoff → TabPresentationHandoff → Action TabCloseResult
commit_last_tab_close_after_neutral window_id close presentation = do
  validate_neutral_presentation presentation close.closing none
  w ← or_raise (← gets (λ app. Map.get window_id app.windows)) (browser (unknown_window window_id))
  raise_if (not (is_just w.active_tab close.closing))
      (active_tab_changed close.closing w.active_tab)
  raise_if (not (length w.tabs == 1)) (last_tab_shape_changed close.closing (length w.tabs))
  on_browser (App.close_tab window_id close.closing)

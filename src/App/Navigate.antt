-- ===== src/App/Navigate.antt =====
-- The navigation commands of `BrowserApp`.
use zorya.Common.{ℕ, not, Option, none, some, ◌>>=◌, ◌>>◌, pure, or_raise, expect, raise_if}
use zorya.Navigation
use zorya.Navigation.{
  Text, TabNavigation, NavigationIntent, NavigationIntentKind, new_document, reload,
  traverse_history, NavigationStart, HistoryEntry, NavigationFailure, pending_id,
}
use zorya.App.{
  stale_navigation, missing_history_entry, Action, tab, on_navigation, allocate_navigation_id,
  allocate_history_entry_id,
}

pub record BrowserNavigationCommit : Type 0 where
  pub window : ℕ
  pub tab : ℕ
  pub navigation : ℕ
  pub history_entry : ℕ
  pub kind : NavigationIntentKind
  pub location : Text

unfoldable pub begin_navigation : ℕ → ℕ → Text → Action NavigationStart
begin_navigation window_id tab_id requested = do
  _ ← tab window_id tab_id
  id ← allocate_navigation_id
  on_navigation window_id tab_id (λ n.
      Navigation.start n (record { id = id; requested_location = requested; kind = new_document }))

unfoldable pub begin_existing_navigation :
    ℕ → ℕ → Option (ℕ × Text) → (ℕ → NavigationIntentKind) → Action (Option NavigationStart)
begin_existing_navigation window_id tab_id none kind = pure none
begin_existing_navigation window_id tab_id (some (entry, location)) kind = do
  id ← allocate_navigation_id
  start ← on_navigation window_id tab_id (λ n.
      Navigation.start n (record { id = id; requested_location = location; kind = kind entry }))
  pure (some start)

unfoldable pub begin_back_navigation : ℕ → ℕ → Action (Option NavigationStart)
begin_back_navigation window_id tab_id = do
  t ← tab window_id tab_id
  begin_existing_navigation window_id tab_id (Navigation.back_target t.navigation) traverse_history

unfoldable pub begin_forward_navigation : ℕ → ℕ → Action (Option NavigationStart)
begin_forward_navigation window_id tab_id = do
  t ← tab window_id tab_id
  begin_existing_navigation window_id tab_id (Navigation.forward_target t.navigation)
      traverse_history

unfoldable pub begin_reload : ℕ → ℕ → Action (Option NavigationStart)
begin_reload window_id tab_id = do
  t ← tab window_id tab_id
  begin_existing_navigation window_id tab_id (Navigation.reload_target t.navigation) reload

unfoldable pub stop_navigation : ℕ → ℕ → Action (Option NavigationIntent)
stop_navigation window_id tab_id = on_navigation window_id tab_id Navigation.stop_loading

abbrev pub intent_kind : Option NavigationIntent → Option NavigationIntentKind
intent_kind none = none
intent_kind (some intent) = some intent.kind

unfoldable pub pending_kind : ℕ → ℕ → ℕ → Action NavigationIntentKind
pending_kind window_id tab_id navigation = do
  t ← tab window_id tab_id
  or_raise (intent_kind (Navigation.pending_for t.navigation navigation))
      (stale_navigation window_id tab_id (pending_id t.navigation) navigation)

-- The arm of `commit_navigation` for a reload or a traversal.
unfoldable pub commit_to_existing : ℕ → ℕ → ℕ → ℕ → Text → Action ℕ
commit_to_existing window_id tab_id navigation entry committed = do
  t ← tab window_id tab_id
  raise_if (not (Navigation.contains_history_entry t.navigation entry))
      (missing_history_entry window_id tab_id entry)
  done ←
      on_navigation window_id tab_id (λ n. Navigation.commit_existing n navigation entry committed)
  expect done

-- The match of `commit_navigation` on the kind of the pending navigation.
unfoldable pub commit_kind : ℕ → ℕ → ℕ → Text → NavigationIntentKind → Action ℕ
commit_kind window_id tab_id navigation committed new_document = do
  id ← allocate_history_entry_id
  done ←
      on_navigation window_id tab_id
        (λ n. Navigation.commit_new n navigation (record { id = id; location = committed }))
  expect done
commit_kind window_id tab_id navigation committed (reload entry) =
    commit_to_existing window_id tab_id navigation entry committed
commit_kind window_id tab_id navigation committed (traverse_history entry) =
    commit_to_existing window_id tab_id navigation entry committed

unfoldable pub commit_navigation : ℕ → ℕ → ℕ → Text → Action BrowserNavigationCommit
commit_navigation window_id tab_id navigation committed = do
  kind ← pending_kind window_id tab_id navigation
  entry ← commit_kind window_id tab_id navigation committed kind
  pure (record {
    window = window_id;
    tab = tab_id;
    navigation = navigation;
    history_entry = entry;
    kind = kind;
    location = committed;
  })

unfoldable pub fail_navigation : ℕ → ℕ → ℕ → Text → Action NavigationFailure
fail_navigation window_id tab_id navigation message = do
  _ ← pending_kind window_id tab_id navigation
  failure ← on_navigation window_id tab_id (λ n. Navigation.fail n navigation message)
  expect failure

-- ===== src/Navigation.antt =====
-- `TabNavigation` of src/navigation.rs: one tab's session history, its pending navigation and its
-- last failure. A `&mut self` method returns its result beside the new state.
pub mod Shape
pub mod Session
pub mod Traverse
pub mod Late
use zorya.Common.{
  ℕ, suc, ◌+◌, ◌-◌, ◌<◌, Bool, true, false, Option, none, some, List, [], ◌∷◌, ◌++◌, if◌then◌else◌,
  ltb, ◌==◌, is_just, is_some, length, get_elem?, take, drop, find, position, any, update_first,
}

-- The UTF-8 bytes of a string.
abbrev pub Text : Type 0
Text = List ℕ

abbrev pub max_tab_history_entries : ℕ
max_tab_history_entries = 256

pub data NavigationIntentKind : Type 0 where
  new_document : NavigationIntentKind
  reload : ℕ → NavigationIntentKind
  traverse_history : ℕ → NavigationIntentKind

pub record NavigationIntent : Type 0 where
  pub id : ℕ
  pub requested_location : Text
  pub kind : NavigationIntentKind

pub record NavigationStart : Type 0 where
  pub intent : NavigationIntent
  pub superseded : Option NavigationIntent

pub record HistoryEntry : Type 0 where
  pub id : ℕ
  pub location : Text

pub record NavigationFailure : Type 0 where
  pub navigation : ℕ
  pub requested_location : Text
  pub message : Text

pub data ReloadControl : Type 0 where
  unavailable reload stop : ReloadControl

pub record NavigationControls : Type 0 where
  pub can_go_back : Bool
  pub can_go_forward : Bool
  pub reload : ReloadControl

pub record TabNavigation : Type 0 where
  pub history : List HistoryEntry
  pub current : Option ℕ
  pub pending : Option NavigationIntent
  pub last_failure : Option NavigationFailure

unfoldable pub new : TabNavigation
new = record { history = []; current = none; pending = none; last_failure = none }

unfoldable pub current_entry : TabNavigation → Option HistoryEntry
current_entry t = elim t.current [
  | none ↦ none
  | some current ↦ find (λ entry. entry.id == current) t.history
]

unfoldable pub current_index : TabNavigation → Option ℕ
current_index t = elim t.current [
  | none ↦ none
  | some current ↦ position (λ entry. entry.id == current) t.history
]

-- `display_location`: the pending location first, then that of the current entry.
unfoldable pub display_location : TabNavigation → Option Text
unfolding current_entry
display_location t = elim t.pending [
  | some intent ↦ some intent.requested_location
  | none ↦ elim (current_entry t) [ none ↦ none | some entry ↦ some entry.location ]
]

unfoldable pub is_loading : TabNavigation → Bool
is_loading t = is_some t.pending

unfoldable pub can_go_back : TabNavigation → Bool
unfolding current_index
can_go_back t = elim (current_index t) [ none ↦ false | some index ↦ ltb 0 index ]

unfoldable pub can_go_forward : TabNavigation → Bool
unfolding current_index
can_go_forward t = elim (current_index t) [
  | none ↦ false
  | some index ↦ ltb (index + 1) (length t.history)
]

unfoldable pub controls : TabNavigation → NavigationControls
unfolding can_go_back can_go_forward
controls t = record {
  can_go_back = can_go_back t;
  can_go_forward = can_go_forward t;
  reload =
      if is_some t.pending
      then ReloadControl.stop
      else if is_some t.current
      then ReloadControl.reload
      else ReloadControl.unavailable;
}

abbrev pub pending_id : TabNavigation → Option ℕ
pending_id t = elim t.pending [ none ↦ none | some intent ↦ some intent.id ]

unfoldable pub pending_for : TabNavigation → ℕ → Option NavigationIntent
pending_for t navigation = elim t.pending [
  | none ↦ none
  | some intent ↦ if intent.id == navigation then some intent else none
]

unfoldable pub start : TabNavigation → NavigationIntent → NavigationStart × TabNavigation
start t intent = (
  record { intent = intent; superseded = t.pending },
  record t { last_failure = none; pending = some intent },
)

-- `stop`
unfoldable pub stop_loading : TabNavigation → Option NavigationIntent × TabNavigation
stop_loading t = (t.pending, record t { pending = none })

abbrev pub entry_target : Option HistoryEntry → Option (ℕ × Text)
entry_target none = none
entry_target (some entry) = some (entry.id, entry.location)

unfoldable pub back_target : TabNavigation → Option (ℕ × Text)
unfolding current_index
back_target t = elim (current_index t) [
  | none ↦ none
  | some index ↦ if index == 0 then none else entry_target (get_elem? t.history (index - 1))
]

unfoldable pub forward_target : TabNavigation → Option (ℕ × Text)
unfolding current_index
forward_target t = elim (current_index t) [
  | none ↦ none
  | some index ↦ entry_target (get_elem? t.history (index + 1))
]

unfoldable pub reload_target : TabNavigation → Option (ℕ × Text)
unfolding current_entry
reload_target t = entry_target (current_entry t)

unfoldable pub contains_history_entry : TabNavigation → ℕ → Bool
contains_history_entry t id = any (λ entry. entry.id == id) t.history

unfoldable pub take_pending : TabNavigation → ℕ → Option NavigationIntent × TabNavigation
take_pending t navigation =
    if is_just (pending_id t) navigation
    then (t.pending, record t { pending = none })
    else (none, t)

unfoldable pub enforce_history_limit : List HistoryEntry → List HistoryEntry
enforce_history_limit history =
    let overflow = length history - max_tab_history_entries in
    if ltb 0 overflow then drop overflow history else history

-- What `commit_new` keeps of the history: nothing past the current entry.
unfoldable pub kept_history : TabNavigation → List HistoryEntry
unfolding current_index
kept_history t = elim (current_index t) [ none ↦ [] | some index ↦ take (index + 1) t.history ]

-- `commit_new`, once the pending intent is taken.
unfoldable pub push_entry : TabNavigation → HistoryEntry → TabNavigation
unfolding kept_history enforce_history_limit
push_entry t entry = record t {
  history = enforce_history_limit (kept_history t ++ entry ∷ []);
  current = some entry.id;
  last_failure = none;
}

unfoldable pub commit_new : TabNavigation → ℕ → HistoryEntry → Option ℕ × TabNavigation
commit_new t navigation entry =
    let (taken, t') = take_pending t navigation in
    elim taken [ none ↦ (none, t') | some _ ↦ (some entry.id, push_entry t' entry) ]

-- `commit_existing`, once the pending intent is taken.
unfoldable pub revisit_entry : TabNavigation → ℕ → Text → Option ℕ × TabNavigation
revisit_entry t entry committed_location =
    elim (find (λ candidate. candidate.id == entry) t.history) [
      | none ↦ (none, t)
      | some _ ↦ (
        some entry,
        record t {
          history =
              update_first (λ candidate. candidate.id == entry)
                (λ candidate. record candidate { location = committed_location }) t.history;
          current = some entry;
          last_failure = none;
        },
      )
    ]

unfoldable pub commit_existing : TabNavigation → ℕ → ℕ → Text → Option ℕ × TabNavigation
commit_existing t navigation entry committed_location =
    let (taken, t') = take_pending t navigation in
    elim taken [ none ↦ (none, t') | some _ ↦ revisit_entry t' entry committed_location ]

unfoldable pub fail : TabNavigation → ℕ → Text → Option NavigationFailure × TabNavigation
fail t navigation message =
    let (taken, t') = take_pending t navigation in
    elim taken [
      | none ↦ (none, t')
      | some intent ↦
          let failure : NavigationFailure = record {
            navigation = navigation;
            requested_location = intent.requested_location;
            message = message;
          } in
          (some failure, record t' { last_failure = some failure })
    ]

-- ===== src/Tests/Closing.antt =====
-- A browser with one window of two tabs, the first one closing.
use zorya.Common.{
  remove_at, position, ℕ, ◌⊎◌, ◌≡◌, ◌≢◌, refl, none, some, List, [], ◌∷◌, any, ok, arith,
}
use zorya.Navigation
use zorya.Navigation.Shape as NavShape
use zorya.Activation.{TabActivationIntent, TabActivationStart}
use zorya.Window.{close_tab, close_tab_at, BrowserWindow, Tab, TabCloseResult}
use zorya.Window.Shape as Shape
use zorya.App.{BrowserApp}
use zorya.App.Shape.{IsValid, counters}
use zorya.Handoff.{TabPresentationHandoff}
use zorya.Handoff
use zorya.TabClose.{LastTabCloseHandoff, commit_active_tab_close_after_neutral}
use zorya.TabClose.Closed.{IsClosed}
use zorya.TabClose.Protocol.{Completes, close_active_lem}
use zorya.TabClose.Begin.{closes_to, ClosedAtOnce, FallbackBegun, LastBegun, begin_tab_close_lem}
use zorya.TabClose.Commit.{commit_active_tab_close_lem}
use zorya.TabClose.Last.{IsReady, Closes, Refused, commit_last_tab_close_lem}
use zorya.Common.Map

abbrev blank : ℕ → Tab
blank id = record { id = id; navigation = Navigation.new }

abbrev to_second : TabActivationIntent
to_second = record { id = 1; from = 1; to = 2 }

abbrev tabs : List Tab
tabs = blank 1 ∷ blank 2 ∷ []

abbrev closing_first : BrowserWindow
closing_first = record {
  id = 1;
  tabs = tabs;
  active_tab = some 1;
  pending_activation = some to_second;
  address_bar = record { edit = none };
}

abbrev browser : BrowserApp
browser = record {
  windows = (1, closing_first) ∷ [];
  next_window_id = 2;
  next_tab_id = 3;
  next_tab_activation_id = 2;
  next_navigation_id = 1;
  next_history_entry_id = 1;
}

blank-TabValid :
    Shape.TabValid (counters browser) (blank 1) × Shape.TabValid (counters browser) (blank 2)
unfolding Navigation.new
blank-TabValid = (
  record {
    id_below = omega arith;
    navigation_valid = NavShape.new-IsValid 1 (omega arith);
    intent_below = tt;
  },
  record {
    id_below = omega arith;
    navigation_valid = NavShape.new-IsValid 1 (omega arith);
    intent_below = tt;
  },
)

closing_first-IsValid : Shape.IsValid (counters browser) closing_first
unfolding any
closing_first-IsValid = record {
  tabs_distinct = (refl, (refl, tt));
  tabs_valid = (blank-TabValid.0, (blank-TabValid.1, tt));
  active_known = refl;
  pending_known = (refl, refl, omega arith);
  edit_known = tt;
}

browser-IsValid : IsValid browser
browser-IsValid = record {
  windows_valid = ((omega arith, closing_first-IsValid), tt);
  entry_positive = omega arith;
}

abbrev start : TabActivationStart
start = record { intent = to_second; superseded = none }

abbrev presentation : TabPresentationHandoff
presentation = record {
  represented_tab = 1;
  content = Handoff.neutral;
  pending_activation = some to_second;
  generation = 1;
}

there : Map.get 1 browser.windows ≡ some closing_first
unfolding Map.get
there = refl

second_is_not_first : to_second.to ≢ 1
second_is_not_first e = absurd (omega arith)

first_there : Shape.HasTab tabs 1
unfolding any
first_there = refl

begin_tab_close_lem_example :
    ClosedAtOnce 1 1 browser closing_first
    ⊎ (FallbackBegun 1 1 browser closing_first ⊎ LastBegun 1 1 browser closing_first)
begin_tab_close_lem_example =
    begin_tab_close_lem 1 1 browser closing_first browser-IsValid there first_there (omega arith)

-- The content of the first tab is on screen, and nothing is pending.
abbrev on_screen : TabPresentationHandoff
on_screen = record {
  represented_tab = 1;
  content = Handoff.tab 1;
  pending_activation = none;
  generation = 0;
}

second_follows : closes_to closing_first 1 ≡ some 2
unfolding close_tab close_tab_at position remove_at
second_follows = refl

close_active_lem_example : Completes 1 1 2 browser closing_first on_screen
close_active_lem_example =
    close_active_lem 1 1 2 browser closing_first on_screen browser-IsValid there refl second_follows
      (omega arith) refl refl (omega arith)

commit_active_tab_close_lem_example :
    (result : TabCloseResult) × (app' : BrowserApp) × (commit_active_tab_close_after_neutral 1
        (record { closing = 1; activation = start })
        presentation
        browser
      ≡ (ok result, app'))
    × IsClosed 1 1 (some 2) browser closing_first result app'
    × IsValid app'
commit_active_tab_close_lem_example =
    commit_active_tab_close_lem 1 1 browser closing_first start presentation browser-IsValid there
      refl refl second_is_not_first refl refl refl

-- The window with the first tab only.
abbrev with_one : BrowserWindow
with_one = record closing_first { tabs = blank 1 ∷ []; pending_activation = none }

abbrev one_tab : BrowserApp
one_tab = record browser { windows = (1, with_one) ∷ [] }

with_one-IsValid : Shape.IsValid (counters browser) with_one
unfolding any
with_one-IsValid = record {
  tabs_distinct = (refl, tt);
  tabs_valid = (blank-TabValid.0, tt);
  active_known = refl;
  pending_known = tt;
  edit_known = tt;
}

one_tab-IsValid : IsValid one_tab
one_tab-IsValid = record {
  windows_valid = ((omega arith, with_one-IsValid), tt);
  entry_positive = omega arith;
}

abbrev last : LastTabCloseHandoff
last = record { closing = 1; invalidated_activation = none }

abbrev idle_presentation : TabPresentationHandoff
idle_presentation = record presentation { pending_activation = none }

commit_last_tab_close_lem_example :
    ((w : BrowserWindow) × IsReady 1 last idle_presentation one_tab w
      × Closes 1 last idle_presentation one_tab w)
    ⊎ Refused 1 last idle_presentation one_tab
commit_last_tab_close_lem_example =
    commit_last_tab_close_lem 1 last idle_presentation one_tab one_tab-IsValid

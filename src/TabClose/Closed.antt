-- ===== src/TabClose/Closed.antt =====
-- `BrowserApp::close_tab` in a valid window that has the tab, for src/tab_close.rs.
use zorya.Common.{
  ℕ, ◌≡◌, refl, ap, ◌∙◌, inl, inr, Option, none, some, List, Bool-cases, ◌==◌, ==_iff, ==_refl,
  is_just, ok, if◌then◌else◌,
}
use zorya.Common.Map
use zorya.Activation.{TabActivationIntent}
use zorya.Window
use zorya.Window.{BrowserWindow, Tab, TabCloseResult, find_tab, touches}
use zorya.Window.Shape as Shape
use zorya.Window.Shape.{Counters, HasTab, PendingKnown}
use zorya.Window.Close.{close_tab_lem, successor}
use zorya.Window.Order.{others}
use zorya.App
use zorya.App.{BrowserApp, on_window}
use zorya.App.Shape.{put_window}

-- The tab `closing` of the window `w` is closed: it is returned, it is gone from the window, whose other
-- tabs stay in their order, `next` is active, no activation is pending, and no other window is touched.
pub record IsClosed (id closing : ℕ) (next : Option ℕ) (app : BrowserApp) (w : BrowserWindow)
    (result : TabCloseResult) (app' : BrowserApp) : Type 0 where
  pub window : BrowserWindow
  pub windows :
      (k : ℕ) → Map.get k app'.windows ≡ (if id == k then some window else Map.get k app.windows)
  pub tabs : window.tabs ≡ others closing w.tabs
  pub active : window.active_tab ≡ next
  pub pending : window.pending_activation ≡ none
  pub returned : find_tab w closing ≡ some result.tab
  pub result_active : result.active_tab ≡ next

-- `BrowserApp::close_tab` is `close_tab` of the window.
pub close_tab_found :
    {c : Counters} (id closing : ℕ) (app : BrowserApp) (w : BrowserWindow)
    → Shape.IsValid c w
    → Map.get id app.windows ≡ some w
    → HasTab w.tabs closing
    → (result : TabCloseResult) × ((Window.close_tab w closing).0 ≡ some result)
      × (App.close_tab id closing app
          ≡ (ok result, put_window id (Window.close_tab w closing).1 app))
unfolding App.close_tab on_window
close_tab_found id closing app w v here there =
    let (_, _, _, (removed, _, _, e)) = close_tab_lem w closing v there in
    (_, e, simp (here, e, App.close_tab, on_window))

-- The pending activation of a window goes with its active tab.
pub pending_closed :
    (bound : ℕ) (w : BrowserWindow) (closing : ℕ) (p : Option TabActivationIntent)
    → PendingKnown bound w.tabs w.active_tab p
    → w.active_tab ≡ some closing
    → (if touches p closing then none else p) ≡ none
pending_closed bound w closing none k active = refl
pending_closed bound w closing (some intent) (from, _, _) active =
    let same : intent.from ≡ closing = cc in rw (same, ==_refl closing) refl

-- A window put in the place of one that was put there.
pub put_again :
    (id k : ℕ) (windows windows' : List (ℕ × BrowserWindow)) (w w' : BrowserWindow)
    → Map.get k windows' ≡ (if id == k then some w else Map.get k windows)
    → (if id == k then some w' else Map.get k windows')
      ≡ (if id == k then some w' else Map.get k windows)
put_again id k windows windows' w w' h = elim (Bool-cases (id == k)) [
  | inl hit ↦ rw hit refl
  | inr miss ↦ rw miss (h ∙ rw miss refl)
]

-- The windows, as if the one that is there had been put there.
pub put_same :
    (id k : ℕ) (windows : List (ℕ × BrowserWindow)) (w : BrowserWindow)
    → Map.get id windows ≡ some w
    → Map.get k windows ≡ (if id == k then some w else Map.get k windows)
put_same id k windows w here = elim (Bool-cases (id == k)) [
  | inl hit ↦ let same : id ≡ k = (==_iff id k).0 hit in rw (hit, ← same) here
  | inr miss ↦ rw miss refl
]

-- What an application is after `close_tab` of a window put in the place of `w`, whose tabs it has.
pub close_tab-IsClosed :
    {c : Counters} (id closing : ℕ) (app app' : BrowserApp) (w w' : BrowserWindow)
    (result : TabCloseResult) (next : Option ℕ)
    → Shape.IsValid c w'
    → w'.tabs ≡ w.tabs
    → HasTab w'.tabs closing
    → (if touches w'.pending_activation closing then none else w'.pending_activation) ≡ none
    → (if is_just w'.active_tab closing then successor none closing w'.tabs else w'.active_tab)
      ≡ next
    → (Window.close_tab w' closing).0 ≡ some result
    → ((k : ℕ) → Map.get k app'.windows ≡ (if id == k then some w' else Map.get k app.windows))
    → IsClosed id closing next app w result (put_window id (Window.close_tab w' closing).1 app')
unfolding find_tab
close_tab-IsClosed id closing app app' w w' result next v same there idle follows e windows =
    let (tabs, active, pending, (removed, found, _, returned)) = close_tab_lem w' closing v there in
    let tab : removed ≡ result.tab = cc in
    let result_active : (if is_just w'.active_tab closing
          then successor none closing w'.tabs
          else w'.active_tab)
        ≡ result.active_tab =
      cc in
    record {
      window = (Window.close_tab w' closing).1;
      windows = λ k.
          Map.get-insert id k (Window.close_tab w' closing).1 app'.windows
          ∙ put_again id k app.windows app'.windows w' _ (windows k);
      tabs = tabs ∙ ap (others closing) same;
      active = active ∙ follows;
      pending = pending ∙ idle;
      returned = rw (← same, ← tab) found;
      result_active = rw (← result_active) follows;
    }

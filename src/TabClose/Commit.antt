-- ===== src/TabClose/Commit.antt =====
-- The second step of closing the active tab: `commit_active_tab_close_after_neutral` of
-- src/tab_close.rs.
use zorya.Common.{
  ℕ, ◌≡◌, ◌≢◌, refl, sym, ap, subst, ◌∙◌, inl, inr, true, false, Option, none, some, ◌==◌, ==_iff,
  ==_refl, is_just, Bool-cases, ok,
}
use zorya.Common.Map
use zorya.Activation.{TabActivationIntent, TabActivationStart}
use zorya.Window
use zorya.Window.{BrowserWindow, Tab, TabCloseResult, activation_id}
use zorya.Window.Shape as Shape
use zorya.Window.Shape.{Counters, HasTab, activated, settle, settle-IsValid}
use zorya.App
use zorya.App.{BrowserApp, BrowserModelError, on_window}
use zorya.App.Shape.{IsValid, counters, put_window, put_window-IsValid, get-WindowValid}
use zorya.App.Safe.{close_tab-Fine}
use zorya.App.Tabs.{commit_tab_activation}
use zorya.App.Activate.{commit_activation_lem}
use zorya.Handoff.{neutral, TabPresentationHandoff}
use zorya.TabClose.Closed.{IsClosed, close_tab_found, close_tab-IsClosed}
use zorya.TabClose.{commit_active_tab_close_after_neutral, validate_neutral_presentation}

abbrev target_of : Option TabActivationIntent → ℕ
target_of none = 0
target_of (some intent) = intent.to

-- The pending activation of a window, committed.
commit_tab_activation_lem :
    {c : Counters} (id : ℕ) (app : BrowserApp) (w : BrowserWindow) (intent : TabActivationIntent)
    → Shape.IsValid c w
    → Map.get id app.windows ≡ some w
    → w.pending_activation ≡ some intent
    → commit_tab_activation id intent.id app
      ≡ (ok intent.to, put_window id (activated intent.to (settle w)) app)
unfolding commit_tab_activation on_window
commit_tab_activation_lem id app w intent v here p = elim (commit_activation_lem id intent.id w v) [
  | inl (intent', p', _, _, e) ↦
      let same : intent'.to ≡ intent.to = ap target_of (sym p' ∙ p) in
      simp (here, e, commit_tab_activation, on_window)
        (ap (λ (t : ℕ). (ok t, put_window id (activated t (settle w)) app)) same)
  | inr (stale, _) ↦
      let missed : (intent.id == intent.id) ≡ false = rw p at stale in
      absurd (cc (missed, ==_refl intent.id))
]

different : (a b : ℕ) → a ≢ b → (a == b) ≡ false
different a b ne = elim (Bool-cases (a == b)) [ inl e ↦ absurd (ne ((==_iff a b).0 e)) | inr e ↦ e ]

validate_lem :
    (presentation : TabPresentationHandoff) (intent : TabActivationIntent) (closing : ℕ)
    (app : BrowserApp)
    → presentation.represented_tab ≡ closing
    → presentation.content ≡ neutral
    → presentation.pending_activation ≡ some intent
    → validate_neutral_presentation presentation closing (some intent.id) app ≡ (ok tt, app)
unfolding validate_neutral_presentation
validate_lem presentation intent closing app r c p =
    rw (r, c, p, ==_refl closing, ==_refl intent.id, validate_neutral_presentation)

-- The commit, from the results of its calls.
commit_steps :
    (id closing : ℕ) (app app1 app2 : BrowserApp) (w : BrowserWindow) (start : TabActivationStart)
    (presentation : TabPresentationHandoff) (result : TabCloseResult)
    → validate_neutral_presentation presentation closing (some start.intent.id) app ≡ (ok tt, app)
    → Map.get id app.windows ≡ some w
    → is_just w.active_tab closing ≡ true
    → commit_tab_activation id start.intent.id app ≡ (ok start.intent.to, app1)
    → App.close_tab id closing app1 ≡ (ok result, app2)
    → is_just result.active_tab start.intent.to ≡ true
    → commit_active_tab_close_after_neutral id
        (record { closing = closing; activation = start })
        presentation
        app
      ≡ (ok result, app2)
unfolding commit_active_tab_close_after_neutral
commit_steps id closing app app1 app2 w start presentation result valid here active committed closed
      next =
    simp (
      valid,
      here,
      active,
      committed,
      ==_refl start.intent.to,
      closed,
      next,
      commit_active_tab_close_after_neutral,
    )

-- In a valid application whose window has the closing tab active and an activation to another tab
-- pending, and with a presentation that represents the closing tab, has no content on screen and has
-- that activation pending: the commit of the close succeeds without a panic. It returns the tab, which
-- is gone from the window; the other tabs stay in their order, the target of the activation is active,
-- no activation is pending, no other window is touched, and the application stays valid.
pub commit_active_tab_close_lem :
    (id closing : ℕ) (app : BrowserApp) (w : BrowserWindow) (start : TabActivationStart)
    (presentation : TabPresentationHandoff)
    → IsValid app
    → Map.get id app.windows ≡ some w
    → w.active_tab ≡ some closing
    → w.pending_activation ≡ some start.intent
    → start.intent.to ≢ closing
    → presentation.represented_tab ≡ closing
    → presentation.content ≡ neutral
    → presentation.pending_activation ≡ some start.intent
    → (result : TabCloseResult) × (app' : BrowserApp) × (commit_active_tab_close_after_neutral id
          (record { closing = closing; activation = start })
          presentation
          app
        ≡ (ok result, app'))
      × IsClosed id closing (some start.intent.to) app w result app'
      × IsValid app'
commit_active_tab_close_lem id closing app w start presentation v here active p other r c q =
    let intent = start.intent in
    let (below, wv) = get-WindowValid app id w v here in
    let there : HasTab w.tabs closing = subst (Shape.ActiveKnown w.tabs) active wv.active_known in
    let target : HasTab w.tabs intent.to =
      (subst (Shape.PendingKnown (counters app).activation w.tabs w.active_tab) p
        wv.pending_known).1 in
    let w1 = activated intent.to (settle w) in
    let app1 = put_window id w1 app in
    let wv1 = Shape.activated-IsValid (settle w) intent.to target (settle-IsValid w wv) in
    let committed = commit_tab_activation_lem id app w intent wv here p in
    let v1 : IsValid app1 = put_window-IsValid app id w1 below wv1 v in
    let here1 : Map.get id app1.windows ≡ some w1 =
      Map.get-insert id id w1 app.windows ∙ rw (==_refl id) in
    let differs = different intent.to closing other in
    let (result, e, closed) = close_tab_found id closing app1 w1 wv1 here1 there in
    let is_closed =
      close_tab-IsClosed id closing app app1 w w1 result (some intent.to) wv1 refl there refl
        (rw differs refl) e (λ k. Map.get-insert id k w1 app.windows) in
    (
      result,
      put_window id (Window.close_tab w1 closing).1 app1,
      commit_steps id closing app app1 _ w start presentation result
          (validate_lem presentation intent closing app r c q) here (rw active (==_refl closing))
          committed closed (rw is_closed.result_active (==_refl intent.to)),
      is_closed,
      subst (λ x. IsValid x.1) closed (close_tab-Fine id closing app1 v1).1,
    )

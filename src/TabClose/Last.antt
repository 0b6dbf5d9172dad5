-- ===== src/TabClose/Last.antt =====
-- The second step of closing the last tab: `commit_last_tab_close_after_neutral` of
-- src/tab_close.rs.
use zorya.Common.{
  ℕ, ◌≡◌, refl, ap, subst, ◌⊎◌, inl, inr, true, false, Option, none, some, List, [], ◌∷◌, arith,
  length, Option-cases, ◌==◌, ==_iff, ==_refl, is_just, any, retain, Bool-cases, ok, err,
}
use zorya.Common.Map
use zorya.Window
use zorya.Window.{BrowserWindow, Tab, TabCloseResult, activation_id}
use zorya.Window.Shape as Shape
use zorya.Window.Shape.{HasTab}
use zorya.Window.Close.{successor}
use zorya.Window.Order.{others}
use zorya.App.{BrowserApp, unknown_window}
use zorya.App.Shape.{IsValid, counters, put_window, get-WindowValid}
use zorya.Handoff.{TabPresentationHandoff}
use zorya.TabClose.{
  TabCloseCommitError, commit_last_tab_close_after_neutral, LastTabCloseHandoff, browser,
  validate_neutral_presentation, active_tab_changed, last_tab_shape_changed,
}
use zorya.TabClose.Closed.{IsClosed, close_tab_found, close_tab-IsClosed, pending_closed, put_same}
use zorya.TabClose.Neutral.{IsNeutral, validate_cases}

-- The closing tab is the only one of the window, and is active.
abbrev pub IsLast : BrowserWindow → ℕ → Type 0
IsLast w closing = (w.active_tab ≡ some closing) × (length w.tabs ≡ 1)

others_single :
    (tabs : List Tab) (closing : ℕ)
    → HasTab tabs closing
    → length tabs ≡ 1
    → others closing tabs ≡ []
unfolding any retain
others_single [] closing there h = absurd (omega arith)
others_single (t ∷ []) closing there h = ground arith
others_single (t ∷ u ∷ ts) closing there h = absurd (omega arith)

successor_single :
    (tabs : List Tab) (closing : ℕ)
    → HasTab tabs closing
    → length tabs ≡ 1
    → successor none closing tabs ≡ none
unfolding any successor
successor_single [] closing there h = absurd (omega arith)
successor_single (t ∷ []) closing there h = ground arith
successor_single (t ∷ u ∷ ts) closing there h = absurd (omega arith)

-- The conditions of the commit.
abbrev pub IsReady :
    ℕ → LastTabCloseHandoff → TabPresentationHandoff → BrowserApp → BrowserWindow → Type 0
IsReady id close presentation app w =
    (Map.get id app.windows ≡ some w)
    × IsNeutral presentation close.closing
    × IsLast w close.closing

-- A commit that was refused.
abbrev pub Refused : ℕ → LastTabCloseHandoff → TabPresentationHandoff → BrowserApp → Type 0
Refused id close presentation app =
    ((e : TabCloseCommitError) × (commit_last_tab_close_after_neutral id close presentation app
        ≡ (err e, app)))
    × ¬ ((w : BrowserWindow) × IsReady id close presentation app w)

-- A commit that has closed the tab and left the window without one.
abbrev pub Closes :
    ℕ → LastTabCloseHandoff → TabPresentationHandoff → BrowserApp → BrowserWindow → Type 0
Closes id close presentation app w =
    (result : TabCloseResult) × (app' : BrowserApp) × (commit_last_tab_close_after_neutral id close
        presentation app
      ≡ (ok result, app'))
    × IsClosed id close.closing none app w result app'
    × (others close.closing w.tabs ≡ [])

commit_last_steps :
    (id : ℕ) (close : LastTabCloseHandoff) (presentation : TabPresentationHandoff)
    (app : BrowserApp) (w : BrowserWindow)
    → IsValid app
    → Map.get id app.windows ≡ some w
    → validate_neutral_presentation presentation close.closing none app ≡ (ok tt, app)
    → IsLast w close.closing
    → Closes id close presentation app w
unfolding commit_last_tab_close_after_neutral
commit_last_steps id close presentation app w v here valid (active, single) =
    let (below, wv) = get-WindowValid app id w v here in
    let there : HasTab w.tabs close.closing =
      subst (Shape.ActiveKnown w.tabs) active wv.active_known in
    let is_active : is_just w.active_tab close.closing ≡ true = rw active (==_refl close.closing) in
    let one : (length w.tabs == 1) ≡ true = rw single refl in
    let (result, e, closed) = close_tab_found id close.closing app w wv here there in
    (
      result,
      put_window id (Window.close_tab w close.closing).1 app,
      simp (valid, here, is_active, one, closed, commit_last_tab_close_after_neutral),
      close_tab-IsClosed id close.closing app app w w result none wv refl there
          (pending_closed (counters app).activation w close.closing w.pending_activation
            wv.pending_known active)
          (rw is_active (successor_single w.tabs close.closing there single)) e
          (λ k. put_same id k app.windows w here),
      others_single w.tabs close.closing there single,
    )

-- In a valid application, the commit of the close of a last tab succeeds exactly if the window is there,
-- the tab is the active one and the only one of it, and the presentation represents the tab, has no
-- content on screen and no activation pending. It then returns the tab and leaves the window
-- without tabs and without an active one; otherwise it returns an error and changes nothing.
pub commit_last_tab_close_lem :
    (id : ℕ) (close : LastTabCloseHandoff) (presentation : TabPresentationHandoff)
    (app : BrowserApp)
    → IsValid app
    → ((w : BrowserWindow) × IsReady id close presentation app w
        × Closes id close presentation app w)
      ⊎ Refused id close presentation app
unfolding commit_last_tab_close_after_neutral
commit_last_tab_close_lem id close presentation app v =
    elim (validate_cases presentation close.closing app) [
      | inl ((e, f), unfit) ↦ inr (
        (e, simp (f, commit_last_tab_close_after_neutral)),
        λ (w, (here, is_neutral, _)). unfit is_neutral,
      )
      | inr (f, fit) ↦ elim (Option-cases (Map.get id app.windows)) [
        | inl m ↦ inr (
          (browser (unknown_window id), simp (f, m, commit_last_tab_close_after_neutral)),
          λ (w, (here, _, _)). absurd (cc (m, here)),
        )
        | inr (w, m) ↦ elim (Bool-cases (is_just w.active_tab close.closing)) [
          | inr changed ↦ inr (
            (
              active_tab_changed close.closing w.active_tab,
              simp (f, m, changed, commit_last_tab_close_after_neutral),
            ),
            λ (u, (here, _, (active, _))). inactive w u m here changed active,
          )
          | inl kept ↦ elim (Bool-cases (length w.tabs == 1)) [
            | inr more ↦ inr (
              (
                last_tab_shape_changed close.closing (length w.tabs),
                simp (f, m, kept, more, commit_last_tab_close_after_neutral),
              ),
              λ (u, (here, _, (_, single))). several w u m here more single,
            )
            | inl one ↦
                let is_last : IsLast w close.closing =
                  (is_just-≡ w.active_tab kept, (==_iff (length w.tabs) 1).0 one) in
                inl (
                  w,
                  (m, fit, is_last),
                  commit_last_steps id close presentation app w v m f is_last,
                )
          ]
        ]
      ]
    ]
  where
    is_just-≡ : (a : Option ℕ) → is_just a close.closing ≡ true → a ≡ some close.closing
    is_just-≡ none h = absurd cc
    is_just-≡ (some a) h = ap some ((==_iff a close.closing).0 h)

    same_window :
        (w u : BrowserWindow)
        → Map.get id app.windows ≡ some w
        → Map.get id app.windows ≡ some u
        → w ≡ u
    same_window w u m here = cc

    inactive :
        (w u : BrowserWindow)
        → Map.get id app.windows ≡ some w
        → Map.get id app.windows ≡ some u
        → is_just w.active_tab close.closing ≡ false
        → u.active_tab ≡ some close.closing
        → ⊥
    inactive w u m here changed active =
        let same = same_window w u m here in
        let w_active : w.active_tab ≡ some close.closing = cc in
        let is_active : is_just w.active_tab close.closing ≡ true =
          rw w_active (==_refl close.closing) in
        cc

    several :
        (w u : BrowserWindow)
        → Map.get id app.windows ≡ some w
        → Map.get id app.windows ≡ some u
        → (length w.tabs == 1) ≡ false
        → length u.tabs ≡ 1
        → ⊥
    several w u m here more single =
        let same = same_window w u m here in
        let w_single : length w.tabs ≡ 1 = rw same single in
        let one : (length w.tabs == 1) ≡ true = rw w_single refl in cc

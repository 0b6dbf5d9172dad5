-- ===== src/TabClose/Begin.antt =====
-- What `begin_tab_close` of src/tab_close.rs begins, against `close_tab` of the window.
use zorya.Common.{
  ℕ, ◌+◌, ◌<◌, ◌≡◌, refl, sym, ap, ◌∙◌, subst, inl, inr, true, false, Option, none, some, List, [],
  ◌∷◌, ◌==◌, ==_iff, ==_refl, Option-cases, Bool-cases, ◌⊎◌, any, retain, is_just, position,
  get_elem?, u64_max, checked_add, arith, ok, if◌then◌else◌,
}
use zorya.Common.Map
use zorya.Activation.{TabActivationIntent}
use zorya.Window
use zorya.Window.{BrowserWindow, Tab, TabCloseResult, has_id, find_tab}
use zorya.Window.Shape as Shape
use zorya.Window.Shape.{Counters, HasTab, set_active_tab_lem}
use zorya.Window.Close.{close_tab_lem, close_tab-IsValid, find_tab-position}
use zorya.Window.Order.{others, locate}
use zorya.App.{BrowserApp, BrowserModelError, on_window, tab, allocate_tab_activation_id}
use zorya.App.Shape.{IsValid, put_window, get-WindowValid, next_activation}
use zorya.App.Tabs.{begin_tab_activation, set_active_tab}
use zorya.TabClose.{
  closed, active_with_fallback, active_last, fallback, begin_close, begin_tab_close,
}
use zorya.TabClose.Closed.{close_tab_found}
use zorya.TabClose.Fallback.{fallback-successor}

-- The tab that `close_tab` would leave active.
abbrev pub closes_to : BrowserWindow → ℕ → Option ℕ
closes_to w closing = (Window.close_tab w closing).1.active_tab

fallback-closes_to :
    {c : Counters} (w : BrowserWindow) (closing i : ℕ)
    → Shape.IsValid c w
    → HasTab w.tabs closing
    → w.active_tab ≡ some closing
    → position (has_id closing) w.tabs ≡ some i
    → fallback w.tabs i ≡ closes_to w closing
fallback-closes_to w closing i v there active at =
    let (_, next, _, _) = close_tab_lem w closing v there in
    let is_active : is_just w.active_tab closing ≡ true = rw active (==_refl closing) in
    fallback-successor closing i w.tabs at ∙ sym (next ∙ rw is_active refl)

activated_self :
    (w : BrowserWindow) (closing : ℕ)
    → w.active_tab ≡ some closing
    → Shape.activated closing w ≡ Shape.settle w
activated_self w closing active =
    let is_active : is_just w.active_tab closing ≡ true = rw active (==_refl closing) in
    let bar : (if is_just w.active_tab closing then w.address_bar else record { edit = none })
        ≡ w.address_bar =
      rw is_active refl in
    λ i. record w { active_tab = sym active i; pending_activation = none; address_bar = bar i }

-- An activation of another tab of the window, begun.
begin_tab_activation_lem :
    (id next active : ℕ) (t : Tab) (app : BrowserApp) (w : BrowserWindow)
    → Map.get id app.windows ≡ some w
    → find_tab w next ≡ some t
    → w.active_tab ≡ some active
    → app.next_tab_activation_id < u64_max
    → let intent : TabActivationIntent = record {
      id = app.next_tab_activation_id;
      from = active;
      to = next;
    } in
      begin_tab_activation id next app ≡ (
        ok (record { intent = intent; superseded = w.pending_activation }),
        put_window id (record w { pending_activation = some intent }) (next_activation app),
      )
unfolding begin_tab_activation tab Window.begin_tab_activation allocate_tab_activation_id
begin_tab_activation_lem id next active t app w here found is_active room =
    let counted : checked_add app.next_tab_activation_id 1 ≡ some (app.next_tab_activation_id + 1) =
      ground arith in
    simp (here, found, is_active, counted)

others-HasTab :
    (closing id : ℕ) (tabs : List Tab) → HasTab (others closing tabs) id → HasTab tabs id
unfolding any retain
others-HasTab closing id [] h = h
others-HasTab closing id (t ∷ ts) h = ground (arith, others-HasTab closing id ts)

pub closes_to-remains :
    {c : Counters} (w : BrowserWindow) (closing next : ℕ)
    → Shape.IsValid c w
    → HasTab w.tabs closing
    → closes_to w closing ≡ some next
    → HasTab (others closing w.tabs) next
closes_to-remains w closing next v there follows =
    let (tabs, _, _, _) = close_tab_lem w closing v there in
    let known =
      subst (Shape.ActiveKnown (Window.close_tab w closing).1.tabs) follows
        (close_tab-IsValid w closing v).active_known in
    subst (λ ts. HasTab ts next) tabs known

closes_to-found :
    {c : Counters} (w : BrowserWindow) (closing next : ℕ)
    → Shape.IsValid c w
    → HasTab w.tabs closing
    → closes_to w closing ≡ some next
    → (t : Tab) × (find_tab w next ≡ some t)
closes_to-found w closing next v there follows =
    let remains = closes_to-remains w closing next v there follows in
    let (i, t, at, at_i, _) = locate w.tabs next (others-HasTab closing next w.tabs remains) in
    (t, find_tab-position w next i t at at_i)

module _ (id closing : ℕ) (app : BrowserApp) (w : BrowserWindow) where
  -- A tab that is not active is closed at once.
  abbrev pub ClosedAtOnce : Type 0
  ClosedAtOnce =
      (is_just w.active_tab closing ≡ false)
      × ((result : TabCloseResult) × ((Window.close_tab w closing).0 ≡ some result)
          × (begin_tab_close id closing app
              ≡ (ok (closed result), put_window id (Window.close_tab w closing).1 app)))

  abbrev pub intent_to : ℕ → TabActivationIntent
  intent_to next = record { id = app.next_tab_activation_id; from = closing; to = next }

  -- The activation of the tab that would be active is begun.
  abbrev pub FallbackBegun : Type 0
  FallbackBegun =
      (w.active_tab ≡ some closing)
      × ((next : ℕ) × (closes_to w closing ≡ some next)
          × (begin_tab_close id closing app ≡ (
            ok (
                active_with_fallback (record {
                  closing = closing;
                  activation = record {
                    intent = intent_to next;
                    superseded = w.pending_activation;
                  };
                })),
            put_window id (record w { pending_activation = some (intent_to next) })
                (next_activation app),
          )))

  -- No tab would be active, and what is pending is dropped.
  abbrev pub LastBegun : Type 0
  LastBegun =
      (w.active_tab ≡ some closing)
      × (closes_to w closing ≡ none)
      × (begin_tab_close id closing app ≡ (
        ok (
            active_last
              (record { closing = closing; invalidated_activation = w.pending_activation })),
        put_window id (record w { pending_activation = none }) app,
      ))

  module _ (v : IsValid app) (here : Map.get id app.windows ≡ some w)
      (there : HasTab w.tabs closing) where
    begin_steps :
        (i : ℕ)
        → position (has_id closing) w.tabs ≡ some i
        → begin_tab_close id closing app
          ≡ begin_close id closing (is_just w.active_tab closing) (fallback w.tabs i) app
    unfolding begin_tab_close
    begin_steps i at = simp (here, at, begin_tab_close)

    begun_active :
        (i : ℕ)
        → position (has_id closing) w.tabs ≡ some i
        → w.active_tab ≡ some closing
        → begin_tab_close id closing app ≡ begin_close id closing true (closes_to w closing) app
    begun_active i at active =
        let wv = (get-WindowValid app id w v here).1 in
        let is_active : is_just w.active_tab closing ≡ true = rw active (==_refl closing) in
        begin_steps i at
        ∙ ap (λ a. begin_close id closing a (fallback w.tabs i) app) is_active
        ∙ ap (λ o. begin_close id closing true o app)
            (fallback-closes_to w closing i wv there active at)

    last_begun :
        (i : ℕ) (t : Tab)
        → position (has_id closing) w.tabs ≡ some i
        → get_elem? w.tabs i ≡ some t
        → w.active_tab ≡ some closing
        → closes_to w closing ≡ none
        → LastBegun
    unfolding set_active_tab on_window
    last_begun i t at at_i active follows =
        let set = set_active_tab_lem {E = BrowserModelError} w closing there in
        let found = find_tab-position w closing i t at at_i in
        (
          active,
          follows,
          begun_active i at active
              ∙ ap (λ o. begin_close id closing true o app) follows
              ∙ simp (here, found, set, set_active_tab, on_window)
                  (ap
                    (λ u. (
                      ok (
                          active_last (record {
                            closing = closing;
                            invalidated_activation = w.pending_activation;
                          })),
                      put_window id u app,
                    ))
                    (activated_self w closing active)),
        )

    fallback_begun :
        (i next : ℕ)
        → position (has_id closing) w.tabs ≡ some i
        → app.next_tab_activation_id < u64_max
        → w.active_tab ≡ some closing
        → closes_to w closing ≡ some next
        → FallbackBegun
    fallback_begun i next at room active follows =
        let wv = (get-WindowValid app id w v here).1 in
        let (t, found) = closes_to-found w closing next wv there follows in
        let begun = begin_tab_activation_lem id next closing t app w here found active room in
        (
          active,
          (
            next,
            follows,
            begun_active i at active
                ∙ ap (λ o. begin_close id closing true o app) follows
                ∙ simp begun,
          ),
        )

-- In a valid application whose window has the tab, with activation identifiers left: a tab that is not
-- active is closed at once, as `close_tab` of the window closes it. For the active tab, an
-- activation under the next identifier is begun from it to the tab that `close_tab` would leave
-- active, and the window is otherwise as it was; if it would leave none, the pending activation is
-- dropped and returned.
pub begin_tab_close_lem :
    (id closing : ℕ) (app : BrowserApp) (w : BrowserWindow)
    → IsValid app
    → Map.get id app.windows ≡ some w
    → HasTab w.tabs closing
    → app.next_tab_activation_id < u64_max
    → ClosedAtOnce id closing app w ⊎ (FallbackBegun id closing app w ⊎ LastBegun id closing app w)
begin_tab_close_lem id closing app w v here there room =
    let (i, t, at, at_i, _) = locate w.tabs closing there in
    elim (active_cases w.active_tab) [
      | inl inactive ↦
          let (result, e, closes) =
            close_tab_found id closing app w (get-WindowValid app id w v here).1 here there in
          inl (
            inactive,
            (
              result,
              e,
              begin_steps id closing app w v here there i at
                  ∙ ap (λ a. begin_close id closing a (fallback w.tabs i) app) inactive
                  ∙ simp closes,
            ),
          )
      | inr active ↦ elim (Option-cases (closes_to w closing)) [
        | inl none_ ↦ inr (inr (last_begun id closing app w v here there i t at at_i active none_))
        | inr (next, follows) ↦
            inr (inl (fallback_begun id closing app w v here there i next at room active follows))
      ]
    ]
  where
    active_cases : (a : Option ℕ) → (is_just a closing ≡ false) ⊎ (a ≡ some closing)
    active_cases none = inl refl
    active_cases (some a) = elim (Bool-cases (a == closing)) [
      | inl hit ↦ inr (ap some ((==_iff a closing).0 hit))
      | inr miss ↦ inl miss
    ]

-- ===== src/TabClose/Fallback.antt =====
-- The beginning of a close, `begin_tab_close` of src/tab_close.rs, and its fallback tab.
use zorya.Common.{
  ℕ, zero, suc, ◌+◌, ◌-◌, ◌≡◌, ap, ◌∙◌, inl, inr, Bool, true, false, Option, none, some, List, [],
  ◌∷◌, arith, ◌==◌, Option-cases, is_just, get_elem?, position, if◌then◌else◌,
}
use zorya.Common.Map
use zorya.Window.{Tab, has_id}
use zorya.Window.Close.{successor}
use zorya.App.{BrowserApp}
use zorya.App.Shape.{IsValid, Fine}
use zorya.App.Safe.{continue-Fine, close_tab-Fine, set_active_tab-Fine}
use zorya.App.Activate.{begin_tab_activation-Fine}
use zorya.TabClose.{fallback, begin_close, begin_tab_close}

-- `fallback`, with the answer for the first position as a parameter.
abbrev fallback_or : Option ℕ → List Tab → ℕ → Option ℕ
fallback_or before tabs position = elim (get_elem? tabs (position + 1)) [
  | some t ↦ some t.id
  | none ↦
      if position == 0
      then before
      else elim (get_elem? tabs (position - 1)) [ none ↦ none | some t ↦ some t.id ]
]

fallback_or-cons :
    (before : Option ℕ) (t : Tab) (ts : List Tab) (i : ℕ)
    → fallback_or before (t ∷ ts) (suc i) ≡ fallback_or (some t.id) ts i
fallback_or-cons before t ts zero = ground arith
fallback_or-cons before t ts (suc i) =
    let a : suc (suc i) + 1 ≡ suc (suc i + 1) = omega arith in
    let one : suc (suc i) - 1 ≡ suc i = omega arith in
    let other : suc i - 1 ≡ i = omega arith in
    ground (arith, ap (get_elem? (t ∷ ts)) a, ap (get_elem? (t ∷ ts)) one, ap (get_elem? ts) other)

fallback_or-successor :
    (before : Option ℕ) (tab i : ℕ) (tabs : List Tab)
    → position (has_id tab) tabs ≡ some i
    → fallback_or before tabs i ≡ successor before tab tabs
unfolding position successor
fallback_or-successor before tab i [] e = cc
fallback_or-successor before tab zero (t ∷ []) e = ground arith
fallback_or-successor before tab zero (t ∷ u ∷ ts) e = ground arith
fallback_or-successor before tab (suc i) (t ∷ ts) e =
    fallback_or-cons before t ts i ∙ ground (arith, fallback_or-successor (some t.id) tab i ts)

-- The fallback is the tab to the right, or else the one to the left.
pub fallback-successor :
    (tab i : ℕ) (tabs : List Tab)
    → position (has_id tab) tabs ≡ some i
    → fallback tabs i ≡ successor none tab tabs
fallback-successor tab i tabs e = same ∙ fallback_or-successor none tab i tabs e
  where
    same : fallback tabs i ≡ fallback_or none tabs i
    same = ground arith

begin_close-Fine :
    (id closing : ℕ) (active : Bool) (place : Option ℕ) (app : BrowserApp)
    → IsValid app
    → Fine (begin_close id closing active place app)
begin_close-Fine id closing false place app v =
    continue-Fine _ _ (λ a app' _ v'. (tt, v')) (close_tab-Fine id closing app v)
begin_close-Fine id closing true (some place) app v =
    continue-Fine _ _ (λ a app' _ v'. (tt, v')) (begin_tab_activation-Fine id place app v)
begin_close-Fine id closing true none app v =
    continue-Fine _ _ (λ a app' _ v'. (tt, v')) (set_active_tab-Fine id closing app v)

-- Beginning to close a tab, in a valid application, does not panic and leaves it valid.
pub begin_tab_close-Fine :
    (id closing : ℕ) (app : BrowserApp) → IsValid app → Fine (begin_tab_close id closing app)
unfolding begin_tab_close
begin_tab_close-Fine id closing app v = elim (Option-cases (Map.get id app.windows)) [
  | inl e ↦ rw (e, begin_tab_close) (tt, v)
  | inr (w, e) ↦ elim (Option-cases (position (has_id closing) w.tabs)) [
    | inl p ↦ simp (e, p, begin_tab_close) (tt, v)
    | inr (i, p) ↦
        simp (e, p, begin_tab_close)
          (begin_close-Fine id closing (is_just w.active_tab closing) (fallback w.tabs i) app v)
  ]
]

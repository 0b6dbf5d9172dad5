-- ===== src/App/Activate.antt =====
-- The commands of `BrowserApp` on activations, the tab order and the address bar, in a valid
-- application.
use zorya.Common.{
  ℕ, ◌≡◌, refl, sym, subst, inl, inr, ◌⊎◌, true, false, Option, none, some, List, arith, Bool-cases,
  Option-cases, ok, err, ◌==◌, ==_iff, ==_refl, is_just, is_some, find, find-eq-none,
}
use zorya.Common.Map
use zorya.Activation.{TabActivationIntent, TabCycleDirection}
use zorya.Window
use zorya.Window.{BrowserWindow, Tab, has_id, find_tab, activation_id, take_tab_activation}
use zorya.Window.Shape as Shape
use zorya.Window.Shape.{
  Counters, TabValid, HasTab, activated, set_active_tab_lem, settle, settle-IsValid,
}
use zorya.Window.Order
use zorya.App.{BrowserModelError, BrowserApp, tab, stale_tab_activation}
use zorya.App.Tabs.{
  move_tab_before, begin_tab_activation, begin_tab_cycle, commit_activation, commit_tab_activation,
  cancel_tab_activation, begin_address_bar_edit, set_address_bar_text, cancel_address_bar_edit,
  submit_address_bar_edit, anchor_missing, start_cycle,
}
use zorya.App.Shape.{
  IsValid, NoPanic, Fine, on_window-Fine, put_window-IsValid, get-WindowValid,
  allocate_tab_activation_id_cases, next_activation, next_activation-IsValid, tab_cases,
}
use zorya.App.Safe.{continue-Fine, found-HasTab}

-- The anchor of a move is checked to be there.
anchor_cases :
    (w : BrowserWindow) (before : Option ℕ)
    → ((anchor : ℕ) × (anchor_missing w before ≡ some anchor))
      ⊎ ((anchor_missing w before ≡ none) × Order.AnchorKnown w.tabs before)
anchor_cases w none = inr (refl, tt)
anchor_cases w (some anchor) = elim (Option-cases (find_tab w anchor)) [
  | inl e ↦ inl (anchor, rw (e, anchor_missing))
  | inr (t, e) ↦ inr (rw (e, anchor_missing), found-HasTab w anchor t e)
]

pub move_tab_before-Fine :
    (id tab : ℕ) (before : Option ℕ) (app : BrowserApp)
    → IsValid app
    → Fine (move_tab_before id tab before app)
unfolding move_tab_before
move_tab_before-Fine id tab before app v =
    on_window-Fine id _ app
      (λ w wv. elim (Option-cases (find_tab w tab)) [
        | inl e ↦ rw e (tt, wv)
        | inr (t, e) ↦ elim (anchor_cases w before) [
          | inl (anchor, f) ↦ simp (e, f) (tt, wv)
          | inr (f, known) ↦
              let (calm, wv') =
                Order.move_tab_before-IsValid {E = BrowserModelError} w tab before wv
                  (found-HasTab w tab t e) known in
              simp (e, f) (subst NoPanic (sym calm) tt, wv')
        ]
      ])
      v

pub begin_tab_activation-Fine :
    (id target : ℕ) (app : BrowserApp) → IsValid app → Fine (begin_tab_activation id target app)
unfolding begin_tab_activation
begin_tab_activation-Fine id target app v = elim (tab_cases id target app) [
  | inl (e, f) ↦ simp (f, begin_tab_activation) (tt, v)
  | inr (w, t, e, found, f) ↦ elim (Option-cases w.active_tab) [
    | inl g ↦ simp (f, e, g, begin_tab_activation) (tt, v)
    | inr (active, g) ↦ elim (allocate_tab_activation_id_cases app) [
      | inl h ↦ simp (f, e, g, h, begin_tab_activation) (tt, v)
      | inr h ↦
          let (below, wv) = get-WindowValid app id w v e in
          simp (f, e, g, h, begin_tab_activation)
            (
              tt,
              put_window-IsValid (next_activation app) id _ below
                  (Shape.begin_tab_activation-IsValid w _ g (found-HasTab w target t found)
                    (omega arith) (Shape.IsValid-widen (omega arith) w wv))
                  (next_activation-IsValid app v),
            )
    ]
  ]
]

start_cycle-Fine :
    (id : ℕ) (target : Option ℕ) (app : BrowserApp) → IsValid app → Fine (start_cycle id target app)
start_cycle-Fine id none app v = (tt, v)
start_cycle-Fine id (some target) app v =
    continue-Fine _ _ (λ a app' _ v'. (tt, v')) (begin_tab_activation-Fine id target app v)

pub begin_tab_cycle-Fine :
    (id : ℕ) (direction : TabCycleDirection) (app : BrowserApp)
    → IsValid app
    → Fine (begin_tab_cycle id direction app)
unfolding begin_tab_cycle
begin_tab_cycle-Fine id direction app v = elim (Option-cases (Map.get id app.windows)) [
  | inl e ↦ rw (e, begin_tab_cycle) (tt, v)
  | inr (w, e) ↦
      simp (e, begin_tab_cycle) (start_cycle-Fine id (Window.cycle_target w direction) app v)
]

pub HasTab-found : (w : BrowserWindow) (id : ℕ) → HasTab w.tabs id → is_some (find_tab w id) ≡ true
unfolding find_tab
HasTab-found w id h = elim (Option-cases (find (has_id id) w.tabs)) [
  | inl e ↦ absurd (cc (h, find-eq-none (has_id id) w.tabs e))
  | inr (t, e) ↦ rw e
]

-- In a valid window, an activation commits if it is the pending one: its target, a tab of the window,
-- becomes active and nothing is pending. Any other is stale, and changes nothing.
pub commit_activation_lem :
    {c : Counters} (id activation : ℕ) (w : BrowserWindow)
    → Shape.IsValid c w
    → ((intent : TabActivationIntent) × (w.pending_activation ≡ some intent)
        × (intent.id ≡ activation)
        × HasTab w.tabs intent.to
        × (commit_activation id activation w ≡ (ok intent.to, activated intent.to (settle w))))
      ⊎ ((is_just (activation_id w.pending_activation) activation ≡ false)
          × (commit_activation id activation w
              ≡ (err (stale_tab_activation id (activation_id w.pending_activation) activation), w)))
unfolding commit_activation take_tab_activation
commit_activation_lem {c} id activation w v = go w.pending_activation refl v.pending_known
  where
    go :
        (p : Option TabActivationIntent)
        → w.pending_activation ≡ p
        → Shape.PendingKnown c.activation w.tabs w.active_tab p
        → ((intent : TabActivationIntent) × (w.pending_activation ≡ some intent)
            × (intent.id ≡ activation)
            × HasTab w.tabs intent.to
            × (commit_activation id activation w ≡ (ok intent.to, activated intent.to (settle w))))
          ⊎ ((is_just (activation_id w.pending_activation) activation ≡ false)
              × (commit_activation id activation w ≡ (
                err (stale_tab_activation id (activation_id w.pending_activation) activation),
                w,
              )))
    go none e k = inr (rw e, rw (e, commit_activation))
    go (some intent) e k = elim (Bool-cases (intent.id == activation)) [
      | inl hit ↦
          let from : is_just w.active_tab intent.from ≡ true = rw k.0 (==_refl intent.from) in
          inl (
            intent,
            e,
            (==_iff intent.id activation).0 hit,
            k.1,
            simp (
              e,
              hit,
              from,
              HasTab-found w intent.to k.1,
              commit_activation,
              set_active_tab_lem {E = BrowserModelError} (settle w) intent.to k.1,
            ),
          )
      | inr miss ↦ inr (rw (e, activation_id) miss, simp (e, miss, commit_activation))
    ]

pub commit_tab_activation-Fine :
    (id activation : ℕ) (app : BrowserApp)
    → IsValid app
    → Fine (commit_tab_activation id activation app)
unfolding commit_tab_activation
commit_tab_activation-Fine id activation app v =
    on_window-Fine id _ app
      (λ w wv. elim (commit_activation_lem id activation w wv) [
        | inl (intent, _, _, there, e) ↦
            simp e (tt, Shape.activated-IsValid (settle w) intent.to there (settle-IsValid w wv))
        | inr (_, e) ↦ simp e (tt, wv)
      ])
      v

pub cancel_tab_activation-Fine :
    (id activation : ℕ) (app : BrowserApp)
    → IsValid app
    → Fine (cancel_tab_activation id activation app)
unfolding cancel_tab_activation
cancel_tab_activation-Fine id activation app v =
    on_window-Fine id _ app
      (λ w wv. elim (Option-cases (take_tab_activation w activation).0) [
        | inl e ↦ simp e (tt, Shape.take_tab_activation-IsValid w activation wv)
        | inr (a, e) ↦ simp e (tt, Shape.take_tab_activation-IsValid w activation wv)
      ])
      v

pub begin_address_bar_edit-Fine :
    (id : ℕ) (app : BrowserApp) → IsValid app → Fine (begin_address_bar_edit id app)
unfolding begin_address_bar_edit
begin_address_bar_edit-Fine id app v =
    on_window-Fine id _ app (λ w wv. (tt, Shape.begin_address_bar_edit-IsValid w wv)) v

pub set_address_bar_text-Fine :
    (id : ℕ) (text : List ℕ) (app : BrowserApp)
    → IsValid app
    → Fine (set_address_bar_text id text app)
unfolding set_address_bar_text
set_address_bar_text-Fine id text app v =
    on_window-Fine id _ app
      (λ w wv. elim (Bool-cases (Window.set_address_bar_text w text).0) [
        | inl e ↦ simp e (tt, Shape.set_address_bar_text-IsValid w text wv)
        | inr e ↦ simp e (tt, Shape.set_address_bar_text-IsValid w text wv)
      ])
      v

pub cancel_address_bar_edit-Fine :
    (id : ℕ) (app : BrowserApp) → IsValid app → Fine (cancel_address_bar_edit id app)
unfolding cancel_address_bar_edit
cancel_address_bar_edit-Fine id app v =
    on_window-Fine id _ app (λ w wv. (tt, Shape.cancel_address_bar_edit-IsValid w wv)) v

pub submit_address_bar_edit-Fine :
    (id : ℕ) (app : BrowserApp) → IsValid app → Fine (submit_address_bar_edit id app)
unfolding submit_address_bar_edit
submit_address_bar_edit-Fine id app v =
    on_window-Fine id _ app
      (λ w wv. elim (Option-cases (Window.submit_address_bar_edit w).0) [
        | inl e ↦ simp e (tt, Shape.submit_address_bar_edit-IsValid w wv)
        | inr (a, e) ↦ simp e (tt, Shape.submit_address_bar_edit-IsValid w wv)
      ])
      v

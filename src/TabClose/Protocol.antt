-- ===== src/TabClose/Protocol.antt =====
-- The two steps of closing the active tab, with the handoff between them: src/tab_close.rs.
use zorya.Common.{
  ℕ, ◌+◌, ◌<◌, ◌≡◌, ◌≢◌, refl, sym, ap, subst, ◌∙◌, inl, inr, true, false, Option, some, List, [],
  ◌∷◌, ◌==◌, ==_refl, any, retain, is_just, u64_max, ok, arith, if◌then◌else◌,
}
use zorya.Common.Map
use zorya.Activation.{TabActivationIntent}
use zorya.Window.{BrowserWindow, Tab, TabCloseResult, has_id, find_tab}
use zorya.Window.Shape as Shape
use zorya.Window.Shape.{HasTab}
use zorya.Window.Order.{others}
use zorya.App.{BrowserApp}
use zorya.App.Shape.{IsValid, get-WindowValid, put_window, next_activation}
use zorya.Handoff.{neutral, TabPresentationHandoff, begin_activation, confirm_neutral}
use zorya.Handoff.Shape.{Owned}
use zorya.Handoff.Protocol.{handing, begin_activation_lem, confirm_neutral-handing}
use zorya.TabClose.{
  ActiveTabCloseHandoff, active_with_fallback, begin_tab_close,
  commit_active_tab_close_after_neutral,
}
use zorya.TabClose.Begin.{
  FallbackBegun, closes_to, closes_to-remains, intent_to, begin_tab_close_lem,
}
use zorya.TabClose.Closed.{IsClosed, put_again}
use zorya.TabClose.Commit.{commit_active_tab_close_lem}
use zorya.TabClose.Fallback.{begin_tab_close-Fine}

others-gone : (closing : ℕ) (tabs : List Tab) → any (has_id closing) (others closing tabs) ≡ false
unfolding any retain
others-gone closing [] = refl
others-gone closing (t ∷ ts) = ground (arith, others-gone closing ts)

closes_to-other :
    (w : BrowserWindow) (closing next : ℕ) → HasTab (others closing w.tabs) next → next ≢ closing
closes_to-other w closing next remains same =
    let there : any (has_id closing) (others closing w.tabs) ≡ true =
      subst (λ id. HasTab (others closing w.tabs) id) same remains in
    let gone = others-gone closing w.tabs in absurd (cc (there, gone))

-- What is closed after an activation was begun is closed in the window as it was before.
IsClosed-begun :
    (id closing : ℕ) (next : Option ℕ) (app app1 app2 : BrowserApp) (w : BrowserWindow)
    (pending : Option TabActivationIntent) (result : TabCloseResult)
    → ((k : ℕ)
        → Map.get k app1.windows ≡ (
            if id == k
            then some (record w { pending_activation = pending })
            else Map.get k app.windows))
    → IsClosed id closing next app1 (record w { pending_activation = pending }) result app2
    → IsClosed id closing next app w result app2
unfolding find_tab
IsClosed-begun id closing next app app1 app2 w pending result windows c = record {
  window = c.window;
  windows = λ k.
      c.windows k
      ∙ put_again id k app.windows app1.windows (record w { pending_activation = pending }) c.window
          (windows k);
  tabs = c.tabs;
  active = c.active;
  pending = c.pending;
  returned = c.returned;
  result_active = c.result_active;
}

-- The first step has begun the close, and the second one, after the presentation has begun the
-- activation and confirmed neutral content, succeeds: the tab is closed and `next` is active.
pub record Completes (id closing next : ℕ) (app : BrowserApp) (w : BrowserWindow)
    (presentation : TabPresentationHandoff) : Type 0 where
  pub close : ActiveTabCloseHandoff
  pub begun : BrowserApp
  pub result : TabCloseResult
  pub app' : BrowserApp
  pub begins : begin_tab_close id closing app ≡ (ok (active_with_fallback close), begun)
  pub commits :
      commit_active_tab_close_after_neutral id close
        (confirm_neutral close.activation.intent.id
          (begin_activation close.activation.intent presentation).1).1
        begun
      ≡ (ok result, app')
  pub closes : IsClosed id closing (some next) app w result app'
  pub valid : IsValid app'

close_begun :
    (id closing next : ℕ) (app : BrowserApp) (w : BrowserWindow)
    (presentation : TabPresentationHandoff)
    → IsValid app
    → Map.get id app.windows ≡ some w
    → HasTab w.tabs closing
    → Owned presentation
    → presentation.represented_tab ≡ closing
    → presentation.generation < u64_max
    → closes_to w closing ≡ some next
    → FallbackBegun id closing app w
    → Completes id closing next app w presentation
close_begun id closing next app w presentation v here there owned represented room follows
      (active, (next', follows', begins)) =
    let intent = intent_to id closing app w next' in
    let w1 : BrowserWindow = record w { pending_activation = some intent } in
    let app1 = put_window id w1 (next_activation app) in
    let same : next' ≡ next = cc in
    let wv = (get-WindowValid app id w v here).1 in
    let other =
      closes_to-other w closing next' (closes_to-remains w closing next' wv there follows') in
    let v1 : IsValid app1 =
      subst (λ r. IsValid r.1) begins (begin_tab_close-Fine id closing app v).1 in
    let here1 : Map.get id app1.windows ≡ some w1 =
      Map.get-insert id id w1 app.windows ∙ rw (==_refl id) refl in
    let handed : (confirm_neutral intent.id (begin_activation intent presentation).1).1
        ≡ handing presentation.represented_tab neutral intent (presentation.generation + 1) =
      ap (λ r. (confirm_neutral intent.id r.1).1)
        (begin_activation_lem presentation intent owned (sym represented) room)
      ∙ ap (λ r. r.1)
          (confirm_neutral-handing presentation.represented_tab (presentation.generation + 1)
            presentation.content intent) in
    let (result, app2, commits, closed, v2) =
      commit_active_tab_close_lem id closing app1 w1
        (record { intent = intent; superseded = w.pending_activation })
        (handing presentation.represented_tab neutral intent (presentation.generation + 1)) v1 here1
        active refl other represented refl refl in
    record {
      close = record {
        closing = closing;
        activation = record { intent = intent; superseded = w.pending_activation };
      };
      begun = app1;
      result = result;
      app' = app2;
      begins = begins;
      commits = rw handed commits;
      closes =
          subst (λ n. IsClosed id closing (some n) app w result app2) same
            (IsClosed-begun id closing (some next') app app1 app2 w (some intent) result
              (λ k. Map.get-insert id k w1 app.windows) closed);
      valid = v2;
    }

-- In a valid application whose window has the closing tab active and another one, and with a presentation
-- that represents the closing tab and shows no other tab's content, with identifiers and
-- generations left: `begin_tab_close` begins the close; after the presentation has begun the
-- activation and confirmed neutral content, the commit succeeds. The tab is then closed, the tab that
-- `close_tab` would leave active is active, and the application is valid.
pub close_active_lem :
    (id closing next : ℕ) (app : BrowserApp) (w : BrowserWindow)
    (presentation : TabPresentationHandoff)
    → IsValid app
    → Map.get id app.windows ≡ some w
    → w.active_tab ≡ some closing
    → closes_to w closing ≡ some next
    → app.next_tab_activation_id < u64_max
    → Owned presentation
    → presentation.represented_tab ≡ closing
    → presentation.generation < u64_max
    → Completes id closing next app w presentation
close_active_lem id closing next app w presentation v here active follows ids owned represented
      room =
    let wv = (get-WindowValid app id w v here).1 in
    let there : HasTab w.tabs closing = subst (Shape.ActiveKnown w.tabs) active wv.active_known in
    elim (begin_tab_close_lem id closing app w v here there ids) [
      | inl (inactive, _) ↦
          let is_active : is_just w.active_tab closing ≡ true = rw active (==_refl closing) in
          absurd (cc (inactive, is_active))
      | inr (inr (_, none_, _)) ↦ absurd (cc (none_, follows))
      | inr (inl begun) ↦
          close_begun id closing next app w presentation v here there owned represented room follows
            begun
    ]

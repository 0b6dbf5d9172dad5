-- ===== src/App/Commit.antt =====
-- The completions of a navigation, `commit_navigation` and `fail_navigation` of src/app.rs, in a
-- valid application.
use zorya.Common.{
  ℕ, ◌≡◌, refl, subst, inl, inr, ◌⊎◌, Option, none, some, arith, Bool-cases, Option-cases, ok, err,
  ◌==◌, ==_iff, find-eq-none, find,
}
use native.Mathlib.Numerals.{add-one}
use zorya.Common.Map
use zorya.Navigation.{
  Text, TabNavigation, NavigationIntent, NavigationIntentKind, new_document, reload,
  traverse_history, HistoryEntry, pending_for, pending_id, commit_new, push_entry, revisit_entry,
  fail, contains_history_entry,
}
use zorya.Navigation.Shape as NavShape
use zorya.Navigation.Shape.{Known, KindKnown, idle, idle-IsValid}
use zorya.Navigation.Traverse.{take_pending_self, commit_existing_lem}
use zorya.Window.{BrowserWindow, Tab, find_tab}
use zorya.Window.Shape.{TabValid}
use zorya.App.{BrowserModelError, BrowserApp, stale_navigation}
use zorya.App.Navigate.{
  pending_kind, commit_to_existing, commit_kind, commit_navigation, fail_navigation,
}
use zorya.App.Shape.{
  counters, IsValid, Fine, tab_cases, set_navigation-IsValid, find_tab-TabValid, IsValid-widen,
  allocate_history_entry_id_cases, next_entry,
}
use zorya.App.Safe.{continue-Fine}
use zorya.App.Browse.{tab_lem, on_navigation_lem}

pending_for_cases :
    (t : TabNavigation) (navigation : ℕ)
    → (pending_for t navigation ≡ none)
      ⊎ ((intent : NavigationIntent) × (t.pending ≡ some intent)
          × (intent.id ≡ navigation)
          × (pending_for t navigation ≡ some intent))
unfolding pending_for
pending_for_cases t navigation = go t.pending refl
  where
    go :
        (p : Option NavigationIntent)
        → t.pending ≡ p
        → (pending_for t navigation ≡ none)
          ⊎ ((intent : NavigationIntent) × (t.pending ≡ some intent)
              × (intent.id ≡ navigation)
              × (pending_for t navigation ≡ some intent))
    go none e = inl (rw (e, pending_for))
    go (some intent) e = elim (Bool-cases (intent.id == navigation)) [
      | inl hit ↦ inr (intent, e, (==_iff intent.id navigation).0 hit, rw (e, pending_for) (rw hit))
      | inr miss ↦ inl (rw (e, pending_for) (rw miss))
    ]

-- `pending_kind` finds the pending navigation, or fails and changes nothing.
pending_kind_cases :
    (window_id tab_id navigation : ℕ) (app : BrowserApp)
    → ((e : BrowserModelError) × (pending_kind window_id tab_id navigation app ≡ (err e, app)))
      ⊎ ((w : BrowserWindow) × (t : Tab) × (intent : NavigationIntent) × (Map.get window_id
              app.windows
            ≡ some w)
          × (find_tab w tab_id ≡ some t)
          × (t.navigation.pending ≡ some intent)
          × (intent.id ≡ navigation)
          × (pending_kind window_id tab_id navigation app ≡ (ok intent.kind, app)))
unfolding pending_kind
pending_kind_cases window_id tab_id navigation app = elim (tab_cases window_id tab_id app) [
  | inl (e, f) ↦ inl (e, simp (f, pending_kind))
  | inr (w, t, e, found, f) ↦ elim (pending_for_cases t.navigation navigation) [
    | inl g ↦ inl (
      stale_navigation window_id tab_id (pending_id t.navigation) navigation,
      simp (f, g, pending_kind),
    )
    | inr (intent, p, same, g) ↦ inr (w, t, intent, e, found, p, same, simp (f, g, pending_kind))
  ]
]

next_entry-IsValid : (app : BrowserApp) → IsValid app → IsValid (next_entry app)
next_entry-IsValid app v =
    IsValid-widen app app.next_window_id (counters (next_entry app)) (omega arith) (omega arith) v

commit_new_lem :
    (n : TabNavigation) (intent : NavigationIntent) (entry : HistoryEntry)
    → n.pending ≡ some intent
    → commit_new n intent.id entry ≡ (some entry.id, push_entry (idle n) entry)
unfolding commit_new
commit_new_lem n intent entry p = simp (take_pending_self n intent p, commit_new)

fail_lem :
    (n : TabNavigation) (intent : NavigationIntent) (message : Text)
    → n.pending ≡ some intent
    → ((fail n intent.id message).0
        ≡ some (record {
          navigation = intent.id;
          requested_location = intent.requested_location;
          message = message;
        }))
      × ((fail n intent.id message).1.pending ≡ none)
unfolding fail
fail_lem n intent message p =
    (simp (take_pending_self n intent p, fail), simp (take_pending_self n intent p, fail))

revisit_entry_lem :
    (n : TabNavigation) (entry : ℕ) (location : Text)
    → Known n.history entry
    → ((revisit_entry n entry location).0 ≡ some entry)
      × ((revisit_entry n entry location).1.pending ≡ n.pending)
unfolding revisit_entry
revisit_entry_lem n entry location known =
    elim (Option-cases (find (λ c. c.id == entry) n.history)) [
      | inl e ↦ absurd (cc (known, find-eq-none (λ c. c.id == entry) n.history e))
      | inr (c, e) ↦ simp (e, revisit_entry) (refl, refl)
    ]

module _ (app : BrowserApp) (v : IsValid app) (window_id tab_id : ℕ) (w : BrowserWindow) (t : Tab)
    (here : Map.get window_id app.windows ≡ some w) (found : find_tab w tab_id ≡ some t)
    (intent : NavigationIntent) (pending : t.navigation.pending ≡ some intent) where
  valid : TabValid (counters app) t
  valid = find_tab-TabValid app window_id tab_id w t here found v

  commit_to_existing-Fine :
      (entry : ℕ) (committed : Text)
      → Known t.navigation.history entry
      → Fine (commit_to_existing window_id tab_id intent.id entry committed app)
  unfolding commit_to_existing contains_history_entry
  commit_to_existing-Fine entry committed known =
      let (done, idle_after) = revisit_entry_lem (idle t.navigation) entry committed known in
      simp
        (
          tab_lem app window_id tab_id w t here found,
          known,
          commit_to_existing,
          on_navigation_lem app window_id tab_id w t here found,
          commit_existing_lem t.navigation intent entry committed pending,
          done,
        )
        (
          tt,
          set_navigation-IsValid app window_id tab_id w _ here
              (NavShape.revisit_entry-IsValid (idle t.navigation) entry committed refl
                (idle-IsValid t.navigation valid.navigation_valid))
              (rw idle_after tt) v,
        )

  commit_kind-Fine :
      (committed : Text) (kind : NavigationIntentKind)
      → KindKnown t.navigation.history kind
      → Fine (commit_kind window_id tab_id intent.id committed kind app)
  unfolding commit_kind
  commit_kind-Fine committed new_document known = elim (allocate_history_entry_id_cases app) [
    | inl h ↦ simp (h, commit_kind) (tt, v)
    | inr h ↦
        let entry : HistoryEntry = record {
          id = app.next_history_entry_id;
          location = committed;
        } in
        simp
          (
            h,
            commit_kind,
            on_navigation_lem (next_entry app) window_id tab_id w t here found,
            commit_new_lem t.navigation intent entry pending,
          )
          (
            tt,
            set_navigation-IsValid (next_entry app) window_id tab_id w _ here
                (rw add-one (
                  NavShape.push_entry-IsValid (idle t.navigation) entry refl refl
                    (idle-IsValid t.navigation valid.navigation_valid)))
                (unfold push_entry in tt) (next_entry-IsValid app v),
          )
  ]
  commit_kind-Fine committed (reload entry) known = commit_to_existing-Fine entry committed known
  commit_kind-Fine committed (traverse_history entry) known =
      commit_to_existing-Fine entry committed known

  kind-Known : KindKnown t.navigation.history intent.kind
  kind-Known =
      subst (NavShape.PendingKnown t.navigation.history) pending
        valid.navigation_valid.pending_known

pub commit_navigation-Fine :
    (window_id tab_id navigation : ℕ) (committed : Text) (app : BrowserApp)
    → IsValid app
    → Fine (commit_navigation window_id tab_id navigation committed app)
unfolding commit_navigation
commit_navigation-Fine window_id tab_id navigation committed app v =
    elim (pending_kind_cases window_id tab_id navigation app) [
      | inl (e, f) ↦ simp (f, commit_navigation) (tt, v)
      | inr (w, t, intent, here, found, pending, same, f) ↦
          simp (f, commit_navigation)
            (continue-Fine _ _ (λ a app' _ v'. (tt, v'))
              (subst (λ n. Fine (commit_kind window_id tab_id n committed intent.kind app)) same
                (commit_kind-Fine app v window_id tab_id w t here found intent pending committed
                  intent.kind (kind-Known app v window_id tab_id w t here found intent pending))))
    ]

pub fail_navigation-Fine :
    (window_id tab_id navigation : ℕ) (message : Text) (app : BrowserApp)
    → IsValid app
    → Fine (fail_navigation window_id tab_id navigation message app)
unfolding fail_navigation
fail_navigation-Fine window_id tab_id navigation message app v =
    elim (pending_kind_cases window_id tab_id navigation app) [
      | inl (e, f) ↦ simp (f, fail_navigation) (tt, v)
      | inr (w, t, intent, here, found, pending, same, f) ↦
          let n = t.navigation in
          let (done, after) = fail_lem n intent message pending in
          let fv =
            NavShape.fail-IsValid n intent.id message
              (find_tab-TabValid app window_id tab_id w t here found v).navigation_valid in
          simp
            (
              f,
              fail_navigation,
              on_navigation_lem app window_id tab_id w t here found,
              ← same,
              done,
            )
            (
              tt,
              set_navigation-IsValid app window_id tab_id w (fail n intent.id message).1 here fv
                  (rw after tt) v,
            )
    ]

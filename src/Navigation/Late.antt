-- ===== src/Navigation/Late.antt =====
-- Completions of navigations that have ended: `TabNavigation` of src/navigation.rs.
use zorya.Common.{
  ℕ, ◌≡◌, ◌≢◌, refl, sym, ap, subst, ◌⊎◌, ==_iff, Bool-cases, inl, inr, true, false, Option, none,
  some, List, [], ◌∷◌, All, find, Option-cases, ◌==◌,
}
use zorya.Navigation.{
  Text, HistoryEntry, NavigationIntent, TabNavigation, pending_id, stop_loading, take_pending,
  push_entry, revisit_entry,
}
use zorya.Navigation
use zorya.Navigation.Shape.{take_pending_cases, idle}

-- The methods that change a tab's navigation.
pub data Event : Type 0 where
  start : NavigationIntent → Event
  stop : Event
  commit_new : (navigation : ℕ) (entry : HistoryEntry) → Event
  commit_existing : (navigation entry : ℕ) (location : Text) → Event
  fail : (navigation : ℕ) (message : Text) → Event

unfoldable pub step : Event → TabNavigation → TabNavigation
step (start intent) t = (Navigation.start t intent).1
step stop t = (stop_loading t).1
step (commit_new navigation entry) t = (Navigation.commit_new t navigation entry).1
step (commit_existing navigation entry location) t =
    (Navigation.commit_existing t navigation entry location).1
step (fail navigation message) t = (Navigation.fail t navigation message).1

unfoldable pub run : List Event → TabNavigation → TabNavigation
run [] t = t
run (e ∷ es) t = run es (step e t)

-- Not the start of the navigation again: identifiers are given once.
abbrev pub StartsOther : ℕ → Event → Type 0
StartsOther navigation (start intent) = intent.id ≢ navigation
StartsOther navigation stop = Unit
StartsOther navigation (commit_new other entry) = Unit
StartsOther navigation (commit_existing other entry location) = Unit
StartsOther navigation (fail other message) = Unit

-- What ends a navigation: its completion, a stop, or the start of another one.
abbrev pub Ends : ℕ → Event → Type 0
Ends navigation (start intent) = intent.id ≢ navigation
Ends navigation stop = Unit
Ends navigation (commit_new other entry) = other ≡ navigation
Ends navigation (commit_existing other entry location) = other ≡ navigation
Ends navigation (fail other message) = other ≡ navigation

differs : (n m : ℕ) → (n == m) ≡ false → some n ≢ some m
differs n m miss h = let same : n ≡ m = cc in let hit : (n == m) ≡ true = (==_iff n m).1 same in cc

-- A completion is refused, or is for what is pending.
completion_cases :
    (t : TabNavigation) (navigation : ℕ)
    → ((take_pending t navigation ≡ (none, t)) × (pending_id t ≢ some navigation))
      ⊎ ((intent : NavigationIntent) × (take_pending t navigation ≡ (some intent, idle t)))
completion_cases t navigation = go t.pending refl
  where
    go :
        (p : Option NavigationIntent)
        → t.pending ≡ p
        → ((take_pending t navigation ≡ (none, t)) × (pending_id t ≢ some navigation))
          ⊎ ((intent : NavigationIntent) × (take_pending t navigation ≡ (some intent, idle t)))
    go none e = inl ((unfold take_pending in rw e refl), (rw e (λ h. absurd cc)))
    go (some intent) e = elim (Bool-cases (intent.id == navigation)) [
      | inl hit ↦ inr (intent, (unfold take_pending in rw (e, hit) refl))
      | inr miss ↦ inl (
        (unfold take_pending in rw (e, miss) refl),
        (rw e (λ h. absurd (differs intent.id navigation miss h))),
      )
    ]

revisit_entry-pending :
    (t : TabNavigation) (entry : ℕ) (location : Text)
    → (revisit_entry t entry location).1.pending ≡ t.pending
unfolding revisit_entry
revisit_entry-pending t entry location =
    elim (Option-cases (find (λ candidate. candidate.id == entry) t.history)) [
      | inl e ↦ rw (e, revisit_entry) refl
      | inr (found, e) ↦ rw (e, revisit_entry) refl
    ]

-- The navigation is not pending.
abbrev pub IsOver : ℕ → TabNavigation → Type 0
IsOver navigation t = pending_id t ≢ some navigation

idle-IsOver : (navigation : ℕ) (t : TabNavigation) → pending_id t ≡ none → IsOver navigation t
idle-IsOver navigation t e h = absurd cc

module _ (t : TabNavigation) (other : ℕ) where
  -- A completion has changed nothing, not being for what is pending, or has left nothing pending.
  abbrev Left : TabNavigation → Type 0
  Left t' = ((t' ≡ t) × IsOver other t) ⊎ (pending_id t' ≡ none)

  commit_new-Left : (entry : HistoryEntry) → Left (Navigation.commit_new t other entry).1
  unfolding Navigation.commit_new push_entry
  commit_new-Left entry = elim (completion_cases t other) [
    | inl (e, over) ↦ simp (e, Navigation.commit_new) (inl (refl, over))
    | inr (_, e) ↦ simp (e, Navigation.commit_new) (inr refl)
  ]

  commit_existing-Left :
      (entry : ℕ) (location : Text) → Left (Navigation.commit_existing t other entry location).1
  unfolding Navigation.commit_existing
  commit_existing-Left entry location = elim (completion_cases t other) [
    | inl (e, over) ↦ simp (e, Navigation.commit_existing) (inl (refl, over))
    | inr (_, e) ↦
        simp (e, Navigation.commit_existing)
          (inr (
            ap (λ p. elim p [ none ↦ none | some intent ↦ some intent.id ])
              (revisit_entry-pending (idle t) entry location)))
  ]

  fail-Left : (message : Text) → Left (Navigation.fail t other message).1
  unfolding Navigation.fail
  fail-Left message = elim (completion_cases t other) [
    | inl (e, over) ↦ simp (e, Navigation.fail) (inl (refl, over))
    | inr (_, e) ↦ simp (e, Navigation.fail) (inr refl)
  ]

  Left-IsOver :
      (navigation : ℕ) (t' : TabNavigation) → Left t' → IsOver navigation t → IsOver navigation t'
  Left-IsOver navigation t' (inl (same, _)) over = subst (IsOver navigation) (sym same) over
  Left-IsOver navigation t' (inr none_) over = idle-IsOver navigation t' none_

  Left-IsOver_self :
      (navigation : ℕ) (t' : TabNavigation) → Left t' → other ≡ navigation → IsOver navigation t'
  Left-IsOver_self navigation t' (inl (same, over)) e =
      subst (λ n. IsOver n t') e (subst (IsOver other) (sym same) over)
  Left-IsOver_self navigation t' (inr none_) e = idle-IsOver navigation t' none_

start-IsOver :
    (navigation : ℕ) (t : TabNavigation) (intent : NavigationIntent)
    → intent.id ≢ navigation
    → IsOver navigation (Navigation.start t intent).1
unfolding Navigation.start
start-IsOver navigation t intent other h = other cc

step-IsOver :
    (navigation : ℕ) (e : Event) (t : TabNavigation)
    → StartsOther navigation e
    → IsOver navigation t
    → IsOver navigation (step e t)
unfolding step stop_loading
step-IsOver navigation (start intent) t other over = start-IsOver navigation t intent other
step-IsOver navigation stop t other over = λ h. absurd cc
step-IsOver navigation (commit_new n entry) t other over =
    Left-IsOver t n navigation _ (commit_new-Left t n entry) over
step-IsOver navigation (commit_existing n entry location) t other over =
    Left-IsOver t n navigation _ (commit_existing-Left t n entry location) over
step-IsOver navigation (fail n message) t other over =
    Left-IsOver t n navigation _ (fail-Left t n message) over

end-IsOver :
    (navigation : ℕ) (e : Event) (t : TabNavigation)
    → Ends navigation e
    → IsOver navigation (step e t)
unfolding step stop_loading
end-IsOver navigation (start intent) t ends = start-IsOver navigation t intent ends
end-IsOver navigation stop t ends = λ h. absurd cc
end-IsOver navigation (commit_new n entry) t ends =
    Left-IsOver_self t n navigation _ (commit_new-Left t n entry) ends
end-IsOver navigation (commit_existing n entry location) t ends =
    Left-IsOver_self t n navigation _ (commit_existing-Left t n entry location) ends
end-IsOver navigation (fail n message) t ends =
    Left-IsOver_self t n navigation _ (fail-Left t n message) ends

run-IsOver :
    (navigation : ℕ) (es : List Event) (t : TabNavigation)
    → All (StartsOther navigation) es
    → IsOver navigation t
    → IsOver navigation (run es t)
unfolding run
run-IsOver navigation [] t others over = over
run-IsOver navigation (e ∷ es) t (other, others) over =
    run-IsOver navigation es (step e t) others (step-IsOver navigation e t other over)

take_pending_stale :
    (t : TabNavigation) (navigation : ℕ)
    → IsOver navigation t
    → take_pending t navigation ≡ (none, t)
take_pending_stale t navigation over = elim (take_pending_cases t navigation) [
  | inl e ↦ e
  | inr (intent, p, same, _) ↦ absurd (over (rw (p, same)))
]

-- Once a navigation has been completed, stopped or superseded, whatever its tab's navigation was, every
-- later completion of it is refused and changes nothing, after any methods of the tab's navigation
-- that do not start the same identifier again.
pub late_completion :
    (navigation : ℕ) (t : TabNavigation) (end_ : Event) (es : List Event) (entry : ℕ)
    (fresh : HistoryEntry) (text : Text)
    → Ends navigation end_
    → All (StartsOther navigation) es
    → let t' = run es (step end_ t) in
      (Navigation.commit_new t' navigation fresh ≡ (none, t'))
      × (Navigation.commit_existing t' navigation entry text ≡ (none, t'))
      × (Navigation.fail t' navigation text ≡ (none, t'))
unfolding Navigation.commit_new Navigation.commit_existing Navigation.fail
late_completion navigation t end_ es entry fresh text ends others =
    let over = run-IsOver navigation es (step end_ t) others (end-IsOver navigation end_ t ends) in
    let e = take_pending_stale (run es (step end_ t)) navigation over in
    (
      simp (e, Navigation.commit_new),
      simp (e, Navigation.commit_existing),
      simp (e, Navigation.fail),
    )

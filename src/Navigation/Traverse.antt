-- ===== src/Navigation/Traverse.antt =====
-- Back, forward and reload as moves of the session history.
use native.Mathlib.Numerals.{add-one}
use zorya.Common.{
  ℕ, zero, suc, ◌+◌, ◌≤◌, ◌≡◌, refl, ◌∙◌, inl, inr, ◌⊎◌, Bool, Option, none, some, List, [], ◌∷◌,
  ◌++◌, arith, ◌==◌, ==_refl, Option-cases, get_elem?, take, drop, position, find, update_first,
  find-position, take-update_first, drop-update_first, get_elem?-update_first,
  position-update_first, position-get_elem?,
}
use zorya.Navigation.{
  Text, HistoryEntry, TabNavigation, NavigationIntent, current_index, current_entry, commit_new,
  back_target, forward_target, reload_target, entry_target, commit_existing, revisit_entry,
  take_pending,
}
use zorya.Navigation.Shape.{IsValid, idle, idle-IsValid}
use zorya.Navigation.Session.{
  Session, session, session_at, session_lem, unsnoc, option_list, take-suc, session-push_entry,
  visit,
}

abbrev relocate : Text → HistoryEntry → HistoryEntry
relocate location entry = record entry { location = location }

-- Show entry `i` of the history, under the location that was committed.
abbrev show : List HistoryEntry → ℕ → HistoryEntry → Text → Session
show history i entry location = record {
  behind = take i history;
  here = some (relocate location entry);
  ahead = drop (i + 1) history;
}

session-revisit_entry :
    {bound : ℕ} (t : TabNavigation) (i : ℕ) (entry : HistoryEntry) (location : Text)
    → IsValid bound t
    → get_elem? t.history i ≡ some entry
    → session (revisit_entry t entry.id location).1 ≡ show t.history i entry location
unfolding revisit_entry current_index
session-revisit_entry {bound} t i entry location v e =
    let at_i = position-get_elem? (λ y. y.id) i 1 t.history bound entry v.rising e in
    let p : HistoryEntry → Bool = λ candidate. candidate.id == entry.id in
    let h = update_first p (relocate location) t.history in
    let found : find p t.history ≡ some entry = find-position p t.history ∙ rw at_i e in
    rw (found, revisit_entry)
      (session_lem _ i (position-update_first p p (relocate location) t.history (λ x. refl) ∙ at_i)
        ∙ rw (
          take-update_first p (relocate location) t.history i at_i,
          get_elem?-update_first p (relocate location) t.history i entry at_i e,
          add-one,
          drop-update_first p (relocate location) t.history i at_i,
        ))

pub take_pending_self :
    (t : TabNavigation) (intent : NavigationIntent)
    → t.pending ≡ some intent
    → take_pending t intent.id ≡ (some intent, idle t)
unfolding take_pending
take_pending_self t intent e = ground (arith, ==_refl intent.id)

pub commit_existing_lem :
    (t : TabNavigation) (intent : NavigationIntent) (entry : ℕ) (location : Text)
    → t.pending ≡ some intent
    → commit_existing t intent.id entry location ≡ revisit_entry (idle t) entry location
unfolding commit_existing
commit_existing_lem t intent entry location e = simp (take_pending_self t intent e, commit_existing)

unsnoc-append : (xs : List HistoryEntry) (x : HistoryEntry) → unsnoc (xs ++ x ∷ []) ≡ some (xs, x)
unfolding unsnoc
unsnoc-append [] x = refl
unsnoc-append (y ∷ []) x = refl
unsnoc-append (y ∷ z ∷ zs) x = ground (arith, unsnoc-append (z ∷ zs) x)

-- Back: the last page behind is shown, and the page that was shown is the first ahead.
pub step_back : Text → Session → Session
unfolding unsnoc
step_back location s = elim (unsnoc s.behind) [
  | none ↦ s
  | some (init, last) ↦ record {
    behind = init;
    here = some (relocate location last);
    ahead = option_list s.here ++ s.ahead;
  }
]

-- Forward: the first page ahead is shown, and the page that was shown is the last behind.
pub step_forward : Text → Session → Session
step_forward location s = elim s.ahead [
  | [] ↦ s
  | next ∷ rest ↦ record {
    behind = s.behind ++ option_list s.here;
    here = some (relocate location next);
    ahead = rest;
  }
]

-- Reload: only the location of the page shown changes.
pub refresh : Text → Session → Session
refresh location s = record s {
  here = elim s.here [ none ↦ none | some entry ↦ some (relocate location entry) ];
}

pub entry_target-eq-some :
    (o : Option HistoryEntry) (id : ℕ) (location : Text)
    → entry_target o ≡ some (id, location)
    → (entry : HistoryEntry) × (o ≡ some entry) × (entry.id ≡ id)
entry_target-eq-some none id location h = cc
entry_target-eq-some (some entry) id location h = (entry, refl, ground arith)

drop-get_elem? :
    (i : ℕ) (xs : List HistoryEntry) → drop i xs ≡ option_list (get_elem? xs i) ++ drop (suc i) xs
drop-get_elem? zero [] = refl
drop-get_elem? zero (x ∷ xs) = refl
drop-get_elem? (suc i) [] = refl
drop-get_elem? (suc i) (x ∷ xs) = drop-get_elem? i xs

show-step_back :
    (history : List HistoryEntry) (i : ℕ) (entry : HistoryEntry) (location : Text)
    → get_elem? history i ≡ some entry
    → show history i entry location ≡ step_back location (session_at history (suc i))
unfolding step_back
show-step_back history i entry location e = rw (
  take-suc i history,
  e,
  unsnoc-append (take i history) entry,
  step_back,
  add-one,
  add-one,
  drop-get_elem? (suc i) history,
)

-- Where a navigation is pending in a valid tab that can go back: committed to the back target, it
-- shows the last of the pages behind, at the location committed, and the page that was shown is the
-- first of those ahead.
pub commit_existing-back :
    {bound : ℕ} (t : TabNavigation) (intent : NavigationIntent) (id : ℕ) (old location : Text)
    → IsValid bound t
    → t.pending ≡ some intent
    → back_target t ≡ some (id, old)
    → session (commit_existing t intent.id id location).1 ≡ step_back location (session t)
unfolding back_target
commit_existing-back t intent id old location v p target = go (Option-cases (current_index t))
  where
    go :
        (current_index t ≡ none) ⊎ ((i : ℕ) × (current_index t ≡ some i))
        → session (commit_existing t intent.id id location).1 ≡ step_back location (session t)
    go (inl e) = absurd (ground arith)
    go (inr (zero, e)) = absurd (ground arith)
    go (inr (suc i, e)) =
        let (entry, at_i, same) =
          entry_target-eq-some (get_elem? t.history i) id old (ground arith) in
        rw (← same, commit_existing_lem t intent entry.id location p, session_lem t (suc i) e)
          (session-revisit_entry (idle t) i entry location (idle-IsValid t v) at_i
            ∙ show-step_back t.history i entry location at_i)

show-step_forward :
    (history : List HistoryEntry) (i : ℕ) (entry : HistoryEntry) (location : Text)
    → get_elem? history (suc i) ≡ some entry
    → show history (suc i) entry location ≡ step_forward location (session_at history i)
unfolding step_forward
show-step_forward history i entry location e =
    rw (add-one, add-one, drop-get_elem? (suc i) history, e, step_forward, take-suc i history)

-- Where a navigation is pending in a valid tab that can go forward: committed to the forward target,
-- it shows the first of the pages ahead, at the location committed, and the page that was shown is
-- the last of those behind.
pub commit_existing-forward :
    {bound : ℕ} (t : TabNavigation) (intent : NavigationIntent) (id : ℕ) (old location : Text)
    → IsValid bound t
    → t.pending ≡ some intent
    → forward_target t ≡ some (id, old)
    → session (commit_existing t intent.id id location).1 ≡ step_forward location (session t)
unfolding forward_target
commit_existing-forward t intent id old location v p target = go (Option-cases (current_index t))
  where
    go :
        (current_index t ≡ none) ⊎ ((i : ℕ) × (current_index t ≡ some i))
        → session (commit_existing t intent.id id location).1 ≡ step_forward location (session t)
    go (inl e) = absurd (ground arith)
    go (inr (i, e)) =
        let (entry, at_i, same) =
          entry_target-eq-some (get_elem? t.history (i + 1)) id old (ground arith) in
        let here : get_elem? t.history (suc i) ≡ some entry = rw add-one at at_i in
        rw (← same, commit_existing_lem t intent entry.id location p, session_lem t i e)
          (session-revisit_entry (idle t) (suc i) entry location (idle-IsValid t v) here
            ∙ show-step_forward t.history i entry location here)

-- Where a navigation is pending in a valid tab that shows a page: committed to the reload target, it
-- changes the location of the page shown, and of the pages nothing else.
pub commit_existing-reload :
    {bound : ℕ} (t : TabNavigation) (intent : NavigationIntent) (id : ℕ) (old location : Text)
    → IsValid bound t
    → t.pending ≡ some intent
    → reload_target t ≡ some (id, old)
    → session (commit_existing t intent.id id location).1 ≡ refresh location (session t)
unfolding reload_target current_entry refresh
commit_existing-reload t intent id old location v p target = go t.current refl
  where
    go :
        (c : Option ℕ)
        → t.current ≡ c
        → session (commit_existing t intent.id id location).1 ≡ refresh location (session t)
    go none e = absurd (ground arith)
    go (some c) e = elim (Option-cases (position (λ y. y.id == c) t.history)) [
      | inl q ↦ absurd (ground (arith, find-position (λ y. y.id == c) t.history))
      | inr (i, q) ↦
          let (entry, at_i, same) =
            entry_target-eq-some (find (λ y. y.id == c) t.history) id old (ground arith) in
          let here : get_elem? t.history i ≡ some entry =
            ground (arith, find-position (λ y. y.id == c) t.history) in
          let index : current_index t ≡ some i = (unfold current_index in rw e q) in
          rw (← same, commit_existing_lem t intent entry.id location p, session_lem t i index)
            (session-revisit_entry (idle t) i entry location (idle-IsValid t v) here
              ∙ rw (here, refresh))
    ]

-- Where a navigation is pending in a valid tab: committed as a new document, under an identifier not
-- below the bound of those in use, it is the page shown; the page shown before joins the pages
-- behind, of which the last 255 stay, and no page is ahead.
pub commit_new-visit :
    {bound : ℕ} (t : TabNavigation) (intent : NavigationIntent) (entry : HistoryEntry)
    → IsValid bound t
    → t.pending ≡ some intent
    → bound ≤ entry.id
    → session (commit_new t intent.id entry).1 ≡ visit entry (session t)
unfolding commit_new session current_index
commit_new-visit t intent entry v p fresh =
    simp (take_pending_self t intent p, commit_new)
      (session-push_entry (idle t) entry (idle-IsValid t v) fresh)

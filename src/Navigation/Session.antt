-- ===== src/Navigation/Session.antt =====
-- A tab's history as the user sees it: the pages behind, the page shown and the pages ahead.
use zorya.Common.{
  ℕ, zero, suc, ◌+◌, ◌-◌, ◌≤◌, ◌≡◌, refl, ap, ◌∙◌, inl, inr, Bool, true, Option, none, some, List,
  [], ◌∷◌, ◌++◌, arith, ◌==◌, ==_refl, Option-cases, length, get_elem?, take, drop, position,
  position-Rising_above, drop-Rising,
}
use native.Mathlib.Numerals.{add-one}
use zorya.Navigation.{
  HistoryEntry, TabNavigation, current_index, kept_history, push_entry, enforce_history_limit,
}
use zorya.Navigation.Shape.{IsValid, kept_history-Rising, enforce_history_limit_lem}

pub record Session : Type 0 where
  pub behind : List HistoryEntry
  pub here : Option HistoryEntry
  pub ahead : List HistoryEntry

abbrev pub session_at : List HistoryEntry → ℕ → Session
session_at history index = record {
  behind = take index history;
  here = get_elem? history index;
  ahead = drop (index + 1) history;
}

unfoldable pub session : TabNavigation → Session
session t = elim (current_index t) [
  | none ↦ record { behind = []; here = none; ahead = [] }
  | some index ↦ session_at t.history index
]

abbrev pub option_list : Option HistoryEntry → List HistoryEntry
option_list none = []
option_list (some entry) = entry ∷ []

-- The last `n` entries.
abbrev keep_last : ℕ → List HistoryEntry → List HistoryEntry
keep_last n entries = drop (length entries - n) entries

-- A new page: the page shown joins the pages behind, of which the last 255 stay, and the pages
-- ahead are gone.
unfoldable pub visit : HistoryEntry → Session → Session
visit entry s = record {
  behind = keep_last 255 (s.behind ++ option_list s.here);
  here = some entry;
  ahead = [];
}

-- The last element, and what stands before it.
unfoldable pub unsnoc : List HistoryEntry → Option (List HistoryEntry × HistoryEntry)
unsnoc [] = none
unsnoc (x ∷ []) = some ([], x)
unsnoc (x ∷ y ∷ ys) = elim (unsnoc (y ∷ ys)) [
  | none ↦ none
  | some (init, last) ↦ some (x ∷ init, last)
]

module _ {ℓ} {A : Type ℓ} where
  take-length_append : (xs ys : List A) → take (length xs) (xs ++ ys) ≡ xs
  take-length_append [] ys = refl
  take-length_append (x ∷ xs) ys = ap (◌∷◌ x) (take-length_append xs ys)

  get_elem?-length_append :
      (xs : List A) (y : A) (ys : List A) → get_elem? (xs ++ y ∷ ys) (length xs) ≡ some y
  get_elem?-length_append [] y ys = refl
  get_elem?-length_append (x ∷ xs) y ys = get_elem?-length_append xs y ys

  drop-length_append :
      (xs : List A) (y : A) (ys : List A) → drop (suc (length xs)) (xs ++ y ∷ ys) ≡ ys
  drop-length_append [] y ys = refl
  drop-length_append (x ∷ xs) y ys = drop-length_append xs y ys

  position-append_fresh :
      (p : A → Bool) (xs : List A) (y : A) (ys : List A)
      → position p xs ≡ none
      → p y ≡ true
      → position p (xs ++ y ∷ ys) ≡ some (length xs)
  unfolding position
  position-append_fresh p [] y ys h k = rw k
  position-append_fresh p (x ∷ xs) y ys h k = ground (arith, position-append_fresh p xs y ys)

pub take-suc :
    (i : ℕ) (xs : List HistoryEntry) → take (suc i) xs ≡ take i xs ++ option_list (get_elem? xs i)
take-suc zero [] = refl
take-suc zero (x ∷ xs) = refl
take-suc (suc i) [] = refl
take-suc (suc i) (x ∷ xs) = ap (◌∷◌ x) (take-suc i xs)

kept_history-session :
    (t : TabNavigation) → kept_history t ≡ (session t).behind ++ option_list (session t).here
unfolding kept_history session
kept_history-session t = elim (Option-cases (current_index t)) [
  | inl e ↦ rw (e, kept_history, session)
  | inr (i, e) ↦ rw (e, kept_history, session) (rw add-one (take-suc i t.history))
]

-- Where the new entry stands in the history that `push_entry` leaves.
position-push_entry :
    {bound : ℕ} (t : TabNavigation) (entry : HistoryEntry)
    → IsValid bound t
    → bound ≤ entry.id
    → let rest = keep_last 255 (kept_history t) in
      position (λ e. e.id == entry.id) (rest ++ entry ∷ []) ≡ some (length rest)
position-push_entry {bound} t entry v fresh =
    let rest = keep_last 255 (kept_history t) in
    position-append_fresh (λ e. e.id == entry.id) rest entry []
      (position-Rising_above (λ e. e.id) entry.id 1 rest bound
        (drop-Rising (λ e. e.id) _ 1 (kept_history t) bound (kept_history-Rising t v)) fresh)
      (==_refl entry.id)

session_at-append :
    (rest : List HistoryEntry) (entry : HistoryEntry)
    → session_at (rest ++ entry ∷ []) (length rest)
      ≡ record { behind = rest; here = some entry; ahead = [] }
session_at-append rest entry = rw (
  take-length_append rest (entry ∷ []),
  get_elem?-length_append rest entry [],
  add-one,
  drop-length_append rest entry [],
)

limit-push_entry :
    (kept : List HistoryEntry) (entry : HistoryEntry)
    → enforce_history_limit (kept ++ entry ∷ []) ≡ keep_last 255 kept ++ entry ∷ []
limit-push_entry kept entry =
    enforce_history_limit_lem kept entry ∙ ap (λ n. drop n kept ++ entry ∷ []) (omega arith)

pub session_lem :
    (t : TabNavigation) (i : ℕ) → current_index t ≡ some i → session t ≡ session_at t.history i
unfolding session
session_lem t i e = rw (e, session)

pub session-push_entry :
    {bound : ℕ} (t : TabNavigation) (entry : HistoryEntry)
    → IsValid bound t
    → bound ≤ entry.id
    → session (push_entry t entry) ≡ visit entry (session t)
unfolding visit push_entry current_index
session-push_entry t entry v fresh =
    let rest = keep_last 255 (kept_history t) in
    let limit = limit-push_entry (kept_history t) entry in
    session_lem (push_entry t entry) (length rest) (rw limit (position-push_entry t entry v fresh))
    ∙ ap (λ h. session_at h (length rest)) limit
    ∙ session_at-append rest entry
    ∙ rw (kept_history-session t)

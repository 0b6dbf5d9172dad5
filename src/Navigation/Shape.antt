-- ===== src/Navigation/Shape.antt =====
-- The invariant of a tab's session history, and the methods of `TabNavigation`.
use zorya.Common.{
  ℕ, suc, ◌+◌, ◌-◌, ◌≤◌, ◌≡◌, refl, ◌∙◌, inl, inr, true, Option, none, some, List, [], ◌∷◌, ◌++◌,
  arith, ◌==◌, ==_refl, ==_iff, ◌⊎◌, Bool-cases, Option-cases, length, drop, any, find,
  update_first, length-append, length-drop, drop-append, any-append_right, length-update_first,
  any-update_first, find-eq-some, Rising, Rising-le, Rising-widen, Rising-append, take-Rising,
  drop-Rising, update_first-Rising,
}
use zorya.Navigation.{
  Text, NavigationIntent, NavigationIntentKind, new_document, reload, traverse_history,
  HistoryEntry, TabNavigation, max_tab_history_entries, new, current_index, start, stop_loading,
  take_pending, kept_history, enforce_history_limit, push_entry, commit_new, revisit_entry,
  commit_existing, fail,
}

-- An entry with this identifier is in the history.
abbrev pub Known : List HistoryEntry → ℕ → Type 0
Known history id = any (λ entry. entry.id == id) history ≡ true

-- There is a current entry, unless the history is empty.
abbrev pub CurrentKnown : List HistoryEntry → Option ℕ → Type 0
CurrentKnown history none = history ≡ []
CurrentKnown history (some id) = Known history id

abbrev pub KindKnown : List HistoryEntry → NavigationIntentKind → Type 0
KindKnown history new_document = Unit
KindKnown history (reload entry) = Known history entry
KindKnown history (traverse_history entry) = Known history entry

-- A pending reload or traversal is towards an entry of the history.
abbrev pub PendingKnown : List HistoryEntry → Option NavigationIntent → Type 0
PendingKnown history none = Unit
PendingKnown history (some intent) = KindKnown history intent.kind

-- `bound` is the next history entry identifier.
pub record IsValid (bound : ℕ) (t : TabNavigation) : Type 0 where
  pub rising : Rising (λ (entry : HistoryEntry). entry.id) 1 t.history bound
  pub limited : length t.history ≤ max_tab_history_entries
  pub current_known : CurrentKnown t.history t.current
  pub pending_known : PendingKnown t.history t.pending

pub new-IsValid : (bound : ℕ) → 1 ≤ bound → IsValid bound new
unfolding new
new-IsValid bound h = record {
  rising = h;
  limited = omega arith;
  current_known = refl;
  pending_known = tt;
}

-- A larger bound serves too.
pub IsValid-widen :
    {bound bound' : ℕ} (t : TabNavigation) → bound ≤ bound' → IsValid bound t → IsValid bound' t
IsValid-widen {bound} {bound'} t h v = record {
  rising = Rising-widen _ 1 1 t.history bound bound' (omega arith) h v.rising;
  limited = v.limited;
  current_known = v.current_known;
  pending_known = v.pending_known;
}

pub start-IsValid :
    {bound : ℕ} (t : TabNavigation) (intent : NavigationIntent)
    → KindKnown t.history intent.kind
    → IsValid bound t
    → IsValid bound (start t intent).1
unfolding start
start-IsValid t intent k v = record {
  rising = v.rising;
  limited = v.limited;
  current_known = v.current_known;
  pending_known = k;
}

pub stop_loading-IsValid :
    {bound : ℕ} (t : TabNavigation) → IsValid bound t → IsValid bound (stop_loading t).1
unfolding stop_loading
stop_loading-IsValid t v = record {
  rising = v.rising;
  limited = v.limited;
  current_known = v.current_known;
  pending_known = tt;
}

abbrev pub idle : TabNavigation → TabNavigation
idle t = record t { pending = none }

-- `take_pending` takes the intent with this identifier and leaves any other.
pub take_pending_cases :
    (t : TabNavigation) (navigation : ℕ)
    → (take_pending t navigation ≡ (none, t))
      ⊎ ((intent : NavigationIntent) × (t.pending ≡ some intent)
          × (intent.id ≡ navigation)
          × (take_pending t navigation ≡ (some intent, idle t)))
take_pending_cases t navigation = go t.pending refl
  where
    go :
        (p : Option NavigationIntent)
        → t.pending ≡ p
        → (take_pending t navigation ≡ (none, t))
          ⊎ ((intent : NavigationIntent) × (t.pending ≡ some intent)
              × (intent.id ≡ navigation)
              × (take_pending t navigation ≡ (some intent, idle t)))
    go none e = inl (unfold take_pending in rw e)
    go (some intent) e = elim (Bool-cases (intent.id == navigation)) [
      | inl hit ↦ inr (intent, e, (==_iff _ _).0 hit, (unfold take_pending in ground arith))
      | inr miss ↦ inl (unfold take_pending in ground arith)
    ]

pub idle-IsValid : {bound : ℕ} (t : TabNavigation) → IsValid bound t → IsValid bound (idle t)
idle-IsValid t v = record {
  rising = v.rising;
  limited = v.limited;
  current_known = v.current_known;
  pending_known = tt;
}

pub kept_history-Rising :
    {bound : ℕ} (t : TabNavigation)
    → IsValid bound t
    → Rising (λ (entry : HistoryEntry). entry.id) 1 (kept_history t) bound
unfolding kept_history
kept_history-Rising {bound} t v = elim (Option-cases (current_index t)) [
  | inl e ↦ rw (e, kept_history) (Rising-le _ 1 t.history bound v.rising)
  | inr (i, e) ↦ rw (e, kept_history) (take-Rising _ (i + 1) 1 t.history bound v.rising)
]

-- What the limit leaves of a history that ends in `entry`.
pub enforce_history_limit_lem :
    (kept : List HistoryEntry) (entry : HistoryEntry)
    → enforce_history_limit (kept ++ entry ∷ [])
      ≡ drop (length kept + 1 - max_tab_history_entries) kept ++ entry ∷ []
unfolding enforce_history_limit
enforce_history_limit_lem kept entry = ground (
  arith,
  length-append kept (entry ∷ []),
  drop-append (length kept + 1 - max_tab_history_entries) kept (entry ∷ []) (omega arith),
)

pub push_entry-IsValid :
    {bound : ℕ} (t : TabNavigation) (entry : HistoryEntry)
    → entry.id ≡ bound
    → t.pending ≡ none
    → IsValid bound t
    → IsValid (suc bound) (push_entry t entry)
unfolding push_entry
push_entry-IsValid {bound} t entry fresh idle v =
    let kept = kept_history t in
    let rest = drop (length kept + 1 - max_tab_history_entries) kept in
    record {
      rising = rw (enforce_history_limit_lem kept entry) (
          Rising-append _ 1 rest bound (entry ∷ []) (suc bound)
            (drop-Rising _ _ 1 kept bound (kept_history-Rising t v)) (omega arith));
      limited = rw (enforce_history_limit_lem kept entry) (
          omega (
            arith,
            length-append rest (entry ∷ []),
            length-drop (length kept + 1 - max_tab_history_entries) kept,
          ));
      current_known =
          rw (enforce_history_limit_lem kept entry)
            (any-append_right _ rest (entry ∷ []) (unfold any in rw (==_refl entry.id)));
      pending_known = rw idle tt;
    }

pub commit_new-IsValid :
    {bound : ℕ} (t : TabNavigation) (navigation : ℕ) (entry : HistoryEntry)
    → entry.id ≡ bound
    → IsValid bound t
    → IsValid (suc bound) (commit_new t navigation entry).1
unfolding commit_new
commit_new-IsValid {bound} t navigation entry fresh v = elim (take_pending_cases t navigation) [
  | inl e ↦ simp (e, commit_new) (IsValid-widen t (omega arith) v)
  | inr (_, _, _, e) ↦
      simp (e, commit_new) (push_entry-IsValid (idle t) entry fresh refl (idle-IsValid t v))
]

-- Writing a location keeps every identifier.
Known-update_first :
    (history : List HistoryEntry) (entry id : ℕ) (location : Text)
    → Known history id
    → Known
        (update_first
          (λ candidate. candidate.id == entry)
          (λ candidate. record candidate { location = location })
          history)
        id
Known-update_first history entry id location k =
    any-update_first (λ e. e.id == id) (λ candidate. candidate.id == entry)
      (λ candidate. record candidate { location = location }) history (λ x. refl)
    ∙ k

pub revisit_entry-IsValid :
    {bound : ℕ} (t : TabNavigation) (entry : ℕ) (location : Text)
    → t.pending ≡ none
    → IsValid bound t
    → IsValid bound (revisit_entry t entry location).1
unfolding revisit_entry
revisit_entry-IsValid {bound} t entry location idle v =
    elim (Option-cases (find (λ candidate. candidate.id == entry) t.history)) [
      | inl e ↦ rw (e, revisit_entry) v
      | inr (a, e) ↦
          rw (e, revisit_entry)
            record {
              rising = update_first-Rising _ _ _ 1 t.history bound (λ x. refl) v.rising;
              limited = omega (
                arith,
                length-update_first (λ (c : HistoryEntry). c.id == entry)
                    (λ c. record c { location = location }) t.history,
              );
              current_known =
                  Known-update_first t.history entry entry location (find-eq-some _ t.history a e);
              pending_known = rw idle tt;
            }
    ]

pub commit_existing-IsValid :
    {bound : ℕ} (t : TabNavigation) (navigation entry : ℕ) (location : Text)
    → IsValid bound t
    → IsValid bound (commit_existing t navigation entry location).1
unfolding commit_existing
commit_existing-IsValid t navigation entry location v = elim (take_pending_cases t navigation) [
  | inl e ↦ simp (e, commit_existing) v
  | inr (_, _, _, e) ↦
      simp (e, commit_existing)
        (revisit_entry-IsValid (idle t) entry location refl (idle-IsValid t v))
]

pub fail-IsValid :
    {bound : ℕ} (t : TabNavigation) (navigation : ℕ) (message : Text)
    → IsValid bound t
    → IsValid bound (fail t navigation message).1
unfolding fail
fail-IsValid t navigation message v = elim (take_pending_cases t navigation) [
  | inl e ↦ simp (e, fail) v
  | inr (_, _, _, e) ↦
      simp (e, fail)
        record {
          rising = v.rising;
          limited = v.limited;
          current_known = v.current_known;
          pending_known = tt;
        }
]

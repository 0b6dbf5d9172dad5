-- ===== src/Saving/Events.antt =====
-- Runs of the methods of the runtime on the browsing history.
use zorya.Common.{
  ℕ, ◌≡◌, refl, sym, subst, inl, inr, Option, none, some, List, [], ◌∷◌, Outcome, ok, err, panicked,
  Option-cases, position, ◌==◌,
}
use zorya.Navigation.{Text}
use zorya.History
use zorya.History.{BrowsingHistorySnapshot}
use zorya.History.Bounds as Bounds
use zorya.Saving
use zorya.Saving.{
  ProfileRuntime, ProfileRuntimeError, ProfileHistorySaveCompletion,
  browsing_history_unsaved_mutations,
}
use zorya.Saving.Shape.{
  IsValid, Fine, record_committed_navigation-Fine, active_browsing_history_mut-Fine,
}
use zorya.Saving.Saves.{
  begin_browsing_history_save-Fine, begin_browsing_history_save_if_dirty-Fine,
  cancel_browsing_history_save-Fine,
}
use zorya.Saving.Completion.{complete_browsing_history_save-Fine}

pub data Event : Type 0 where
  record_committed_navigation : (profile millis : ℕ) → Text → Event
  remove_visit : (profile visit : ℕ) → Event
  record_visit : (profile millis : ℕ) → Text → Event
  clear begin_browsing_history_save begin_browsing_history_save_if_dirty : (profile : ℕ) → Event
  cancel_browsing_history_save : (save : ℕ) → Event
  complete_browsing_history_save : ProfileHistorySaveCompletion → Event

-- The runtime after a method, unless it panicked.
abbrev after : {A : Type 0} → Outcome ProfileRuntimeError A × ProfileRuntime → Option ProfileRuntime
after (ok a, s) = some s
after (err e, s) = some s
after (panicked, s) = none

unfoldable pub step : Event → ProfileRuntime → Option ProfileRuntime
step (record_committed_navigation p m t) s = after (Saving.record_committed_navigation p m t s)
step (remove_visit p id) s =
    after (Saving.active_browsing_history_mut p (λ h. (History.remove_visit h id).1) s)
step (clear p) s = after (Saving.active_browsing_history_mut p History.clear s)
step (begin_browsing_history_save p) s = after (Saving.begin_browsing_history_save p s)
step (record_visit p m t) s =
    after (Saving.active_browsing_history_mut p (λ h. (History.record_visit m t h).1) s)
step (begin_browsing_history_save_if_dirty p) s =
    after (Saving.begin_browsing_history_save_if_dirty p s)
step (cancel_browsing_history_save id) s = after (Saving.cancel_browsing_history_save id s)
step (complete_browsing_history_save c) s = after (Saving.complete_browsing_history_save c s)

abbrev go_on :
    Option ProfileRuntime → (ProfileRuntime → Option ProfileRuntime) → Option ProfileRuntime
go_on none rest = none
go_on (some s) rest = rest s

unfoldable pub run : List Event → ProfileRuntime → Option ProfileRuntime
run [] s = some s
run (e ∷ es) s = go_on (step e s) (run es)

abbrev Reached : Option ProfileRuntime → Type 0
Reached o = (s : ProfileRuntime) × (o ≡ some s) × IsValid s

after-Reached :
    {A : Type 0} (r : Outcome ProfileRuntimeError A × ProfileRuntime) → Fine r → Reached (after r)
after-Reached (ok a, s) f = (s, refl, f.1)
after-Reached (err e, s) f = (s, refl, f.1)
after-Reached (panicked, s) f = absurd f.0

remove_visit-generation :
    (h : BrowsingHistorySnapshot) (id : ℕ) → (History.remove_visit h id).1.generation ≡ h.generation
unfolding History.remove_visit
remove_visit-generation h id = elim (Option-cases (position (λ v. v.id == id) h.visits)) [
  | inl e ↦ rw (e, History.remove_visit)
  | inr (i, e) ↦ rw (e, History.remove_visit)
]

clear-generation : (h : BrowsingHistorySnapshot) → (History.clear h).generation ≡ h.generation
unfolding History.clear
clear-generation h = refl

record_visit-generation :
    (millis : ℕ) (location : Text) (h : BrowsingHistorySnapshot)
    → (History.record_visit millis location h).1.generation ≡ h.generation
record_visit-generation millis location h = elim (Bounds.record_visit_cases millis location h) [
  | inl (e, f) ↦ rw f refl
  | inr (_, _, _, f) ↦ rw f refl
]

step-Reached : (e : Event) (s : ProfileRuntime) → IsValid s → Reached (step e s)
unfolding step
step-Reached (record_committed_navigation p m t) s v =
    after-Reached _ (record_committed_navigation-Fine p m t s v)
step-Reached (remove_visit p id) s v = after-Reached _ (
    active_browsing_history_mut-Fine p (λ h. (History.remove_visit h id).1) s
      (λ h. remove_visit-generation h id) (λ h. Bounds.remove_visit-IsValid h id) v)
step-Reached (clear p) s v =
    after-Reached _
      (active_browsing_history_mut-Fine p History.clear s clear-generation Bounds.clear-IsValid v)
step-Reached (begin_browsing_history_save p) s v =
    after-Reached _ (begin_browsing_history_save-Fine p s v)
step-Reached (record_visit p m t) s v = after-Reached _ (
    active_browsing_history_mut-Fine p (λ h. (History.record_visit m t h).1) s
      (record_visit-generation m t) (Bounds.record_visit-IsValid m t) v)
step-Reached (begin_browsing_history_save_if_dirty p) s v =
    after-Reached _ (begin_browsing_history_save_if_dirty-Fine p s v)
step-Reached (cancel_browsing_history_save id) s v =
    after-Reached _ (cancel_browsing_history_save-Fine id s v)
step-Reached (complete_browsing_history_save c) s v =
    after-Reached _ (complete_browsing_history_save-Fine c s v)

go_on-Reached :
    (o : Option ProfileRuntime) (rest : ProfileRuntime → Option ProfileRuntime)
    → Reached o
    → ((s : ProfileRuntime) → IsValid s → Reached (rest s))
    → Reached (go_on o rest)
go_on-Reached o rest (s, e, v) keep = subst (λ o. Reached (go_on o rest)) (sym e) (keep s v)

-- From a valid runtime, every run of these methods, whatever they are called with, comes to its end
-- without a panic, in a valid runtime.
pub run-Reached :
    (es : List Event) (s : ProfileRuntime)
    → IsValid s
    → (s' : ProfileRuntime) × (run es s ≡ some s') × IsValid s'
unfolding run
run-Reached [] s v = (s, refl, v)
run-Reached (e ∷ es) s v = go_on-Reached (step e s) (run es) (step-Reached e s v) (run-Reached es)

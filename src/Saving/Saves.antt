-- ===== src/Saving/Saves.antt =====
-- Beginning and cancelling a save of the browsing history, in src/profile_runtime.rs.
use zorya.Common.{
  ℕ, ◌+◌, ◌-◌, ◌==◌, ◌≡◌, refl, inl, inr, ◌⊎◌, Option, none, some, arith, Bool-cases, Option-cases,
  u64_max, ltb, is_just, ok, err,
}
use zorya.Saving
use zorya.Saving.{
  ActiveProfile, PendingProfileHistorySave, ProfileHistorySaveIntent, ProfileHistorySaveCompletion,
  ProfileRuntimeError, ProfileRuntime, Action, profile_id, save_id, validated, stale_profile,
  browsing_history_unsaved_mutations, begin_browsing_history_save, begin_if,
  begin_browsing_history_save_if_dirty, cancel_browsing_history_save, same_text, mismatch, saved,
  complete_browsing_history_save,
}
use zorya.Saving.Shape.{PendingValid, IsValid, Fine, validated_cases, unsaved_lem, active-valid}

-- The state and the intent of a save that begins.
abbrev pub begun : ProfileRuntime → ActiveProfile → ProfileRuntime
begun s active = record s {
  next_history_save_id = s.next_history_save_id + 1;
  pending_history_save = some (record {
    id = s.next_history_save_id;
    profile = active.id;
    base_generation = active.browsing_history.generation;
    mutation_revision = active.browsing_history_revision;
  });
}

abbrev pub intent_of : ProfileRuntime → ActiveProfile → ProfileHistorySaveIntent
intent_of s active = record {
  id = s.next_history_save_id;
  profile = active.id;
  root = active.root;
  snapshot = active.browsing_history;
  mutation_revision = active.browsing_history_revision;
}

begun-IsValid :
    (s : ProfileRuntime) (active : ActiveProfile)
    → s.active ≡ some active
    → IsValid s
    → IsValid (begun s active)
begun-IsValid s active e v = record {
  active_valid = v.active_valid;
  pending_valid = rw e (refl, refl, (active-valid s active e v).durable_le, omega arith);
}

-- A save begins, or fails and changes nothing.
pub begin_cases :
    (profile : ℕ) (s : ProfileRuntime)
    → ((error : ProfileRuntimeError) × (begin_browsing_history_save profile s ≡ (err error, s)))
      ⊎ ((active : ActiveProfile) × (s.active ≡ some active)
          × (active.id ≡ profile)
          × (begin_browsing_history_save profile s ≡ (ok (intent_of s active), begun s active)))
unfolding begin_browsing_history_save
begin_cases profile s = elim (validated_cases profile s) [
  | inl f ↦ inl (stale_profile (profile_id s.active) profile, simp (f, begin_browsing_history_save))
  | inr (active, e, same, f) ↦ elim (Option-cases s.pending_history_save) [
    | inr (pending, p) ↦ inl (
      Saving.browsing_history_save_already_pending pending.id,
      simp (f, p, begin_browsing_history_save),
    )
    | inl p ↦ elim (Bool-cases (ltb u64_max (s.next_history_save_id + 1))) [
      | inl full ↦
          inl (
            Saving.profile_history_save_id_exhausted,
            simp (f, p, full, begin_browsing_history_save),
          )
      | inr free ↦ inr (active, e, same, simp (f, p, free, ← same, begin_browsing_history_save))
    ]
  ]
]

pub begin_browsing_history_save-Fine :
    (profile : ℕ) (s : ProfileRuntime) → IsValid s → Fine (begin_browsing_history_save profile s)
begin_browsing_history_save-Fine profile s v = elim (begin_cases profile s) [
  | inl (error, f) ↦ rw f (tt, v)
  | inr (active, e, same, f) ↦ rw f (tt, begun-IsValid s active e v)
]

pub begin_browsing_history_save_if_dirty-Fine :
    (profile : ℕ) (s : ProfileRuntime)
    → IsValid s
    → Fine (begin_browsing_history_save_if_dirty profile s)
unfolding begin_browsing_history_save_if_dirty browsing_history_unsaved_mutations
begin_browsing_history_save_if_dirty-Fine profile s v = elim (validated_cases profile s) [
  | inl f ↦
      simp (f, begin_browsing_history_save_if_dirty, browsing_history_unsaved_mutations) (tt, v)
  | inr (active, e, same, f) ↦
      let unsaved = unsaved_lem profile s active v e same in
      elim (Bool-cases
        (active.browsing_history_revision - active.durable_browsing_history_revision == 0)) [
          | inl clean ↦ simp (unsaved, clean, begin_browsing_history_save_if_dirty) (tt, v)
          | inr dirty ↦ elim (begin_cases profile s) [
            | inl (error, g) ↦
                simp (unsaved, dirty, g, begin_browsing_history_save_if_dirty) (tt, v)
            | inr (begun_active, here, _, g) ↦
                simp (unsaved, dirty, g, begin_browsing_history_save_if_dirty)
                  (tt, begun-IsValid s begun_active here v)
          ]
        ]
]

pub cancel_browsing_history_save-Fine :
    (save : ℕ) (s : ProfileRuntime) → IsValid s → Fine (cancel_browsing_history_save save s)
unfolding cancel_browsing_history_save
cancel_browsing_history_save-Fine save s v =
    elim (Bool-cases (is_just (save_id s.pending_history_save) save)) [
      | inl hit ↦
          rw (hit, cancel_browsing_history_save)
            (
              tt,
              record { active_valid = v.active_valid; pending_valid = none-PendingValid s.active },
            )
      | inr miss ↦ rw (miss, cancel_browsing_history_save) (tt, v)
    ]
  where
    none-PendingValid : (a : Option ActiveProfile) → PendingValid a none
    none-PendingValid a = tt

-- ===== src/Saving.antt =====
-- The part of `ProfileRuntime` in src/profile_runtime.rs that keeps and saves the browsing history
-- of the active profile. The other fields of the runtime, and the lock that an intent carries for
-- the store to check, are left out; what the store answers comes in with the completion.
pub mod Shape
pub mod Saves
pub mod Completion
pub mod Events
use zorya.Common.{
  ℕ, ◌-◌, Bool, true, false, not, Option, none, some, ◌==◌, ◌||◌, ltb, is_just, is_some,
  checked_add, if◌then◌else◌, List, [], ◌∷◌, Outcome, ok, err, panicked, Call, ◌>>=◌, ◌>>◌, pure,
  raise, gets, modify, or_raise, expect, raise_if,
}
use zorya.Navigation.{Text}
use zorya.History
use zorya.History.{
  BrowsingHistorySnapshot, BrowsingHistoryRecord, BrowsingHistoryError, BrowsingHistoryVisit,
}

pub record ActiveProfile : Type 0 where
  pub id : ℕ
  pub root : Text
  pub browsing_history : BrowsingHistorySnapshot
  pub browsing_history_revision : ℕ
  pub durable_browsing_history_revision : ℕ

pub record PendingProfileHistorySave : Type 0 where
  pub id : ℕ
  pub profile : ℕ
  pub base_generation : ℕ
  pub mutation_revision : ℕ

pub record ProfileHistorySaveIntent : Type 0 where
  pub id : ℕ
  pub profile : ℕ
  pub root : Text
  pub snapshot : BrowsingHistorySnapshot
  pub mutation_revision : ℕ

-- `result` is the generation that was saved, or none where the store failed.
pub record ProfileHistorySaveCompletion : Type 0 where
  pub id : ℕ
  pub profile : ℕ
  pub root : Text
  pub base_generation : ℕ
  pub mutation_revision : ℕ
  pub result : Option ℕ

-- The errors that these methods return.
pub data ProfileRuntimeError : Type 0 where
  stale_profile : (expected : Option ℕ) → (actual : ℕ) → ProfileRuntimeError
  profile_history_mutation_revision_exhausted : ProfileRuntimeError
  profile_history_save_id_exhausted : ProfileRuntimeError
  browsing_history : BrowsingHistoryError → ProfileRuntimeError
  browsing_history_save_already_pending : (pending : ℕ) → ProfileRuntimeError
  stale_browsing_history_save : (expected : Option ℕ) → (actual : ℕ) → ProfileRuntimeError
  browsing_history_save_target_mismatch : (save : ℕ) → ProfileRuntimeError
  browsing_history_save_generation_mismatch : (expected current saved : ℕ) → ProfileRuntimeError

pub record ProfileRuntime : Type 0 where
  pub next_history_save_id : ℕ
  pub active : Option ActiveProfile
  pub pending_history_save : Option PendingProfileHistorySave

abbrev pub Action : Type 0 → Type 0
Action A = Call ProfileRuntime ProfileRuntimeError A

abbrev pub profile_id : Option ActiveProfile → Option ℕ
profile_id none = none
profile_id (some active) = some active.id

abbrev pub save_id : Option PendingProfileHistorySave → Option ℕ
save_id none = none
save_id (some pending) = some pending.id

-- `expected != Some(profile)` returns `StaleProfile`; the active profile is expected after that.
unfoldable pub validated : ℕ → Action ActiveProfile
validated profile = do
  expected ← gets (λ s. profile_id s.active)
  raise_if (not (is_just expected profile)) (stale_profile expected profile)
  active ← gets (λ s. s.active)
  expect active

-- `checked_sub`, that is expected to succeed.
abbrev pub checked_sub : ℕ → ℕ → Option ℕ
checked_sub a b = if ltb a b then none else some (a - b)

unfoldable pub browsing_history_unsaved_mutations : ℕ → Action ℕ
browsing_history_unsaved_mutations profile = do
  active ← validated profile
  expect (checked_sub active.browsing_history_revision active.durable_browsing_history_revision)

unfoldable pub browsing_history_mutation_revision : ℕ → Action ℕ
browsing_history_mutation_revision profile = do
  active ← validated profile
  pure active.browsing_history_revision

-- The result of `record_visit`, once the new revision is known.
abbrev pub recorded :
    ActiveProfile
    → ℕ
    → Outcome BrowsingHistoryError BrowsingHistoryRecord × BrowsingHistorySnapshot
    → Action BrowsingHistoryRecord
recorded active revision (ok record_, history) = do
  modify (λ s. record s {
    active =
        some (record active { browsing_history = history; browsing_history_revision = revision });
  })
  pure record_
recorded active revision (err e, history) = do
  modify (λ s. record s { active = some (record active { browsing_history = history }) })
  raise (browsing_history e)
recorded active revision (panicked, history) = expect none

-- `location` is that of the navigation that was committed.
unfoldable pub record_committed_navigation : ℕ → ℕ → Text → Action BrowsingHistoryRecord
record_committed_navigation profile visited_unix_millis location = do
  active ← validated profile
  revision ←
      or_raise (checked_add active.browsing_history_revision 1)
        profile_history_mutation_revision_exhausted
  recorded active revision
      (History.record_visit visited_unix_millis location active.browsing_history)

-- `active_browsing_history_mut`, and the method that is called on the reference it returns.
unfoldable pub active_browsing_history_mut :
    ℕ → (BrowsingHistorySnapshot → BrowsingHistorySnapshot) → Action (Unit {0})
active_browsing_history_mut profile method = do
  active ← validated profile
  revision ←
      or_raise (checked_add active.browsing_history_revision 1)
        profile_history_mutation_revision_exhausted
  modify (λ s. record s {
    active = some (record active {
      browsing_history = method active.browsing_history;
      browsing_history_revision = revision;
    });
  })

abbrev pub reject_pending_save : Option PendingProfileHistorySave → Action (Unit {0})
reject_pending_save none = pure tt
reject_pending_save (some pending) = raise (browsing_history_save_already_pending pending.id)

unfoldable pub begin_browsing_history_save : ℕ → Action ProfileHistorySaveIntent
begin_browsing_history_save profile = do
  active ← validated profile
  s ← gets (λ s. s)
  reject_pending_save s.pending_history_save
  next ← or_raise (checked_add s.next_history_save_id 1) profile_history_save_id_exhausted
  let pending : PendingProfileHistorySave = record {
    id = s.next_history_save_id;
    profile = profile;
    base_generation = active.browsing_history.generation;
    mutation_revision = active.browsing_history_revision;
  }
  modify (λ s. record s { next_history_save_id = next; pending_history_save = some pending })
  pure (record {
    id = s.next_history_save_id;
    profile = profile;
    root = active.root;
    snapshot = active.browsing_history;
    mutation_revision = active.browsing_history_revision;
  })

abbrev pub begin_if : ℕ → Bool → Action (Option ProfileHistorySaveIntent)
begin_if profile false = pure none
begin_if profile true = do intent ← begin_browsing_history_save profile; pure (some intent)

unfoldable pub begin_browsing_history_save_if_dirty : ℕ → Action (Option ProfileHistorySaveIntent)
begin_browsing_history_save_if_dirty profile = do
  unsaved ← browsing_history_unsaved_mutations profile
  begin_if profile (not (unsaved == 0))

unfoldable pub cancel_browsing_history_save : ℕ → Action (Unit {0})
cancel_browsing_history_save save = do
  expected ← gets (λ s. save_id s.pending_history_save)
  raise_if (not (is_just expected save)) (stale_browsing_history_save expected save)
  modify (λ s. record s { pending_history_save = none })

-- `==` on paths, as bytes.
unfoldable pub same_text : Text → Text → Bool
same_text [] [] = true
same_text [] (b ∷ bs) = false
same_text (a ∷ rest) [] = false
same_text (a ∷ rest) (b ∷ bs) = if a == b then same_text rest bs else false

abbrev pub mismatch :
    PendingProfileHistorySave → ActiveProfile → ProfileHistorySaveCompletion → Bool
mismatch pending active completion =
    not (pending.profile == completion.profile)
    || (not (pending.base_generation == completion.base_generation)
        || (not (pending.mutation_revision == completion.mutation_revision)
            || (not (active.id == completion.profile)
                || not (same_text active.root completion.root))))

-- What a completion does with the answer of the store.
abbrev pub saved : PendingProfileHistorySave → ActiveProfile → Option ℕ → Action (Unit {0})
saved pending active none = pure tt
saved pending active (some generation) =
    let current = active.browsing_history.generation in
    let (advanced, history) =
      History.advance_generation_after_save active.browsing_history pending.base_generation
        generation in
    if advanced
    then modify (λ s. record s {
      active = some (record active {
        browsing_history = history;
        durable_browsing_history_revision = pending.mutation_revision;
      });
    })
    else raise
        (browsing_history_save_generation_mismatch pending.base_generation current generation)

unfoldable pub complete_browsing_history_save :
    ProfileHistorySaveCompletion → Action ProfileHistorySaveCompletion
complete_browsing_history_save completion = do
  s ← gets (λ s. s)
  raise_if (not (is_just (save_id s.pending_history_save) completion.id))
      (stale_browsing_history_save (save_id s.pending_history_save) completion.id)
  pending ← expect s.pending_history_save
  active ← or_raise s.active (browsing_history_save_target_mismatch completion.id)
  raise_if (mismatch pending active completion)
      (browsing_history_save_target_mismatch completion.id)
  modify (λ s. record s { pending_history_save = none })
  saved pending active completion.result
  pure completion

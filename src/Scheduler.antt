-- ===== src/Scheduler.antt =====
-- `ProfileHistorySaveScheduler` of src/profile_history_scheduler.rs: when a dirty browsing history is
-- saved. The schedulers of bookmarks, settings and the session have the same code under other names.
pub mod Due
pub mod Window
use zorya.Common.{
  ℕ, ◌-◌, Bool, true, false, not, Option, none, some, ◌==◌, ◌||◌, ◌&&◌, ltb, leb, min, max, is_just,
  is_some, saturating_add, if◌then◌else◌, Outcome, ok, err, panicked, Call, ◌>>=◌, ◌>>◌, pure,
  raise, gets, modify, raise_if,
}
use zorya.Saving
use zorya.Saving.{ProfileRuntime, ProfileRuntimeError, ProfileHistorySaveIntent}

pub record ProfileHistorySavePolicy : Type 0 where
  pub debounce_millis : ℕ
  pub max_dirty_millis : ℕ
  pub mutation_threshold : ℕ

pub data ProfileHistorySavePolicyError : Type 0 where
  zero_debounce zero_max_dirty_age zero_mutation_threshold : ProfileHistorySavePolicyError
  max_dirty_age_before_debounce :
      (debounce_millis max_dirty_millis : ℕ) → ProfileHistorySavePolicyError

-- `ProfileHistorySavePolicy::new`
unfoldable pub new_policy :
    ℕ → ℕ → ℕ → Outcome ProfileHistorySavePolicyError ProfileHistorySavePolicy
new_policy debounce max_dirty threshold =
    if debounce == 0
    then err zero_debounce
    else if max_dirty == 0
    then err zero_max_dirty_age
    else if threshold == 0
    then err zero_mutation_threshold
    else if ltb max_dirty debounce
    then err (max_dirty_age_before_debounce debounce max_dirty)
    else ok (record {
      debounce_millis = debounce;
      max_dirty_millis = max_dirty;
      mutation_threshold = threshold;
    })

pub data ProfileHistorySaveUrgency : Type 0 where
  normal flush : ProfileHistorySaveUrgency

pub record ProfileHistorySaveScheduler : Type 0 where
  pub policy : ProfileHistorySavePolicy
  pub profile : Option ℕ
  pub observed_mutation_revision : ℕ
  pub first_dirty_millis : Option ℕ
  pub last_mutation_millis : Option ℕ
  pub last_now_millis : Option ℕ

unfoldable pub new : ProfileHistorySavePolicy → ProfileHistorySaveScheduler
new policy = record {
  policy = policy;
  profile = none;
  observed_mutation_revision = 0;
  first_dirty_millis = none;
  last_mutation_millis = none;
  last_now_millis = none;
}

abbrev pub due_after : ℕ → Option ℕ → Option ℕ
due_after delay none = none
due_after delay (some start) = some (saturating_add start delay)

abbrev pub sooner : Option ℕ → Option ℕ → Option ℕ
sooner (some debounce) (some max_age) = some (min debounce max_age)
sooner (some debounce) none = some debounce
sooner none max_age = max_age

unfoldable pub next_save_due_millis : ProfileHistorySaveScheduler → Option ℕ
next_save_due_millis s =
    sooner (due_after s.policy.debounce_millis s.last_mutation_millis)
      (due_after s.policy.max_dirty_millis s.first_dirty_millis)

unfoldable pub clear_dirty_window : ProfileHistorySaveScheduler → ProfileHistorySaveScheduler
clear_dirty_window s = record s { first_dirty_millis = none; last_mutation_millis = none }

-- What `poll` reads of the runtime.
pub record Observation : Type 0 where
  pub mutation_revision : ℕ
  pub unsaved_mutations : ℕ
  pub save_pending : Bool

-- `last_now.is_some_and(|last_now| now < last_now)`
abbrev pub before_last : Option ℕ → ℕ → Bool
before_last none now = false
before_last (some last_now) now = ltb now last_now

abbrev pub latest : Option ℕ → ℕ → ℕ
latest none now = now
latest (some last_now) now = max last_now now

abbrev pub get_or_insert : Option ℕ → ℕ → Option ℕ
get_or_insert none now = some now
get_or_insert (some first) now = some first

abbrev pub profile_changed : ProfileHistorySaveScheduler → ℕ → Bool
profile_changed s profile = not (is_just s.profile profile)

abbrev pub time_regressed : ProfileHistorySaveScheduler → ℕ → ℕ → Bool
time_regressed s profile now = not (profile_changed s profile) && before_last s.last_now_millis now

-- The time that `poll` goes by.
abbrev pub poll_now : ProfileHistorySaveScheduler → ℕ → ℕ → ℕ
poll_now s profile now = if profile_changed s profile then now else latest s.last_now_millis now

-- `poll` on a profile that the scheduler did not follow.
abbrev pub follow : ProfileHistorySaveScheduler → ℕ → Observation → ℕ → ProfileHistorySaveScheduler
follow s profile o now =
    let first : Option ℕ = if o.unsaved_mutations == 0 then none else some now in
    record s {
      profile = some profile;
      observed_mutation_revision = o.mutation_revision;
      first_dirty_millis = first;
      last_mutation_millis = first;
      last_now_millis = some now;
    }

-- `poll` on the profile that it follows.
abbrev pub observe : ProfileHistorySaveScheduler → Observation → ℕ → ProfileHistorySaveScheduler
observe s o now =
    if not (o.mutation_revision == s.observed_mutation_revision)
    then (if o.unsaved_mutations == 0
        then record s {
          last_now_millis = some now;
          observed_mutation_revision = o.mutation_revision;
        }
        else record s {
          last_now_millis = some now;
          observed_mutation_revision = o.mutation_revision;
          first_dirty_millis = get_or_insert s.first_dirty_millis now;
          last_mutation_millis = some now;
        })
    else if not (o.unsaved_mutations == 0)
        && (not o.save_pending && not (is_some s.first_dirty_millis))
    then record s {
      last_now_millis = some now;
      first_dirty_millis = some now;
      last_mutation_millis = some now;
    }
    else record s { last_now_millis = some now }

unfoldable pub note :
    ProfileHistorySaveScheduler → ℕ → Observation → ℕ → ProfileHistorySaveScheduler
note s profile o now = if profile_changed s profile then follow s profile o now else observe s o now

-- `start.is_some_and(|start| now.saturating_sub(start) >= delay)`
abbrev pub elapsed : ℕ → Option ℕ → ℕ → Bool
elapsed delay none now = false
elapsed delay (some start) now = leb delay (now - start)

abbrev pub is_flush : ProfileHistorySaveUrgency → Bool
is_flush normal = false
is_flush flush = true

-- `s` has noted what was observed.
unfoldable pub should_save :
    ProfileHistorySaveScheduler → Observation → ℕ → ProfileHistorySaveUrgency → Bool → Bool
should_save s o now urgency regressed =
    is_flush urgency
    || (regressed
        || (leb s.policy.mutation_threshold o.unsaved_mutations
            || (elapsed s.policy.debounce_millis s.last_mutation_millis now
                || elapsed s.policy.max_dirty_millis s.first_dirty_millis now)))

-- The scheduler and the runtime that `poll` borrows.
abbrev pub Action : Type 0 → Type 0
Action A = Call (ProfileHistorySaveScheduler × ProfileRuntime) ProfileRuntimeError A

abbrev pub on_runtime : {A : Type 0} → Saving.Action A → Action A
on_runtime method (s, runtime) = let (result, runtime') = method runtime in (result, (s, runtime'))

abbrev pub on_scheduler :
    (ProfileHistorySaveScheduler → ProfileHistorySaveScheduler) → Action (Unit {0})
on_scheduler f (s, runtime) = (ok tt, (f s, runtime))

abbrev pub clear_if_begun :
    Option ProfileHistorySaveIntent → Action (Option ProfileHistorySaveIntent)
clear_if_begun none = pure none
clear_if_begun (some intent) = do on_scheduler clear_dirty_window; pure (some intent)

abbrev pub save_if : Bool → ℕ → Action (Option ProfileHistorySaveIntent)
save_if false profile = pure none
save_if true profile = do
  intent ← on_runtime (Saving.begin_browsing_history_save_if_dirty profile)
  clear_if_begun intent

-- The end of `poll`, after the scheduler has noted what it observed.
abbrev pub decide :
    Observation
    → ℕ
    → ProfileHistorySaveUrgency
    → Bool
    → ℕ
    → Action (Option ProfileHistorySaveIntent)
decide o now urgency regressed profile =
    if o.unsaved_mutations == 0
    then (do on_scheduler clear_dirty_window; pure none)
    else if o.save_pending
    then pure none
    else (do s ← gets (λ s. s.0); save_if (should_save s o now urgency regressed) profile)

unfoldable pub poll : ℕ → ℕ → ProfileHistorySaveUrgency → Action (Option ProfileHistorySaveIntent)
poll profile now urgency = do
  mutation_revision ← on_runtime (Saving.browsing_history_mutation_revision profile)
  unsaved_mutations ← on_runtime (Saving.browsing_history_unsaved_mutations profile)
  before ← gets (λ s. s)
  let o : Observation = record {
    mutation_revision = mutation_revision;
    unsaved_mutations = unsaved_mutations;
    save_pending = is_some before.1.pending_history_save;
  }
  let clock : ℕ = poll_now before.0 profile now
  on_scheduler (λ s. note s profile o clock)
  decide o clock urgency (time_regressed before.0 profile now) profile

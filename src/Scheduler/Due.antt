-- ===== src/Scheduler/Due.antt =====
-- When `poll` of src/profile_history_scheduler.rs saves.
use zorya.Common.{
  ℕ, ◌+◌, ◌-◌, ◌≤◌, ◌<◌, ◌≡◌, refl, ap, ◌∙◌, inl, inr, ◌||◌, ◌&&◌, Bool, true, false, not, none,
  some, arith, ◌==◌, ==_refl, Bool-cases, if◌then◌else◌, u64_max, ltb, leb, is_just, is_some, min,
  max, saturating_add, ok,
}
use zorya.Saving.{
  ActiveProfile, ProfileRuntime, browsing_history_mutation_revision, begin_browsing_history_save,
  begin_browsing_history_save_if_dirty,
}
use zorya.Saving.Shape as Runtime
use zorya.Saving.Shape.{validated_lem, unsaved_lem, Calm, active-valid}
use zorya.Saving.Saves.{begun, intent_of}
use zorya.Scheduler.{
  ProfileHistorySaveUrgency, normal, flush, ProfileHistorySaveScheduler, Observation,
  next_save_due_millis, clear_dirty_window, note, should_save, poll, poll_now, time_regressed,
  decide,
}

-- What `poll` observes of a runtime whose active profile is `active`.
abbrev pub seen : ActiveProfile → ProfileRuntime → Observation
seen active r = record {
  mutation_revision = active.browsing_history_revision;
  unsaved_mutations = active.browsing_history_revision - active.durable_browsing_history_revision;
  save_pending = is_some r.pending_history_save;
}

-- The scheduler follows a profile, has noted its revision, and has a dirty window open: from the
-- first mutation, over the last one, to the last poll.
pub record Open (s : ProfileHistorySaveScheduler) (profile revision first last last_now : ℕ)
    : Type 0 where
  pub followed : s.profile ≡ some profile
  pub observed : s.observed_mutation_revision ≡ revision
  pub first_known : s.first_dirty_millis ≡ some first
  pub last_known : s.last_mutation_millis ≡ some last
  pub now_known : s.last_now_millis ≡ some last_now
  pub first_le : first ≤ last
  pub last_le : last ≤ last_now

elapsed_lem :
    (debounce max_dirty first last now : ℕ)
    → now < u64_max
    → first ≤ now
    → last ≤ now
    → (leb debounce (now - last) || leb max_dirty (now - first))
      ≡ leb (min (min (last + debounce) u64_max) (min (first + max_dirty) u64_max)) now
elapsed_lem debounce max_dirty first last now f p q = ground arith

-- The scheduler after a poll that has nothing new to note.
abbrev polled : ProfileHistorySaveScheduler → ℕ → ProfileHistorySaveScheduler
polled s now = record s { last_now_millis = some now }

should_save_lem :
    (s : ProfileHistorySaveScheduler) (o : Observation) (now first last : ℕ)
    → s.first_dirty_millis ≡ some first
    → s.last_mutation_millis ≡ some last
    → now < u64_max
    → first ≤ now
    → last ≤ now
    → o.unsaved_mutations < s.policy.mutation_threshold
    → should_save s o now normal false
      ≡ leb
          (min
            (saturating_add last s.policy.debounce_millis)
            (saturating_add first s.policy.max_dirty_millis))
          now
unfolding should_save
should_save_lem s o now first last f l n p q few =
    let below : leb s.policy.mutation_threshold o.unsaved_mutations ≡ false = ground arith in
    rw (f, l, should_save, below)
      (elapsed_lem s.policy.debounce_millis s.policy.max_dirty_millis first last now n p q)

-- With the same revision and an open window, only the time is noted.
note_lem :
    (s : ProfileHistorySaveScheduler) (profile first now last_now : ℕ) (o : Observation)
    → s.profile ≡ some profile
    → s.observed_mutation_revision ≡ o.mutation_revision
    → s.first_dirty_millis ≡ some first
    → s.last_now_millis ≡ some last_now
    → last_now ≤ now
    → (note s profile o (poll_now s profile now) ≡ polled s now)
      × (poll_now s profile now ≡ now)
      × (time_regressed s profile now ≡ false)
unfolding note
note_lem s profile first now last_now o p m f l later =
    let followed : is_just s.profile profile ≡ true = rw p (==_refl profile) in
    let same : (o.mutation_revision == s.observed_mutation_revision) ≡ true =
      rw m (==_refl o.mutation_revision) in
    let on_time : ltb now last_now ≡ false = ground arith in
    let clock : max last_now now ≡ now = omega arith in
    let closed : (not (o.unsaved_mutations == 0)
          && (not o.save_pending && not (is_some s.first_dirty_millis)))
        ≡ false =
      ground arith in
    (
      simp (followed, l, clock, same, closed, note),
      simp (followed, l, clock),
      simp (followed, l, on_time),
    )

module _ (r : ProfileRuntime) (active : ActiveProfile) (v : Runtime.IsValid r)
    (e : r.active ≡ some active) where
  mutation_revision_lem :
      browsing_history_mutation_revision active.id r ≡ (ok active.browsing_history_revision, r)
  unfolding browsing_history_mutation_revision
  mutation_revision_lem =
      simp (validated_lem active.id r active e refl, browsing_history_mutation_revision)

  -- `poll` observes, notes and decides.
  pub poll_lem :
      (s : ProfileHistorySaveScheduler) (now : ℕ) (urgency : ProfileHistorySaveUrgency)
      → poll active.id now urgency (s, r)
        ≡ decide
            (seen active r)
            (poll_now s active.id now)
            urgency
            (time_regressed s active.id now)
            active.id
            (note s active.id (seen active r) (poll_now s active.id now), r)
  unfolding poll
  poll_lem s now urgency =
      simp (mutation_revision_lem, unsaved_lem active.id r active v e refl, poll)

  -- A dirty history with no save pending begins a save.
  begin_if_dirty_lem :
      active.durable_browsing_history_revision < active.browsing_history_revision
      → r.pending_history_save ≡ none
      → r.next_history_save_id < u64_max
      → begin_browsing_history_save_if_dirty active.id r
        ≡ (ok (some (intent_of r active)), begun r active)
  unfolding begin_browsing_history_save_if_dirty begin_browsing_history_save
  begin_if_dirty_lem dirty p room =
      let unsaved : (active.browsing_history_revision - active.durable_browsing_history_revision
            == 0)
          ≡ false =
        ground arith in
      let free : ltb u64_max (r.next_history_save_id + 1) ≡ false = ground arith in
      simp (
        unsaved_lem active.id r active v e refl,
        unsaved,
        validated_lem active.id r active e refl,
        p,
        free,
        begin_browsing_history_save_if_dirty,
        begin_browsing_history_save,
      )

  -- With mutations to save and no save pending, the decision is `should_save`.
  decide_lem :
      (o : Observation) (s : ProfileHistorySaveScheduler) (now : ℕ)
      (urgency : ProfileHistorySaveUrgency) (regressed : Bool)
      → (o.unsaved_mutations == 0) ≡ false
      → o.save_pending ≡ false
      → active.durable_browsing_history_revision < active.browsing_history_revision
      → r.pending_history_save ≡ none
      → r.next_history_save_id < u64_max
      → decide o now urgency regressed active.id (s, r) ≡ (
          if should_save s o now urgency regressed
          then (ok (some (intent_of r active)), (clear_dirty_window s, begun r active))
          else (ok none, (s, r)))
  decide_lem o s now urgency regressed unsaved idle dirty p room =
      elim (Bool-cases (should_save s o now urgency regressed)) [
        | inl due ↦ simp (unsaved, idle, due, begin_if_dirty_lem dirty p room)
        | inr early ↦ simp (unsaved, idle, early)
      ]

  -- A flush of an active profile with unsaved mutations begins their save, whatever the scheduler
  -- has noted and whatever the time is, unless a save is pending or the identifiers are used up. The
  -- intent holds the history and the revision as they are.
  pub poll-flush :
      (s : ProfileHistorySaveScheduler) (now : ℕ)
      → active.durable_browsing_history_revision < active.browsing_history_revision
      → r.pending_history_save ≡ none
      → r.next_history_save_id < u64_max
      → ((poll active.id now flush (s, r)).0 ≡ ok (some (intent_of r active)))
        × ((poll active.id now flush (s, r)).1.1 ≡ begun r active)
  unfolding should_save
  poll-flush s now dirty p room =
      let e =
        poll_lem s now flush
        ∙ decide_lem (seen active r) (note s active.id (seen active r) (poll_now s active.id now))
            (poll_now s active.id now) flush (time_regressed s active.id now) (ground arith) (rw p)
            dirty p room in
      (ap (λ x. x.0) e, ap (λ x. x.1.1) e)

  -- While a dirty window is open, with nothing new to note, fewer unsaved mutations than the
  -- threshold, no save pending and identifiers left, a normal poll that is not before the last one, and
  -- is before the last time that a `u64` holds, begins a save if the time that `next_save_due_millis` tells has come, and nothing otherwise.
  pub poll-due :
      (s : ProfileHistorySaveScheduler) (now first last last_now : ℕ)
      → Open s active.id active.browsing_history_revision first last last_now
      → last_now ≤ now
      → now < u64_max
      → active.durable_browsing_history_revision < active.browsing_history_revision
      → active.browsing_history_revision - active.durable_browsing_history_revision
        < s.policy.mutation_threshold
      → r.pending_history_save ≡ none
      → r.next_history_save_id < u64_max
      → (due : ℕ) × (next_save_due_millis s ≡ some due)
        × ((poll active.id now normal (s, r)).0
            ≡ (if leb due now then ok (some (intent_of r active)) else ok none))
  unfolding next_save_due_millis
  poll-due s now first last last_now o later in_range dirty few p room =
      let (noted, clock, on_time) =
        note_lem s active.id first now last_now (seen active r) o.followed o.observed o.first_known
          o.now_known later in
      let decision =
        poll_lem s now normal
        ∙ decide_lem (seen active r) _ (poll_now s active.id now) normal _ (ground arith) (rw p)
            dirty p room in
      let judged =
        should_save_lem (polled s now) (seen active r) now first last o.first_known o.last_known
          in_range (omega (arith, o.first_le, o.last_le)) (omega (arith, o.last_le)) few in
      let due =
        min (saturating_add last s.policy.debounce_millis)
          (saturating_add first s.policy.max_dirty_millis) in
      (
        due,
        rw (o.last_known, o.first_known, next_save_due_millis),
        elim (Bool-cases (leb due now)) [
          | inl come ↦ ap (λ x. x.0) decision ∙ rw (noted, clock, on_time, judged, come)
          | inr early ↦ ap (λ x. x.0) decision ∙ rw (noted, clock, on_time, judged, early)
        ],
      )

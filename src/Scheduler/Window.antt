-- ===== src/Scheduler/Window.antt =====
-- `poll` of src/profile_history_scheduler.rs and the dirty window.
use zorya.Common.{
  ℕ, ◌-◌, ◌≤◌, ◌≡◌, refl, subst, inl, inr, ◌⊎◌, Bool, Option, none, some, arith, ◌==◌, Bool-cases,
  is_just, Outcome, ok, err,
}
use zorya.Saving.{
  ActiveProfile, ProfileRuntime, ProfileRuntimeError, ProfileHistorySaveIntent,
  browsing_history_mutation_revision, begin_browsing_history_save_if_dirty,
}
use zorya.Saving.Shape as Runtime
use zorya.Saving.Shape.{validated_cases, unsaved_lem, Calm}
use zorya.Saving.Saves.{begun, intent_of, begin_cases, begin_browsing_history_save-Fine}
use zorya.Scheduler.{
  ProfileHistorySaveUrgency, ProfileHistorySaveScheduler, Observation, clear_dirty_window, note,
  should_save, poll, poll_now, decide, latest, observe, follow,
}
use zorya.Scheduler.Due.{seen, poll_lem}

-- Either no window is open, or its first mutation, its last one and the last poll are in order.
abbrev pub WindowOrdered : Option ℕ → Option ℕ → Option ℕ → Type 0
WindowOrdered none none last_now = Unit
WindowOrdered none (some last) last_now = ⊥
WindowOrdered (some first) none last_now = ⊥
WindowOrdered (some first) (some last) none = ⊥
WindowOrdered (some first) (some last) (some last_now) = (first ≤ last) × (last ≤ last_now)

abbrev pub IsValid : ProfileHistorySaveScheduler → Type 0
IsValid s = WindowOrdered s.first_dirty_millis s.last_mutation_millis s.last_now_millis

clear-IsValid : (s : ProfileHistorySaveScheduler) → IsValid (clear_dirty_window s)
unfolding clear_dirty_window
clear-IsValid s = tt

-- A poll at `now`, not before the last one.
observe-WindowOrdered :
    (s : ProfileHistorySaveScheduler) (o : Observation) (now : ℕ)
    → WindowOrdered s.first_dirty_millis s.last_mutation_millis s.last_now_millis
    → IsValid (observe s o (latest s.last_now_millis now))
observe-WindowOrdered s o now v = ground arith

follow-WindowOrdered :
    (s : ProfileHistorySaveScheduler) (profile : ℕ) (o : Observation) (now : ℕ)
    → IsValid (follow s profile o now)
follow-WindowOrdered s profile o now = elim (Bool-cases (o.unsaved_mutations == 0)) [
  | inl e ↦ rw e tt
  | inr e ↦ rw e (omega arith, omega arith)
]

note-IsValid :
    (s : ProfileHistorySaveScheduler) (profile now : ℕ) (o : Observation)
    → IsValid s
    → IsValid (note s profile o (poll_now s profile now))
unfolding note
note-IsValid s profile now o v = elim (Bool-cases (is_just s.profile profile)) [
  | inl e ↦ simp (e, note) (observe-WindowOrdered s o now v)
  | inr e ↦ simp (e, note) (follow-WindowOrdered s profile o now)
]

-- No panic, and a valid scheduler and runtime.
abbrev pub PollFine :
    {A : Type 0}
    → Outcome ProfileRuntimeError A × (ProfileHistorySaveScheduler × ProfileRuntime)
    → Type 0
PollFine r = Calm r.0 × IsValid r.1.0 × Runtime.IsValid r.1.1

module _ (active : ActiveProfile) (r : ProfileRuntime) (v : Runtime.IsValid r)
    (e : r.active ≡ some active) where
  -- Nothing to save, a save that begins, or an error that changes nothing.
  begin_if_dirty_cases :
      (begin_browsing_history_save_if_dirty active.id r ≡ (ok none, r))
      ⊎ (((error : ProfileRuntimeError) × (begin_browsing_history_save_if_dirty active.id r
              ≡ (err error, r)))
          ⊎ ((intent : ProfileHistorySaveIntent) × (r' : ProfileRuntime) × Runtime.IsValid r'
              × (begin_browsing_history_save_if_dirty active.id r ≡ (ok (some intent), r'))))
  unfolding begin_browsing_history_save_if_dirty
  begin_if_dirty_cases =
      elim (Bool-cases
        (active.browsing_history_revision - active.durable_browsing_history_revision == 0)) [
          | inl clean ↦ inl (
              simp (
                unsaved_lem active.id r active v e refl,
                clean,
                begin_browsing_history_save_if_dirty,
              ))
          | inr dirty ↦ elim (begin_cases active.id r) [
            | inl (error, f) ↦ inr (
                inl (
                  error,
                  simp (
                    unsaved_lem active.id r active v e refl,
                    dirty,
                    f,
                    begin_browsing_history_save_if_dirty,
                  ),
                ))
            | inr (active', _, _, f) ↦ inr (
                inr (
                  intent_of r active',
                  begun r active',
                  (subst (λ x. Runtime.IsValid x.1) f
                      (begin_browsing_history_save-Fine active.id r v).1),
                  simp (
                    unsaved_lem active.id r active v e refl,
                    dirty,
                    f,
                    begin_browsing_history_save_if_dirty,
                  ),
                ))
          ]
        ]

  decide-Fine :
      (o : Observation) (s : ProfileHistorySaveScheduler) (now : ℕ)
      (urgency : ProfileHistorySaveUrgency) (regressed : Bool)
      → IsValid s
      → PollFine (decide o now urgency regressed active.id (s, r))
  decide-Fine o s now urgency regressed sv = elim (Bool-cases (o.unsaved_mutations == 0)) [
    | inl clean ↦ simp clean (tt, clear-IsValid s, v)
    | inr dirty ↦ elim (Bool-cases o.save_pending) [
      | inl waiting ↦ simp (dirty, waiting) (tt, sv, v)
      | inr idle ↦ elim (Bool-cases (should_save s o now urgency regressed)) [
        | inr early ↦ simp (dirty, idle, early) (tt, sv, v)
        | inl due ↦ elim begin_if_dirty_cases [
          | inl f ↦ simp (dirty, idle, due, f) (tt, sv, v)
          | inr (inl (error, f)) ↦ simp (dirty, idle, due, f) (tt, sv, v)
          | inr (inr (intent, r', v', f)) ↦ simp (dirty, idle, due, f) (tt, clear-IsValid s, v')
        ]
      ]
    ]
  ]

-- A poll of any profile, at any time and urgency, with a valid scheduler and runtime, does not panic
-- and leaves both valid.
pub poll-Fine :
    (profile now : ℕ) (urgency : ProfileHistorySaveUrgency) (s : ProfileHistorySaveScheduler)
    (r : ProfileRuntime)
    → IsValid s
    → Runtime.IsValid r
    → PollFine (poll profile now urgency (s, r))
unfolding poll browsing_history_mutation_revision
poll-Fine profile now urgency s r sv v = elim (validated_cases profile r) [
  | inl f ↦ simp (f, poll, browsing_history_mutation_revision) (tt, sv, v)
  | inr (active, e, same, f) ↦
      subst (λ p. PollFine (poll p now urgency (s, r))) same
        (rw (poll_lem r active v e s now urgency) (
          decide-Fine active r v e (seen active r) _ _ urgency _
            (note-IsValid s active.id now (seen active r) sv)))
]

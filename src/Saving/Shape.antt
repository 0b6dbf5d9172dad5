-- ===== src/Saving/Shape.antt =====
-- The invariant of the revisions of the browsing history, and the methods of
-- src/profile_runtime.rs that mutate it.
use zorya.Common.{
  ℕ, ◌+◌, ◌-◌, ◌≤◌, ◌≡◌, refl, sym, ap, subst, ◌∙◌, inl, inr, ◌⊎◌, true, false, Option, none, some,
  arith, ◌==◌, ==_iff, Bool-cases, Option-cases, u64_max, ltb, Outcome, ok, err, panicked,
}
use zorya.Navigation.{Text}
use zorya.History.{BrowsingHistorySnapshot}
use zorya.History.Bounds as Bounds
use zorya.Saving.{
  ActiveProfile, PendingProfileHistorySave, ProfileRuntimeError, ProfileRuntime, profile_id,
  validated, stale_profile, record_committed_navigation, active_browsing_history_mut,
  browsing_history_unsaved_mutations,
}

-- The saved revision is not ahead of the current one.
pub record ActiveValid (a : ActiveProfile) : Type 0 where
  pub history_valid : Bounds.IsValid a.browsing_history
  pub durable_le : a.durable_browsing_history_revision ≤ a.browsing_history_revision

-- A pending save is of the active profile, from its generation, and of a revision that is not
-- behind the saved one.
abbrev pub PendingValid : Option ActiveProfile → Option PendingProfileHistorySave → Type 0
PendingValid active none = Unit
PendingValid none (some pending) = ⊥
PendingValid (some active) (some pending) =
    (pending.profile ≡ active.id)
    × (pending.base_generation ≡ active.browsing_history.generation)
    × (active.durable_browsing_history_revision ≤ pending.mutation_revision)
    × (pending.mutation_revision ≤ active.browsing_history_revision)

abbrev pub ActiveKnown : Option ActiveProfile → Type 0
ActiveKnown none = Unit
ActiveKnown (some active) = ActiveValid active

pub record IsValid (s : ProfileRuntime) : Type 0 where
  pub active_valid : ActiveKnown s.active
  pub pending_valid : PendingValid s.active s.pending_history_save

pub validated_cases :
    (profile : ℕ) (s : ProfileRuntime)
    → (validated profile s ≡ (err (stale_profile (profile_id s.active) profile), s))
      ⊎ ((active : ActiveProfile) × (s.active ≡ some active)
          × (active.id ≡ profile)
          × (validated profile s ≡ (ok active, s)))
unfolding validated
validated_cases profile s = elim (Option-cases s.active) [
  | inl e ↦ inl (rw (e, validated))
  | inr (active, e) ↦ elim (Bool-cases (active.id == profile)) [
    | inl hit ↦ inr (active, e, (==_iff active.id profile).0 hit, rw (e, validated, hit))
    | inr miss ↦ inl (rw (e, validated, miss))
  ]
]

-- The outcome is not a panic.
abbrev pub Calm {ℓ κ} : {E : Type κ} {A : Type ℓ} → Outcome E A → Type 0
Calm (ok a) = Unit
Calm (err e) = Unit
Calm panicked = ⊥

abbrev pub Fine : {A : Type 0} → Outcome ProfileRuntimeError A × ProfileRuntime → Type 0
Fine r = Calm r.0 × IsValid r.1

pub active-valid :
    (s : ProfileRuntime) (active : ActiveProfile)
    → s.active ≡ some active
    → IsValid s
    → ActiveValid active
active-valid s active e v = subst ActiveKnown e v.active_valid

-- A mutation of the history, at the next revision.
mutate-PendingValid :
    (active : ActiveProfile) (history : BrowsingHistorySnapshot) (revision : ℕ)
    (p : Option PendingProfileHistorySave)
    → history.generation ≡ active.browsing_history.generation
    → active.browsing_history_revision ≤ revision
    → PendingValid (some active) p
    → PendingValid
        (some (record active { browsing_history = history; browsing_history_revision = revision }))
        p
mutate-PendingValid active history revision none g h v = tt
mutate-PendingValid active history revision (some pending) g h v =
    (v.0, v.1 ∙ sym g, v.2, omega (arith, v.3))

mutate-IsValid :
    (s : ProfileRuntime) (active : ActiveProfile) (history : BrowsingHistorySnapshot) (revision : ℕ)
    → s.active ≡ some active
    → history.generation ≡ active.browsing_history.generation
    → active.browsing_history_revision ≤ revision
    → Bounds.IsValid history
    → IsValid s
    → IsValid (record s {
      active =
          some (record active { browsing_history = history; browsing_history_revision = revision });
    })
mutate-IsValid s active history revision e g h hv v =
    let a = active-valid s active e v in
    record {
      active_valid = record { history_valid = hv; durable_le = omega (arith, a.durable_le) };
      pending_valid =
          mutate-PendingValid active history revision s.pending_history_save g h
            (subst (λ o. PendingValid o s.pending_history_save) e v.pending_valid);
    }

pub record_committed_navigation-Fine :
    (profile millis : ℕ) (location : Text) (s : ProfileRuntime)
    → IsValid s
    → Fine (record_committed_navigation profile millis location s)
unfolding record_committed_navigation
record_committed_navigation-Fine profile millis location s v = elim (validated_cases profile s) [
  | inl f ↦ simp (f, record_committed_navigation) (tt, v)
  | inr (active, e, same, f) ↦
      elim (Bool-cases (ltb u64_max (active.browsing_history_revision + 1))) [
        | inl full ↦ simp (f, full, record_committed_navigation) (tt, v)
        | inr free ↦
            let h = active.browsing_history in
            let hv = (active-valid s active e v).history_valid in
            elim (Bounds.record_visit_cases millis location h) [
              | inl (error, g) ↦
                  simp (f, free, g, record_committed_navigation)
                    (
                      tt,
                      mutate-IsValid s active h active.browsing_history_revision e refl
                          (omega arith) hv v,
                    )
              | inr (_, _, _, g) ↦
                  simp (f, free, g, record_committed_navigation)
                    (
                      tt,
                      mutate-IsValid s active _ (active.browsing_history_revision + 1) e refl
                          (omega arith)
                          (subst Bounds.IsValid (ap (λ r. r.1) g)
                            (Bounds.record_visit-IsValid millis location h hv))
                          v,
                    )
            ]
      ]
]

-- The method keeps the generation and a valid history.
pub active_browsing_history_mut-Fine :
    (profile : ℕ) (method : BrowsingHistorySnapshot → BrowsingHistorySnapshot) (s : ProfileRuntime)
    → ((h : BrowsingHistorySnapshot) → (method h).generation ≡ h.generation)
    → ((h : BrowsingHistorySnapshot) → Bounds.IsValid h → Bounds.IsValid (method h))
    → IsValid s
    → Fine (active_browsing_history_mut profile method s)
unfolding active_browsing_history_mut
active_browsing_history_mut-Fine profile method s same_generation keep v =
    elim (validated_cases profile s) [
      | inl f ↦ simp (f, active_browsing_history_mut) (tt, v)
      | inr (active, e, same, f) ↦
          elim (Bool-cases (ltb u64_max (active.browsing_history_revision + 1))) [
            | inl full ↦ simp (f, full, active_browsing_history_mut) (tt, v)
            | inr free ↦
                let h = active.browsing_history in
                simp (f, free, active_browsing_history_mut)
                  (
                    tt,
                    mutate-IsValid s active (method h) (active.browsing_history_revision + 1) e
                        (same_generation h) (omega arith)
                        (keep h (active-valid s active e v).history_valid) v,
                  )
          ]
    ]

pub validated_lem :
    (profile : ℕ) (s : ProfileRuntime) (active : ActiveProfile)
    → s.active ≡ some active
    → active.id ≡ profile
    → validated profile s ≡ (ok active, s)
unfolding validated
validated_lem profile s active e same =
    let hit : (active.id == profile) ≡ true = (==_iff active.id profile).1 same in
    rw (e, validated, hit)

-- A valid runtime knows how many mutations are unsaved: the subtraction does not underflow.
pub unsaved_lem :
    (profile : ℕ) (s : ProfileRuntime) (active : ActiveProfile)
    → IsValid s
    → s.active ≡ some active
    → active.id ≡ profile
    → browsing_history_unsaved_mutations profile s
      ≡ (ok (active.browsing_history_revision - active.durable_browsing_history_revision), s)
unfolding browsing_history_unsaved_mutations
unsaved_lem profile s active v e same =
    let le = (active-valid s active e v).durable_le in
    let ordered : ltb active.browsing_history_revision active.durable_browsing_history_revision
        ≡ false =
      ground arith in
    simp (validated_lem profile s active e same, ordered, browsing_history_unsaved_mutations)

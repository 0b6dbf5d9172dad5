-- ===== src/Saving/Completion.antt =====
-- The completion of a save: `complete_browsing_history_save` of src/profile_runtime.rs.
use zorya.Common.{
  ℕ, ◌-◌, ◌<◌, ◌≡◌, refl, subst, inl, inr, ◌⊎◌, true, false, Option, none, some, List, [], ◌∷◌,
  arith, ◌==◌, ==_refl, Bool-cases, Option-cases, leb, ok, err, continue,
}
use zorya.History.{advance_generation_after_save}
use zorya.Saving
use zorya.Saving.{
  ActiveProfile, PendingProfileHistorySave, ProfileHistorySaveIntent, ProfileHistorySaveCompletion,
  ProfileRuntimeError, ProfileRuntime, Action, profile_id, save_id, validated, stale_profile,
  browsing_history_unsaved_mutations, begin_browsing_history_save, begin_if,
  begin_browsing_history_save_if_dirty, cancel_browsing_history_save, same_text, mismatch, saved,
  complete_browsing_history_save,
}
use zorya.Saving.Shape.{PendingValid, IsValid, Fine, active-valid, unsaved_lem}

same_text_refl : (t : List ℕ) → same_text t t ≡ true
unfolding same_text
same_text_refl [] = refl
same_text_refl (b ∷ bs) = rw (==_refl b) (same_text_refl bs)

-- What is left of the runtime once a save of `pending` is in the store as `generation`.
abbrev pub durable : ProfileRuntime → ActiveProfile → PendingProfileHistorySave → ℕ → ProfileRuntime
durable s active pending generation = record s {
  active = some (record active {
    browsing_history = record active.browsing_history { generation = generation };
    durable_browsing_history_revision = pending.mutation_revision;
  });
  pending_history_save = none;
}

abbrev idle : ProfileRuntime → ProfileRuntime
idle s = record s { pending_history_save = none }

-- The ends of a completion.
complete_cases :
    (completion : ProfileHistorySaveCompletion) (s : ProfileRuntime)
    → IsValid s
    → ((error : ProfileRuntimeError) × (complete_browsing_history_save completion s
          ≡ (err error, s)))
      ⊎ ((active : ActiveProfile) × (pending : PendingProfileHistorySave) × (s.active ≡ some active)
          × (s.pending_history_save ≡ some pending)
          × (complete_browsing_history_save completion s
              ≡ continue
                  (saved pending active completion.result
                    (record s { pending_history_save = none })).0
                  (saved pending active completion.result
                    (record s { pending_history_save = none })).1
                  (λ _ s'. (ok completion, s'))))
unfolding complete_browsing_history_save
complete_cases completion s v = elim (Option-cases s.pending_history_save) [
  | inl p ↦ inl (
    Saving.stale_browsing_history_save none completion.id,
    simp (p, complete_browsing_history_save),
  )
  | inr (pending, p) ↦ elim (Bool-cases (pending.id == completion.id)) [
    | inr miss ↦ inl (
      Saving.stale_browsing_history_save (some pending.id) completion.id,
      simp (p, miss, complete_browsing_history_save),
    )
    | inl hit ↦ elim (Option-cases s.active) [
      | inl a ↦ inl (
        Saving.browsing_history_save_target_mismatch completion.id,
        simp (p, hit, a, complete_browsing_history_save),
      )
      | inr (active, a) ↦ elim (Bool-cases (mismatch pending active completion)) [
        | inl wrong ↦ inl (
          Saving.browsing_history_save_target_mismatch completion.id,
          simp (p, hit, a, wrong, complete_browsing_history_save),
        )
        | inr right ↦
            inr (active, pending, a, p, simp (p, hit, a, right, complete_browsing_history_save))
      ]
    ]
  ]
]

none-PendingValid : (a : Option ActiveProfile) → PendingValid a none
none-PendingValid none = tt
none-PendingValid (some active) = tt

module _ (s : ProfileRuntime) (active : ActiveProfile) (pending : PendingProfileHistorySave)
    (v : IsValid s) (a : s.active ≡ some active) (p : s.pending_history_save ≡ some pending) where
  pending-valid : PendingValid (some active) (some pending)
  pending-valid =
      subst (PendingValid (some active)) p
        (subst (λ o. PendingValid o s.pending_history_save) a v.pending_valid)

  idle-IsValid : IsValid (idle s)
  idle-IsValid = record {
    active_valid = v.active_valid;
    pending_valid = none-PendingValid s.active;
  }

  durable-IsValid : (generation : ℕ) → IsValid (durable s active pending generation)
  durable-IsValid generation =
      let av = active-valid s active a v in
      record {
        active_valid = record {
          history_valid = record {
            rising = av.history_valid.rising;
            limited = av.history_valid.limited;
            locations = av.history_valid.locations;
          };
          durable_le = pending-valid.3;
        };
        pending_valid = tt;
      }

  -- The base generation is the one that the history has.
  saved_cases :
      (result : Option ℕ)
      → ((saved pending active result (idle s) ≡ (ok tt, idle s)) × (result ≡ none))
        ⊎ (((generation : ℕ) × (result ≡ some generation)
              × (pending.base_generation < generation)
              × (saved pending active result (idle s)
                  ≡ (ok tt, durable s active pending generation)))
            ⊎ ((error : ProfileRuntimeError) × (saved pending active result (idle s)
                  ≡ (err error, idle s))))
  unfolding advance_generation_after_save
  saved_cases none = inl (refl, refl)
  saved_cases (some generation) =
      let base : (active.browsing_history.generation == pending.base_generation) ≡ true =
        rw pending-valid.1 (==_refl active.browsing_history.generation) in
      elim (Bool-cases (leb generation pending.base_generation)) [
        | inl late ↦ inr (
            inr (
              Saving.browsing_history_save_generation_mismatch pending.base_generation
                  active.browsing_history.generation generation,
              simp (base, late, advance_generation_after_save),
            ))
        | inr newer ↦ inr (
            inl (generation, refl, ground arith, simp (base, newer, advance_generation_after_save)))
      ]

-- In a valid runtime, whatever completion comes in, completing a save does not panic and leaves the
-- runtime valid.
pub complete_browsing_history_save-Fine :
    (completion : ProfileHistorySaveCompletion) (s : ProfileRuntime)
    → IsValid s
    → Fine (complete_browsing_history_save completion s)
complete_browsing_history_save-Fine completion s v = elim (complete_cases completion s v) [
  | inl (error, f) ↦ rw f (tt, v)
  | inr (active, pending, a, p, f) ↦ elim (saved_cases s active pending v a p completion.result) [
    | inl (g, _) ↦ rw (f, g) (tt, idle-IsValid s active pending v a p)
    | inr (inl (generation, _, _, g)) ↦
        rw (f, g) (tt, durable-IsValid s active pending v a p generation)
    | inr (inr (error, g)) ↦ rw (f, g) (tt, idle-IsValid s active pending v a p)
  ]
]

-- What the store answers when it saved `pending` as `generation`.
abbrev pub answer : ActiveProfile → PendingProfileHistorySave → ℕ → ProfileHistorySaveCompletion
answer active pending generation = record {
  id = pending.id;
  profile = pending.profile;
  root = active.root;
  base_generation = pending.base_generation;
  mutation_revision = pending.mutation_revision;
  result = some generation;
}

-- In a valid runtime, the answer of the store to the pending save, with a generation above the one
-- the save began from, is accepted: the save is no longer pending, the history takes the generation
-- and keeps its visits, and the unsaved mutations are those made since the save began.
pub complete_browsing_history_save_lem :
    (s : ProfileRuntime) (active : ActiveProfile) (pending : PendingProfileHistorySave)
    (generation : ℕ)
    → IsValid s
    → s.active ≡ some active
    → s.pending_history_save ≡ some pending
    → pending.base_generation < generation
    → let s' = durable s active pending generation in
      (complete_browsing_history_save (answer active pending generation) s
        ≡ (ok (answer active pending generation), s'))
      × (browsing_history_unsaved_mutations active.id s'
          ≡ (ok (active.browsing_history_revision - pending.mutation_revision), s'))
unfolding complete_browsing_history_save
complete_browsing_history_save_lem s active pending generation v a p newer =
    let (profile, base, _, _) = pending-valid s active pending v a p in
    let base_hit : (active.browsing_history.generation == pending.base_generation) ≡ true =
      rw base (==_refl active.browsing_history.generation) in
    let owner : (active.id == pending.profile) ≡ true = rw profile (==_refl active.id) in
    let later : leb generation pending.base_generation ≡ false = ground arith in
    (
      unfold advance_generation_after_save in
          simp (
            p,
            a,
            ==_refl pending.id,
            ==_refl pending.profile,
            ==_refl pending.base_generation,
            ==_refl pending.mutation_revision,
            owner,
            same_text_refl active.root,
            base_hit,
            later,
            complete_browsing_history_save,
            advance_generation_after_save,
          ),
      unsaved_lem active.id (durable s active pending generation) _
          (durable-IsValid s active pending v a p generation) refl refl,
    )

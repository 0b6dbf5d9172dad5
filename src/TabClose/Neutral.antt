-- ===== src/TabClose/Neutral.antt =====
-- `validate_neutral_presentation` of src/tab_close.rs, where no activation is to be pending.
use zorya.Common.{
  ℕ, ◌≡◌, refl, ◌⊎◌, inl, inr, true, false, Option, none, some, ◌==◌, ==_iff, Bool-cases, ok, err,
}
use zorya.Activation.{TabActivationIntent}
use zorya.Window.{activation_id}
use zorya.App.{BrowserApp}
use zorya.Handoff.{WebContentPresentation, neutral, tab, TabPresentationHandoff}
use zorya.TabClose.{
  TabCloseCommitError, validate_neutral_presentation, same_id, presented_tab_mismatch,
  neutral_content_required, presentation_activation_mismatch,
}

content_cases : (c : WebContentPresentation) → (c ≡ neutral) ⊎ ((owner : ℕ) × (c ≡ tab owner))
content_cases neutral = inl refl
content_cases (tab owner) = inr (owner, refl)

-- The presentation represents the tab, has no content on screen, and has no activation pending.
abbrev pub IsNeutral : TabPresentationHandoff → ℕ → Type 0
IsNeutral presentation closing =
    (presentation.represented_tab ≡ closing)
    × (presentation.content ≡ neutral)
    × (presentation.pending_activation ≡ none)

same_none : (p : Option TabActivationIntent) → same_id (activation_id p) none ≡ true → p ≡ none
same_none none h = refl
same_none (some intent) h = absurd cc

-- The presentation is refused or accepted, and nothing changes.
pub validate_cases :
    (presentation : TabPresentationHandoff) (closing : ℕ) (app : BrowserApp)
    → (((e : TabCloseCommitError) × (validate_neutral_presentation presentation closing none app
            ≡ (err e, app)))
        × ¬ IsNeutral presentation closing)
      ⊎ ((validate_neutral_presentation presentation closing none app ≡ (ok tt, app))
          × IsNeutral presentation closing)
unfolding validate_neutral_presentation
validate_cases presentation closing app =
    elim (Bool-cases (presentation.represented_tab == closing)) [
      | inr other ↦ inl (
        (
          presented_tab_mismatch closing presentation.represented_tab,
          simp (other, validate_neutral_presentation),
        ),
        λ (represented, _, _). absurd (cc (other, (==_iff _ closing).1 represented)),
      )
      | inl hit ↦ elim (content_cases presentation.content) [
        | inr (owner, c) ↦ inl (
          (neutral_content_required closing, simp (hit, c, validate_neutral_presentation)),
          λ (_, clear, _). absurd (cc (c, clear)),
        )
        | inl c ↦ elim (Bool-cases (same_id (activation_id presentation.pending_activation) none)) [
          | inr other ↦ inl (
            (
              presentation_activation_mismatch none (activation_id presentation.pending_activation),
              simp (hit, c, other, validate_neutral_presentation),
            ),
            λ (_, _, idle). absurd (idle_same other idle),
          )
          | inl same ↦ inr (
            simp (hit, c, same, validate_neutral_presentation),
            (
              (==_iff presentation.represented_tab closing).0 hit,
              c,
              same_none presentation.pending_activation same,
            ),
          )
        ]
      ]
    ]
  where
    idle_same :
        same_id (activation_id presentation.pending_activation) none ≡ false
        → presentation.pending_activation ≡ none
        → ⊥
    idle_same other idle =
        let same : same_id (activation_id presentation.pending_activation) none ≡ true =
          rw idle refl in
        cc

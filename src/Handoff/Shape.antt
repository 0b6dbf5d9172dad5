-- ===== src/Handoff/Shape.antt =====
-- The invariant of the presentation handoff of src/presentation_handoff.rs, and runs of its
-- methods.
use zorya.Common.{
  ℕ, ◌+◌, ◌≤◌, ◌≡◌, refl, inl, inr, ◌⊎◌, none, some, List, [], ◌∷◌, arith, ◌==◌, ==_iff, Bool-cases,
  Option-cases, u64_max, ltb, ok, err,
}
use zorya.Activation.{TabActivationIntent}
use zorya.Handoff
use zorya.Handoff.{
  WebContentPresentation, neutral, tab, PresentationHandoffError, stale_activation,
  generation_exhausted, TargetFramePermit, TabPresentationHandoff, Action, new, next_generation,
  matching_intent, current_intent, reject_pending, require_owner, require_neutral,
}

-- The owner of the content on screen is the represented tab.
abbrev pub OwnedBy : ℕ → WebContentPresentation → Type 0
OwnedBy represented neutral = Unit
OwnedBy represented (tab owner) = owner ≡ represented

abbrev pub Owned : TabPresentationHandoff → Type 0
Owned s = OwnedBy s.represented_tab s.content

-- A method may go from `s` to `s'`.
abbrev pub Keeps : TabPresentationHandoff → TabPresentationHandoff → Type 0
Keeps s s' = (Owned s → Owned s') × (s.generation ≤ s'.generation)

Keeps-refl : (s : TabPresentationHandoff) → Keeps s s
Keeps-refl s = (λ o. o, omega arith)

-- The calls of the methods, one for each.
pub data Event : Type 0 where
  authorize_current_frame confirm_current_tab_neutral confirm_neutral : ℕ → Event
  invalidate_activation : ℕ → Event
  begin_activation : TabActivationIntent → Event
  acknowledge_chrome_commit authorize_target_frame : (activation tab : ℕ) → Event
  present_target_frame : TargetFramePermit → Event

unfoldable pub step : Event → TabPresentationHandoff → TabPresentationHandoff
step (authorize_current_frame t) s = (Handoff.authorize_current_frame t s).1
step (confirm_current_tab_neutral t) s = (Handoff.confirm_current_tab_neutral t s).1
step (confirm_neutral a) s = (Handoff.confirm_neutral a s).1
step (invalidate_activation a) s = (Handoff.invalidate_activation a s).1
step (begin_activation i) s = (Handoff.begin_activation i s).1
step (acknowledge_chrome_commit a t) s = (Handoff.acknowledge_chrome_commit a t s).1
step (authorize_target_frame a t) s = (Handoff.authorize_target_frame a t s).1
step (present_target_frame p) s = (Handoff.present_target_frame p s).1

unfoldable pub run : List Event → TabPresentationHandoff → TabPresentationHandoff
run [] s = s
run (e ∷ es) s = run es (step e s)

-- A current intent, or a stale activation that changes nothing.
pub current_intent_cases :
    (activation : ℕ) (s : TabPresentationHandoff)
    → ((e : PresentationHandoffError) × (current_intent activation s ≡ (err e, s)))
      ⊎ ((intent : TabActivationIntent) × (s.pending_activation ≡ some intent)
          × (intent.id ≡ activation)
          × (current_intent activation s ≡ (ok intent, s)))
unfolding current_intent
current_intent_cases activation s = elim (Option-cases s.pending_activation) [
  | inl e ↦ inl (stale_activation none activation, rw (e, current_intent))
  | inr (intent, e) ↦ elim (Bool-cases (intent.id == activation)) [
    | inl hit ↦ inr (intent, e, (==_iff intent.id activation).0 hit, rw (e, current_intent, hit))
    | inr miss ↦ inl (stale_activation (some intent.id) activation, rw (e, current_intent, miss))
  ]
]

pub next_generation_cases :
    (s : TabPresentationHandoff)
    → (next_generation s ≡ (err generation_exhausted, s))
      ⊎ (next_generation s ≡ (ok (s.generation + 1), s))
unfolding next_generation
next_generation_cases s = elim (Bool-cases (ltb u64_max (s.generation + 1))) [
  | inl e ↦ inl (rw (e, next_generation))
  | inr e ↦ inr (rw (e, next_generation))
]

-- A method whose only write comes after its checks: what is left to look at is that write.
confirm_neutral-Keeps :
    (a : ℕ) (s : TabPresentationHandoff) → Keeps s (Handoff.confirm_neutral a s).1
unfolding Handoff.confirm_neutral
confirm_neutral-Keeps a s = elim (current_intent_cases a s) [
  | inl (e, f) ↦ simp (f, Handoff.confirm_neutral) (Keeps-refl s)
  | inr (i, p, same, f) ↦ simp (f, Handoff.confirm_neutral) (λ o. tt, omega arith)
]

authorize_current_frame-state :
    (t : ℕ) (s : TabPresentationHandoff) → (Handoff.authorize_current_frame t s).1 ≡ s
unfolding Handoff.authorize_current_frame
authorize_current_frame-state t s = ground arith

confirm_current_tab_neutral-Keeps :
    (t : ℕ) (s : TabPresentationHandoff) → Keeps s (Handoff.confirm_current_tab_neutral t s).1
unfolding Handoff.confirm_current_tab_neutral next_generation
confirm_current_tab_neutral-Keeps t s = ground arith

begin_activation-Keeps :
    (i : TabActivationIntent) (s : TabPresentationHandoff)
    → Keeps s (Handoff.begin_activation i s).1
unfolding Handoff.begin_activation next_generation
begin_activation-Keeps i s = ground arith

acknowledge_chrome_commit-Keeps :
    (a t : ℕ) (s : TabPresentationHandoff) → Keeps s (Handoff.acknowledge_chrome_commit a t s).1
unfolding Handoff.acknowledge_chrome_commit current_intent
acknowledge_chrome_commit-Keeps a t s = ground arith

authorize_target_frame-state :
    (a t : ℕ) (s : TabPresentationHandoff) → (Handoff.authorize_target_frame a t s).1 ≡ s
unfolding Handoff.authorize_target_frame current_intent
authorize_target_frame-state a t s = ground arith

present_target_frame-Keeps :
    (p : TargetFramePermit) (s : TabPresentationHandoff)
    → Keeps s (Handoff.present_target_frame p s).1
unfolding Handoff.present_target_frame current_intent
present_target_frame-Keeps p s = ground arith

invalidate_activation-Keeps :
    (a : ℕ) (s : TabPresentationHandoff) → Keeps s (Handoff.invalidate_activation a s).1
unfolding Handoff.invalidate_activation current_intent next_generation
invalidate_activation-Keeps a s = ground arith

step-Keeps : (e : Event) (s : TabPresentationHandoff) → Keeps s (step e s)
unfolding step
step-Keeps (authorize_current_frame t) s = rw (authorize_current_frame-state t s) (Keeps-refl s)
step-Keeps (confirm_current_tab_neutral t) s = confirm_current_tab_neutral-Keeps t s
step-Keeps (confirm_neutral a) s = confirm_neutral-Keeps a s
step-Keeps (invalidate_activation a) s = invalidate_activation-Keeps a s
step-Keeps (begin_activation i) s = begin_activation-Keeps i s
step-Keeps (acknowledge_chrome_commit a t) s = acknowledge_chrome_commit-Keeps a t s
step-Keeps (authorize_target_frame a t) s = rw (authorize_target_frame-state a t s) (Keeps-refl s)
step-Keeps (present_target_frame p) s = present_target_frame-Keeps p s

pub run-Keeps : (es : List Event) (s : TabPresentationHandoff) → Keeps s (run es s)
unfolding run
run-Keeps [] s = Keeps-refl s
run-Keeps (e ∷ es) s =
    let (owned, le) = step-Keeps e s in
    let (owned', le') = run-Keeps es (step e s) in (λ o. owned' (owned o), omega arith)

-- From a new handoff, whatever methods are called, in whatever order, the Web content on screen is
-- none or that of the tab that the chrome represents.
pub run-new-Owned : (represented : ℕ) (es : List Event) → Owned (run es (new represented))
unfolding new
run-new-Owned represented es = (run-Keeps es (new represented)).0 refl

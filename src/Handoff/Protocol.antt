-- ===== src/Handoff/Protocol.antt =====
-- The protocol of a handoff: what makes a permit stale, and the sequence that shows a target.
use zorya.Common.{
  ℕ, ◌+◌, ◌<◌, ◌≡◌, ap, inl, inr, false, none, some, List, arith, ◌==◌, ==_refl, u64_max, ok, err,
}
use zorya.Activation.{TabActivationIntent}
use zorya.Handoff.{
  WebContentPresentation, neutral, tab, PresentationHandoffError, PresentationTransitionStart,
  TargetFramePermit, stale_target_frame_permit, TabPresentationHandoff, next_generation,
  current_intent, begin_activation, confirm_neutral, acknowledge_chrome_commit,
  authorize_target_frame, present_target_frame, invalidate_activation,
}
use zorya.Handoff.Shape.{Owned, Event, run, run-Keeps, current_intent_cases}

permit-generation :
    (activation target : ℕ) (permit : TargetFramePermit) (s : TabPresentationHandoff)
    → (authorize_target_frame activation target s).0 ≡ ok permit
    → permit.generation ≡ s.generation
unfolding authorize_target_frame current_intent
permit-generation activation target permit s h = ground arith

begin_activation-generation :
    (intent : TabActivationIntent) (start : PresentationTransitionStart)
    (s : TabPresentationHandoff)
    → (begin_activation intent s).0 ≡ ok start
    → s.generation < (begin_activation intent s).1.generation
unfolding begin_activation next_generation
begin_activation-generation intent start s h = ground arith

invalidate_activation-generation :
    (activation : ℕ) (intent : TabActivationIntent) (s : TabPresentationHandoff)
    → (invalidate_activation activation s).0 ≡ ok intent
    → s.generation < (invalidate_activation activation s).1.generation
unfolding invalidate_activation current_intent next_generation
invalidate_activation-generation activation intent s h = ground arith

old_permit :
    (permit : TargetFramePermit) (s : TabPresentationHandoff)
    → permit.generation < s.generation
    → (e : PresentationHandoffError) × (present_target_frame permit s ≡ (err e, s))
unfolding present_target_frame
old_permit permit s old = elim (current_intent_cases permit.activation s) [
  | inl (e, f) ↦ (e, simp (f, present_target_frame))
  | inr (i, p, same, f) ↦
      let differs : (permit.generation == s.generation) ≡ false = ground arith in
      (
        stale_target_frame_permit permit.activation s.generation permit.generation,
        simp (f, differs, present_target_frame),
      )
]

-- Once another activation has begun, a permit that was given before is refused and changes
-- nothing, whatever is called in between and after.
pub stale_permit :
    (s : TabPresentationHandoff) (activation target : ℕ) (permit : TargetFramePermit)
    (before after : List Event) (intent : TabActivationIntent) (start : PresentationTransitionStart)
    → (authorize_target_frame activation target s).0 ≡ ok permit
    → (begin_activation intent (run before s)).0 ≡ ok start
    → let s' = run after (begin_activation intent (run before s)).1 in
      (e : PresentationHandoffError) × (present_target_frame permit s' ≡ (err e, s'))
stale_permit s activation target permit before after intent start given begun =
    old_permit permit _ (
      omega (
        arith,
        permit-generation activation target permit s given,
        (run-Keeps before s).1,
        begin_activation-generation intent start (run before s) begun,
        (run-Keeps after (begin_activation intent (run before s)).1).1,
      ))

-- The state while `intent` is handed over.
abbrev pub handing : ℕ → WebContentPresentation → TabActivationIntent → ℕ → TabPresentationHandoff
handing represented content intent generation = record {
  represented_tab = represented;
  content = content;
  pending_activation = some intent;
  generation = generation;
}

pub begin_activation_lem :
    (s : TabPresentationHandoff) (intent : TabActivationIntent)
    → Owned s
    → intent.from ≡ s.represented_tab
    → s.generation < u64_max
    → begin_activation intent s ≡ (
      ok (record {
        intent = intent;
        superseded = s.pending_activation;
        generation = s.generation + 1;
      }),
      handing s.represented_tab s.content intent (s.generation + 1),
    )
unfolding begin_activation next_generation
begin_activation_lem s intent owned source room = ground arith

current_intent-handing :
    (represented generation : ℕ) (content : WebContentPresentation) (intent : TabActivationIntent)
    → let s = handing represented content intent generation in
      current_intent intent.id s ≡ (ok intent, s)
unfolding current_intent
current_intent-handing represented generation content intent =
    rw (current_intent, ==_refl intent.id)

pub confirm_neutral-handing :
    (represented generation : ℕ) (content : WebContentPresentation) (intent : TabActivationIntent)
    → confirm_neutral intent.id (handing represented content intent generation)
      ≡ (ok tt, handing represented neutral intent generation)
unfolding confirm_neutral
confirm_neutral-handing represented generation content intent =
    simp (current_intent-handing represented generation content intent, confirm_neutral)

acknowledge_chrome_commit-handing :
    (represented generation : ℕ) (intent : TabActivationIntent)
    → acknowledge_chrome_commit intent.id intent.to (handing represented neutral intent generation)
      ≡ (ok tt, handing intent.to neutral intent generation)
unfolding acknowledge_chrome_commit
acknowledge_chrome_commit-handing represented generation intent = simp (
  current_intent-handing represented generation neutral intent,
  ==_refl intent.to,
  acknowledge_chrome_commit,
)

authorize_target_frame-handing :
    (generation : ℕ) (intent : TabActivationIntent)
    → let s = handing intent.to neutral intent generation in
      authorize_target_frame intent.id intent.to s
      ≡ (ok (record { activation = intent.id; tab = intent.to; generation = generation }), s)
unfolding authorize_target_frame
authorize_target_frame-handing generation intent = simp (
  current_intent-handing intent.to generation neutral intent,
  ==_refl intent.to,
  authorize_target_frame,
)

present_target_frame-handing :
    (generation : ℕ) (intent : TabActivationIntent)
    → present_target_frame
        (record { activation = intent.id; tab = intent.to; generation = generation })
        (handing intent.to neutral intent generation)
      ≡ (
        ok intent.to,
        record {
          represented_tab = intent.to;
          content = tab intent.to;
          pending_activation = none;
          generation = generation;
        },
      )
unfolding present_target_frame
present_target_frame-handing generation intent = simp (
  current_intent-handing intent.to generation neutral intent,
  ==_refl intent.to,
  ==_refl generation,
  present_target_frame,
)

-- Where the content on screen is none or that of the represented tab, the activation starts there
-- and the generations are not used up: after the calls that begin it, confirm neutral content and
-- acknowledge the chrome, the target's frame is authorized, and presenting it succeeds and leaves
-- the target represented and on screen, with no activation pending.
pub handoff_lem :
    (s : TabPresentationHandoff) (intent : TabActivationIntent)
    → Owned s
    → intent.from ≡ s.represented_tab
    → s.generation < u64_max
    → let s1 = (begin_activation intent s).1 in
      let s2 = (confirm_neutral intent.id s1).1 in
      let s3 = (acknowledge_chrome_commit intent.id intent.to s2).1 in
      (permit : TargetFramePermit) × ((authorize_target_frame intent.id intent.to s3).0 ≡ ok permit)
      × (present_target_frame permit s3 ≡ (
        ok intent.to,
        record {
          represented_tab = intent.to;
          content = tab intent.to;
          pending_activation = none;
          generation = s.generation + 1;
        },
      ))
handoff_lem s intent owned source room =
    rw
      (
        begin_activation_lem s intent owned source room,
        confirm_neutral-handing s.represented_tab (s.generation + 1) s.content intent,
        acknowledge_chrome_commit-handing s.represented_tab (s.generation + 1) intent,
      )
      (
        record { activation = intent.id; tab = intent.to; generation = s.generation + 1 },
        ap (λ r. r.0) (authorize_target_frame-handing (s.generation + 1) intent),
        present_target_frame-handing (s.generation + 1) intent,
      )

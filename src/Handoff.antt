-- ===== src/Handoff.antt =====
-- `TabPresentationHandoff` of src/presentation_handoff.rs: which tab the privileged chrome
-- represents, whose Web content is on screen, and the activation that is being handed over.
pub mod Shape
pub mod Protocol
use zorya.Common.{
  ℕ, Bool, true, false, not, Option, none, some, ◌==◌, checked_add, if◌then◌else◌, Call, ◌>>=◌,
  ◌>>◌, pure, raise, gets, modify, or_raise, raise_if,
}
use zorya.Activation.{TabActivationIntent}

pub data WebContentPresentation : Type 0 where
  neutral : WebContentPresentation
  tab : (owner : ℕ) → WebContentPresentation

pub record PresentationTransitionStart : Type 0 where
  pub intent : TabActivationIntent
  pub superseded : Option TabActivationIntent
  pub generation : ℕ

pub record CurrentFramePermit : Type 0 where
  pub tab : ℕ
  pub generation : ℕ

pub record TargetFramePermit : Type 0 where
  pub activation : ℕ
  pub tab : ℕ
  pub generation : ℕ

pub data PresentationHandoffError : Type 0 where
  generation_exhausted : PresentationHandoffError
  activation_source_mismatch : (represented source : ℕ) → PresentationHandoffError
  content_owner_mismatch : (represented content : ℕ) → PresentationHandoffError
  current_neutral_tab_mismatch : (represented actual : ℕ) → PresentationHandoffError
  pending_activation_blocks_current_neutral : (activation : ℕ) → PresentationHandoffError
  pending_activation_blocks_current_frame : (activation : ℕ) → PresentationHandoffError
  current_frame_tab_mismatch : (represented actual : ℕ) → PresentationHandoffError
  current_frame_content_neutral : (tab : ℕ) → PresentationHandoffError
  stale_activation : (expected : Option ℕ) → (actual : ℕ) → PresentationHandoffError
  neutral_content_required : (activation : ℕ) → PresentationHandoffError
  chrome_commit_target_mismatch : (activation expected actual : ℕ) → PresentationHandoffError
  chrome_not_committed : (activation expected represented : ℕ) → PresentationHandoffError
  target_frame_mismatch : (activation expected actual : ℕ) → PresentationHandoffError
  stale_target_frame_permit : (activation expected actual : ℕ) → PresentationHandoffError

pub record TabPresentationHandoff : Type 0 where
  pub represented_tab : ℕ
  pub content : WebContentPresentation
  pub pending_activation : Option TabActivationIntent
  pub generation : ℕ

abbrev pub Action : Type 0 → Type 0
Action A = Call TabPresentationHandoff PresentationHandoffError A

unfoldable pub new : ℕ → TabPresentationHandoff
new represented = record {
  represented_tab = represented;
  content = tab represented;
  pending_activation = none;
  generation = 0;
}

unfoldable pub next_generation : Action ℕ
next_generation = do
  generation ← gets (λ s. s.generation)
  or_raise (checked_add generation 1) generation_exhausted

-- The match on the pending activation.
abbrev pub matching_intent : Option TabActivationIntent → ℕ → Action TabActivationIntent
matching_intent none activation = raise (stale_activation none activation)
matching_intent (some intent) activation =
    if intent.id == activation
    then pure intent
    else raise (stale_activation (some intent.id) activation)

unfoldable pub current_intent : ℕ → Action TabActivationIntent
current_intent activation = do
  pending ← gets (λ s. s.pending_activation)
  matching_intent pending activation

-- `if let Some(intent) = self.pending_activation { return Err(..) }`
abbrev pub reject_pending :
    (ℕ → PresentationHandoffError) → Option TabActivationIntent → Action (Unit {0})
reject_pending error none = pure tt
reject_pending error (some intent) = raise (error intent.id)

-- The content, where it is on screen, belongs to the represented tab.
abbrev pub require_owner : ℕ → WebContentPresentation → Action (Unit {0})
require_owner represented neutral = pure tt
require_owner represented (tab content) =
    raise_if (not (content == represented)) (content_owner_mismatch represented content)

abbrev pub require_neutral : ℕ → WebContentPresentation → Action (Unit {0})
require_neutral activation neutral = pure tt
require_neutral activation (tab content) = raise (neutral_content_required activation)

-- The match of `authorize_current_frame` on the content.
abbrev pub current_frame : ℕ → ℕ → ℕ → WebContentPresentation → Action CurrentFramePermit
current_frame represented generation requested (tab content) =
    if content == requested
    then pure (record { tab = requested; generation = generation })
    else raise (content_owner_mismatch represented content)
current_frame represented generation requested neutral =
    raise (current_frame_content_neutral requested)

unfoldable pub authorize_current_frame : ℕ → Action CurrentFramePermit
authorize_current_frame requested = do
  s ← gets (λ s. s)
  reject_pending pending_activation_blocks_current_frame s.pending_activation
  raise_if (not (requested == s.represented_tab))
      (current_frame_tab_mismatch s.represented_tab requested)
  current_frame s.represented_tab s.generation requested s.content

unfoldable pub confirm_current_tab_neutral : ℕ → Action ℕ
confirm_current_tab_neutral confirmed = do
  s ← gets (λ s. s)
  raise_if (not (confirmed == s.represented_tab))
      (current_neutral_tab_mismatch s.represented_tab confirmed)
  reject_pending pending_activation_blocks_current_neutral s.pending_activation
  require_owner s.represented_tab s.content
  generation ← next_generation
  modify (λ s. record s { content = neutral; generation = generation })
  pure generation

unfoldable pub begin_activation : TabActivationIntent → Action PresentationTransitionStart
begin_activation intent = do
  s ← gets (λ s. s)
  raise_if (not (intent.from == s.represented_tab))
      (activation_source_mismatch s.represented_tab intent.from)
  require_owner s.represented_tab s.content
  generation ← next_generation
  modify (λ s. record s { pending_activation = some intent; generation = generation })
  pure (record { intent = intent; superseded = s.pending_activation; generation = generation })

unfoldable pub confirm_neutral : ℕ → Action (Unit {0})
confirm_neutral activation = do
  _ ← current_intent activation
  modify (λ s. record s { content = neutral })

unfoldable pub acknowledge_chrome_commit : ℕ → ℕ → Action (Unit {0})
acknowledge_chrome_commit activation committed = do
  intent ← current_intent activation
  s ← gets (λ s. s)
  require_neutral activation s.content
  raise_if (not (committed == intent.to))
      (chrome_commit_target_mismatch activation intent.to committed)
  modify (λ s. record s { represented_tab = committed })

unfoldable pub authorize_target_frame : ℕ → ℕ → Action TargetFramePermit
authorize_target_frame activation requested = do
  intent ← current_intent activation
  s ← gets (λ s. s)
  require_neutral activation s.content
  raise_if (not (s.represented_tab == intent.to))
      (chrome_not_committed activation intent.to s.represented_tab)
  raise_if (not (requested == intent.to)) (target_frame_mismatch activation intent.to requested)
  pure (record { activation = activation; tab = requested; generation = s.generation })

unfoldable pub present_target_frame : TargetFramePermit → Action ℕ
present_target_frame permit = do
  intent ← current_intent permit.activation
  s ← gets (λ s. s)
  raise_if (not (permit.generation == s.generation))
      (stale_target_frame_permit permit.activation s.generation permit.generation)
  require_neutral permit.activation s.content
  raise_if (not (s.represented_tab == intent.to))
      (chrome_not_committed permit.activation intent.to s.represented_tab)
  raise_if (not (permit.tab == intent.to))
      (target_frame_mismatch permit.activation intent.to permit.tab)
  modify (λ s. record s { content = tab permit.tab; pending_activation = none })
  pure permit.tab

unfoldable pub invalidate_activation : ℕ → Action TabActivationIntent
invalidate_activation activation = do
  intent ← current_intent activation
  generation ← next_generation
  modify (λ s. record s { pending_activation = none; generation = generation })
  pure intent

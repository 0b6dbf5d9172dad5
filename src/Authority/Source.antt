-- ===== src/Authority/Source.antt =====
-- A source that is validated is the current one: src/engine_authority.rs.
use zorya.Common.{
  ◌≡◌, ap, ◌∙◌, Bool, true, false, not, Option, none, some, if◌then◌else◌, Outcome, ok, arith,
}
use zorya.Common.Calls.{given}
use zorya.Record.Check.{try-ok}
use zorya.Authority.{
  Rarog, EngineCommittedDocumentAuthority, EngineCommittedDocumentSource, EngineHost,
  EngineHostError, is_source, same_authority, committed_document_source,
  validate_committed_document_authority, validate_committed_document_source,
}

same_authority-≡ : (a b : EngineCommittedDocumentAuthority) → same_authority a b ≡ true → a ≡ b
unfolding same_authority
same_authority-≡ a b h =
    let instances : a.host_instance ≡ b.host_instance = ground arith in
    let tabs : a.tab ≡ b.tab = ground arith in
    let generations : a.view_generation ≡ b.view_generation = ground arith in
    let contexts : a.navigation_context ≡ b.navigation_context = ground arith in
    let processes : a.site_process ≡ b.site_process = ground arith in
    λ i. record {
      host_instance = instances i;
      tab = tabs i;
      view_generation = generations i;
      navigation_context = contexts i;
      site_process = processes i;
    }

unless_not-ok :
    (c : Bool) (k : Outcome EngineHostError Bool)
    → (if not c then ok false else k) ≡ ok true
    → k ≡ ok true
unless_not-ok true k h = h
unless_not-ok false k h = absurd cc

module _ {Control Url Origin Site Capability : Type 0}
    (rarog : Rarog Control Url Origin Site Capability)
    (equal_origins-≡ : (o p : Origin) → rarog.equal_origins o p ≡ true → o ≡ p) where
  is_source-ok :
      (current : Option (EngineCommittedDocumentSource Origin))
      (source : EngineCommittedDocumentSource Origin)
      → is_source rarog current source ≡ true
      → current ≡ some source
  is_source-ok none source h = absurd cc
  is_source-ok (some current) source h =
      let authorities : same_authority current.authority source.authority ≡ true = ground arith in
      let origins : rarog.equal_origins current.origin source.origin ≡ true = ground arith in
      let a = same_authority-≡ current.authority source.authority authorities in
      let o = equal_origins-≡ current.origin source.origin origins in
      λ i. some (record { authority = a i; origin = o i })

  pub current_source :
      (host : EngineHost Control Url) (source : EngineCommittedDocumentSource Origin)
      → validate_committed_document_source rarog host source ≡ ok true
      → committed_document_source rarog host source.authority.tab ≡ ok (some source)
  unfolding validate_committed_document_source
  current_source host source h =
      given (try-ok (validate_committed_document_authority rarog host source.authority) _ h)
        λ (valid, _, rest).
          given
            (try-ok (committed_document_source rarog host source.authority.tab) _
              (unless_not-ok valid _ rest))
            λ (current, minted, same).
              let accepted : is_source rarog current source ≡ true = cc in
              minted ∙ ap ok (is_source-ok current source accepted)

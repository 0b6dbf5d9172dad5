-- ===== src/Authority/Target.antt =====
-- What a target that is not denied is: src/network_target_policy.rs.
use zorya.Common.{
  ◌≡◌, refl, subst, Bool, true, false, not, Option, none, some, if◌then◌else◌, Outcome, ok,
}
use zorya.Common.Calls.{given}
use zorya.Record.{Bytes}
use zorya.Record.Check.{try-ok}
use zorya.Authority.{
  Rarog, EngineCommittedDocumentSource, EngineHost, EngineHostError, is_web,
  validate_committed_document_source,
}
use zorya.Authority.Policy.{
  EngineNetworkTargetDecision, Decided, authorized, denied, denied_stale_authority,
  denied_unsupported_scheme, classify_site, classify_parsed, classify_consumed_network_target,
}

site_test :
    {A : Type 0} (b : Bool) (d : EngineNetworkTargetDecision) (u url : A)
    → (if not b then denied d else authorized u) ≡ authorized url
    → (b ≡ true) × (u ≡ url)
site_test true d u url h = (refl, cc)
site_test false d u url h = absurd cc

module _ {Control Url Origin Site Capability : Type 0}
    (rarog : Rarog Control Url Origin Site Capability) where
  site_classified :
      (site : Site) (u url : Url) (found : Option Site)
      → classify_site rarog site u found ≡ authorized url
      → (u ≡ url) × ((s : Site) × (found ≡ some s) × (rarog.same_site site s ≡ true))
  site_classified site u url none h = absurd cc
  site_classified site u url (some s) h =
      let (same, target) = site_test (rarog.same_site site s) _ u url h in (target, (s, refl, same))

  web_classified :
      (site : Site) (u url : Url) (web : Bool)
      → (if not web
          then denied denied_unsupported_scheme
          else classify_site rarog site u (rarog.site_identity u))
        ≡ authorized url
      → (web ≡ true) × (classify_site rarog site u (rarog.site_identity u) ≡ authorized url)
  web_classified site u url true h = (refl, h)
  web_classified site u url false h = absurd cc

  -- The target is a URL of the web, on the site.
  abbrev pub IsTarget : Site → Option Url → Url → Type 0
  IsTarget site parsed url =
      (parsed ≡ some url)
      × (is_web rarog url ≡ true)
      × ((s : Site) × (rarog.site_identity url ≡ some s) × (rarog.same_site site s ≡ true))

  classify_parsed-IsTarget :
      (site : Site) (parsed : Option Url) (url : Url)
      → classify_parsed rarog site parsed ≡ authorized url
      → IsTarget site parsed url
  classify_parsed-IsTarget site none url h = absurd cc
  classify_parsed-IsTarget site (some u) url h =
      let (web, classified) = web_classified site u url (is_web rarog u) h in
      let (same, target) = site_classified site u url (rarog.site_identity u) classified in
      subst (IsTarget site (some u)) same (refl, web, target)

  pub classify-ok :
      (host : EngineHost Control Url) (source : EngineCommittedDocumentSource Origin)
      (target : Bytes) (url : Url)
      → classify_consumed_network_target rarog host source target ≡ ok (authorized url)
      → IsTarget (rarog.site_of source.origin) (rarog.parse target) url
  unfolding classify_consumed_network_target
  classify-ok host source target url h =
      given (try-ok (validate_committed_document_source rarog host source) _ h)
        λ (current, _, rest).
          classify_parsed-IsTarget (rarog.site_of source.origin) (rarog.parse target) url (
            unless_stale current
              (classify_parsed rarog (rarog.site_of source.origin) (rarog.parse target)) url rest)
    where
      unless_stale :
          (c : Bool) (d : Decided Url) (url : Url)
          → Path
              (Outcome EngineHostError (Decided Url))
              (if not c then ok (denied denied_stale_authority) else ok d)
              (ok (authorized url))
          → d ≡ authorized url
      unless_stale true d url h = cc
      unless_stale false d url h = absurd cc

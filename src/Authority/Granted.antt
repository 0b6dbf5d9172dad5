-- ===== src/Authority/Granted.antt =====
-- What a granted authorization rests on: src/network_target_policy.rs.
use zorya.Common.{
  ◌≡◌, refl, sym, ap, subst, ◌∙◌, Bool, true, false, Option, none, some, Outcome, ok, err, panicked,
  check,
}
use zorya.Common.Calls.{given, bind-ok}
use zorya.Record.{Bytes}
use zorya.Authority.{
  Rarog, EngineHost, committed_document_source, validate_committed_document_source,
}
use zorya.Authority.Policy.{
  EngineNetworkPrivilegedRequest, EngineNetworkAuthorization, Decided, authorized, denied,
  denied_stale_authority, authorization, granted_of, grant_if, classify_consumed_network_target,
  grant_network_authorization, grant_decided, authorize_consumed_network_target, result_of,
}
use zorya.Authority.Target.{IsTarget, classify-ok}
use zorya.Authority.Source.{current_source}

module _ {Control Url Origin Site Capability Fetch : Type 0}
    (rarog : Rarog Control Url Origin Site Capability) where
  -- What an authorization rests on: the source is the one that the host mints now for its tab, the target
  -- is one of the web on its site, and the capability is the one that Rarog grants for its context. All
  -- that the authorization holds is the request's, and nothing but the control plane is changed.
  pub record IsGranted (request : EngineNetworkPrivilegedRequest Origin Fetch)
      (host : EngineHost Control Url)
      (granted : EngineNetworkAuthorization Url Origin Capability Fetch)
      (host' : EngineHost Control Url) : Type 0 where
    pub current :
        committed_document_source rarog host request.source.authority.tab ≡ ok (some request.source)
    pub target :
        IsTarget rarog
          (rarog.site_of request.source.origin)
          (rarog.parse request.target)
          granted.envelope.target
    pub holds : granted ≡ authorization rarog request granted.envelope.target granted.capability
    pub capability_ :
        rarog.grant_navigation_context_network_capability host.host
          request.source.authority.navigation_context
        ≡ (ok granted.capability, host'.host)
    pub changed : record host { host = host'.host } ≡ host'

  -- A grant that gave `r`, as the host `host'` has it.
  abbrev Rests :
      EngineNetworkPrivilegedRequest Origin Fetch
      → Url
      → EngineHost Control Url
      → EngineNetworkAuthorization Url Origin Capability Fetch
      → Outcome Bytes Capability × Control
      → EngineHost Control Url
      → Type 0
  Rests request url host granted r host' =
      (granted.envelope.target ≡ url)
      × (granted ≡ authorization rarog request granted.envelope.target granted.capability)
      × (r ≡ (ok granted.capability, host'.host))
      × (record host { host = host'.host } ≡ host')

  capability_granted :
      (request : EngineNetworkPrivilegedRequest Origin Fetch) (url : Url)
      (host host' : EngineHost Control Url)
      (granted : EngineNetworkAuthorization Url Origin Capability Fetch)
      (o : Option (EngineNetworkAuthorization Url Origin Capability Fetch))
      (r : Outcome Bytes Capability × Control)
      → granted_of rarog request url r.0 ≡ ok o
      → record host { host = r.1 } ≡ host'
      → result_of rarog o ≡ authorized granted
      → Rests request url host granted r host'
  capability_granted request url host host' granted o (ok capability, control) h hosts result =
      let made : some (authorization rarog request url capability) ≡ o = cc in
      let both : authorized (authorization rarog request url capability) ≡ authorized granted =
        ap (result_of rarog) made ∙ result in
      let same : authorization rarog request url capability ≡ granted = cc in
      subst (λ g. Rests request url host g (ok capability, control) host') same
        (subst
          (Rests request url host (authorization rarog request url capability)
            (ok capability, control))
          hosts (refl, refl, refl, refl))
  capability_granted request url host host' granted o (err message, control) h hosts result =
      absurd cc
  capability_granted request url host host' granted o (panicked, control) h hosts result = absurd cc

  grant_if-ok :
      (request : EngineNetworkPrivilegedRequest Origin Fetch) (url : Url) (current : Bool)
      (host host' : EngineHost Control Url)
      (granted : EngineNetworkAuthorization Url Origin Capability Fetch)
      (o : Option (EngineNetworkAuthorization Url Origin Capability Fetch))
      → grant_if rarog request url current host ≡ (ok o, host')
      → result_of rarog o ≡ authorized granted
      → (current ≡ true)
        × Rests request url host granted
            (rarog.grant_navigation_context_network_capability host.host
              request.source.authority.navigation_context)
            host'
  grant_if-ok request url true host host' granted o h result = (
    refl,
    capability_granted request url host host' granted o _ (ap (λ p. p.0) h) (ap (λ p. p.1) h)
        result,
  )
  grant_if-ok request url false host host' granted o h result =
      let nothing : none ≡ o = cc in
      let both : denied denied_stale_authority ≡ authorized granted =
        ap (result_of rarog) nothing ∙ result in
      absurd cc

  module _ (equal_origins-≡ : (o p : Origin) → rarog.equal_origins o p ≡ true → o ≡ p) where
    grant_decided-ok :
        (request : EngineNetworkPrivilegedRequest Origin Fetch) (decided : Decided Url)
        (host host' : EngineHost Control Url)
        (granted : EngineNetworkAuthorization Url Origin Capability Fetch)
        → ((url : Url)
            → decided ≡ authorized url
            → IsTarget rarog (rarog.site_of request.source.origin) (rarog.parse request.target) url)
        → grant_decided rarog request decided host ≡ (ok (authorized granted), host')
        → IsGranted request host granted host'
    unfolding grant_network_authorization
    grant_decided-ok request (denied d) host host' granted targets h = absurd cc
    grant_decided-ok request (authorized url) host host' granted targets h =
        given (bind-ok (grant_network_authorization rarog request url) _ host h)
          λ (o, h1, network, result).
            given
              (bind-ok (check (validate_committed_document_source rarog host request.source)) _ host
                network)
              λ (current, h2, valid, rest).
                let unchanged : host ≡ h2 = cc in
                let ends : h1 ≡ host' = cc in
                let given_ : result_of rarog o ≡ authorized granted = cc in
                let rests : grant_if rarog request url current host ≡ (ok o, host') =
                  subst (λ t. grant_if rarog request url current t ≡ (ok o, host')) (sym unchanged)
                    (subst (λ t. grant_if rarog request url current h2 ≡ (ok o, t)) ends rest) in
                let (is_current, (target, holds, capability, changed)) =
                  grant_if-ok request url current host host' granted o rests given_ in
                let validated : validate_committed_document_source rarog host request.source
                    ≡ ok current =
                  cc in
                record {
                  current =
                      current_source rarog equal_origins-≡ host request.source
                        (validated ∙ ap ok is_current);
                  target =
                      subst
                        (IsTarget rarog (rarog.site_of request.source.origin)
                          (rarog.parse request.target))
                        (sym target) (targets url refl);
                  holds = holds;
                  capability_ = capability;
                  changed = changed;
                }

    -- A request is authorized only if its source is the one that the host mints now for its tab and its
    -- target parses to an http or https URL on the same site, with the capability that Rarog grants
    -- for the context of the source; the authorization holds what the request does, and the host is
    -- unchanged but for the control plane. Equality of origins is taken to be exact.
    pub authorize_consumed_network_target-IsGranted :
        (request : EngineNetworkPrivilegedRequest Origin Fetch)
        (host host' : EngineHost Control Url)
        (granted : EngineNetworkAuthorization Url Origin Capability Fetch)
        → authorize_consumed_network_target rarog request host ≡ (ok (authorized granted), host')
        → IsGranted request host granted host'
    unfolding authorize_consumed_network_target
    authorize_consumed_network_target-IsGranted request host host' granted h =
        given
          (bind-ok
            (check (classify_consumed_network_target rarog host request.source request.target)) _
            host h)
          λ (decided, h1, classified, rest).
            let unchanged : host ≡ h1 = cc in
            let found : classify_consumed_network_target rarog host request.source request.target
                ≡ ok decided =
              cc in
            grant_decided-ok request decided host host' granted
              (λ url is_url.
                classify-ok rarog host request.source request.target url (found ∙ ap ok is_url))
              (subst (λ t. grant_decided rarog request decided t ≡ (ok (authorized granted), host'))
                (sym unchanged) rest)

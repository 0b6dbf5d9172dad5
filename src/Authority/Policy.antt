-- ===== src/Authority/Policy.antt =====
-- src/network_target_policy.rs, and `grant_network_authorization` of src/engine.rs.
use zorya.Common.{
  ℕ, Bool, true, false, not, Option, none, some, Outcome, ok, err, panicked, Call, ◌>>=◌, pure,
  gets, check, if◌then◌else◌,
}
use zorya.Record.{Bytes}
use zorya.Record.Check
use zorya.Authority.{
  Rarog, EngineCommittedDocumentSource, EngineHost, EngineHostError, host_error, is_web,
  validate_committed_document_source,
}

pub data EngineNetworkTargetDecision : Type 0 where
  denied_stale_authority denied_invalid_target denied_unsupported_scheme denied_cross_site :
      EngineNetworkTargetDecision

-- The request; `fetch` is its method, headers, mode, credentials, redirect and destination, which are
-- Rarog's and are copied as they are.
pub record EngineNetworkPrivilegedRequest (Origin Fetch : Type 0) : Type 0 where
  pub id : ℕ
  pub source : EngineCommittedDocumentSource Origin
  pub fetch : Fetch
  pub body : Option Bytes
  pub max_response_body_bytes : ℕ
  pub target : Bytes

pub record EngineNetworkAuthorizationEnvelope (Url Origin Fetch : Type 0) : Type 0 where
  pub source : EngineCommittedDocumentSource Origin
  pub target : Url
  pub fetch : Fetch
  pub body : Option Bytes
  pub max_response_body_bytes : ℕ

pub record EngineNetworkAuthorization (Url Origin Capability Fetch : Type 0) : Type 0 where
  pub envelope : EngineNetworkAuthorizationEnvelope Url Origin Fetch
  pub capability : Capability

-- `EngineNetworkAuthorizationResult` and `ConsumedNetworkTarget`.
pub data Decided (A : Type 0) : Type 0 where
  authorized : A → Decided A
  denied : EngineNetworkTargetDecision → Decided A

abbrev pub Action : Type 0 → Type 0 → Type 0 → Type 0
Action Control Url A = Call (EngineHost Control Url) EngineHostError A

module _ {Control Url Origin Site Capability : Type 0}
    (rarog : Rarog Control Url Origin Site Capability) where
  abbrev pub classify_site : Site → Url → Option Site → Decided Url
  classify_site source_site url none = denied denied_invalid_target
  classify_site source_site url (some site) =
      if not (rarog.same_site source_site site) then denied denied_cross_site else authorized url

  -- The classification of a target, once its source is current.
  abbrev pub classify_parsed : Site → Option Url → Decided Url
  classify_parsed source_site none = denied denied_invalid_target
  classify_parsed source_site (some url) =
      if not (is_web rarog url)
      then denied denied_unsupported_scheme
      else classify_site source_site url (rarog.site_identity url)

  unfoldable pub classify_consumed_network_target :
      EngineHost Control Url
      → EngineCommittedDocumentSource Origin
      → Bytes
      → Outcome EngineHostError (Decided Url)
  classify_consumed_network_target host source target =
      Check.◌>>=◌ (validate_committed_document_source rarog host source) λ current.
        if not current
        then ok (denied denied_stale_authority)
        else ok (classify_parsed (rarog.site_of source.origin) (rarog.parse target))

module _ {Control Url Origin Site Capability Fetch : Type 0}
    (rarog : Rarog Control Url Origin Site Capability) where
  abbrev pub authorization :
      EngineNetworkPrivilegedRequest Origin Fetch
      → Url
      → Capability
      → EngineNetworkAuthorization Url Origin Capability Fetch
  authorization request target capability = record {
    envelope = record {
      source = request.source;
      target = target;
      fetch = request.fetch;
      body = request.body;
      max_response_body_bytes = request.max_response_body_bytes;
    };
    capability = capability;
  }

  abbrev pub granted_of :
      EngineNetworkPrivilegedRequest Origin Fetch
      → Url
      → Outcome Bytes Capability
      → Outcome EngineHostError (Option (EngineNetworkAuthorization Url Origin Capability Fetch))
  granted_of request target (ok capability) = ok (some (authorization request target capability))
  granted_of request target (err message) = err (host_error message)
  granted_of request target panicked = panicked

  abbrev pub grant_if :
      EngineNetworkPrivilegedRequest Origin Fetch
      → Url
      → Bool
      → Action Control Url (Option (EngineNetworkAuthorization Url Origin Capability Fetch))
  grant_if request target false host = (ok none, host)
  grant_if request target true host =
      let (capability, control) =
        rarog.grant_navigation_context_network_capability host.host
          request.source.authority.navigation_context in
      (granted_of request target capability, record host { host = control })

  -- `grant_network_authorization`, on the parts of a request.
  unfoldable pub grant_network_authorization :
      EngineNetworkPrivilegedRequest Origin Fetch
      → Url
      → Action Control Url (Option (EngineNetworkAuthorization Url Origin Capability Fetch))
  grant_network_authorization request target = do
    host ← gets (λ host. host)
    current ← check (validate_committed_document_source rarog host request.source)
    grant_if request target current

  abbrev pub result_of :
      Option (EngineNetworkAuthorization Url Origin Capability Fetch)
      → Decided (EngineNetworkAuthorization Url Origin Capability Fetch)
  result_of none = denied denied_stale_authority
  result_of (some granted) = authorized granted

  abbrev pub grant_decided :
      EngineNetworkPrivilegedRequest Origin Fetch
      → Decided Url
      → Action Control Url (Decided (EngineNetworkAuthorization Url Origin Capability Fetch))
  grant_decided request (denied decision) = pure (denied decision)
  grant_decided request (authorized target) = do
    granted ← grant_network_authorization request target
    pure (result_of granted)

  unfoldable pub authorize_consumed_network_target :
      EngineNetworkPrivilegedRequest Origin Fetch
      → Action Control Url (Decided (EngineNetworkAuthorization Url Origin Capability Fetch))
  authorize_consumed_network_target request = do
    host ← gets (λ host. host)
    target ← check (classify_consumed_network_target rarog host request.source request.target)
    grant_decided request target

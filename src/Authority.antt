-- ===== src/Authority.antt =====
-- The committed documents of `EngineHost` and their revalidation: src/engine.rs and
-- src/engine_authority.rs. The control plane, the URLs and the sites are those of the engine, Rarog,
-- and are parameters; a view is what the code reads of it.
pub mod Policy
pub mod Target
pub mod Source
pub mod Granted
use zorya.Common.{
  ℕ, Bool, true, false, not, Option, none, some, List, ◌==◌, ◌&&◌, ◌||◌, is_some, if◌then◌else◌,
  Outcome, ok, err, panicked, ◌∷◌, [],
}
use zorya.Common.Map.{get}
use zorya.Record.{Bytes, same_bytes}
use zorya.Record.Check.{◌>>=◌, ◌>>◌, fail_if}

-- What is called of Rarog: `HostControlPlane`, `WebUrl`, `Origin` and `SiteIdentity`.
pub record Rarog (Control Url Origin Site Capability : Type 0) : Type 0 where
  pub navigation_context : Control → ℕ → Option (ℕ × Site)
  pub process_for_site : Control → Site → Option ℕ
  pub site_for_process : Control → ℕ → Option Site
  pub grant_navigation_context_network_capability : Control → ℕ → Outcome Bytes Capability × Control
  pub parse : Bytes → Option Url
  pub scheme : Url → Bytes
  pub url_origin : Url → Option Origin
  pub site_identity : Url → Option Site
  pub is_opaque : Origin → Bool
  pub site_of : Origin → Site
  pub same_site : Site → Site → Bool
  pub equal_sites : Site → Site → Bool
  pub equal_origins : Origin → Origin → Bool

pub record EngineCommittedDocumentAuthority : Type 0 where
  pub host_instance : ℕ
  pub tab : ℕ
  pub view_generation : ℕ
  pub navigation_context : ℕ
  pub site_process : ℕ

pub record EngineCommittedDocumentSource (Origin : Type 0) : Type 0 where
  pub authority : EngineCommittedDocumentAuthority
  pub origin : Origin

-- The document of an internal page, by its token.
pub record HostedView (Url : Type 0) : Type 0 where
  pub generation : ℕ
  pub document_url : Option Url
  pub committed_context : Option ℕ
  pub committed_internal_page : Option ℕ

pub record EngineHost (Control Url : Type 0) : Type 0 where
  pub instance_ : ℕ
  pub host : Control
  pub views : List (ℕ × HostedView Url)

-- The errors that these functions return.
pub data EngineHostError : Type 0 where
  unknown_tab inconsistent_navigation_state : (tab : ℕ) → EngineHostError
  host_error : (message : Bytes) → EngineHostError

abbrev pub ok_or : {A : Type 0} → Option A → EngineHostError → Outcome EngineHostError A
ok_or none e = err e
ok_or (some a) e = ok a

-- The derived `==` on authorities.
unfoldable pub same_authority :
    EngineCommittedDocumentAuthority → EngineCommittedDocumentAuthority → Bool
same_authority a b =
    a.host_instance == b.host_instance
    && (a.tab == b.tab
        && (a.view_generation == b.view_generation
            && (a.navigation_context == b.navigation_context && a.site_process == b.site_process)))

module _ {Control Url Origin Site Capability : Type 0}
    (rarog : Rarog Control Url Origin Site Capability) where
  -- `matches!(url.scheme(), "http" | "https")`
  abbrev pub is_web : Url → Bool
  is_web url =
      same_bytes (rarog.scheme url) (104 ∷ 116 ∷ 116 ∷ 112 ∷ [])
      || same_bytes (rarog.scheme url) (104 ∷ 116 ∷ 116 ∷ 112 ∷ 115 ∷ [])

  -- The context of the control plane and the process of its site.
  abbrev pub live_context : EngineHost Control Url → ℕ → ℕ → Outcome EngineHostError (Site × ℕ)
  live_context host tab context =
      ok_or (rarog.navigation_context host.host context) (inconsistent_navigation_state tab)
      >>= λ snapshot.
          fail_if (not (snapshot.0 == context)) (inconsistent_navigation_state tab)
          >> (ok_or (rarog.process_for_site host.host snapshot.1)
                (inconsistent_navigation_state tab)
              >>= λ process. ok (snapshot.1, process))

  abbrev pub authority_in :
      EngineHost Control Url
      → ℕ
      → HostedView Url
      → Option ℕ
      → Outcome EngineHostError (Option EngineCommittedDocumentAuthority)
  authority_in host tab hosted none = ok none
  authority_in host tab hosted (some context) = live_context host tab context >>= λ (_, process).
      ok (
        some (record {
          host_instance = host.instance_;
          tab = tab;
          view_generation = hosted.generation;
          navigation_context = context;
          site_process = process;
        }))

  unfoldable pub committed_document_authority :
      EngineHost Control Url → ℕ → Outcome EngineHostError (Option EngineCommittedDocumentAuthority)
  committed_document_authority host tab = ok_or (get tab host.views) (unknown_tab tab) >>= λ hosted.
      fail_if (is_some hosted.committed_context && is_some hosted.committed_internal_page)
        (inconsistent_navigation_state tab)
      >> authority_in host tab hosted hosted.committed_context

  abbrev pub is_site : Option Site → Site → Bool
  is_site none site = false
  is_site (some found) site = rarog.equal_sites found site

  abbrev pub site_in : EngineHost Control Url → ℕ → Option ℕ → Outcome EngineHostError (Option Site)
  site_in host tab none = ok none
  site_in host tab (some context) = live_context host tab context >>= λ (site, process).
      fail_if (not (is_site (rarog.site_for_process host.host process) site))
        (inconsistent_navigation_state tab)
      >> ok (some site)

  unfoldable pub committed_document_site_identity :
      EngineHost Control Url → ℕ → Outcome EngineHostError (Option Site)
  committed_document_site_identity host tab =
      ok_or (get tab host.views) (unknown_tab tab) >>= λ hosted.
      site_in host tab hosted.committed_context

  abbrev pub source_in :
      EngineHost Control Url
      → ℕ
      → Option EngineCommittedDocumentAuthority
      → Outcome EngineHostError (Option (EngineCommittedDocumentSource Origin))
  source_in host tab none = ok none
  source_in host tab (some authority) = ok_or (get tab host.views) (unknown_tab tab) >>= λ hosted.
      ok_or hosted.document_url (inconsistent_navigation_state tab) >>= λ url.
      fail_if (not (is_web url)) (inconsistent_navigation_state tab)
      >> (ok_or (rarog.url_origin url) (inconsistent_navigation_state tab) >>= λ origin.
          fail_if (rarog.is_opaque origin) (inconsistent_navigation_state tab)
          >> (committed_document_site_identity host tab >>= λ committed.
              ok_or committed (inconsistent_navigation_state tab) >>= λ site.
              fail_if (not (rarog.same_site (rarog.site_of origin) site))
                (inconsistent_navigation_state tab)
              >> ok (some (record { authority = authority; origin = origin }))))

  unfoldable pub committed_document_source :
      EngineHost Control Url
      → ℕ
      → Outcome EngineHostError (Option (EngineCommittedDocumentSource Origin))
  committed_document_source host tab =
      committed_document_authority host tab >>= λ authority. source_in host tab authority

  -- The `match` on the current authority.
  abbrev pub compare_authority :
      EngineCommittedDocumentAuthority
      → Outcome EngineHostError (Option EngineCommittedDocumentAuthority)
      → Outcome EngineHostError Bool
  compare_authority authority (ok (some current)) = ok (
      current.navigation_context == authority.navigation_context
      && same_authority current authority)
  compare_authority authority (ok none) = ok false
  compare_authority authority (err (unknown_tab tab)) =
      if tab == authority.tab then ok false else err (unknown_tab tab)
  compare_authority authority (err (inconsistent_navigation_state tab)) =
      err (inconsistent_navigation_state tab)
  compare_authority authority (err (host_error message)) = err (host_error message)
  compare_authority authority panicked = panicked

  unfoldable pub validate_committed_document_authority :
      EngineHost Control Url → EngineCommittedDocumentAuthority → Outcome EngineHostError Bool
  validate_committed_document_authority host authority =
      compare_authority authority (committed_document_authority host authority.tab)

  abbrev pub is_source :
      Option (EngineCommittedDocumentSource Origin) → EngineCommittedDocumentSource Origin → Bool
  is_source none source = false
  is_source (some current) source =
      same_authority current.authority source.authority
      && rarog.equal_origins current.origin source.origin

  unfoldable pub validate_committed_document_source :
      EngineHost Control Url → EngineCommittedDocumentSource Origin → Outcome EngineHostError Bool
  validate_committed_document_source host source =
      validate_committed_document_authority host source.authority >>= λ valid.
      if not valid
      then ok false
      else (committed_document_source host source.authority.tab >>= λ current.
          ok (is_source current source))

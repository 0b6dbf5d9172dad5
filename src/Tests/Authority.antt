-- ===== src/Tests/Authority.antt =====
-- A host with one document, over a control plane that has one site and counts the capabilities granted.
-- A URL is its text, its scheme the first four letters, and its origin and its site are its length.
use zorya.Common.{ℕ, ◌+◌, refl, Option, none, some, [], ◌∷◌, ◌==◌, ==_iff, take, length, ok, false}
use zorya.Common.Map.{get}
use zorya.Record.{Bytes, same_bytes}
use zorya.Authority.{
  Rarog, EngineCommittedDocumentSource, EngineHost, same_authority, committed_document_authority,
  committed_document_site_identity, committed_document_source,
  validate_committed_document_authority, validate_committed_document_source,
}
use zorya.Authority.Policy.{
  EngineNetworkPrivilegedRequest, EngineNetworkAuthorization, authorization,
  classify_consumed_network_target, grant_network_authorization, authorize_consumed_network_target,
}
use zorya.Authority.Granted.{IsGranted, authorize_consumed_network_target-IsGranted}

abbrev parse : Bytes → Option Bytes
parse [] = none
parse (b ∷ bs) = some (b ∷ bs)

abbrev counting : Rarog ℕ Bytes ℕ ℕ ℕ
counting = record {
  navigation_context = λ control context. some (context, 5);
  process_for_site = λ control site. some 9;
  site_for_process = λ control process. some 5;
  grant_navigation_context_network_capability = λ control context. (ok control, control + 1);
  parse = parse;
  scheme = λ url. take 4 url;
  url_origin = λ url. some (length url);
  site_identity = λ url. some (length url);
  is_opaque = λ origin. false;
  site_of = λ origin. origin;
  same_site = λ a b. a == b;
  equal_sites = λ a b. a == b;
  equal_origins = λ a b. a == b;
}

-- The document is at "httpa", and "httpb" is wanted.
abbrev document : Bytes
document = 104 ∷ 116 ∷ 116 ∷ 112 ∷ 97 ∷ []

abbrev wanted : Bytes
wanted = 104 ∷ 116 ∷ 116 ∷ 112 ∷ 98 ∷ []

abbrev host_with : ℕ → EngineHost ℕ Bytes
host_with control = record {
  instance_ = 1;
  host = control;
  views =
      (
        4,
        record {
          generation = 2;
          document_url = some document;
          committed_context = some 6;
          committed_internal_page = none;
        },
      )
      ∷ [];
}

abbrev source : EngineCommittedDocumentSource ℕ
source = record {
  authority = record {
    host_instance = 1;
    tab = 4;
    view_generation = 2;
    navigation_context = 6;
    site_process = 9;
  };
  origin = 5;
}

abbrev request : EngineNetworkPrivilegedRequest ℕ ℕ
request = record {
  id = 1;
  source = source;
  fetch = 0;
  body = none;
  max_response_body_bytes = 10;
  target = wanted;
}

abbrev granted : EngineNetworkAuthorization Bytes ℕ ℕ ℕ
granted = authorization counting request wanted 3

authorize_consumed_network_target-IsGranted_example :
    IsGranted counting request (host_with 3) granted (host_with 4)
unfolding authorize_consumed_network_target classify_consumed_network_target
    grant_network_authorization validate_committed_document_source
    validate_committed_document_authority committed_document_source committed_document_site_identity
    committed_document_authority same_authority get same_bytes
authorize_consumed_network_target-IsGranted_example =
    authorize_consumed_network_target-IsGranted counting (λ o p h. (==_iff o p).0 h) request
      (host_with 3) (host_with 4) granted refl

-- ===== src/Http/Handlers.antt =====
-- internal/http/server.go: the handlers around single operations of the search service.
pub mod Answers
use permission_aware_search.Common.{
  ◌==◌, if◌then◌else◌, ◌>>=◌, Result, ok, err, ℕ, String, ◌||◌, Option, none, some,
}
use permission_aware_search.Strings.{◌+++◌, contains}
use permission_aware_search.Http.{
  write_json, write_error, status_ok, status_bad_request, status_forbidden,
  status_internal_server_error, Server, ServerState, SeedStats, subject_body, search_body,
  mock_body, doc_body, decision_body, metrics_body, seed_stats_body, Response,
}
use permission_aware_search.Http.Flow.{search_flow}
use permission_aware_search.Json.{Doc}
use permission_aware_search.Policy.{Subject, Decision}
use permission_aware_search.Search.{SearchResponse}
use permission_aware_search.Search.Filtering.{search, detail}
use permission_aware_search.Store.{QueryDsl}
use permission_aware_search.Observability.{record_search, snapshot, Metrics}
use permission_aware_search.Semantic.{route, AnalyzeRequest, AnalyzeResult, Router}
use permission_aware_search.Contracts.{contract_version_v2}

abbrev pub not_allowed : String
not_allowed = "FIELD_NOT_ALLOWED"

-- the status of an error of `Search`
abbrev pub search_status : String → ℕ
search_status e =
    if contains e not_allowed then status_bad_request else status_internal_server_error

module _ {S : Type 0} (server : Server S) (subject : Subject) where
  -- `handleMe`
  abbrev pub handle_me : Response
  handle_me = write_json status_ok (subject_body subject)

  abbrev pub after_search :
      String → ℕ → Metrics → Result SearchResponse × S → Response × ServerState S
  after_search trace_id duration metrics (err e, s) =
      (write_error (search_status e) e, record { engine = s; metrics = metrics })
  after_search trace_id duration metrics (ok resp, s) = (
    write_json status_ok (search_body resp trace_id search_flow),
    record { engine = s; metrics = record_search duration resp.hidden_count metrics },
  )

  -- `handleSearch`; the query is `none` where the payload is not decoded, and the duration is that of the
  -- search, in milliseconds
  unfoldable pub handle_search :
      String → Option QueryDsl → String → ℕ → ServerState S → Response × ServerState S
  unfolding search record_search contains
  handle_search resource_type none trace_id duration state =
      (write_error status_bad_request "invalid json", state)
  handle_search resource_type (some q) trace_id duration state =
      after_search trace_id duration state.metrics
        (search server.service subject resource_type q state.engine)

  abbrev pub detail_response : Result (Option Doc) → Response
  detail_response (err e) = write_error status_internal_server_error e
  detail_response (ok none) = write_error status_forbidden "forbidden"
  detail_response (ok (some doc)) = write_json status_ok (doc_body doc)

  -- `handleDetail`
  unfoldable pub handle_detail : String → String → ServerState S → Response × ServerState S
  unfolding detail
  handle_detail resource_type id state =
      let (answer, s') = detail server.service subject resource_type id state.engine in
      (detail_response answer, record state { engine = s' })

  abbrev pub decision_response : Result Decision → Response
  decision_response (err e) = write_error status_internal_server_error e
  decision_response (ok d) = write_json status_ok (decision_body d)

  -- `handleExplain`, of the texts of its three parameters
  unfoldable pub handle_explain :
      String → String → String → ServerState S → Response × ServerState S
  handle_explain action resource_type id state =
      let action' = if action == "" then "view" else action in
      let (answer, s') =
        server.service.policy.explain subject action' resource_type id state.engine in
      if resource_type == "" || id == ""
      then (write_error status_bad_request "resourceType and resourceId are required", state)
      else (decision_response answer, record state { engine = s' })

-- `handleMetrics`; an index out of range is answered as `net/http` does, which ends the request
unfoldable pub handle_metrics : Metrics → Response
unfolding snapshot
handle_metrics metrics = elim (snapshot metrics) [
  | err e ↦ write_error status_internal_server_error e
  | ok figures ↦ write_json status_ok (metrics_body figures)
]

-- `handleSuperlinkedMockAnalyze`, for a message, a contract version and a hint, if they are decoded
abbrev pub mock_request : Subject → String × String × String → AnalyzeRequest
mock_request subject (message, version, hint) = record {
  message = message;
  contract_version = if version == "" then contract_version_v2 else version;
  resource_hint = hint;
  tenant_id = subject.tenant_id;
  query_shape = "";
  provider_override = "superlinked-mock";
}

abbrev pub mock_response : Result AnalyzeResult → Response
mock_response (err e) = write_error status_internal_server_error e
mock_response (ok analyzed) = write_json status_ok (mock_body analyzed)

unfoldable pub handle_superlinked_mock_analyze :
    Router → Subject → Option (String × String × String) → Response
unfolding route
handle_superlinked_mock_analyze router subject none = write_error status_bad_request "invalid json"
handle_superlinked_mock_analyze router subject (some payload) =
    mock_response (route router (mock_request subject payload))

pub record CorsHeaders : Type 0 where
  pub allow_origin : String
  pub allow_headers : String
  pub allow_methods : String

abbrev pub cors_headers : CorsHeaders
cors_headers = record {
  allow_origin = "*";
  allow_headers =
      "Content-Type,Authorization,X-User-Id,X-Tenant-Id,X-Roles,X-User-Attrs,X-User-Region";
  allow_methods = "GET,POST,OPTIONS";
}

-- `withCORS`: the headers, and the response unless the request only asks for them with `OPTIONS`, which is
-- answered by a status of 204
unfoldable pub with_cors :
    {A : Type 0} → String → (A → Response × A) → A → CorsHeaders × Option Response × A
with_cors method next state =
    let (response, state') = next state in
    if method == "OPTIONS"
    then (cors_headers, none, state)
    else (cors_headers, some response, state')

-- The answer of the database to a query of one number, with one argument.
abbrev pub QueryRow : Type 0
QueryRow = String → String → Result ℕ

-- `countByTenant`
abbrev pub count_by_tenant : QueryRow → String → String → Result ℕ
count_by_tenant query_row table tenant =
    query_row ("SELECT COUNT(1) FROM " +++ table +++ " WHERE tenant_id = ?") tenant

abbrev pub seed_stats : QueryRow → String → Result SeedStats
seed_stats query_row tenant = do
  orders ← count_by_tenant query_row "orders_docs" tenant
  customers ← count_by_tenant query_row "customers_docs" tenant
  grants ← query_row "SELECT COUNT(1) FROM acl_grants WHERE tenant_id = ?" tenant
  rules ← query_row "SELECT COUNT(1) FROM policy_rules WHERE tenant_id = ?" tenant
  ok (record {
    tenant_id = tenant;
    orders = orders;
    customers = customers;
    acl_grants = grants;
    abac_rules = rules;
  })

abbrev pub seed_response : Result SeedStats → Response
seed_response (err e) = write_error status_internal_server_error e
seed_response (ok stats) = write_json status_ok (seed_stats_body stats)

-- `handleSeedStats`, of the text of its parameter
unfoldable pub handle_seed_stats : QueryRow → String → Response
handle_seed_stats query_row tenant_id =
    seed_response (seed_stats query_row (if tenant_id == "" then "tenant-a" else tenant_id))

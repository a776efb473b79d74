-- ===== src/Http.antt =====
-- internal/http/server.go: the server in front of the search and the analyzers. The body of a response is held
-- by the value that is encoded; the fields of a JSON object are those of a record, and a field that not every
-- response has is an `Option`. Decoded payloads, trace ids and times are arguments, and latencies are left out.
pub mod Flow
pub mod Lookups
pub mod Responses
pub mod Interpret
pub mod Handlers
use permission_aware_search.Common.{
  ◌==◌, if◌then◌else◌, ℕ, String, Bool, true, false, ◌||◌, Option, List,
}
use permission_aware_search.Identifier.{DetectedIdentifier, ResolutionPlan}
use permission_aware_search.Identifier.Patterns.{PatternRegistry}
use permission_aware_search.Identifier.Shape.{QueryShapeThresholds}
use permission_aware_search.Observability.{Metrics, Snapshot}
use permission_aware_search.Policy.{Subject, Decision}
use permission_aware_search.Schema.Registry.{Registry}
use permission_aware_search.Search.{RedactedPlaceholder, SearchResponse, Service}
use permission_aware_search.Semantic.{FilterSource, AnalyzeResult, Router}
use permission_aware_search.Store.{QueryDsl}
use permission_aware_search.Json.{Doc}
use permission_aware_search.Strings.{trim_space, to_lower}
use permission_aware_search.Common.Int.{ℤ}

-- `queryInterpretPayload`
pub record Payload : Type 0 where
  pub message : String
  pub provider : String
  pub resource_hint : String
  pub contract_version : String
  pub debug : Bool

-- `Server`, without its metrics and the state of the policy engine. The registry of the package
-- `identifier`, a variable of that package, is held here too.
pub record Server (S : Type 0) : Type 0 where
  pub service : Service S
  pub router : Router
  pub id_fast_path_enabled : Bool
  pub id_grouped_enabled : Bool
  pub id_patterns : Option PatternRegistry
  pub shape_thresholds : QueryShapeThresholds
  pub id_registry : Option Registry

-- what a request may change
pub record ServerState (S : Type 0) : Type 0 where
  pub engine : S
  pub metrics : Metrics

pub record Stage : Type 0 where
  pub stage : String
  pub status : String

pub record GroupedMatch : Type 0 where
  pub resource_type : String
  pub match_field : String
  pub authorized_count : ℕ
  pub hidden_count : ℕ
  pub items : List Doc
  pub redacted_placeholders : List RedactedPlaceholder

-- The object under "debug". Its "retrieval" and "rewrite" are made of the fields of the analysis alone, which
-- stands for them.
pub record Debug : Type 0 where
  pub filter_source : Option (List FilterSource)
  pub plan : Option ResolutionPlan
  pub group_count : ℕ
  pub flow : Option (List Stage)
  pub trace_id : Option String
  pub analysis : Option AnalyzeResult

pub record Interpretation : Type 0 where
  pub intent : String
  pub intent_category : String
  pub intent_subcategory : Option String
  pub query_shape : String
  pub normalization_applied : List String
  pub identifier_pattern_matched : String
  pub path_taken : String
  pub resolution_mode : String
  pub generated_query : Option QueryDsl
  pub clarification_required : Bool
  pub detected_identifiers : Option (List DetectedIdentifier)
  pub grouped_matches : Option (List GroupedMatch)
  pub items : Option (List Doc)
  pub authorized_count : ℕ
  pub hidden_count : ℕ
  pub result_reason_code : String
  pub visibility_notice : String
  pub suggested_next_actions : List String
  pub redacted_placeholders : Option (List RedactedPlaceholder)
  pub answer : Option String
  pub semantic_provider : String
  pub semantic_notes : List String
  pub safe_evidence : List String
  pub rewrite_intent_provider : String
  pub rewrite_intent_model_version : String
  pub rewrite_intent_fallback_chain : List String
  pub rewrite_intent_gate_reason : String
  pub retrieval_provider : String
  pub retrieval_strategy : String
  pub retrieval_fallback_chain : List String
  pub retrieval_gate_reason : String
  pub retrieval_latency_ms : ℤ
  pub retrieval_evidence : List String
  pub trace_id : String
  pub debug : Option Debug

-- what `handleSeedStats` answers with
pub record SeedStats : Type 0 where
  pub tenant_id : String
  pub orders : ℕ
  pub customers : ℕ
  pub acl_grants : ℕ
  pub abac_rules : ℕ

pub data Body : Type 0 where
  error_body : String → Body
  subject_body : Subject → Body
  search_body : SearchResponse → String → List Stage → Body
  interpretation_body : Interpretation → Body
  mock_body : AnalyzeResult → Body
  doc_body : Doc → Body
  decision_body : Decision → Body
  metrics_body : Option Snapshot → Body
  seed_stats_body : SeedStats → Body

pub record Response : Type 0 where
  pub status : ℕ
  pub body : Body

-- `writeJSON`
abbrev pub write_json : ℕ → Body → Response
write_json status body = record { status = status; body = body }

-- `writeError`
abbrev pub write_error : ℕ → String → Response
write_error status message = write_json status (error_body message)

abbrev pub status_ok : ℕ
status_ok = 200

abbrev pub status_bad_request : ℕ
status_bad_request = 400

abbrev pub status_forbidden : ℕ
status_forbidden = 403

abbrev pub status_internal_server_error : ℕ
status_internal_server_error = 500

abbrev pub ok_stage : String → Stage
ok_stage stage = record { stage = stage; status = "ok" }

-- `boolEnvOrDefault`, of the text of the variable
unfoldable pub bool_env_or_default : String → Bool → Bool
unfolding to_lower trim_space
bool_env_or_default text fallback =
    let raw = trim_space (to_lower text) in
    if raw == ""
    then fallback
    else if raw == "1" || raw == "true" || raw == "yes" || raw == "on"
    then true
    else if raw == "0" || raw == "false" || raw == "no" || raw == "off"
    then false
    else fallback

-- `envOrDefault`, of the text of the variable
unfoldable pub env_or_default : String → String → String
unfolding trim_space
env_or_default text fallback = let raw = trim_space text in if raw == "" then fallback else raw

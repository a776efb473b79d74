-- ===== src/Http/Interpret.antt =====
-- internal/http/server.go: `handleQueryInterpret`, from the decoded payload on.
pub mod Shown
use permission_aware_search.Common.{
  ◌==◌, if◌then◌else◌, ◌>>=◌, Result, ok, err, String, Bool, not, ◌&&◌, ◌||◌, Option, none, some,
  List,
}
use permission_aware_search.Common.Int.{lt_ℤ, ℤ, pos}
use permission_aware_search.Strings.{rune_count, trim_space}
use permission_aware_search.Http.{
  write_json, write_error, status_ok, status_internal_server_error, Payload, Server, ServerState,
  Interpretation, interpretation_body, Response,
}
use permission_aware_search.Http.Lookups.{try_identifier_fast_path}
use permission_aware_search.Identifier.{GroupSpec, ResolutionPlan}
use permission_aware_search.Identifier.Shape.{shape_unsupported, analyze_query, QueryAnalysis}
use permission_aware_search.Identifier.Resolve.{build_resolution_plan}
use permission_aware_search.Policy.{Subject}
use permission_aware_search.Search.Filtering.{search}
use permission_aware_search.Contracts.{contract_version_v2}
use permission_aware_search.Semantic.{route, AnalyzeRequest, AnalyzeResult}
use permission_aware_search.Http.Responses.{
  no_op_interpretation, unsupported_interpretation, clarification_interpretation,
  found_interpretation,
}

-- at most `short_no_op_len` characters
abbrev pub is_short : ℤ → String → Bool
is_short n text = text == "" || not (lt_ℤ n (pos (rune_count text)))

abbrev pub with_version : Payload → Payload
with_version payload = record payload {
  contract_version =
      if payload.contract_version == "" then contract_version_v2 else payload.contract_version;
}

-- the response of an interpretation, or of the error that has ended it
abbrev pub respond : Result Interpretation → Response
respond (err e) = write_error status_internal_server_error e
respond (ok i) = write_json status_ok (interpretation_body i)

module _ {S : Type 0} (server : Server S) (subject : Subject) where
  abbrev pub request_of : Payload → QueryAnalysis → AnalyzeRequest
  request_of payload analysis = record {
    message = payload.message;
    contract_version = payload.contract_version;
    resource_hint = payload.resource_hint;
    tenant_id = subject.tenant_id;
    query_shape = analysis.query_shape;
    provider_override = payload.provider;
  }

  abbrev pub after_analysis :
      Payload → QueryAnalysis → String → Result AnalyzeResult → S → Result Interpretation × S
  after_analysis payload analysis trace_id (err e) s = (err e, s)
  after_analysis payload analysis trace_id (ok analyzed) s =
      let (answer, s') = search server.service subject analyzed.resource_type analyzed.query s in
      if analyzed.clarification_needed
      then (ok (clarification_interpretation payload analysis trace_id analyzed), s)
      else (
        (answer >>= λ resp. ok (found_interpretation payload analysis trace_id analyzed resp)),
        s',
      )

  -- the semantic path
  unfoldable pub interpret_by_analysis :
      Payload → QueryAnalysis → String → S → Result Interpretation × S
  unfolding route search clarification_interpretation found_interpretation
  interpret_by_analysis payload analysis trace_id s =
      after_analysis payload analysis trace_id (route server.router (request_of payload analysis)) s

  abbrev pub after_fast_path :
      Payload
      → QueryAnalysis
      → String
      → Result (Option Interpretation) × S
      → Result Interpretation × S
  after_fast_path payload analysis trace_id (err e, s) = (err e, s)
  after_fast_path payload analysis trace_id (ok (some i), s) = (ok i, s)
  after_fast_path payload analysis trace_id (ok none, s) =
      interpret_by_analysis payload analysis trace_id s

  -- the part of the handler behind the two guards
  unfoldable pub interpret_supported :
      (List GroupSpec → List GroupSpec)
      → Payload
      → QueryAnalysis
      → ResolutionPlan
      → String
      → S
      → Result Interpretation × S
  unfolding try_identifier_fast_path interpret_by_analysis
  interpret_supported arrival payload analysis plan trace_id s =
      if server.id_fast_path_enabled && server.id_grouped_enabled
      then after_fast_path payload analysis trace_id
          (try_identifier_fast_path server.service subject payload trace_id arrival plan s)
      else interpret_by_analysis payload analysis trace_id s

  -- `handleQueryInterpret`
  unfoldable pub handle_query_interpret :
      (List GroupSpec → List GroupSpec)
      → Payload
      → String
      → ServerState S
      → Response × ServerState S
  unfolding analyze_query build_resolution_plan interpret_supported trim_space
  handle_query_interpret arrival decoded trace_id state =
      let payload = with_version decoded in
      let analysis =
        analyze_query payload.message subject.tenant_id server.id_patterns
          server.shape_thresholds in
      let plan =
        build_resolution_plan server.id_registry payload.message subject.tenant_id
          payload.resource_hint server.id_patterns server.shape_thresholds in
      let (answer, engine') =
        interpret_supported arrival payload analysis plan trace_id state.engine in
      if is_short server.shape_thresholds.short_no_op_len (trim_space analysis.normalized_input)
      then (respond (ok (no_op_interpretation analysis trace_id)), state)
      else if analysis.query_shape == shape_unsupported
      then (respond (ok (unsupported_interpretation analysis trace_id)), state)
      else (respond answer, record state { engine = engine' })

-- ===== src/Http/Interpret/Shown.antt =====
-- What a response to a question shows: no document but those that the policy has allowed the subject.
use permission_aware_search.Common.{
  ◌==◌, Result-cases, if_cases, Result, ok, err, String, ◌≡◌, subst, inl, inr, ◌&&◌, Option, none,
  some, List,
}
use permission_aware_search.Strings.{trim_space}
use permission_aware_search.Http.{
  Payload, Server, ServerState, Interpretation, Body, error_body, subject_body, search_body,
  interpretation_body, mock_body, doc_body, decision_body, metrics_body, seed_stats_body, Response,
}
use permission_aware_search.Http.Lookups.{try_identifier_fast_path}
use permission_aware_search.Http.Lookups.Authorized.{
  search-Authorized, ShowsAuthorized, Safe, FastSafe, try_identifier_fast_path-Safe,
}
use permission_aware_search.Http.Interpret.{
  is_short, with_version, respond, request_of, after_analysis, interpret_by_analysis,
  after_fast_path, interpret_supported, handle_query_interpret,
}
use permission_aware_search.Identifier.{GroupSpec, ResolutionPlan}
use permission_aware_search.Identifier.Shape.{shape_unsupported, analyze_query, QueryAnalysis}
use permission_aware_search.Identifier.Resolve.{build_resolution_plan}
use permission_aware_search.Policy.{Subject}
use permission_aware_search.Search.Filtering.{search}
use permission_aware_search.Semantic.{route, AnalyzeResult}
use permission_aware_search.Http.Responses.{clarification_interpretation, found_interpretation}

module _ {S : Type 0} (server : Server S) (subject : Subject) where
  abbrev Shows : Result Interpretation × S → Type 0
  Shows = Safe server.service subject

  after_analysis-Safe :
      (payload : Payload) (analysis : QueryAnalysis) (trace_id : String)
      (analyzed : Result AnalyzeResult) (s : S)
      → Shows (after_analysis server subject payload analysis trace_id analyzed s)
  unfolding clarification_interpretation found_interpretation
  after_analysis-Safe payload analysis trace_id (err e) s = tt
  after_analysis-Safe payload analysis trace_id (ok a) s =
      let q = a.query in
      if_cases Shows a.clarification_needed (λ _. (tt, tt))
        (λ _. elim (Result-cases (search server.service subject a.resource_type q s).0) [
          | inr (message, e) ↦ rw e tt
          | inl (resp, e) ↦
              rw e (search-Authorized server.service subject a.resource_type q s resp e, tt)
        ])

  interpret_by_analysis-Safe :
      (payload : Payload) (analysis : QueryAnalysis) (trace_id : String) (s : S)
      → Shows (interpret_by_analysis server subject payload analysis trace_id s)
  unfolding interpret_by_analysis
  interpret_by_analysis-Safe payload analysis trace_id s =
      after_analysis-Safe payload analysis trace_id
        (route server.router (request_of server subject payload analysis)) s

  after_fast_path-Safe :
      (payload : Payload) (analysis : QueryAnalysis) (trace_id : String)
      (tried : Result (Option Interpretation) × S)
      → FastSafe server.service subject tried
      → Shows (after_fast_path server subject payload analysis trace_id tried)
  after_fast_path-Safe payload analysis trace_id (err e, s) h = tt
  after_fast_path-Safe payload analysis trace_id (ok (some i), s) h = h
  after_fast_path-Safe payload analysis trace_id (ok none, s) h =
      interpret_by_analysis-Safe payload analysis trace_id s

  interpret_supported-Safe :
      (arrival : List GroupSpec → List GroupSpec) (payload : Payload) (analysis : QueryAnalysis)
      (plan : ResolutionPlan) (trace_id : String) (s : S)
      → Shows (interpret_supported server subject arrival payload analysis plan trace_id s)
  unfolding interpret_supported
  interpret_supported-Safe arrival payload analysis plan trace_id s =
      if_cases Shows (server.id_fast_path_enabled && server.id_grouped_enabled)
        (λ _.
          after_fast_path-Safe payload analysis trace_id
            (try_identifier_fast_path server.service subject payload trace_id arrival plan s)
            (try_identifier_fast_path-Safe server.service subject payload trace_id arrival plan s))
        (λ _. interpret_by_analysis-Safe payload analysis trace_id s)

  abbrev BodySafe : Body → Type 0
  BodySafe (interpretation_body i) = ShowsAuthorized server.service subject i
  BodySafe (error_body e) = Unit
  BodySafe (subject_body s) = Unit
  BodySafe (search_body resp t stages) = Unit
  BodySafe (mock_body a) = Unit
  BodySafe (doc_body doc) = Unit
  BodySafe (decision_body d) = Unit
  BodySafe (metrics_body m) = Unit
  BodySafe (seed_stats_body stats) = Unit

  respond-Safe :
      (answer : Result Interpretation) (s : S) → Shows (answer, s) → BodySafe (respond answer).body
  respond-Safe (err e) s h = tt
  respond-Safe (ok i) s h = h

  handled-Safe :
      (arrival : List GroupSpec → List GroupSpec) (decoded : Payload) (trace_id : String)
      (state : ServerState S)
      → BodySafe (handle_query_interpret server subject arrival decoded trace_id state).0.body
  unfolding handle_query_interpret
  handled-Safe arrival decoded trace_id state =
      let payload = with_version decoded in
      let analysis =
        analyze_query payload.message subject.tenant_id server.id_patterns
          server.shape_thresholds in
      let plan =
        build_resolution_plan server.id_registry payload.message subject.tenant_id
          payload.resource_hint server.id_patterns server.shape_thresholds in
      let answer =
        interpret_supported server subject arrival payload analysis plan trace_id state.engine in
      if_cases (λ (r : Response × ServerState S). BodySafe r.0.body)
        (is_short server.shape_thresholds.short_no_op_len (trim_space analysis.normalized_input))
        (λ _. (tt, tt))
        (λ _.
          if_cases (λ (r : Response × ServerState S). BodySafe r.0.body)
            (analysis.query_shape == shape_unsupported) (λ _. (tt, tt))
            (λ _.
              respond-Safe answer.0 answer.1
                (interpret_supported-Safe arrival payload analysis plan trace_id state.engine)))

  -- Whatever path a question takes, by identifiers or by an analysis, whoever analyzes it and in whatever
  -- order the lookups arrive, every document of the response is that of a candidate that the store has found
  -- for the subject's tenant and that the policy has allowed the subject.
  pub handle_query_interpret-ShowsAuthorized :
      (arrival : List GroupSpec → List GroupSpec) (decoded : Payload) (trace_id : String)
      (state : ServerState S) (i : Interpretation)
      → (handle_query_interpret server subject arrival decoded trace_id state).0.body
        ≡ interpretation_body i
      → ShowsAuthorized server.service subject i
  handle_query_interpret-ShowsAuthorized arrival decoded trace_id state i e =
      subst BodySafe e (handled-Safe arrival decoded trace_id state)

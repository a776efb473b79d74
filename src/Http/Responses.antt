-- ===== src/Http/Responses.antt =====
-- internal/http/server.go: the responses of `handleQueryInterpret`.
use permission_aware_search.Common.{if◌then◌else◌, String, Bool, true, false, none, some, [], ◌∷◌}
use permission_aware_search.Common.Int.{pos}
use permission_aware_search.Strings.{◌+++◌}
use permission_aware_search.Strings.Numbers.{format_ℕ}
use permission_aware_search.Http.{Payload, Debug, Interpretation}
use permission_aware_search.Http.Flow.{build_semantic_debug_flow}
use permission_aware_search.Identifier.Shape.{QueryAnalysis}
use permission_aware_search.Search.{SearchResponse}
use permission_aware_search.Contracts.{intent_default}
use permission_aware_search.Semantic.{AnalyzeResult}

-- what all the responses without an analysis have in common
abbrev plain_interpretation : QueryAnalysis → String → Interpretation
plain_interpretation analysis trace_id = record {
  intent = "";
  intent_category = intent_default;
  intent_subcategory = none;
  query_shape = analysis.query_shape;
  normalization_applied = analysis.normalization_applied;
  identifier_pattern_matched = analysis.identifier_pattern_matched;
  path_taken = "intent_semantic_path";
  resolution_mode = "intent_semantic_path";
  generated_query = none;
  clarification_required = false;
  detected_identifiers = none;
  grouped_matches = none;
  items = some [];
  authorized_count = 0;
  hidden_count = 0;
  result_reason_code = "";
  visibility_notice = "";
  suggested_next_actions = [];
  redacted_placeholders = some [];
  answer = none;
  semantic_provider = "";
  semantic_notes = [];
  safe_evidence = [];
  rewrite_intent_provider = "";
  rewrite_intent_model_version = "";
  rewrite_intent_fallback_chain = [];
  rewrite_intent_gate_reason = "";
  retrieval_provider = "";
  retrieval_strategy = "";
  retrieval_fallback_chain = [];
  retrieval_gate_reason = "";
  retrieval_latency_ms = pos 0;
  retrieval_evidence = [];
  trace_id = trace_id;
  debug = none;
}

-- the response to an input that is too short
abbrev pub no_op_interpretation : QueryAnalysis → String → Interpretation
no_op_interpretation analysis trace_id = record (plain_interpretation analysis trace_id) {
  intent = "short_query_noop";
  path_taken = "no_op_short_query";
  resolution_mode = "identifier_fast_path";
  grouped_matches = some [];
  result_reason_code = "NO_OP_SHORT_QUERY";
  visibility_notice = "Query too short. Please type at least 3 characters.";
  suggested_next_actions =
      "Type at least 3 characters." ∷ "Paste an identifier (order/tracking/payment/customer/email)."
      ∷ [];
  semantic_provider = "identifier-resolver";
  semantic_notes = "no_op_short_query" ∷ [];
  safe_evidence = ("query_shape:" +++ analysis.query_shape) ∷ [];
}

-- the response to a question about something else
abbrev pub unsupported_interpretation : QueryAnalysis → String → Interpretation
unsupported_interpretation analysis trace_id = record (plain_interpretation analysis trace_id) {
  intent = "unsupported_domain";
  result_reason_code = "UNSUPPORTED_DOMAIN";
  visibility_notice =
      "Query appears product/catalog-oriented and is outside order/customer support scope.";
  suggested_next_actions =
      "Search by order/customer identifiers or contact details."
      ∷ "Use order/customer operational wording (status, shipment, payment, returns)." ∷ [];
  semantic_provider = "intent-router";
  semantic_notes = "unsupported_domain" ∷ [];
  safe_evidence = "query_shape:unsupported_domain" ∷ [];
}

-- the object under "debug" of the responses with an analysis
abbrev pub debug_of : Payload → String → AnalyzeResult → Bool → Debug
debug_of payload trace_id analyzed clarification = record {
  filter_source = some analyzed.filter_source;
  plan = none;
  group_count = 0;
  flow =
      if payload.debug then some (build_semantic_debug_flow analyzed.notes clarification) else none;
  trace_id = if payload.debug then some trace_id else none;
  analysis = if payload.debug then some analyzed else none;
}

-- what the two responses with an analysis have in common
abbrev pub analyzed_interpretation :
    Payload → QueryAnalysis → String → AnalyzeResult → Bool → Interpretation
analyzed_interpretation payload analysis trace_id analyzed clarification =
    record (plain_interpretation analysis trace_id) {
      intent = analyzed.intent;
      intent_category = analyzed.intent_category;
      intent_subcategory = some analyzed.intent_subcategory;
      generated_query = some analyzed.query;
      semantic_provider = analyzed.provider;
      semantic_notes = analyzed.notes;
      safe_evidence = analyzed.safe_evidence;
      rewrite_intent_provider = analyzed.rewrite_intent_provider;
      rewrite_intent_model_version = analyzed.rewrite_intent_model_version;
      rewrite_intent_fallback_chain = analyzed.rewrite_intent_fallback_chain;
      rewrite_intent_gate_reason = analyzed.rewrite_intent_gate_reason;
      retrieval_provider = analyzed.retrieval_provider;
      retrieval_strategy = analyzed.retrieval_strategy;
      retrieval_fallback_chain = analyzed.retrieval_fallback_chain;
      retrieval_gate_reason = analyzed.retrieval_gate_reason;
      retrieval_latency_ms = analyzed.retrieval_latency_ms;
      retrieval_evidence = analyzed.retrieval_evidence;
      debug = some (debug_of payload trace_id analyzed clarification);
    }

-- the response that asks for a clarification
unfoldable pub clarification_interpretation :
    Payload → QueryAnalysis → String → AnalyzeResult → Interpretation
unfolding build_semantic_debug_flow
clarification_interpretation payload analysis trace_id analyzed =
    record (analyzed_interpretation payload analysis trace_id analyzed true) {
      clarification_required = true;
      items = none;
      redacted_placeholders = none;
      result_reason_code = "CLARIFICATION_REQUIRED";
      visibility_notice =
          "Request is ambiguous. Please specify order/customer and at least one filter.";
      suggested_next_actions =
          "Add explicit entity (order/customer) and one filter."
          ∷ "Use an identifier such as order number, tracking ID, or email." ∷ [];
    }

-- the response with what the search has found
unfoldable pub found_interpretation :
    Payload → QueryAnalysis → String → AnalyzeResult → SearchResponse → Interpretation
unfolding build_semantic_debug_flow format_ℕ
found_interpretation payload analysis trace_id analyzed resp =
    record (analyzed_interpretation payload analysis trace_id analyzed false) {
      items = some resp.items;
      authorized_count = resp.authorized_count;
      hidden_count = resp.hidden_count;
      result_reason_code = resp.result_reason_code;
      visibility_notice = resp.visibility_notice;
      suggested_next_actions = resp.suggested_next_actions;
      redacted_placeholders = some resp.redacted_placeholders;
      answer = some (
          "Found "
          +++ format_ℕ resp.authorized_count
          +++ " visible "
          +++ analyzed.resource_type
          +++ " records.");
    }

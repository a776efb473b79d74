-- ===== src/Semantic/Framing.antt =====
-- internal/semantic/intent_framer.go and analyzer_rule.go: the framing of a message by rules, and the
-- analyzer that does nothing else.
use permission_aware_search.Common.{
  ◌==◌, if◌then◌else◌, Result, ok, String, false, none, some, List, [],
}
use permission_aware_search.Common.Int.{pos}
use permission_aware_search.Contracts.{contract_version_v2}
use permission_aware_search.Store.{QueryDsl}
use permission_aware_search.Semantic.{AnalyzeRequest, AnalyzeResult}
use permission_aware_search.Semantic.Merging.{source_for_filters}
use permission_aware_search.Parser.{Setting}
use permission_aware_search.Parser.Normalize.{normalize_prompt}
use permission_aware_search.Parser.Parse.{parse_natural_language, ParseResult}

-- `IntentFramer`
pub record Framer : Type 0 where
  pub name : String
  pub normalize : String → String
  pub frame : String → String → String → ParseResult

-- `DeterministicIntentFramer`, whose `Normalize` ranges over its phrases in the order given
unfoldable pub deterministic_framer : Setting → List (String × String) → Framer
unfolding normalize_prompt parse_natural_language
deterministic_framer env prompts = record {
  name = "deterministic-intent-framer";
  normalize = normalize_prompt prompts;
  frame = parse_natural_language env;
}

abbrev pub empty_query : QueryDsl
empty_query = record {
  contract_version = "";
  intent_category = "";
  filters = [];
  sort = record { field = ""; dir = "" };
  page = record { limit = pos 0; cursor = "" };
}

-- `AnalyzeResult{}`
abbrev pub empty_result : AnalyzeResult
empty_result = record {
  query = empty_query;
  original_message = "";
  rewritten_message = "";
  normalized_input = "";
  normalization_applied = [];
  extracted_slots = none;
  pre_semantic_query = none;
  post_semantic_query = none;
  intent = "";
  intent_category = "";
  intent_subcategory = "";
  resource_type = "";
  confidence = 0;
  clarification_needed = false;
  provider = "";
  notes = [];
  safe_evidence = [];
  filter_source = [];
  slm_raw = none;
  validation_errors = [];
  repaired = false;
  final_validated_query = none;
  rewrite_intent_provider = "";
  rewrite_intent_model_version = "";
  rewrite_intent_fallback_chain = [];
  rewrite_intent_gate_reason = "";
  retrieval_provider = "";
  retrieval_model_version = "";
  retrieval_fallback_chain = [];
  retrieval_gate_reason = "";
  retrieval_strategy = "";
  retrieval_latency_ms = pos 0;
  retrieval_evidence = [];
  retrieval_scores = [];
}

abbrev pub default_version : AnalyzeRequest → String
default_version req =
    if req.contract_version == "" then contract_version_v2 else req.contract_version

-- what both analyzers take over from a parse
abbrev pub framed : String → ParseResult → AnalyzeResult
framed message parsed = record empty_result {
  query = parsed.query;
  original_message = message;
  normalized_input = parsed.normalized_input;
  normalization_applied = parsed.normalization_applied;
  extracted_slots = some parsed.extracted_slots;
  pre_semantic_query = some parsed.query;
  post_semantic_query = some parsed.query;
  intent = parsed.intent;
  intent_category = parsed.intent_category;
  intent_subcategory = parsed.intent_subcategory;
  resource_type = parsed.resource_type;
  confidence = parsed.confidence;
  clarification_needed = parsed.clarification_needed;
  safe_evidence = parsed.safe_evidence;
}

-- `RuleSLMAnalyzer.Analyze`
unfoldable pub analyze_by_rules : Framer → AnalyzeRequest → Result AnalyzeResult
unfolding source_for_filters
analyze_by_rules framer req =
    let parsed = framer.frame req.message (default_version req) req.resource_hint in
    ok (record (framed req.message parsed) {
      rewritten_message = req.message;
      provider = "rule-slm";
      filter_source = source_for_filters parsed.query.filters "rule-slm";
    })

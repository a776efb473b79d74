-- ===== src/Tests/Semantic.antt =====
-- internal/semantic at concrete inputs.
use permission_aware_search.Semantic
use permission_aware_search.Common.Int.{pos}
use permission_aware_search.Common.{
  ok, err, lookup, ◌≤◌, String, ◌≡◌, refl, true, false, not, ◌||◌, none, some, List, [], ◌∷◌,
}
use permission_aware_search.Json.{str}
use permission_aware_search.Schema.Ecommerce.{ecommerce_registry}
use permission_aware_search.Store.{Filter, QueryDsl}
use permission_aware_search.Semantic.{AnalyzeRequest, AnalyzeResult, Analyzer}
use permission_aware_search.Semantic.Merging.{
  key_of, merge_filters, source_for_filters, merge_filter_sources,
}
use permission_aware_search.Semantic.Merged.{
  has_key, Distinct, merge_filters_lem, with_origin, merge_filter_sources_lem,
}
use permission_aware_search.Semantic.Remote.{validate_remote_result}
use permission_aware_search.Semantic.Checked.{validate_remote_result-Accepted, Accepted}
use permission_aware_search.Semantic.Chain.{analyze, RoutedAnalyzer}
use permission_aware_search.Semantic.Served.{analyze_total}
use permission_aware_search.Semantic.Refined.{analyze_refined, analyze_refined_keeps}

abbrev by_state : String → Filter
by_state state = record { field = "order.state"; op = "eq"; value = str state }

abbrev two : List Filter
two = by_state "Open" ∷ by_state "Complete" ∷ []

merge_filters_lem_example :
    Distinct key_of (merge_filters two (by_state "Open" ∷ []))
    × ((k : String)
        → has_key key_of k (merge_filters two (by_state "Open" ∷ []))
          ≡ (has_key key_of k two || has_key key_of k (by_state "Open" ∷ [])))
merge_filters_lem_example = merge_filters_lem two (by_state "Open" ∷ [])

merge_filter_sources_lem_example :
    merge_filter_sources two (
      source_for_filters two "slm-local"
      ∷ source_for_filters (by_state "Open" ∷ []) "superlinked"
      ∷ [])
    ≡ with_origin two (by_state "Open" ∷ []) two
merge_filter_sources_lem_example = merge_filter_sources_lem two (by_state "Open" ∷ []) two

abbrev blank_query : QueryDsl
blank_query = record {
  contract_version = "";
  intent_category = "";
  filters = by_state "Open" ∷ [];
  sort = record { field = ""; dir = "" };
  page = record { limit = pos 0; cursor = "" };
}

abbrev model_answer : AnalyzeResult
model_answer = record {
  query = blank_query;
  original_message = "";
  rewritten_message = "";
  normalized_input = "";
  normalization_applied = [];
  extracted_slots = none;
  pre_semantic_query = none;
  post_semantic_query = none;
  intent = "";
  intent_category = "wismo";
  intent_subcategory = "";
  resource_type = "order";
  confidence = 80;
  clarification_needed = false;
  provider = "";
  notes = [];
  safe_evidence = [];
  filter_source = [];
  slm_raw = none;
  validation_errors = [];
  repaired = false;
  final_validated_query = none;
  rewrite_intent_provider = "";
  rewrite_intent_model_version = "";
  rewrite_intent_fallback_chain = [];
  rewrite_intent_gate_reason = "";
  retrieval_provider = "";
  retrieval_model_version = "";
  retrieval_fallback_chain = [];
  retrieval_gate_reason = "";
  retrieval_strategy = "";
  retrieval_latency_ms = pos 0;
  retrieval_evidence = [];
  retrieval_scores = [];
}

validate_remote_result-Accepted_example :
    Accepted
      (some ecommerce_registry)
      (validate_remote_result (some ecommerce_registry) model_answer "v2").0
unfolding validate_remote_result ecommerce_registry
validate_remote_result-Accepted_example =
    validate_remote_result-Accepted (some ecommerce_registry) model_answer "v2" refl refl

abbrev model : Analyzer
model = record { name = "model"; analyze = λ limit req. ok model_answer }

abbrev slow : Analyzer
slow = record { name = "slow"; analyze = λ limit req. err "context deadline exceeded" }

abbrev routed : Analyzer → RoutedAnalyzer
routed rule = record {
  config = record {
    providers = [];
    routes = [];
    defaults = record { primary_provider_id = "slow"; fallback_provider_ids = "model" ∷ [] };
  };
  providers = ("slow", slow) ∷ ("model", model) ∷ ("intent-rule", rule) ∷ [];
  frame = λ message version hint. "default";
  registry = some ecommerce_registry;
}

abbrev question : AnalyzeRequest
question = record {
  message = "where is my order";
  contract_version = "";
  resource_hint = "";
  tenant_id = "tenant-a";
  query_shape = "sentence_nl";
  provider_override = "";
}

abbrev answer : AnalyzeResult
answer = record model_answer {
  query = record blank_query {
    contract_version = "v2";
    intent_category = "wismo";
    page = record { limit = pos 20; cursor = "" };
  };
  rewrite_intent_provider = "model";
  rewrite_intent_model_version = "model";
  rewrite_intent_fallback_chain = "slow" ∷ "model" ∷ [];
  rewrite_intent_gate_reason = "slow:timeout_or_error";
  notes = "rewrite_intent_provider:model" ∷ [];
}

analyze_total_example :
    (res : AnalyzeResult) × (Semantic.Chain.analyze (routed model) question ≡ ok res)
unfolding lookup
analyze_total_example = analyze_total (routed model) question model model_answer refl refl

analyze_refined_keeps_example :
    (res : AnalyzeResult) × (analyze_refined model slow question ≡ ok res)
    × ((k : String)
        → (has_key key_of k res.query.filters || not (has_key key_of k blank_query.filters)) ≡ true)
    × (80 ≤ res.confidence)
analyze_refined_keeps_example = analyze_refined_keeps model slow question model_answer refl

-- ===== src/Parser/Parse.antt =====
-- `ParseNaturalLanguage` of internal/semantic/parser.go. Confidences are in hundredths.
use permission_aware_search.Common.{
  ltb, ◌==◌, if◌then◌else◌, ℕ, String, Bool, not, Option, none, some, List, [], ◌∷◌, ◌++◌,
}
use permission_aware_search.Common.Int.{pos}
use permission_aware_search.Strings.{◌+++◌}
use permission_aware_search.Contracts.{
  contract_version_v2, intent_wismo, intent_crm_profile, intent_returns_refunds,
}
use permission_aware_search.Schema.Registry.{Registry}
use permission_aware_search.Store.{Filter, QueryDsl}
use permission_aware_search.Semantic.{SemanticSlots}
use permission_aware_search.Parser.{Setting}
use permission_aware_search.Parser.Lookups.{identifier_field, created_at_field}
use permission_aware_search.Parser.Patterns.{
  extract_order_number, extract_tracking_number, extract_payment_reference,
}
use permission_aware_search.Parser.Cues.{
  infer_relative_window, classify_intent, infer_intent_subcategory, infer_resource_type,
}
use permission_aware_search.Parser.Normalize.{normalize_semantic_input}
use permission_aware_search.Parser.Slots.{extract_semantic_slots}
use permission_aware_search.Parser.Filters.{
  a_filter, add, tell, step, remove_payment_state_filters, remove_shipment_state_filters,
  fill_wismo_filters, fill_customer_scope_filters, fill_crm_filters, fill_returns_filters, Draft,
}

pub record ParseResult : Type 0 where
  pub query : QueryDsl
  pub intent : String
  pub intent_category : String
  pub intent_subcategory : String
  pub resource_type : String
  pub normalized_input : String
  pub normalization_applied : List String
  pub extracted_slots : SemanticSlots
  pub confidence : ℕ
  pub clarification_needed : Bool
  pub safe_evidence : List String

abbrev pub first_draft : List String → Draft
first_draft applied = record {
  filters = [];
  confidence = 55;
  evidence = elim applied [ [] ↦ [] | x ∷ xs ↦ "normalization_applied" ∷ [] ];
}

unfoldable pub fill_window : Setting → String → String → Draft → Draft
unfolding infer_relative_window created_at_field
fill_window env lower resource_type d = elim (infer_relative_window lower) [
  | none ↦ d
  | some (days, label) ↦
      let since = env.days_ago days in
      let d' = add (a_filter (created_at_field env.registry resource_type) "gte" since) d in
      tell ("time_window:" +++ label) 8 d'
]

unfoldable pub fill_lookup : Option Registry → String → String → String → String → Draft → Draft
unfolding identifier_field
fill_lookup reg id_type fallback why v =
    step (not (v == ""))
      λ d. tell why 20 (add (a_filter (identifier_field reg id_type fallback) "eq" v) d)

-- the three lookups, which read the message as it came
unfoldable pub fill_identifiers : Option Registry → String → Draft → Draft
unfolding fill_lookup extract_order_number extract_tracking_number extract_payment_reference
fill_identifiers reg message d =
    let ord = extract_order_number message in
    let trk = extract_tracking_number message in
    let pay = extract_payment_reference message in
    let d1 = fill_lookup reg "order_number" "order.number" "order_number_lookup" ord d in
    let d2 = fill_lookup reg "tracking_id" "shipment.tracking_id" "tracking_id_lookup" trk d1 in
    fill_lookup reg "payment_reference" "payment.reference" "payment_reference_lookup" pay d2

unfoldable pub fill_intent :
    Option Registry → String → String → String → SemanticSlots → Draft → Draft
fill_intent reg intent resource_type lower slots d =
    if intent == intent_wismo
    then fill_customer_scope_filters lower resource_type (fill_wismo_filters reg lower slots d)
    else if intent == intent_crm_profile
    then fill_crm_filters reg lower resource_type d
    else if intent == intent_returns_refunds
    then fill_returns_filters reg lower d
    else d

-- where cues contradict each other
abbrev pub doubt : String → (List Filter → List Filter) → Draft → Draft
doubt why remove_from d = record {
  filters = remove_from d.filters;
  confidence = 40;
  evidence = d.evidence ++ why ∷ [];
}

unfoldable pub guard_conflicts : SemanticSlots → Draft → Draft
unfolding remove_payment_state_filters remove_shipment_state_filters
guard_conflicts slots d =
    step slots.has_shipment_conflict
      (doubt "shipment_state:conflict_negation_vs_shipped" remove_shipment_state_filters)
      (step slots.has_payment_conflict
        (doubt "payment_state:conflict_failed_vs_paid" remove_payment_state_filters) d)

-- the filters, the confidence and the evidence of a message
unfoldable pub draft_of : Setting → String → String → String → SemanticSlots → Draft → Draft
unfolding guard_conflicts
draft_of env message lower resource_type slots d = guard_conflicts slots (
    fill_intent env.registry (classify_intent lower) resource_type lower slots
      (fill_identifiers env.registry message (fill_window env lower resource_type d)))

-- `ParseNaturalLanguage`
unfoldable pub parse_natural_language : Setting → String → String → String → ParseResult
unfolding normalize_semantic_input extract_semantic_slots classify_intent infer_intent_subcategory
    infer_resource_type draft_of created_at_field fill_window fill_identifiers fill_lookup
    extract_order_number extract_tracking_number extract_payment_reference fill_intent
    fill_wismo_filters fill_customer_scope_filters fill_crm_filters fill_returns_filters
parse_natural_language env message contract_version resource_hint =
    let (lower, applied) = normalize_semantic_input env.ranged message in
    let slots = extract_semantic_slots env.registry lower in
    let intent = classify_intent lower in
    let resource_type = infer_resource_type lower resource_hint intent in
    let d = draft_of env message lower resource_type slots (first_draft applied) in
    record {
      query = record {
        contract_version = if contract_version == "" then contract_version_v2 else contract_version;
        intent_category = intent;
        filters = d.filters;
        sort = record { field = created_at_field env.registry resource_type; dir = "desc" };
        page = record { limit = pos 20; cursor = "" };
      };
      intent = "search_" +++ resource_type;
      intent_category = intent;
      intent_subcategory = infer_intent_subcategory lower intent;
      resource_type = resource_type;
      normalized_input = lower;
      normalization_applied = applied;
      extracted_slots = slots;
      confidence = d.confidence;
      clarification_needed = ltb d.confidence 66;
      safe_evidence = d.evidence;
    }

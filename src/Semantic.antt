-- ===== src/Semantic.antt =====
-- internal/semantic/types.go, serving_gate.go and retrieval_guard.go: what an analyzer is asked and
-- answers, and the gates. Confidences are in hundredths.
pub mod Merging
pub mod Merged
pub mod Remote
pub mod Errors
pub mod Checked
pub mod Chain
pub mod Served
pub mod Providers
pub mod Refined
pub mod Framing
pub mod Model
pub mod Local
pub mod Guarded
pub mod Gateway
pub mod Ranked
pub mod Superlinked
pub mod Narrowed
pub mod Mock
use permission_aware_search.Common.Int.{ℤ, pos, negsuc, le_zero, lt_ℤ}
use permission_aware_search.Common.{
  ltb, ◌==◌, if◌then◌else◌, Result, err, lookup, ℕ, String, ◌≡◌, Bool, true, false, not, ◌&&◌, ◌||◌,
  Option, none, some, List, [], ◌∷◌, arith,
}
use permission_aware_search.Strings.{trim_space, to_lower, equal_fold}
use permission_aware_search.Json.{Value}
use permission_aware_search.Schema.Registry.{Registry}
use permission_aware_search.Contracts.{normalize_field_name}
use permission_aware_search.Store.{Filter, QueryDsl}

pub record FilterSource : Type 0 where
  pub field : String
  pub op : String
  pub value : Value
  pub source : String

pub record AnalyzeRequest : Type 0 where
  pub message : String
  pub contract_version : String
  pub resource_hint : String
  pub tenant_id : String
  pub query_shape : String
  pub provider_override : String

-- slots.go
pub record SemanticSlots : Type 0 where
  pub order_state : String
  pub payment_state : String
  pub has_payment_conflict : Bool
  pub shipment_state : String
  pub has_shipment_negate : Bool
  pub has_shipment_conflict : Bool
  pub time_window_recent : Bool
  pub has_order_keyword : Bool
  pub has_customer_keyword : Bool
  pub matched_cues : List String
  pub slot_confidence : List (String × ℕ)

-- The raw answer of the model is held by its JSON value.
pub record AnalyzeResult : Type 0 where
  pub query : QueryDsl
  pub original_message : String
  pub rewritten_message : String
  pub normalized_input : String
  pub normalization_applied : List String
  pub extracted_slots : Option SemanticSlots
  pub pre_semantic_query : Option QueryDsl
  pub post_semantic_query : Option QueryDsl
  pub intent : String
  pub intent_category : String
  pub intent_subcategory : String
  pub resource_type : String
  pub confidence : ℕ
  pub clarification_needed : Bool
  pub provider : String
  pub notes : List String
  pub safe_evidence : List String
  pub filter_source : List FilterSource
  pub slm_raw : Option Value
  pub validation_errors : List String
  pub repaired : Bool
  pub final_validated_query : Option QueryDsl
  pub rewrite_intent_provider : String
  pub rewrite_intent_model_version : String
  pub rewrite_intent_fallback_chain : List String
  pub rewrite_intent_gate_reason : String
  pub retrieval_provider : String
  pub retrieval_model_version : String
  pub retrieval_fallback_chain : List String
  pub retrieval_gate_reason : String
  pub retrieval_strategy : String
  pub retrieval_latency_ms : ℤ
  pub retrieval_evidence : List String
  pub retrieval_scores : List String

-- `analyze` is told the deadline in milliseconds that the caller adds, if any.
pub record Analyzer : Type 0 where
  pub name : String
  pub analyze : Option ℕ → AnalyzeRequest → Result AnalyzeResult

pub record Router : Type 0 where
  pub default_provider : String
  pub providers : List (String × Analyzer)

abbrev is_some {ℓ} : {A : Type ℓ} → Option A → Bool
is_some none = false
is_some (some a) = true

-- `NewRouter`
unfoldable pub new_router : String → List (String × Analyzer) → Router
unfolding lookup
new_router default_provider providers = record {
  default_provider =
      if default_provider == ""
      then "rule-slm"
      else if is_some (lookup default_provider providers)
      then default_provider
      else "rule-slm";
  providers = providers;
}

abbrev pub chosen_provider : Router → AnalyzeRequest → String
chosen_provider r req =
    if not (req.provider_override == "") && is_some (lookup req.provider_override r.providers)
    then req.provider_override
    else r.default_provider

abbrev pub nil_provider : String
nil_provider = "panic: nil pointer dereference"

-- `Router.Analyze`; a call of a missing provider panics
unfoldable pub route : Router → AnalyzeRequest → Result AnalyzeResult
unfolding lookup
route r req = elim (lookup (chosen_provider r req) r.providers) [
  | some provider ↦ provider.analyze none req
  | none ↦ elim (lookup "rule-slm" r.providers) [
    | some provider ↦ provider.analyze none req
    | none ↦ err nil_provider
  ]
]

pub record GateDecision : Type 0 where
  pub serve_superlinked : Bool
  pub reason : String

pub record ServingGate : Type 0 where
  pub mode : String
  pub min_confidence : ℕ
  pub max_latency_ms : ℤ
  pub max_candidates : ℤ

abbrev pub serve : String → GateDecision
serve reason = record { serve_superlinked = true; reason = reason }

abbrev pub hold : String → GateDecision
hold reason = record { serve_superlinked = false; reason = reason }

abbrev pub gate_mode : ServingGate → String
gate_mode g = if to_lower (trim_space g.mode) == "" then "shadow" else to_lower (trim_space g.mode)

-- `ServingGate.Decide`
unfoldable pub decide : ServingGate → ℕ → ℤ → ℤ → Bool → GateDecision
unfolding to_lower trim_space
decide g confidence latency_ms count clarification_needed =
    if gate_mode g == "off"
    then hold "mode_off"
    else if gate_mode g == "shadow"
    then hold "shadow_only"
    else if clarification_needed
    then hold "clarification_needed"
    else if ltb confidence g.min_confidence
    then hold "low_confidence"
    else if lt_ℤ g.max_latency_ms latency_ms
    then hold "latency_exceeded"
    else if le_zero count
    then hold "no_candidates"
    else if lt_ℤ (pos 0) g.max_candidates && lt_ℤ g.max_candidates count
    then hold "too_many_candidates"
    else serve "served_superlinked"

-- the fields that only bound a time
abbrev pub is_temporal : String → Bool
is_temporal name =
    name == "order.created_at"
    || name == "order.completed_at"
    || name == "customer.created_at"
    || name == "customer.last_modified_at"

-- the field that the loop of `hasAuthoritativeSupportFilter` looks at
abbrev pub guarded_field : Option Registry → String → Filter → String
guarded_field reg resource_type f =
    if normalize_field_name reg resource_type f.field == ""
    then trim_space (to_lower f.field)
    else normalize_field_name reg resource_type f.field

abbrev pub is_authoritative : Option Registry → String → Filter → Bool
is_authoritative reg resource_type f =
    let name = guarded_field reg resource_type f in
    not (name == "")
    && not (name == "id" && equal_fold (trim_space f.op) "in")
    && not (is_temporal name)

-- `hasAuthoritativeSupportFilter`
unfoldable pub has_authoritative_support_filter : Option Registry → String → List Filter → Bool
unfolding normalize_field_name equal_fold to_lower trim_space
has_authoritative_support_filter reg resource_type [] = false
has_authoritative_support_filter reg resource_type (f ∷ filters) =
    if is_authoritative reg resource_type f
    then true
    else has_authoritative_support_filter reg resource_type filters

-- The gate serves exactly if the mode is set and neither off nor shadow, nothing is to be clarified, the
-- confidence and the latency are within their bounds, and there are candidates, at most the maximum if
-- one is set.
pub decide_lem :
    (g : ServingGate) (confidence : ℕ) (latency_ms count : ℤ) (clarification_needed : Bool)
    → (decide g confidence latency_ms count clarification_needed).serve_superlinked ≡ (
        not (gate_mode g == "off")
        && not (gate_mode g == "shadow")
        && not clarification_needed
        && not (ltb confidence g.min_confidence)
        && not (lt_ℤ g.max_latency_ms latency_ms)
        && not (le_zero count)
        && not (lt_ℤ (pos 0) g.max_candidates && lt_ℤ g.max_candidates count))
unfolding decide
decide_lem g confidence latency_ms count clarification_needed = ground arith

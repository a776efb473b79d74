-- ===== src/Http/Lookups.antt =====
-- internal/http/server.go: `tryIdentifierFastPath`. The lookups of a plan run in goroutines, and their results
-- are read in the order in which they arrive. That order, a rearrangement of the groups, is an argument; the
-- searches use the state of the policy engine one after another in it.
pub mod Arrivals
pub mod Authorized
pub mod Refused
use permission_aware_search.Common.{
  ltb, eqb, ◌==◌, if◌then◌else◌, ◌>>=◌, Result, ok, length, ℕ, ◌+◌, String, false, ◌&&◌, Option,
  none, some, List, [], ◌∷◌,
}
use permission_aware_search.Common.Int.{pos}
use permission_aware_search.Strings.{◌+++◌}
use permission_aware_search.Strings.Numbers.{format_ℕ}
use permission_aware_search.Http.{Payload, GroupedMatch, Debug, Interpretation}
use permission_aware_search.Http.Flow.{lookup_flow}
use permission_aware_search.Identifier.{GroupSpec, ResolutionPlan}
use permission_aware_search.Identifier.Shape.{shape_typeahead, shape_identifier, shape_contact}
use permission_aware_search.Json.{str, field}
use permission_aware_search.Policy.{Subject}
use permission_aware_search.Search.{SearchResponse, Service}
use permission_aware_search.Search.Filtering.{search}
use permission_aware_search.Store.{QueryDsl}
use permission_aware_search.Contracts.{intent_default}

-- the query of one lookup
abbrev pub lookup_query : Payload → GroupSpec → QueryDsl
lookup_query payload g = record {
  contract_version = payload.contract_version;
  intent_category = intent_default;
  filters = record { field = g.match_field; op = g.operator; value = str g.value } ∷ [];
  sort = record { field = "created_at"; dir = "desc" };
  page = record { limit = pos 20; cursor = "" };
}

abbrev pub match_of : GroupSpec → SearchResponse → GroupedMatch
match_of g resp = record {
  resource_type = g.resource_type;
  match_field = g.match_field;
  authorized_count = resp.authorized_count;
  hidden_count = resp.hidden_count;
  items = resp.items;
  redacted_placeholders = resp.redacted_placeholders;
}

module _ {S : Type 0} (service : Service S) (subject : Subject) (payload : Payload) where
  -- one goroutine
  unfoldable pub look_up : GroupSpec → S → Result GroupedMatch × S
  unfolding search
  look_up g s =
      let (answer, s') = search service subject g.resource_type (lookup_query payload g) s in
      ((answer >>= λ resp. ok (match_of g resp)), s')

  -- what arrives on the channel
  unfoldable pub look_up_each : List GroupSpec → S → List (Result GroupedMatch) × S
  unfolding look_up
  look_up_each [] s = ([], s)
  look_up_each (g ∷ groups) s =
      let (first, s') = look_up g s in
      let (rest, s'') = look_up_each groups s' in (first ∷ rest, s'')

pub record Collected : Type 0 where
  pub groups : List GroupedMatch
  pub authorized : ℕ
  pub hidden : ℕ

abbrev pub with_match : GroupedMatch → Collected → Collected
with_match m c = record {
  groups = m ∷ c.groups;
  authorized = m.authorized_count + c.authorized;
  hidden = m.hidden_count + c.hidden;
}

-- The loop that reads the channel. The first error ends it.
unfoldable pub collect : List (Result GroupedMatch) → Result Collected
collect [] = ok (record { groups = []; authorized = 0; hidden = 0 })
collect (r ∷ results) = let rest = collect results in r >>= λ m. rest >>= λ c. ok (with_match m c)

-- `resultReasonForFastPath`
unfoldable pub result_reason_for_fast_path : ℕ → ℕ → String
result_reason_for_fast_path authorized hidden =
    if ltb 0 authorized
    then "VISIBLE_RESULTS"
    else if ltb 0 hidden
    then "MATCHES_EXIST_BUT_NOT_VISIBLE"
    else "NO_MATCH_IN_TENANT"

-- `suggestedNextActionsForFastPath`
unfoldable pub suggested_next_actions_for_fast_path : ℕ → ℕ → List String
suggested_next_actions_for_fast_path authorized hidden =
    if ltb 0 authorized
    then []
    else if ltb 0 hidden
    then "Use a persona/role with broader access." ∷ "Verify tenant and region scope."
      ∷ "Request additional access for this query context." ∷ []
    else "Check identifier/value and query filters." ∷ "Confirm the tenant context is correct." ∷ []

-- `pathTakenForShape`
unfoldable pub path_taken_for_shape : String → String
path_taken_for_shape shape =
    if shape == shape_identifier
    then "identifier_fast_path"
    else if shape == shape_contact
    then "contact_fast_path"
    else if shape == shape_typeahead
    then "typeahead_fast_path"
    else "identifier_fast_path"

unfoldable pub fast_path_notice : ℕ → ℕ → String
fast_path_notice authorized hidden =
    if eqb authorized 0 && eqb hidden 0
    then "No matching records found for the supplied identifier."
    else if eqb authorized 0 && ltb 0 hidden
    then "Matches found but hidden by permissions."
    else "Identifier lookup resolved grouped matches."

abbrev lookup_debug : Payload → String → ResolutionPlan → Collected → Debug
lookup_debug payload trace_id plan c = record {
  filter_source = none;
  plan = some plan;
  group_count = length c.groups;
  flow = if payload.debug then some lookup_flow else none;
  trace_id = if payload.debug then some trace_id else none;
  analysis = none;
}

-- the response of the lookups that have arrived
unfoldable pub grouped_interpretation :
    Payload → String → ResolutionPlan → Collected → Interpretation
unfolding format_ℕ fast_path_notice path_taken_for_shape result_reason_for_fast_path
    suggested_next_actions_for_fast_path
grouped_interpretation payload trace_id plan c = record {
  intent = "identifier_lookup";
  intent_category = intent_default;
  intent_subcategory = none;
  query_shape = plan.query_shape;
  normalization_applied = plan.normalization_applied;
  identifier_pattern_matched = plan.identifier_pattern_matched;
  path_taken = path_taken_for_shape plan.query_shape;
  resolution_mode = "identifier_fast_path";
  generated_query = none;
  clarification_required = false;
  detected_identifiers = some plan.detected;
  grouped_matches = some c.groups;
  items = some [];
  authorized_count = c.authorized;
  hidden_count = c.hidden;
  result_reason_code = result_reason_for_fast_path c.authorized c.hidden;
  visibility_notice = fast_path_notice c.authorized c.hidden;
  suggested_next_actions = suggested_next_actions_for_fast_path c.authorized c.hidden;
  redacted_placeholders = some [];
  answer = some (
      "Found "
      +++ format_ℕ c.authorized
      +++ " visible records across "
      +++ format_ℕ (length c.groups)
      +++ " grouped matches.");
  semantic_provider = "identifier-resolver";
  semantic_notes = "identifier_fast_path" ∷ [];
  safe_evidence = "identifier_lookup" ∷ ("query_shape:" +++ plan.query_shape) ∷ [];
  rewrite_intent_provider = "";
  rewrite_intent_model_version = "";
  rewrite_intent_fallback_chain = [];
  rewrite_intent_gate_reason = "";
  retrieval_provider = "";
  retrieval_strategy = "identifier_only";
  retrieval_fallback_chain = [];
  retrieval_gate_reason = "";
  retrieval_latency_ms = pos 0;
  retrieval_evidence = [];
  trace_id = trace_id;
  debug = some (lookup_debug payload trace_id plan c);
}

-- `tryIdentifierFastPath`; `none` where its second result is false
unfoldable pub try_identifier_fast_path :
    {S : Type 0}
    → Service S
    → Subject
    → Payload
    → String
    → (List GroupSpec → List GroupSpec)
    → ResolutionPlan
    → S
    → Result (Option Interpretation) × S
unfolding look_up_each collect grouped_interpretation
try_identifier_fast_path service subject payload trace_id arrival plan s =
    let (results, s') = look_up_each service subject payload (arrival plan.groups) s in
    if plan.should_use_fast_path
    then ((collect results >>= λ c. ok (some (grouped_interpretation payload trace_id plan c))), s')
    else (ok none, s)

-- ===== src/Search.antt =====
-- internal/search/service.go: a search whose results pass through the policy. The policy engine is an
-- interface with a state; `time.Now` and the signing of request tokens are arguments.
pub mod Filtering
pub mod Responses
pub mod Visibility
pub mod Guarantees
pub mod Reasons
pub mod Tokens
use permission_aware_search.Common.Int.{ℤ, pos, le_zero, to_ℕ}
use permission_aware_search.Common.{
  ltb, eqb, ◌==◌, if◌then◌else◌, ◌>>=◌, Result, ok, ℕ, String, Bool, ◌||◌, Option, List, [], ◌∷◌,
}
use permission_aware_search.Json.{Doc, deep_copy_map, field}
use permission_aware_search.Schema.Registry.{Registry}
use permission_aware_search.Contracts.{
  contract_version_v2, intent_default, normalize_field_name, validate_field,
}
use permission_aware_search.Store.{Filter, QueryDsl, Candidate, DataStore}
use permission_aware_search.Policy.{Subject, Decision}

-- `policy.Engine`, with the state that a call may change
pub record Engine (S : Type 0) : Type 0 where
  pub evaluate : Subject → String → String → Doc → S → Result Decision × S
  pub explain : Subject → String → String → String → S → Result Decision × S

pub record RedactedPlaceholder : Type 0 where
  pub resource_id : String
  pub kind : String
  pub reason_code : String
  pub request_access_token : String

pub record SearchResponse : Type 0 where
  pub items : List Doc
  pub authorized_count : ℕ
  pub hidden_count : ℕ
  pub result_reason_code : String
  pub visibility_notice : String
  pub suggested_next_actions : List String
  pub redacted_placeholders : List RedactedPlaceholder
  pub visibility_mode : String
  pub contract_version : String
  pub next_cursor : String
  pub scope_capped_candidates : Bool

pub record Service (S : Type 0) : Type 0 where
  pub store : DataStore
  pub policy : Engine S
  pub registry : Option Registry
  pub max_candidate_window : ℕ
  pub max_placeholder_count : ℕ
  pub request_token : String → QueryDsl → Subject → String

-- the defaults, and under contract v2 the canonical field names
unfoldable pub normalize_filters : Option Registry → String → List Filter → List Filter
unfolding normalize_field_name
normalize_filters reg resource_type [] = []
normalize_filters reg resource_type (f ∷ filters) =
    record f { field = normalize_field_name reg resource_type f.field }
    ∷ normalize_filters reg resource_type filters

abbrev pub with_default : String → String → String
with_default s default = if s == "" then default else s

unfoldable pub normalize_query : Option Registry → String → QueryDsl → QueryDsl
unfolding normalize_filters
normalize_query reg resource_type query =
    let q = record query {
      contract_version = with_default query.contract_version contract_version_v2;
      intent_category = with_default query.intent_category intent_default;
    } in
    if q.contract_version == contract_version_v2
    then record q {
      filters = normalize_filters reg resource_type q.filters;
      sort =
          if q.sort.field == ""
          then q.sort
          else record (q.sort) { field = normalize_field_name reg resource_type q.sort.field };
    }
    else q

unfoldable pub validate_filters :
    Option Registry → String → String → String → List Filter → Result (Unit {0})
unfolding validate_field
validate_filters reg resource_type version intent [] = ok tt
validate_filters reg resource_type version intent (f ∷ filters) =
    validate_field reg resource_type version intent f.field >>= λ _.
    validate_filters reg resource_type version intent filters

unfoldable pub validate_query : Option Registry → String → QueryDsl → Result (Unit {0})
unfolding validate_filters
validate_query reg resource_type q =
    validate_filters reg resource_type q.contract_version q.intent_category q.filters >>= λ _.
    if q.sort.field == ""
    then ok tt
    else validate_field reg resource_type q.contract_version q.intent_category q.sort.field

-- `deriveResultReason`: code, notice, suggestions
unfoldable pub derive_result_reason : ℕ → ℕ → ℕ → ℕ → Bool → String × String × List String
derive_result_reason total_matched candidates_in_window authorized hidden scope_capped =
    if ltb 0 authorized
    then (
      "VISIBLE_RESULTS", "Matching records found and visible for your current access scope.", [],
    )
    else if ltb 0 hidden
    then (
      "MATCHES_EXIST_BUT_NOT_VISIBLE",
      "Matching records exist but are not visible with your current permissions.",
      "Use a persona/role with broader access." ∷ "Verify tenant and region scope."
          ∷ "Request additional access for this query context." ∷ [],
    )
    else if eqb total_matched 0
    then (
      "NO_MATCH_IN_TENANT",
      "No matching records found in the current tenant for this query.",
      "Check identifier/value and query filters." ∷ "Confirm the tenant context is correct." ∷ [],
    )
    else if eqb candidates_in_window 0 || scope_capped
    then (
      "NO_VISIBLE_RESULTS_FOR_CURRENT_SCOPE",
      "No visible records in the current search scope for your access context.",
      "Try a narrower or different filter." ∷ "Try a persona/role with broader access." ∷ [],
    )
    else (
      "NO_VISIBLE_RESULTS_FOR_CURRENT_SCOPE",
      "No visible records for the current access scope.",
      "Try a persona/role with broader access." ∷ [],
    )

-- what the loop over the candidates has collected
pub record Sorted : Type 0 where
  pub allowed : List Doc
  pub hidden_ids : List String

abbrev pub keep_candidate : Candidate → Decision → Sorted → Sorted
keep_candidate c d rest =
    if d.allowed
    then record rest { allowed = deep_copy_map c.doc ∷ rest.allowed }
    else record rest { hidden_ids = c.id ∷ rest.hidden_ids }

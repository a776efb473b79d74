-- ===== src/Identifier/Resolve.antt =====
-- internal/identifier/resolver.go: the lookups that are planned for the identifiers of an input. The
-- package-level registry is an argument, and `none` where it has not been set.
use permission_aware_search.Common.{
  ltb, leb, ◌==◌, if◌then◌else◌, keep, ℕ, String, len, Bool, true, not, ◌&&◌, ◌||◌, Option, none,
  some, List, [], ◌∷◌, ◌++◌,
}
use permission_aware_search.Strings.{◌+++◌, trim_space}
use permission_aware_search.Strings.Words.{drop_bytes, last_bytes}
use permission_aware_search.Schema.{SecondaryLookup, IdentifierPattern}
use permission_aware_search.Schema.Registry.{Registry}
use permission_aware_search.Schema.Patterns.{
  get_all_identifier_patterns, get_identifier_by_type, get_secondary_lookups,
}
use permission_aware_search.Regex.{is_digit}
use permission_aware_search.Identifier.{
  type_order_number, type_tracking_id, type_payment_ref, type_customer_number, type_email,
  type_unknown_token, DetectedIdentifier, GroupSpec, ResolutionPlan,
}
use permission_aware_search.Identifier.Patterns.{PatternRegistry}
use permission_aware_search.Identifier.Detect.{is_nil, should_use_fast_path}
use permission_aware_search.Identifier.Shape.{shape_typeahead, analyze_query, QueryShapeThresholds}
use permission_aware_search.Semantic.Merging.{first_of_each}
use Prim.Native.String.{slice}

-- `isOnlyNumeric`
abbrev pub only_digits : String → Bool
only_digits String.[] = true
only_digits (String.◌∷◌ c s) = is_digit c && only_digits s

unfoldable pub is_only_numeric : String → Bool
unfolding trim_space
is_only_numeric input = let trimmed = trim_space input in not (trimmed == "") && only_digits trimmed

-- `customerIDFromNumber`
unfoldable pub customer_id_from_number : String → String
unfolding drop_bytes
customer_id_from_number input =
    if leb 11 (len input) && slice input 0 5 == "CUST-"
    then "cust-" +++ last_bytes 5 input
    else input

abbrev pub group_spec : String → String → String → String → ℕ → GroupSpec
group_spec resource name op v confidence = record {
  resource_type = resource;
  match_field = name;
  operator = op;
  value = v;
  confidence = confidence;
}

-- what is looked up for an input of digits alone
abbrev pub numeric_groups : String → List GroupSpec
numeric_groups input =
    group_spec "order" "order.number" "like" (input +++ "%") 60
    ∷ group_spec "order" "shipment.tracking_id" "like" (input +++ "%") 50
    ∷ group_spec "order" "payment.reference" "like" (input +++ "%") 50
    ∷ group_spec "customer" "customer.number" "like" (input +++ "%") 50
    ∷ []

abbrev pub transformed : Option (String → String) → String → String
transformed none v = v
transformed (some change) v = change v

abbrev pub secondary_groups : String → String → List SecondaryLookup → List GroupSpec
secondary_groups op v [] = []
secondary_groups op v (sec ∷ secondary) =
    let text = transformed sec.transformer v in
    group_spec sec.resource_type sec.field (if op == "like" then "like" else "eq")
      (if op == "like" then text +++ "%" else text) sec.confidence
    ∷ secondary_groups op v secondary

abbrev pub token_groups : String → List IdentifierPattern → List GroupSpec
token_groups v [] = []
token_groups v (ip ∷ patterns) =
    group_spec ip.resource_type ip.primary_field "like" (v +++ "%") 40 ∷ token_groups v patterns

-- the lookups by the schema
unfoldable pub registry_groups : Registry → String → DetectedIdentifier → List GroupSpec
unfolding get_identifier_by_type get_secondary_lookups get_all_identifier_patterns
registry_groups reg op d =
    let v = d.normalized_value in
    elim (get_identifier_by_type reg d.id_type) [
      | some (resource, name) ↦
          group_spec resource name op (if op == "like" then v +++ "%" else v) d.confidence
          ∷ secondary_groups op v (get_secondary_lookups reg d.id_type)
      | none ↦
          if d.id_type == type_unknown_token && not (v == "")
          then token_groups v (get_all_identifier_patterns reg)
          else []
    ]

-- the lookups that are written into the code
unfoldable pub legacy_groups : String → DetectedIdentifier → List GroupSpec
unfolding customer_id_from_number
legacy_groups op d =
    let v = d.normalized_value in
    let text = if op == "like" then v +++ "%" else v in
    if d.id_type == type_order_number
    then group_spec "order" "order.number" op text d.confidence ∷ []
    else if d.id_type == type_tracking_id
    then group_spec "order" "shipment.tracking_id" op text d.confidence ∷ []
    else if d.id_type == type_payment_ref
    then group_spec "order" "payment.reference" op text d.confidence ∷ []
    else if d.id_type == type_customer_number
    then group_spec "customer" "customer.number" op text d.confidence
      ∷ group_spec "order" "order.customer_id" op (customer_id_from_number v) 85
      ∷ []
    else if d.id_type == type_email
    then (if op == "like" && ltb (len v) 3
        then []
        else group_spec "customer" "customer.email" op text d.confidence
          ∷ group_spec "order" "order.customer_email" op text d.confidence
          ∷ [])
    else if d.id_type == type_unknown_token && not (v == "")
    then group_spec "order" "order.number" "like" (v +++ "%") 40
      ∷ group_spec "order" "shipment.tracking_id" "like" (v +++ "%") 40
      ∷ group_spec "order" "payment.reference" "like" (v +++ "%") 40
      ∷ group_spec "customer" "customer.number" "like" (v +++ "%") 40
      ∷ group_spec "customer" "customer.email" "like" (v +++ "%") 40
      ∷ []
    else []

abbrev pub operator_for : Bool → DetectedIdentifier → String
operator_for typeahead d = if typeahead || d.id_type == type_unknown_token then "like" else "eq"

abbrev pub schema_groups : Option Registry → String → DetectedIdentifier → List GroupSpec
schema_groups none op d = legacy_groups op d
schema_groups (some reg) op d = registry_groups reg op d

-- the lookups for one identifier
abbrev pub groups_for : Option Registry → String → Bool → DetectedIdentifier → List GroupSpec
groups_for reg input typeahead d =
    if is_only_numeric input
    then numeric_groups input
    else schema_groups reg (operator_for typeahead d) d

unfoldable pub groups_of :
    Option Registry → String → Bool → List DetectedIdentifier → List GroupSpec
unfolding is_only_numeric registry_groups legacy_groups
groups_of reg input typeahead [] = []
groups_of reg input typeahead (d ∷ detected) =
    groups_for reg input typeahead d ++ groups_of reg input typeahead detected

abbrev pub or_all : List GroupSpec → List GroupSpec → List GroupSpec
or_all [] groups = groups
or_all (g ∷ filtered) groups = g ∷ filtered

-- the groups of the resource that is hinted at, if there are any
unfoldable pub hinted_groups : String → List GroupSpec → List GroupSpec
hinted_groups hint groups =
    if hint == "order" || hint == "customer"
    then or_all (keep (λ g. g.resource_type == hint) groups) groups
    else groups

abbrev pub group_key : GroupSpec → String
group_key g = g.resource_type +++ "|" +++ g.match_field +++ "|" +++ g.operator +++ "|" +++ g.value

-- `dedupeGroups`
unfoldable pub dedupe_groups : List GroupSpec → List GroupSpec
unfolding first_of_each
dedupe_groups groups = first_of_each group_key groups []

-- `BuildResolutionPlanWithConfig`
unfoldable pub build_resolution_plan :
    Option Registry
    → String
    → String
    → String
    → Option PatternRegistry
    → QueryShapeThresholds
    → ResolutionPlan
unfolding analyze_query should_use_fast_path groups_of hinted_groups dedupe_groups
build_resolution_plan reg input tenant_id hint patterns t =
    let analysis = analyze_query input tenant_id patterns t in
    let typeahead = analysis.query_shape == shape_typeahead in
    let groups = hinted_groups hint (groups_of reg input typeahead analysis.detected) in
    record {
      should_use_fast_path =
          should_use_fast_path analysis.normalized_input analysis.detected && not (is_nil groups);
      detected = analysis.detected;
      groups = dedupe_groups groups;
      query_shape = analysis.query_shape;
      normalization_applied = analysis.normalization_applied;
      identifier_pattern_matched = analysis.identifier_pattern_matched;
      normalized_input = analysis.normalized_input;
    }

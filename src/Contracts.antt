-- ===== src/Contracts.antt =====
-- internal/contracts: which fields a query may name. The package-level registry is an argument, and
-- `none` where it has not been set.
pub mod Allowlist
pub mod Canonical
use permission_aware_search.Common.{
  ◌==◌, if◌then◌else◌, Result, ok, err, mem, String, Bool, true, false, not, Option, none, some,
  List, [], ◌∷◌,
}
use permission_aware_search.Strings.{◌+++◌, trim_space, to_lower}
use permission_aware_search.Schema.Registry.{
  get_resource, normalize_field, is_field_allowed, Registry,
}
use permission_aware_search.Schema.Patterns.{get_v1_searchable_fields}

abbrev pub contract_version_v1 : String
contract_version_v1 = "v1"

abbrev pub contract_version_v2 : String
contract_version_v2 = "v2"

abbrev pub intent_default : String
intent_default = "default"

abbrev pub intent_wismo : String
intent_wismo = "wismo"

abbrev pub intent_crm_profile : String
intent_crm_profile = "crm_profile"

abbrev pub intent_returns_refunds : String
intent_returns_refunds = "returns_refunds"

abbrev pub intent_unsupported : String
intent_unsupported = "unsupported_domain"

-- `NormalizeField`: the registry's answer for the trimmed, lower-cased name, else that name
unfoldable pub normalize_field_name : Option Registry → String → String → String
unfolding normalize_field to_lower trim_space
normalize_field_name none resource_type field = to_lower (trim_space field)
normalize_field_name (some reg) resource_type field =
    elim (normalize_field reg resource_type (to_lower (trim_space field))) [
      | some canonical ↦ canonical
      | none ↦ to_lower (trim_space field)
    ]

abbrev pub registry_missing : String
registry_missing = "schema registry not initialised"

abbrev pub is_nil : List String → Bool
is_nil [] = true
is_nil (x ∷ xs) = false

-- the case of version v1
unfoldable pub validate_v1 : Option Registry → String → String → Result (Unit {0})
unfolding get_v1_searchable_fields mem
validate_v1 none resource_type field = err registry_missing
validate_v1 (some reg) resource_type field =
    let allowed = get_v1_searchable_fields reg resource_type in
    if is_nil allowed
    then err ("unknown resource type: " +++ resource_type)
    else if not (mem field allowed)
    then err ("FIELD_NOT_ALLOWED: " +++ field)
    else ok tt

-- the case of version v2
unfoldable pub validate_v2 : Option Registry → String → String → String → Result (Unit {0})
unfolding get_resource is_field_allowed normalize_field_name
validate_v2 none resource_type intent field = err registry_missing
validate_v2 (some reg) resource_type intent field = elim (get_resource reg resource_type) [
  | none ↦ err ("unknown resource type: " +++ resource_type)
  | some res ↦
      let normalized = normalize_field_name (some reg) resource_type field in
      if not (is_field_allowed reg resource_type intent normalized)
      then err ("FIELD_NOT_ALLOWED: " +++ field)
      else ok tt
]

-- `ValidateField`: `ok` where it returns nil
unfoldable pub validate_field :
    Option Registry → String → String → String → String → Result (Unit {0})
unfolding validate_v1 validate_v2
validate_field reg resource_type version intent field =
    let intent' = if intent == "" then intent_default else intent in
    if version == contract_version_v1
    then validate_v1 reg resource_type field
    else if version == contract_version_v2
    then validate_v2 reg resource_type intent' field
    else err ("unsupported contract version: " +++ version)

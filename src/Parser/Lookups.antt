-- ===== src/Parser/Lookups.antt =====
-- The lookups of internal/semantic/parser.go in the schema registry, with what they fall back to.
use permission_aware_search.Common.{◌==◌, if◌then◌else◌, String, Option, none, some}
use permission_aware_search.Schema.Registry.{
  get_default_sort_field, get_enum_role, get_enum_role_value, Registry,
}
use permission_aware_search.Schema.Patterns.{get_identifier_by_type}

-- `enumRoleValue`
unfoldable pub enum_role_value : Option Registry → String → String → String
unfolding get_enum_role_value
enum_role_value none role fallback = fallback
enum_role_value (some reg) role fallback = elim (get_enum_role_value reg role) [
  | some v ↦ v
  | none ↦ fallback
]

-- `enumRoleField`
unfoldable pub enum_role_field : Option Registry → String → String → String
unfolding get_enum_role
enum_role_field none role fallback = fallback
enum_role_field (some reg) role fallback = elim (get_enum_role reg role) [
  | some mapping ↦ mapping.field
  | none ↦ fallback
]

-- `identifierField`
unfoldable pub identifier_field : Option Registry → String → String → String
unfolding get_identifier_by_type
identifier_field none id_type fallback = fallback
identifier_field (some reg) id_type fallback = elim (get_identifier_by_type reg id_type) [
  | some (resource, name) ↦ name
  | none ↦ fallback
]

abbrev default_created_at : String → String
default_created_at resource_type =
    if resource_type == "customer" then "customer.created_at" else "order.created_at"

-- `createdAtField`
unfoldable pub created_at_field : Option Registry → String → String
unfolding get_default_sort_field
created_at_field none resource_type = default_created_at resource_type
created_at_field (some reg) resource_type = elim (get_default_sort_field reg resource_type) [
  | some name ↦ name
  | none ↦ default_created_at resource_type
]

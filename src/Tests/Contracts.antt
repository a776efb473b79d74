-- ===== src/Tests/Contracts.antt =====
-- internal/contracts and internal/schema at concrete inputs.
use permission_aware_search.Common.{ok, err, mem, String, ◌≡◌, refl, some, List, [], ◌∷◌}
use permission_aware_search.Json.{str}
use permission_aware_search.Schema.Registry.{filterable_fields, get_enum_roles_by_prefix}
use permission_aware_search.Schema.Patterns.{get_v1_searchable_fields}
use permission_aware_search.Schema.Ecommerce.{ecommerce_registry}
use permission_aware_search.Contracts.{normalize_field_name, validate_v1}
use permission_aware_search.Contracts.Allowlist.{Apart, validate_v1-build_where}
use permission_aware_search.Store.{Filter}
use permission_aware_search.Store.Sqlite.{clauses, build_where, Arg}
use permission_aware_search.Contracts.Canonical.{IsClosed, validate_filters-clauses}
use permission_aware_search.Search.{normalize_filters, validate_filters}

abbrev open_state : Filter
open_state = record { field = " Order_State "; op = "EQ"; value = str "Open" }

abbrev by_status : Filter
by_status = record { field = "status"; op = "eq"; value = str "Open" }

-- every v1 filter of both resources is refused
order-Apart : Apart ecommerce_registry "order"
unfolding get_v1_searchable_fields ecommerce_registry mem filterable_fields
order-Apart = refl

customer-Apart : Apart ecommerce_registry "customer"
unfolding get_v1_searchable_fields ecommerce_registry mem filterable_fields
customer-Apart = refl

validate_v1-build_where_example :
    build_where ecommerce_registry (filterable_fields ecommerce_registry "order") (by_status ∷ [])
    ≡ err "unsupported filter field: status"
unfolding validate_v1 ecommerce_registry
validate_v1-build_where_example =
    validate_v1-build_where ecommerce_registry "order" by_status [] order-Apart refl

-- the parser asks with a dot at the end, and is given nothing
no_roles : get_enum_roles_by_prefix ecommerce_registry "shipment.not_shipped_deny." ≡ []
unfolding get_enum_roles_by_prefix ecommerce_registry
no_roles = refl

order-IsClosed : IsClosed ecommerce_registry "order"
unfolding normalize_field_name ecommerce_registry
order-IsClosed = refl

validate_filters-clauses_example :
    (texts : List String) × (args : List Arg) × (clauses ecommerce_registry
        (filterable_fields ecommerce_registry "order")
        (normalize_filters (some ecommerce_registry) "order" (open_state ∷ by_status ∷ []))
      ≡ ok (texts, args))
unfolding mem ecommerce_registry validate_filters normalize_filters
validate_filters-clauses_example =
    validate_filters-clauses ecommerce_registry "order" "" (open_state ∷ by_status ∷ [])
      (refl, refl) order-IsClosed refl refl

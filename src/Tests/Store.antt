-- ===== src/Tests/Store.antt =====
-- internal/store/sqlite at concrete inputs.
use permission_aware_search.Common.Int.{pos}
use permission_aware_search.Common.{
  ◌==◌, if◌then◌else◌, ok, err, length, String, ◌≡◌, refl, Option, some, List, [], ◌∷◌, arith,
}
use permission_aware_search.Strings.{to_lower}
use permission_aware_search.Json.{str, arr, nil, cons}
use permission_aware_search.Schema.Registry.{native_column_for_field}
use permission_aware_search.Schema.Ecommerce.{ecommerce_registry}
use permission_aware_search.Store.{Filter, QueryDsl}
use permission_aware_search.Store.Sqlite.{
  build_where, offset_of, next_cursor, Arg, value, SqlDb, Adapter,
}
use permission_aware_search.Store.Sqlite.Queries.{search_rows, fetch_by_ids, get_by_id}
use permission_aware_search.Store.Sqlite.Where.{text_of, build_where-text}
use permission_aware_search.Store.Sqlite.Arguments.{marks, all_args, build_where-args}
use permission_aware_search.Store.Sqlite.Paging.{offset_of-next_cursor, adapter_isolates}

abbrev open_orders : String → List Filter
open_orders state =
    record { field = "order.state"; op = "eq"; value = str state }
    ∷ record {
      field = "order.number";
      op = "IN";
      value = arr (cons (str "1") (cons (str "2") nil));
    }
    ∷ []

build_where-text_example :
    text_of
      (build_where ecommerce_registry ("order.state" ∷ "order.number" ∷ []) (open_orders "Open"))
    ≡ text_of (
        build_where ecommerce_registry
          ("order.state" ∷ "order.number" ∷ [])
          (open_orders "x' OR 1=1 --"))
build_where-text_example =
    build_where-text ecommerce_registry ("order.state" ∷ "order.number" ∷ []) (open_orders "Open")
      (open_orders "x' OR 1=1 --") (refl, refl, refl, (refl, refl, refl, tt))

abbrev open_args : List Arg
open_args = value (str "Open") ∷ value (str "1") ∷ value (str "2") ∷ []

clean :
    (text column : String)
    → marks text ≡ 0
    → ◌≡◌ {A = Option String} (some text) (some column)
    → marks column ≡ 0
clean text column none_here e = let same : text ≡ column = cc in cc

build_where-args_example :
    (open_args ≡ all_args (open_orders "Open"))
    × (marks " AND order_state = ? AND order_number IN (?,?)" ≡ length open_args)
unfolding native_column_for_field marks build_where to_lower ecommerce_registry
build_where-args_example =
    build_where-args ecommerce_registry ("order.state" ∷ "order.number" ∷ []) (open_orders "Open")
      " AND order_state = ? AND order_number IN (?,?)" open_args
      (
        (λ column h. clean "order_state" column refl h),
        ((λ column h. clean "order_number" column refl h), tt),
      )
      refl

-- two tenants' rows, and those of one alone
abbrev only : String → SqlDb
only other = record {
  count = λ sql args. elim args [
    | value (str tenant) ∷ rest ↦ if tenant == "tenant-a" then ok 1 else ok 0
    | _ ↦ ok 7
  ];
  rows = λ sql args. elim args [
    | value (str tenant) ∷ rest ↦
        if tenant == "tenant-a"
        then ok (record { id = "ord-1"; doc = ok (("id", str "ord-1") ∷ []) } ∷ [])
        else ok (record { id = other; doc = ok [] } ∷ [])
    | _ ↦ err "no tenant"
  ];
}

abbrev first_page : QueryDsl
first_page = record {
  contract_version = "v2";
  intent_category = "default";
  filters = open_orders "Open";
  sort = record { field = "order.created_at"; dir = "asc" };
  page = record { limit = pos 10; cursor = "" };
}

abbrev over : String → Adapter
over other = record { db = only other; reg = ecommerce_registry }

adapter_isolates_example :
    (search_rows (over "b-1") "tenant-a" "order" first_page 500
      ≡ search_rows (over "b-2") "tenant-a" "order" first_page 500)
    × (fetch_by_ids (over "b-1") "tenant-a" "order" ("ord-1" ∷ [])
        ≡ fetch_by_ids (over "b-2") "tenant-a" "order" ("ord-1" ∷ []))
    × (get_by_id (over "b-1") "tenant-a" "order" "ord-1"
        ≡ get_by_id (over "b-2") "tenant-a" "order" "ord-1")
adapter_isolates_example =
    adapter_isolates ecommerce_registry (only "b-1") (only "b-2") "tenant-a" "order"
      (record { same_count = λ sql args asked. refl; same_rows = λ sql args asked. refl })
      first_page 500 ("ord-1" ∷ []) "ord-1"

offset_of-next_cursor_example : offset_of (next_cursor (pos 40) 20 75) ≡ pos 60
offset_of-next_cursor_example = offset_of-next_cursor 40 20 75 (omega arith)

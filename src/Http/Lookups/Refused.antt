-- ===== src/Http/Lookups/Refused.antt =====
-- A lookup that the contract refuses, and what becomes of the others of its plan.
use permission_aware_search.Common.{
  Result-cases, Result, ok, err, Member, String, ◌≡◌, refl, sym, ap, ◌∙◌, subst, inl, inr, true,
  some, List, [], ◌∷◌,
}
use permission_aware_search.Common.Int.{pos}
use permission_aware_search.Http.{Payload, GroupedMatch}
use permission_aware_search.Http.Lookups.{
  lookup_query, look_up, look_up_each, collect, try_identifier_fast_path,
}
use permission_aware_search.Search.{
  normalize_filters, normalize_query, validate_filters, validate_query, Service,
}
use permission_aware_search.Search.Filtering.{search}
use permission_aware_search.Identifier.{GroupSpec, ResolutionPlan}
use permission_aware_search.Json.{Value, str}
use permission_aware_search.Policy.{Subject}
use permission_aware_search.Store.{QueryDsl}
use permission_aware_search.Schema.Ecommerce.{ecommerce_registry}
use permission_aware_search.Contracts.{normalize_field_name, validate_field}
use permission_aware_search.Parser.Refused.{shop, refused_sort}

collect-failed :
    (results : List (Result GroupedMatch)) (e : String)
    → Member (err e) results
    → (message : String) × (collect results ≡ err message)
unfolding collect
collect-failed [] e m = elim m [ ]
collect-failed (err e' ∷ results) e m = (e', refl)
collect-failed (ok g ∷ results) e (inl same) = cc
collect-failed (ok g ∷ results) e (inr m) =
    let (message, failed) = collect-failed results e m in (message, rw failed refl)

module _ {S : Type 0} (service : Service S) (subject : Subject) (payload : Payload) where
  look_up-refused :
      (g : GroupSpec) (s : S) (e : String)
      → validate_query service.registry g.resource_type
          (normalize_query service.registry g.resource_type (lookup_query payload g))
        ≡ err e
      → (look_up service subject payload g s).0 ≡ err e
  unfolding look_up search
  look_up-refused g s e h = rw h refl

  look_up_each-refused :
      (g : GroupSpec) (groups : List GroupSpec) (s : S) (e : String)
      → Member g groups
      → validate_query service.registry g.resource_type
          (normalize_query service.registry g.resource_type (lookup_query payload g))
        ≡ err e
      → Member (err e) (look_up_each service subject payload groups s).0
  unfolding look_up_each
  look_up_each-refused g [] s e m h = elim m [ ]
  look_up_each-refused g (g' ∷ groups) s e (inl same) h =
      let s' = (look_up service subject payload g' s).1 in
      inl (ap (λ x. (look_up service subject payload x s).0) same ∙ look_up-refused g s e h)
  look_up_each-refused g (g' ∷ groups) s e (inr m) h =
      inr (look_up_each-refused g groups (look_up service subject payload g' s).1 e m h)

  -- One lookup whose query is not valid fails the whole plan, whatever the others find.
  try_identifier_fast_path-refused :
      (trace_id : String) (arrival : List GroupSpec → List GroupSpec) (plan : ResolutionPlan)
      (s : S) (g : GroupSpec) (e : String)
      → plan.should_use_fast_path ≡ true
      → Member g (arrival plan.groups)
      → validate_query service.registry g.resource_type
          (normalize_query service.registry g.resource_type (lookup_query payload g))
        ≡ err e
      → (message : String) × ((try_identifier_fast_path service subject payload trace_id arrival
            plan s).0
          ≡ err message)
  unfolding try_identifier_fast_path
  try_identifier_fast_path-refused trace_id arrival plan s g e fast m h =
      let results = (look_up_each service subject payload (arrival plan.groups) s).0 in
      let (message, failed) =
        collect-failed results e (look_up_each-refused g (arrival plan.groups) s e m h) in
      (message, rw (fast, failed) refl)

shop_sort : normalize_field_name shop "customer" "created_at" ≡ "customer.created_at"
unfolding normalize_field_name ecommerce_registry
shop_sort = refl

-- the query of a lookup of a customer, under the second version of the contract
abbrev customer_query : String → String → Value → QueryDsl
customer_query name op value = record {
  contract_version = "v2";
  intent_category = "default";
  filters = record { field = name; op = op; value = value } ∷ [];
  sort = record { field = "created_at"; dir = "desc" };
  page = record { limit = pos 20; cursor = "" };
}

customer_query-refused :
    (name op : String) (value : Value)
    → (e : String) × (validate_query shop "customer"
          (normalize_query shop "customer" (customer_query name op value))
        ≡ err e)
unfolding validate_query validate_filters normalize_query normalize_filters
customer_query-refused name op value =
    let name' = normalize_field_name shop "customer" name in
    elim (Result-cases (validate_field shop "customer" "v2" "default" name')) [
      | inl (x, allowed) ↦
          ("FIELD_NOT_ALLOWED: customer.created_at", rw (allowed, shop_sort, refused_sort) refl)
      | inr (e, not_allowed) ↦ (e, rw not_allowed refl)
    ]

customer_lookup-refused :
    (payload : Payload) (g : GroupSpec)
    → g.resource_type ≡ "customer"
    → payload.contract_version ≡ "v2"
    → (e : String) × (validate_query shop g.resource_type
          (normalize_query shop g.resource_type (lookup_query payload g))
        ≡ err e)
customer_lookup-refused payload g customer version =
    let (e, h) = customer_query-refused g.match_field g.operator (str g.value) in
    let same : customer_query g.match_field g.operator (str g.value) ≡ lookup_query payload g = λ i.
      record {
        contract_version = sym version i;
        intent_category = "default";
        filters = record { field = g.match_field; op = g.operator; value = str g.value } ∷ [];
        sort = record { field = "created_at"; dir = "desc" };
        page = record { limit = pos 20; cursor = "" };
      } in
    (
      e,
      subst (λ r. validate_query shop r (normalize_query shop r (lookup_query payload g)) ≡ err e)
          (sym customer)
          (subst (λ q. validate_query shop "customer" (normalize_query shop "customer" q) ≡ err e)
            same h),
    )

-- With the e-commerce schema and the contract version `v2`, the one that a payload without a version is given,
-- the fast path fails for every plan with a lookup of a customer, whatever the store, the policy and the order
-- of arrival: the lookups are sorted by the time of creation, which the contract does not allow for customers
-- under the default intent.
pub fast_path-refused :
    {S : Type 0} (service : Service S) (subject : Subject) (payload : Payload) (trace_id : String)
    (arrival : List GroupSpec → List GroupSpec) (plan : ResolutionPlan) (s : S) (g : GroupSpec)
    → service.registry ≡ some ecommerce_registry
    → payload.contract_version ≡ "v2"
    → plan.should_use_fast_path ≡ true
    → Member g (arrival plan.groups)
    → g.resource_type ≡ "customer"
    → (message : String) × ((try_identifier_fast_path service subject payload trace_id arrival plan
          s).0
        ≡ err message)
fast_path-refused service subject payload trace_id arrival plan s g wired version fast m customer =
    let (e, h) = customer_lookup-refused payload g customer version in
    try_identifier_fast_path-refused service subject payload trace_id arrival plan s g e fast m (
      subst
        (λ reg.
          validate_query reg g.resource_type
            (normalize_query reg g.resource_type (lookup_query payload g))
          ≡ err e)
        (sym wired) h)

-- ===== src/Parser/Filters.antt =====
-- The filters that internal/semantic/parser.go adds to a query. Confidences are in hundredths.
use permission_aware_search.Common.{
  ◌==◌, if◌then◌else◌, keep, ℕ, ◌+◌, String, Bool, false, not, ◌&&◌, ◌||◌, Option, none, some, List,
  [], ◌∷◌, ◌++◌,
}
use permission_aware_search.Strings.{◌+++◌, trim_space, equal_fold, contains}
use permission_aware_search.Json.{num, str}
use permission_aware_search.Json.Sprint.{sprint}
use permission_aware_search.Schema.{EnumRoleMapping}
use permission_aware_search.Schema.Registry.{get_enum_roles_by_prefix, Registry}
use permission_aware_search.Store.{Filter}
use permission_aware_search.Semantic.{SemanticSlots}
use permission_aware_search.Parser.Lookups.{enum_role_value, enum_role_field}
use permission_aware_search.Parser.Patterns.{
  extract_customer_number, extract_phone, extract_email, customer_id_from_customer_number,
}

-- what the functions below change: the filters of the query, the confidence and the evidence
pub record Draft : Type 0 where
  pub filters : List Filter
  pub confidence : ℕ
  pub evidence : List String

abbrev pub a_filter : String → String → String → Filter
a_filter name op v = record { field = name; op = op; value = str v }

abbrev pub add : Filter → Draft → Draft
add f d = record d { filters = d.filters ++ f ∷ [] }

abbrev pub tell : String → ℕ → Draft → Draft
tell why more d = record d { confidence = d.confidence + more; evidence = d.evidence ++ why ∷ [] }

abbrev pub step : Bool → (Draft → Draft) → Draft → Draft
step test change d = if test then change d else d

-- `hasStateNegation`
unfoldable pub has_state_negation : List Filter → String → String → Bool
unfolding equal_fold trim_space sprint
has_state_negation [] name state = false
has_state_negation (f ∷ filters) name state =
    (f.field == name && equal_fold f.op "neq" && equal_fold (trim_space (sprint f.value)) state)
    || has_state_negation filters name state

abbrev pub denied_by_default : List (String × String)
denied_by_default =
    ("shipment.state", "Shipped")
    ∷ ("shipment.state", "Delivered")
    ∷ ("shipment.state", "Ready")
    ∷ []

abbrev pub role_states : List EnumRoleMapping → List (String × String)
role_states [] = []
role_states (m ∷ roles) = (m.field, m.value) ∷ role_states roles

abbrev pub or_default : List (String × String) → List (String × String)
or_default [] = denied_by_default
or_default (d ∷ denied) = d ∷ denied

-- the states that `applyNotShippedFilters` denies
unfoldable pub denied_states : Option Registry → List (String × String)
unfolding get_enum_roles_by_prefix
denied_states none = denied_by_default
denied_states (some reg) =
    or_default (role_states (get_enum_roles_by_prefix reg "shipment.not_shipped_deny."))

abbrev pub deny_state : String × String → List Filter → List Filter
deny_state d filters =
    if has_state_negation filters d.0 d.1 then filters else filters ++ a_filter d.0 "neq" d.1 ∷ []

-- the loop of `applyNotShippedFilters`
unfoldable pub deny_states : List (String × String) → List Filter → List Filter
unfolding has_state_negation
deny_states [] filters = filters
deny_states (d ∷ denied) filters = deny_states denied (deny_state d filters)

-- `applyNotShippedFilters`
unfoldable pub apply_not_shipped_filters : Option Registry → List Filter → List Filter
unfolding denied_states deny_states
apply_not_shipped_filters reg filters = deny_states (denied_states reg) filters

-- `removePaymentStateFilters`
unfoldable pub remove_payment_state_filters : List Filter → List Filter
remove_payment_state_filters filters = keep (λ f. not (f.field == "payment.state")) filters

-- `removeShipmentStateFilters`
unfoldable pub remove_shipment_state_filters : List Filter → List Filter
remove_shipment_state_filters filters = keep (λ f. not (f.field == "shipment.state")) filters

-- a filter on the field of a role
abbrev pub role_filter : Option Registry → String → String → String → String → Filter
role_filter reg role fallback op v = a_filter (enum_role_field reg role fallback) op v

-- the shipment part of `fillWISMOFilters`
unfoldable pub fill_shipment : Option Registry → SemanticSlots → Draft → Draft
unfolding enum_role_value enum_role_field apply_not_shipped_filters
fill_shipment reg slots d =
    let shipped = enum_role_value reg "shipment.shipped_state" "Shipped" in
    if slots.has_shipment_negate
    then tell "shipment_state:NOT_ShippedOrDeliveredOrReady" 12
        (record d { filters = apply_not_shipped_filters reg d.filters })
    else step (slots.shipment_state == shipped)
        (λ d.
          tell ("shipment_state:" +++ shipped) 12
            (add (role_filter reg "shipment.shipped_state" "shipment.state" "eq" shipped) d))
        d

unfoldable pub tell_tracking : String → Draft → Draft
unfolding contains
tell_tracking lower = step (contains lower "tracking") (tell "wismo:tracking" 12)

unfoldable pub fill_open_state : Option Registry → SemanticSlots → Draft → Draft
unfolding enum_role_value enum_role_field
fill_open_state reg slots =
    let open' = enum_role_value reg "order.open_state" "Open" in
    step (slots.order_state == open') λ d.
      tell ("order_state:" +++ open' +++ " (open_state_cue)") 14
        (add (role_filter reg "order.open_state" "order.state" "eq" open') d)

unfoldable pub fill_delayed : Option Registry → String → Draft → Draft
unfolding enum_role_value enum_role_field contains
fill_delayed reg lower =
    let delayed = enum_role_value reg "shipment.delayed_state" "Delayed" in
    step (contains lower "delay" || contains lower "delayed") λ d.
      tell ("shipment_state:" +++ delayed) 12
        (add (role_filter reg "shipment.delayed_state" "shipment.state" "eq" delayed) d)

unfoldable pub fill_payment : Option Registry → SemanticSlots → Draft → Draft
unfolding enum_role_field
fill_payment reg slots =
    step (not (slots.payment_state == "") && not slots.has_payment_conflict) λ d.
      tell ("payment_state:" +++ slots.payment_state) 12
        (add (role_filter reg "payment.failed_state" "payment.state" "eq" slots.payment_state) d)

unfoldable pub tell_courier : String → Draft → Draft
unfolding contains
tell_courier lower = step (contains lower "courier") (tell "logistics:courier" 8)

unfoldable pub tell_fulfillment : String → Draft → Draft
unfolding contains
tell_fulfillment lower = step (contains lower "fulfillment") (tell "fulfillment:investigation" 8)

-- `fillWISMOFilters`
unfoldable pub fill_wismo_filters : Option Registry → String → SemanticSlots → Draft → Draft
unfolding tell_tracking fill_open_state fill_shipment fill_delayed fill_payment tell_courier
    tell_fulfillment
fill_wismo_filters reg lower slots d =
    let opened = fill_open_state reg slots (tell_tracking lower d) in
    let shipped = fill_delayed reg lower (fill_shipment reg slots opened) in
    tell_fulfillment lower (tell_courier lower (fill_payment reg slots shipped))

unfoldable pub fill_email : String → String → Draft → Draft
unfolding extract_email
fill_email lower resource_type =
    let email = extract_email lower in
    step (not (email == "")) λ d.
      if resource_type == "order"
      then tell "order_customer_email_lookup" 22
          (add (a_filter "order.customer_email" "eq" email) d)
      else tell "customer_email_lookup" 22 (add (a_filter "customer.email" "eq" email) d)

unfoldable pub fill_customer_number : String → String → Draft → Draft
unfolding extract_customer_number customer_id_from_customer_number
fill_customer_number lower resource_type =
    let cnum = extract_customer_number lower in
    let id = customer_id_from_customer_number cnum in
    step (not (cnum == "")) λ d.
      if resource_type == "customer"
      then tell "customer_number_lookup" 20 (add (a_filter "customer.number" "eq" cnum) d)
      else if not (id == "")
      then tell "order_customer_id_from_customer_number" 20
          (add (a_filter "order.customer_id" "eq" id) d)
      else tell "customer_number_context" 8 d

unfoldable pub tell_phone : String → Draft → Draft
unfolding extract_phone
tell_phone lower = step (not (extract_phone lower == "")) (tell "phone_lookup_context" 10)

-- `fillCustomerScopeFilters`
unfoldable pub fill_customer_scope_filters : String → String → Draft → Draft
unfolding fill_email fill_customer_number tell_phone
fill_customer_scope_filters lower resource_type d =
    tell_phone lower (fill_customer_number lower resource_type (fill_email lower resource_type d))

unfoldable pub fill_vip : Option Registry → String → Draft → Draft
unfolding enum_role_value enum_role_field contains
fill_vip reg lower =
    let base = enum_role_value reg "customer.vip_base_tier" "silver" in
    step (contains lower "vip" || contains lower "loyalty") λ d.
      tell "vip_profile_filter" 12
        (add (role_filter reg "customer.vip_base_tier" "customer.vip_tier" "neq" base) d)

unfoldable pub fill_verified : String → Draft → Draft
unfolding contains
fill_verified lower = step (contains lower "verified") λ d.
    tell "email_verified_filter" 10
      (add (record { field = "customer.is_email_verified"; op = "eq"; value = num "1" }) d)

-- `fillCRMFilters`
unfoldable pub fill_crm_filters : Option Registry → String → String → Draft → Draft
unfolding fill_customer_scope_filters fill_vip fill_verified
fill_crm_filters reg lower resource_type d =
    fill_verified lower (fill_vip reg lower (fill_customer_scope_filters lower resource_type d))

unfoldable pub fill_eligible : Option Registry → String → Draft → Draft
unfolding enum_role_value enum_role_field contains
fill_eligible reg lower =
    let eligible = enum_role_value reg "return.eligible_true" "true" in
    step (contains lower "eligible") λ d.
      tell ("return_eligible:" +++ eligible) 14
        (add (role_filter reg "return.eligible_true" "return.eligible" "eq" eligible) d)

unfoldable pub fill_refund : Option Registry → String → Draft → Draft
unfolding enum_role_value enum_role_field contains
fill_refund reg lower =
    let not_initiated = enum_role_value reg "refund.not_initiated_state" "NotInitiated" in
    step (contains lower "refund") λ d.
      tell "refund_status_non_default" 12
        (add (role_filter reg "refund.not_initiated_state" "refund.status" "neq" not_initiated) d)

unfoldable pub fill_return : Option Registry → String → Draft → Draft
unfolding enum_role_value enum_role_field contains
fill_return reg lower =
    let not_requested = enum_role_value reg "return.not_requested_state" "NotRequested" in
    step (contains lower "return") λ d.
      tell "return_status_non_default" 12
        (add (role_filter reg "return.not_requested_state" "return.status" "neq" not_requested) d)

-- `fillReturnsFilters`
unfoldable pub fill_returns_filters : Option Registry → String → Draft → Draft
unfolding fill_eligible fill_refund fill_return
fill_returns_filters reg lower d =
    fill_return reg lower (fill_refund reg lower (fill_eligible reg lower d))

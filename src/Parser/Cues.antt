-- ===== src/Parser/Cues.antt =====
-- The cues of internal/semantic/parser.go: intent, subcategory, resource and time window.
use permission_aware_search.Common.{
  ◌==◌, if◌then◌else◌, ℕ, String, Bool, true, false, not, ◌&&◌, ◌||◌, Option, none, some, List, [],
  ◌∷◌,
}
use permission_aware_search.Strings.{contains}
use permission_aware_search.Contracts.{
  intent_default, intent_wismo, intent_crm_profile, intent_returns_refunds, intent_unsupported,
}
use permission_aware_search.Parser.Patterns.{
  re_not_shipped, extract_customer_number, extract_phone, extract_email,
}
use permission_aware_search.Regex.{match_string}

-- `containsAny`
unfoldable pub contains_any : String → List String → Bool
unfolding contains
contains_any text [] = false
contains_any text (term ∷ terms) = contains text term || contains_any text terms

-- `hasPaymentFailedCue`
unfoldable pub has_payment_failed_cue : String → Bool
unfolding contains_any
has_payment_failed_cue lower = contains_any lower (
    "payment fail" ∷ "payment failed" ∷ "failed payment" ∷ "payment failure"
    ∷ "payment unsuccessful" ∷ "declined payment" ∷ "payment declined" ∷ [])

-- `hasPaymentPaidCue`
unfoldable pub has_payment_paid_cue : String → Bool
unfolding contains_any
has_payment_paid_cue lower =
    contains_any lower
      ("payment succeed" ∷ "payment captured" ∷ "payment successful" ∷ "payment paid" ∷ [])

-- `hasOpenStateCue`
unfoldable pub has_open_state_cue : String → Bool
unfolding contains_any
has_open_state_cue lower = contains_any lower (
    "open order" ∷ "open orders" ∷ "orders in open state" ∷ "order in open state"
    ∷ "orders open state" ∷ "order state open" ∷ "state is open" ∷ "state open"
    ∷ "still in processing" ∷ [])

-- `hasNotShippedCue`
unfoldable pub has_not_shipped_cue : String → Bool
unfolding match_string re_not_shipped
has_not_shipped_cue lower = match_string re_not_shipped lower

-- `hasExplicitPositiveShippedCue`
unfoldable pub has_explicit_positive_shipped_cue : String → Bool
unfolding contains_any has_not_shipped_cue
has_explicit_positive_shipped_cue lower =
    if contains_any lower
      (" but shipped" ∷ " and shipped" ∷ "already shipped" ∷ "is shipped" ∷ "are shipped" ∷ [])
    then true
    else if has_not_shipped_cue lower
    then false
    else contains_any lower ("shipped" ∷ "shipment shipped" ∷ [])

-- `isTemporalOrderListing`
unfoldable pub is_temporal_order_listing : String → Bool
unfolding contains_any
is_temporal_order_listing lower =
    if not (contains_any lower ("order" ∷ "orders" ∷ []))
    then false
    else contains_any lower (
        "this week" ∷ "for the week" ∷ "for week" ∷ "created this week" ∷ "this month"
        ∷ "for the month" ∷ "for month" ∷ "created this month" ∷ "last 30 days" ∷ "last 7 days"
        ∷ "created last" ∷ [])

-- `inferRelativeWindow`
unfoldable pub infer_relative_window : String → Option (ℕ × String)
unfolding contains_any
infer_relative_window lower =
    if contains_any lower
      ("this week" ∷ "for the week" ∷ "for week" ∷ "created this week" ∷ "last 7 days" ∷ [])
    then some (7, "week")
    else if contains_any lower
        ("this month" ∷ "for the month" ∷ "for month" ∷ "created this month" ∷ "last 30 days" ∷ [])
    then some (30, "month")
    else if contains_any lower ("last 14 days" ∷ [])
    then some (14, "14days")
    else none

-- `hasCRMIdentityCue`
unfoldable pub has_crm_identity_cue : String → Bool
unfolding contains_any extract_email extract_phone extract_customer_number
has_crm_identity_cue lower =
    if not (extract_email lower == "")
      || not (extract_phone lower == "")
      || not (extract_customer_number lower == "")
    then true
    else contains_any lower (
        "customer id" ∷ "customer number" ∷ "customer #" ∷ "vip" ∷ "segment" ∷ "profile"
        ∷ "account notes" ∷ "tickets" ∷ "support history" ∷ [])

abbrev pub unsupported_terms : List String
unsupported_terms =
    "calendar" ∷ "poster" ∷ "flyer" ∷ "brochure" ∷ "banner" ∷ "business cards" ∷ "material"
    ∷ "color" ∷ "style" ∷ "product catalog" ∷ []

abbrev pub returns_terms : List String
returns_terms =
    "return" ∷ "refund" ∷ "eligible" ∷ "rma" ∷ "pickup" ∷ "refund issued" ∷ "refund transactions"
    ∷ []

abbrev pub wismo_terms : List String
wismo_terms =
    "where is my order" ∷ "wismo" ∷ "tracking" ∷ "shipped" ∷ "package" ∷ "delay" ∷ "status of order"
    ∷ "timeline of events" ∷ "fulfillment" ∷ "courier" ∷ "shipment" ∷ "delivered" ∷ "processing"
    ∷ "payment succeed" ∷ "payment fail" ∷ "payment captured" ∷ "fraud" ∷ "chargebacks"
    ∷ "failed payment" ∷ "payment failure" ∷ "payment unsuccessful" ∷ "declined payment"
    ∷ "open state" ∷ "state open" ∷ "payment pending" ∷ "pending payment" ∷ "unpaid"
    ∷ "awaiting payment" ∷ "payment due" ∷ "investigation report" ∷ "trace order"
    ∷ "what went wrong" ∷ "open order" ∷ "open orders" ∷ []

abbrev pub crm_terms : List String
crm_terms =
    "last 3 orders" ∷ "recent orders" ∷ "orders for" ∷ "orders placed by" ∷ "order history"
    ∷ "order history for customer" ∷ "lifetime value" ∷ "segment" ∷ "vip" ∷ "profile" ∷ "history"
    ∷ "tickets" ∷ "account notes" ∷ "loyalty" ∷ "customer intelligence" ∷ "repeat buyer" ∷ "support"
    ∷ []

-- `classifyIntent`
unfoldable pub classify_intent : String → String
unfolding contains_any is_temporal_order_listing has_crm_identity_cue
classify_intent lower =
    if contains_any lower unsupported_terms
    then intent_unsupported
    else if contains_any lower returns_terms
    then intent_returns_refunds
    else if is_temporal_order_listing lower
    then intent_wismo
    else if contains_any lower wismo_terms
    then intent_wismo
    else if has_crm_identity_cue lower && contains_any lower crm_terms
    then intent_crm_profile
    else intent_default

-- `inferIntentSubcategory`
unfoldable pub infer_intent_subcategory : String → String → String
unfolding contains_any
infer_intent_subcategory lower intent_category =
    if not (intent_category == intent_wismo)
    then ""
    else if contains_any lower (
        "not shipped" ∷ "not yet shipped" ∷ "unshipped" ∷ "hasn't shipped" ∷ "has not shipped" ∷ [])
    then "shipping_tracking"
    else if contains_any lower
        ("tracking" ∷ "track" ∷ "where is my package" ∷ "where is my order" ∷ "shipment" ∷ [])
    then "shipping_tracking"
    else if contains_any lower
        ("delay" ∷ "delayed" ∷ "late" ∷ "eta" ∷ "backlog" ∷ "weather disruption" ∷ [])
    then "delivery_exception"
    else if contains_any lower ("carrier" ∷ "courier" ∷ "ups" ∷ "fedex" ∷ "dhl" ∷ "usps" ∷ [])
    then "carrier_issue"
    else if contains_any lower ("fulfillment" ∷ "warehouse" ∷ "processing" ∷ [])
    then "fulfillment_delay"
    else "shipping_tracking"

-- `inferResourceType`; both tests of the intent answer the same
unfoldable pub infer_resource_type : String → String → String → String
unfolding contains_any
infer_resource_type lower hint intent =
    if hint == "order" || hint == "customer"
    then hint
    else if contains_any lower (
        "order" ∷ "orders" ∷ "package" ∷ "tracking" ∷ "shipment" ∷ "refund" ∷ "return"
        ∷ "fulfillment" ∷ [])
    then "order"
    else if contains_any lower ("customer" ∷ "email" ∷ "phone" ∷ "vip" ∷ "profile" ∷ "account" ∷ [])
    then "customer"
    else if intent == intent_wismo || intent == intent_returns_refunds
    then "order"
    else "order"

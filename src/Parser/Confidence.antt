-- ===== src/Parser/Confidence.antt =====
-- How the confidence of a parse grows with what is found in the message.
use permission_aware_search.Common.{
  if◌then◌else◌, Bool-cases, ℕ, ◌+◌, ◌≤◌, String, ◌≡◌, refl, ◌∙◌, ◌⊎◌, inl, inr, Bool, true, false,
  ◌||◌, Option, none, some, arith,
}
use permission_aware_search.Strings.{◌+++◌}
use permission_aware_search.Schema.Registry.{Registry}
use permission_aware_search.Store.{Filter}
use permission_aware_search.Semantic.{SemanticSlots}
use permission_aware_search.Parser.{Setting}
use permission_aware_search.Parser.Lookups.{created_at_field}
use permission_aware_search.Parser.Patterns.{
  extract_order_number, extract_tracking_number, extract_payment_reference,
}
use permission_aware_search.Parser.Cues.{infer_relative_window, classify_intent}
use permission_aware_search.Parser.Filters.{
  a_filter, add, tell, step, fill_shipment, tell_tracking, fill_open_state, fill_delayed,
  fill_payment, tell_courier, tell_fulfillment, fill_wismo_filters, fill_email,
  fill_customer_number, tell_phone, fill_customer_scope_filters, fill_vip, fill_verified,
  fill_crm_filters, fill_eligible, fill_refund, fill_return, fill_returns_filters, Draft,
}
use permission_aware_search.Parser.Parse.{
  fill_window, fill_lookup, fill_identifiers, fill_intent, guard_conflicts, draft_of,
}

-- The confidence does not fall, and rises by so much at most.
abbrev pub Grows : ℕ → (Draft → Draft) → Type 0
Grows k change =
    (d : Draft)
    → (d.confidence ≤ (change d).confidence) × ((change d).confidence ≤ d.confidence + k)

tell-Grows :
    (why : String) (k : ℕ) (change : Draft → Draft)
    → ((d : Draft) → (change d).confidence ≡ d.confidence)
    → Grows k (λ d. tell why k (change d))
tell-Grows why k change same d = let e = same d in (omega arith, omega arith)

step-Grows :
    (test : Bool) (k : ℕ) (change : Draft → Draft) → Grows k change → Grows k (step test change)
step-Grows true k change grows d = grows d
step-Grows false k change grows d = (omega arith, omega arith)

then-Grows :
    (j k : ℕ) (first second : Draft → Draft)
    → Grows j first
    → Grows k second
    → Grows (j + k) (λ d. second (first d))
then-Grows j k first second f g d =
    let (a, b) = f d in let (c, e) = g (first d) in (omega arith, omega arith)

-- a filter, and what is told of it, on a test
add-Grows :
    (test : Bool) (why : String) (k : ℕ) (f : Filter)
    → Grows k (step test (λ d. tell why k (add f d)))
add-Grows test why k f =
    step-Grows test k (λ d. tell why k (add f d)) (tell-Grows why k (add f) (λ d. refl))

only-Grows : (test : Bool) (why : String) (k : ℕ) → Grows k (step test (tell why k))
only-Grows test why k = step-Grows test k (tell why k) (tell-Grows why k (λ d. d) (λ d. refl))

fill_shipment-Grows :
    (reg : Option Registry) (slots : SemanticSlots) → Grows 12 (fill_shipment reg slots)
unfolding fill_shipment
fill_shipment-Grows reg slots d = elim (Bool-cases slots.has_shipment_negate) [
  | inl negated ↦ rw negated (omega arith, omega arith)
  | inr plain ↦ rw plain (add-Grows _ _ 12 _ d)
]

tell_tracking-Grows : (lower : String) → Grows 12 (tell_tracking lower)
unfolding tell_tracking
tell_tracking-Grows lower = only-Grows _ _ 12

fill_open_state-Grows :
    (reg : Option Registry) (slots : SemanticSlots) → Grows 14 (fill_open_state reg slots)
unfolding fill_open_state
fill_open_state-Grows reg slots = add-Grows _ _ 14 _

fill_delayed-Grows : (reg : Option Registry) (lower : String) → Grows 12 (fill_delayed reg lower)
unfolding fill_delayed
fill_delayed-Grows reg lower = add-Grows _ _ 12 _

fill_payment-Grows :
    (reg : Option Registry) (slots : SemanticSlots) → Grows 12 (fill_payment reg slots)
unfolding fill_payment
fill_payment-Grows reg slots = add-Grows _ _ 12 _

tell_last-Grows : (lower : String) → Grows 16 (λ d. tell_fulfillment lower (tell_courier lower d))
unfolding tell_fulfillment tell_courier
tell_last-Grows lower =
    then-Grows 8 8 (tell_courier lower) (tell_fulfillment lower) (only-Grows _ _ 8)
      (only-Grows _ _ 8)

fill_wismo_filters-Grows :
    (reg : Option Registry) (lower : String) (slots : SemanticSlots)
    → Grows 78 (fill_wismo_filters reg lower slots)
unfolding fill_wismo_filters
fill_wismo_filters-Grows reg lower slots d =
    let d1 = tell_tracking lower d in
    let d2 = fill_open_state reg slots d1 in
    let d3 = fill_shipment reg slots d2 in
    let d4 = fill_delayed reg lower d3 in
    let d5 = fill_payment reg slots d4 in
    let (a, a') = tell_tracking-Grows lower d in
    let (b, b') = fill_open_state-Grows reg slots d1 in
    let (c, c') = fill_shipment-Grows reg slots d2 in
    let (e, e') = fill_delayed-Grows reg lower d3 in
    let (f, f') = fill_payment-Grows reg slots d4 in
    let (g, g') = tell_last-Grows lower d5 in (omega arith, omega arith)

fill_email-Grows : (lower resource_type : String) → Grows 22 (fill_email lower resource_type)
unfolding fill_email
fill_email-Grows lower resource_type d = ground arith

fill_customer_number-Grows :
    (lower resource_type : String) → Grows 20 (fill_customer_number lower resource_type)
unfolding fill_customer_number
fill_customer_number-Grows lower resource_type d = ground arith

tell_phone-Grows : (lower : String) → Grows 10 (tell_phone lower)
unfolding tell_phone
tell_phone-Grows lower = only-Grows _ _ 10

fill_customer_scope_filters-Grows :
    (lower resource_type : String) → Grows 52 (fill_customer_scope_filters lower resource_type)
unfolding fill_customer_scope_filters
fill_customer_scope_filters-Grows lower resource_type d =
    let d1 = fill_email lower resource_type d in
    let d2 = fill_customer_number lower resource_type d1 in
    let (a, a') = fill_email-Grows lower resource_type d in
    let (b, b') = fill_customer_number-Grows lower resource_type d1 in
    let (c, c') = tell_phone-Grows lower d2 in (omega arith, omega arith)

fill_vip-Grows : (reg : Option Registry) (lower : String) → Grows 12 (fill_vip reg lower)
unfolding fill_vip
fill_vip-Grows reg lower = add-Grows _ _ 12 _

fill_verified-Grows : (lower : String) → Grows 10 (fill_verified lower)
unfolding fill_verified
fill_verified-Grows lower = add-Grows _ _ 10 _

fill_crm_filters-Grows :
    (reg : Option Registry) (lower resource_type : String)
    → Grows 74 (fill_crm_filters reg lower resource_type)
unfolding fill_crm_filters
fill_crm_filters-Grows reg lower resource_type d =
    let d1 = fill_customer_scope_filters lower resource_type d in
    let d2 = fill_vip reg lower d1 in
    let (a, a') = fill_customer_scope_filters-Grows lower resource_type d in
    let (b, b') = fill_vip-Grows reg lower d1 in
    let (c, c') = fill_verified-Grows lower d2 in (omega arith, omega arith)

fill_returns_filters-Grows :
    (reg : Option Registry) (lower : String) → Grows 38 (fill_returns_filters reg lower)
unfolding fill_returns_filters fill_eligible fill_refund fill_return
fill_returns_filters-Grows reg lower =
    then-Grows 26 12 (λ d. fill_refund reg lower (fill_eligible reg lower d))
      (fill_return reg lower)
      (then-Grows 14 12 (fill_eligible reg lower) (fill_refund reg lower) (add-Grows _ _ 14 _)
        (add-Grows _ _ 12 _))
      (add-Grows _ _ 12 _)

fill_lookup-Grows :
    (reg : Option Registry) (id_type fallback why v : String)
    → Grows 20 (fill_lookup reg id_type fallback why v)
unfolding fill_lookup
fill_lookup-Grows reg id_type fallback why v = add-Grows _ _ 20 _

fill_identifiers-Grows :
    (reg : Option Registry) (message : String) → Grows 60 (fill_identifiers reg message)
unfolding fill_identifiers
fill_identifiers-Grows reg message d =
    let ord = extract_order_number message in
    let trk = extract_tracking_number message in
    let pay = extract_payment_reference message in
    let d1 = fill_lookup reg "order_number" "order.number" "order_number_lookup" ord d in
    let d2 = fill_lookup reg "tracking_id" "shipment.tracking_id" "tracking_id_lookup" trk d1 in
    let (a, a') = fill_lookup-Grows reg "order_number" "order.number" "order_number_lookup" ord d in
    let (b, b') =
      fill_lookup-Grows reg "tracking_id" "shipment.tracking_id" "tracking_id_lookup" trk d1 in
    let (c, c') =
      fill_lookup-Grows reg "payment_reference" "payment.reference" "payment_reference_lookup" pay
        d2 in
    (omega arith, omega arith)

fill_window-Grows :
    (env : Setting) (lower resource_type : String) → Grows 8 (fill_window env lower resource_type)
unfolding fill_window
fill_window-Grows env lower resource_type d =
    elim (infer_relative_window lower)
      as (λ w.
        let d' : Draft = elim w [
          | none ↦ d
          | some (days, label) ↦ tell ("time_window:" +++ label) 8 (
              add (a_filter (created_at_field env.registry resource_type) "gte" (env.days_ago days))
                d)
        ] in
        (d.confidence ≤ d'.confidence) × (d'.confidence ≤ d.confidence + 8)) [
          | none ↦ (omega arith, omega arith)
          | some (days, label) ↦ (omega arith, omega arith)
        ]

fill_intent-Grows :
    (reg : Option Registry) (intent resource_type lower : String) (slots : SemanticSlots)
    → Grows 130 (fill_intent reg intent resource_type lower slots)
unfolding fill_intent
fill_intent-Grows reg intent resource_type lower slots d =
    let d1 = fill_wismo_filters reg lower slots d in
    let (a, a') = fill_wismo_filters-Grows reg lower slots d in
    let (b, b') = fill_customer_scope_filters-Grows lower resource_type d1 in
    let (c, c') = fill_crm_filters-Grows reg lower resource_type d in
    let (e, e') = fill_returns_filters-Grows reg lower d in (ground arith, ground arith)

abbrev pub is_conflicting : SemanticSlots → Bool
is_conflicting slots = slots.has_payment_conflict || slots.has_shipment_conflict

guard_conflicts-confidence :
    (slots : SemanticSlots) (d : Draft)
    → (guard_conflicts slots d).confidence ≡ (if is_conflicting slots then 40 else d.confidence)
unfolding guard_conflicts
guard_conflicts-confidence slots d = ground arith

-- 0.40 where cues contradict each other, else from 0.55 to 2.53
abbrev pub IsConfidence : SemanticSlots → ℕ → Type 0
IsConfidence slots n =
    ((is_conflicting slots ≡ true) × (n ≡ 40))
    ⊎ ((is_conflicting slots ≡ false) × (55 ≤ n) × (n ≤ 253))

pub draft_of-IsConfidence :
    (env : Setting) (message lower resource_type : String) (slots : SemanticSlots) (d : Draft)
    → d.confidence ≡ 55
    → IsConfidence slots (draft_of env message lower resource_type slots d).confidence
unfolding draft_of
draft_of-IsConfidence env message lower resource_type slots d h =
    let reg = env.registry in
    let d1 = fill_window env lower resource_type d in
    let d2 = fill_identifiers reg message d1 in
    let d3 = fill_intent reg (classify_intent lower) resource_type lower slots d2 in
    let (a, a') = fill_window-Grows env lower resource_type d in
    let (b, b') = fill_identifiers-Grows reg message d1 in
    let (c, c') = fill_intent-Grows reg (classify_intent lower) resource_type lower slots d2 in
    let e = guard_conflicts-confidence slots d3 in
    elim (Bool-cases (is_conflicting slots)) [
      | inl torn ↦ inl (torn, e ∙ rw torn refl)
      | inr clear ↦
          let same : (guard_conflicts slots d3).confidence ≡ d3.confidence = e ∙ rw clear refl in
          inr (clear, omega arith, omega arith)
    ]

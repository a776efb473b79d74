-- ===== src/Parser/Slots.antt =====
-- `extractSemanticSlots` of internal/semantic/slots.go. Confidences are in hundredths.
use permission_aware_search.Common.{
  ◌==◌, if◌then◌else◌, insert, ℕ, String, Bool, true, false, not, ◌&&◌, Option, [], ◌∷◌, ◌++◌,
}
use permission_aware_search.Schema.Registry.{Registry}
use permission_aware_search.Semantic.{SemanticSlots}
use permission_aware_search.Semantic.Remote.{dedupe_strings}
use permission_aware_search.Parser.Lookups.{enum_role_value}
use permission_aware_search.Parser.Cues.{
  contains_any, has_payment_failed_cue, has_payment_paid_cue, has_open_state_cue,
  has_not_shipped_cue, has_explicit_positive_shipped_cue,
}

abbrev pub no_slots : SemanticSlots
no_slots = record {
  order_state = "";
  payment_state = "";
  has_payment_conflict = false;
  shipment_state = "";
  has_shipment_negate = false;
  has_shipment_conflict = false;
  time_window_recent = false;
  has_order_keyword = false;
  has_customer_keyword = false;
  matched_cues = [];
  slot_confidence = [];
}

abbrev pub cue : String → SemanticSlots → SemanticSlots
cue name s = record s { matched_cues = s.matched_cues ++ name ∷ [] }

abbrev pub cue_at : String → String → ℕ → SemanticSlots → SemanticSlots
cue_at name slot confidence s = record (cue name s) {
  slot_confidence = insert slot confidence s.slot_confidence;
}

abbrev pub when : Bool → (SemanticSlots → SemanticSlots) → SemanticSlots → SemanticSlots
when test change s = if test then change s else s

unfoldable pub keyword_slots : String → SemanticSlots
unfolding contains_any insert
keyword_slots lower =
    let orders =
      contains_any lower ("order" ∷ "orders" ∷ "shipment" ∷ "tracking" ∷ "payment" ∷ []) in
    let customers =
      contains_any lower ("customer" ∷ "customers" ∷ "profile" ∷ "vip" ∷ "email" ∷ []) in
    let recent = contains_any lower (
      "this week" ∷ "for the week" ∷ "for week" ∷ "created this week" ∷ "last 7 days" ∷ "this month"
      ∷ "for the month" ∷ "for month" ∷ "created this month" ∷ "last 30 days" ∷ "last 14 days"
      ∷ []) in
    when recent (cue_at "time_window:recent" "timeWindowRecent" 90) (
      when customers (cue "keyword:customer_domain") (
        when orders (cue "keyword:order_domain") (record no_slots {
          has_order_keyword = orders;
          has_customer_keyword = customers;
          time_window_recent = recent;
        })))

-- a payment state, which conflicts with another that is set
abbrev pub set_payment : String → String → ℕ → SemanticSlots → SemanticSlots
set_payment state name confidence s = cue_at name "paymentState" confidence (record s {
  has_payment_conflict =
      if not (s.payment_state == "") && not (s.payment_state == state)
      then true
      else s.has_payment_conflict;
  payment_state = state;
})

-- the first payment state does not look for a conflict
unfoldable pub state_slots : Option Registry → String → SemanticSlots → SemanticSlots
unfolding enum_role_value has_open_state_cue has_payment_failed_cue contains_any
    has_payment_paid_cue insert
state_slots reg lower s =
    when (has_payment_paid_cue lower)
      (set_payment (enum_role_value reg "payment.paid_state" "Paid") "payment_state:paid" 94)
      (when (contains_any lower ("payment pending" ∷ "pending payment" ∷ "unpaid" ∷ []))
        (set_payment (enum_role_value reg "payment.pending_state" "Pending") "payment_state:pending"
          92)
        (when (has_payment_failed_cue lower)
          (λ s.
            cue_at "payment_state:failed" "paymentState" 96
              (record s { payment_state = enum_role_value reg "payment.failed_state" "Failed" }))
          (when (has_open_state_cue lower)
            (λ s.
              cue_at "order_state:open" "orderState" 95
                (record s { order_state = enum_role_value reg "order.open_state" "Open" }))
            s)))

unfoldable pub shipment_slots : Option Registry → String → SemanticSlots → SemanticSlots
unfolding enum_role_value has_not_shipped_cue has_explicit_positive_shipped_cue insert
shipment_slots reg lower s =
    let negated = has_not_shipped_cue lower in
    let positive = has_explicit_positive_shipped_cue lower in
    when (negated && positive)
      (λ s.
        cue_at "shipment_conflict:negate_vs_positive" "hasShipmentConflict" 90
          (record s { has_shipment_conflict = true }))
      (when (positive && not negated)
        (λ s.
          cue_at "shipment_state:shipped" "shipmentState" 93
            (record s { shipment_state = enum_role_value reg "shipment.shipped_state" "Shipped" }))
        (when negated
          (λ s.
            cue_at "shipment_negation:not_shipped" "hasShipmentNegate" 97
              (record s { has_shipment_negate = true }))
          s))

-- `extractSemanticSlots`
unfoldable pub extract_semantic_slots : Option Registry → String → SemanticSlots
unfolding keyword_slots state_slots shipment_slots insert dedupe_strings
extract_semantic_slots reg lower =
    let found = shipment_slots reg lower (state_slots reg lower (keyword_slots lower)) in
    let all' =
      when found.has_payment_conflict
        (cue_at "payment_conflict:multiple_states" "hasPaymentConflict" 90) found in
    record all' { matched_cues = dedupe_strings all'.matched_cues }

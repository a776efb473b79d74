-- ===== src/Schema/Ecommerce/Order.antt =====
-- internal/schema/ecommerce.go, `orderResource`: orders.
use permission_aware_search.Common.{true, false, List, [], ◌∷◌}
use permission_aware_search.Schema.{Field, Alias, IdentifierPattern, EnumRoleMapping, Resource}
use permission_aware_search.Schema.Ecommerce.Parts.{column, alias, enum_role, all_intents}

abbrev pub order_fields : List Field
order_fields =
    column "order.id" "id" "string" true true [] ("eq" ∷ []) all_intents "Internal order ID" ""
    ∷ column "order.number" "order_number" "string" true true [] ("eq" ∷ "like" ∷ []) all_intents
        "Order identifier" "ORD-123456"
    ∷ column "order.customer_id" "customer_id" "string" true true [] ("eq" ∷ [])
        ("default" ∷ "wismo" ∷ "crm_profile" ∷ []) "Internal customer ID" "cust-12345"
    ∷ column "order.customer_email" "customer_email" "string" true true [] ("eq" ∷ "like" ∷ [])
        ("default" ∷ "wismo" ∷ "crm_profile" ∷ []) "Customer email address" "customer@example.com"
    ∷ column "order.state" "order_state" "enum" true true
        ("Open" ∷ "Confirmed" ∷ "Complete" ∷ "Cancelled" ∷ []) ("eq" ∷ "neq" ∷ "in" ∷ [])
        ("default" ∷ "wismo" ∷ "crm_profile" ∷ []) "Current order state" "Open"
    ∷ column "order.created_at" "created_at" "timestamp" true true []
        ("gt" ∷ "gte" ∷ "lt" ∷ "lte" ∷ []) all_intents "Order creation timestamp"
        "2025-03-01T12:00:00Z"
    ∷ column "order.completed_at" "completed_at" "timestamp" true true []
        ("gt" ∷ "gte" ∷ "lt" ∷ "lte" ∷ [])
        ("default" ∷ "wismo" ∷ "crm_profile" ∷ "returns_refunds" ∷ []) "Order completion timestamp"
        "2025-03-05T14:00:00Z"
    ∷ column "order.total_cent_amount" "total_cent_amount" "int" true true []
        ("eq" ∷ "gt" ∷ "gte" ∷ "lt" ∷ "lte" ∷ []) ("default" ∷ "crm_profile" ∷ [])
        "Order total in cents" "9999"
    ∷ column "order.currency_code" "currency_code" "string" false true [] ("eq" ∷ [])
        ("default" ∷ []) "Currency code" "USD"
    ∷ column "shipment.state" "shipment_state" "enum" true true
        ("Pending" ∷ "Shipped" ∷ "Delivered" ∷ "Delayed" ∷ "Ready" ∷ []) ("eq" ∷ "neq" ∷ "in" ∷ [])
        ("wismo" ∷ []) "Current shipment status" "Shipped"
    ∷ column "shipment.tracking_id" "tracking_id" "string" true true [] ("eq" ∷ "like" ∷ [])
        ("wismo" ∷ []) "Carrier tracking number" "TRK-12345678"
    ∷ column "payment.state" "payment_state" "enum" false true
        ("Pending" ∷ "Paid" ∷ "Failed" ∷ "Refunded" ∷ []) ("eq" ∷ "neq" ∷ "in" ∷ [])
        ("default" ∷ "wismo" ∷ "crm_profile" ∷ []) "Payment status" "Paid"
    ∷ column "payment.reference" "payment_reference" "string" true true [] ("eq" ∷ [])
        ("default" ∷ "wismo" ∷ "returns_refunds" ∷ []) "Payment transaction reference"
        "PAY-87654321"
    ∷ column "return.eligible" "return_eligible" "string" false true ("true" ∷ "false" ∷ [])
        ("eq" ∷ []) ("returns_refunds" ∷ []) "Return eligibility flag" "true"
    ∷ column "return.status" "return_status" "enum" false true
        ("NotRequested" ∷ "Requested" ∷ "Approved" ∷ "Completed" ∷ []) ("eq" ∷ "neq" ∷ [])
        ("returns_refunds" ∷ []) "Return request status" "Requested"
    ∷ column "refund.status" "refund_status" "enum" false true
        ("NotInitiated" ∷ "Pending" ∷ "Processed" ∷ "Failed" ∷ []) ("eq" ∷ "neq" ∷ [])
        ("returns_refunds" ∷ []) "Refund processing status" "Pending"
    ∷ column "order.legacy_status" "status" "string" false true [] ("eq" ∷ []) ("default" ∷ [])
        "Legacy order status (V1)" "Open"
    ∷ column "order.legacy_total_amount" "total_amount" "int" false true []
        ("eq" ∷ "gt" ∷ "gte" ∷ "lt" ∷ "lte" ∷ []) ("default" ∷ []) "Legacy total amount (V1)" "9999"
    ∷ column "order.region" "region" "string" false true [] ("eq" ∷ []) ("default" ∷ [])
        "Order region" "EU"
    ∷ []

abbrev pub order_aliases : List Alias
order_aliases =
    alias "order.id" "order.id"
    ∷ alias "id" "order.id"
    ∷ alias "order.number" "order.number"
    ∷ alias "order_number" "order.number"
    ∷ alias "order.customer_id" "order.customer_id"
    ∷ alias "customer_id" "order.customer_id"
    ∷ alias "order.customer_email" "order.customer_email"
    ∷ alias "customer_email" "order.customer_email"
    ∷ alias "order.state" "order.state"
    ∷ alias "order_state" "order.state"
    ∷ alias "shipment.state" "shipment.state"
    ∷ alias "shipment_state" "shipment.state"
    ∷ alias "payment.state" "payment.state"
    ∷ alias "payment_state" "payment.state"
    ∷ alias "order.created_at" "order.created_at"
    ∷ alias "created_at" "order.created_at"
    ∷ alias "order.completed_at" "order.completed_at"
    ∷ alias "completed_at" "order.completed_at"
    ∷ alias "shipment.tracking_id" "shipment.tracking_id"
    ∷ alias "tracking_id" "shipment.tracking_id"
    ∷ alias "payment.reference" "payment.reference"
    ∷ alias "payment_reference" "payment.reference"
    ∷ alias "order.total_cent_amount" "order.total_cent_amount"
    ∷ alias "total_cent_amount" "order.total_cent_amount"
    ∷ alias "order.currency_code" "order.currency_code"
    ∷ alias "currency_code" "order.currency_code"
    ∷ alias "return.eligible" "return.eligible"
    ∷ alias "return_eligible" "return.eligible"
    ∷ alias "return.status" "return.status"
    ∷ alias "return_status" "return.status"
    ∷ alias "refund.status" "refund.status"
    ∷ alias "refund_status" "refund.status"
    ∷ alias "order.legacy_status" "order.legacy_status"
    ∷ alias "status" "order.legacy_status"
    ∷ alias "order.legacy_total_amount" "order.legacy_total_amount"
    ∷ alias "total_amount" "order.legacy_total_amount"
    ∷ alias "order.region" "order.region"
    ∷ alias "region" "order.region"
    ∷ []

abbrev pub order_identifiers : List IdentifierPattern
order_identifiers =
    record {
      name = "ord_default";
      identifier_type = "order_number";
      regex = "(?i)\\bORD-\\d{6}\\b|\\bord-\\d{5}\\b";
      resource_type = "order";
      primary_field = "order.number";
      secondary_fields = [];
    }
    ∷ record {
      name = "trk_default";
      identifier_type = "tracking_id";
      regex = "(?i)\\bTRK-\\d{8}\\b|\\bTB-TRK-\\d{6}\\b";
      resource_type = "order";
      primary_field = "shipment.tracking_id";
      secondary_fields = [];
    }
    ∷ record {
      name = "pay_default";
      identifier_type = "payment_reference";
      regex = "(?i)\\bPAY-\\d{8}\\b";
      resource_type = "order";
      primary_field = "payment.reference";
      secondary_fields = [];
    }
    ∷ record {
      name = "pix_pattern";
      identifier_type = "order_number";
      regex = "(?i)\\bPIX-[A-Z]{3}-\\d+\\b";
      resource_type = "order";
      primary_field = "order.number";
      secondary_fields = [];
    }
    ∷ record {
      name = "efl_pattern";
      identifier_type = "order_number";
      regex = "(?i)\\bEFL-[A-Z]{3}-\\d+\\b";
      resource_type = "order";
      primary_field = "order.number";
      secondary_fields = [];
    }
    ∷ record {
      name = "prefixed_numeric";
      identifier_type = "order_number";
      regex = "(?i)\\b[a-z]\\d{6,}\\b";
      resource_type = "order";
      primary_field = "order.number";
      secondary_fields = [];
    }
    ∷ record {
      name = "numeric_long";
      identifier_type = "order_number";
      regex = "\\b\\d{6,}\\b";
      resource_type = "order";
      primary_field = "order.number";
      secondary_fields = [];
    }
    ∷ []

abbrev pub order_enum_roles : List EnumRoleMapping
order_enum_roles =
    enum_role "order.open_state" "order.state" "Open"
    ∷ enum_role "order.confirmed_state" "order.state" "Confirmed"
    ∷ enum_role "order.complete_state" "order.state" "Complete"
    ∷ enum_role "order.cancelled_state" "order.state" "Cancelled"
    ∷ enum_role "shipment.pending_state" "shipment.state" "Pending"
    ∷ enum_role "shipment.shipped_state" "shipment.state" "Shipped"
    ∷ enum_role "shipment.delivered_state" "shipment.state" "Delivered"
    ∷ enum_role "shipment.delayed_state" "shipment.state" "Delayed"
    ∷ enum_role "shipment.ready_state" "shipment.state" "Ready"
    ∷ enum_role "shipment.not_shipped_deny.shipped" "shipment.state" "Shipped"
    ∷ enum_role "shipment.not_shipped_deny.delivered" "shipment.state" "Delivered"
    ∷ enum_role "shipment.not_shipped_deny.ready" "shipment.state" "Ready"
    ∷ enum_role "payment.pending_state" "payment.state" "Pending"
    ∷ enum_role "payment.paid_state" "payment.state" "Paid"
    ∷ enum_role "payment.failed_state" "payment.state" "Failed"
    ∷ enum_role "payment.refunded_state" "payment.state" "Refunded"
    ∷ enum_role "return.not_requested_state" "return.status" "NotRequested"
    ∷ enum_role "return.requested_state" "return.status" "Requested"
    ∷ enum_role "return.approved_state" "return.status" "Approved"
    ∷ enum_role "return.completed_state" "return.status" "Completed"
    ∷ enum_role "refund.not_initiated_state" "refund.status" "NotInitiated"
    ∷ enum_role "refund.pending_state" "refund.status" "Pending"
    ∷ enum_role "refund.processed_state" "refund.status" "Processed"
    ∷ enum_role "refund.failed_state" "refund.status" "Failed"
    ∷ enum_role "return.eligible_true" "return.eligible" "true"
    ∷ []

unfoldable pub order_resource : Resource
order_resource = record {
  name = "order";
  table_name = "orders_docs";
  default_sort = "order.created_at";
  fields = order_fields;
  aliases = order_aliases;
  identifiers = order_identifiers;
  enum_roles = order_enum_roles;
  v1_searchable_fields = "id" ∷ "status" ∷ "created_at" ∷ "total_amount" ∷ "customer_id" ∷ [];
}

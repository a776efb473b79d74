-- ===== src/Schema/Ecommerce/Customer.antt =====
-- internal/schema/ecommerce.go, `customerResource`: customers.
use permission_aware_search.Common.{true, false, none, some, List, [], ◌∷◌}
use permission_aware_search.Schema.{Field, Alias, IdentifierPattern, EnumRoleMapping, Resource}
use permission_aware_search.Schema.Ecommerce.Parts.{
  column, alias, enum_role, all_intents, customer_id_of_number,
}

abbrev pub customer_fields : List Field
customer_fields =
    column "customer.id" "id" "string" true true [] ("eq" ∷ []) all_intents "Internal customer ID"
      ""
    ∷ column "customer.number" "customer_number" "string" true true [] ("eq" ∷ "like" ∷ [])
        all_intents "Customer identifier" "CUST-123456"
    ∷ column "customer.email" "email" "string" true true [] ("eq" ∷ "like" ∷ []) all_intents
        "Customer email address" "customer@example.com"
    ∷ column "customer.first_name" "first_name" "string" true true [] ("eq" ∷ "like" ∷ [])
        all_intents "Customer first name" "Jane"
    ∷ column "customer.last_name" "last_name" "string" true true [] ("eq" ∷ "like" ∷ []) all_intents
        "Customer last name" "Smith"
    ∷ column "customer.is_email_verified" "is_email_verified" "int" false true [] ("eq" ∷ [])
        ("crm_profile" ∷ []) "Email verification status (1=verified, 0=unverified)" "1"
    ∷ column "customer.created_at" "created_at" "timestamp" true true []
        ("gt" ∷ "gte" ∷ "lt" ∷ "lte" ∷ []) ("crm_profile" ∷ [])
        "Customer account creation timestamp" "2024-01-15T10:30:00Z"
    ∷ column "customer.group" "customer_group" "string" true true [] ("eq" ∷ "like" ∷ [])
        ("default" ∷ "crm_profile" ∷ []) "Customer segment group" "enterprise"
    ∷ column "customer.vip_tier" "vip_tier" "enum" true true
        ("gold" ∷ "platinum" ∷ "diamond" ∷ "silver" ∷ []) ("eq" ∷ "neq" ∷ "in" ∷ [])
        ("crm_profile" ∷ []) "VIP loyalty tier" "gold"
    ∷ column "customer.legacy_name" "name" "string" true true [] ("eq" ∷ "like" ∷ [])
        ("default" ∷ []) "Legacy customer name (V1)" "Jane Smith"
    ∷ column "customer.legacy_tier" "tier" "string" true true [] ("eq" ∷ []) ("default" ∷ [])
        "Legacy customer tier (V1)" "gold"
    ∷ column "customer.region" "region" "string" true true [] ("eq" ∷ []) ("default" ∷ [])
        "Customer region" "EU"
    ∷ []

abbrev pub customer_aliases : List Alias
customer_aliases =
    alias "customer.id" "customer.id"
    ∷ alias "id" "customer.id"
    ∷ alias "customer.number" "customer.number"
    ∷ alias "customer_number" "customer.number"
    ∷ alias "customer.email" "customer.email"
    ∷ alias "email" "customer.email"
    ∷ alias "customer.first_name" "customer.first_name"
    ∷ alias "first_name" "customer.first_name"
    ∷ alias "customer.last_name" "customer.last_name"
    ∷ alias "last_name" "customer.last_name"
    ∷ alias "customer.is_email_verified" "customer.is_email_verified"
    ∷ alias "is_email_verified" "customer.is_email_verified"
    ∷ alias "customer.created_at" "customer.created_at"
    ∷ alias "created_at" "customer.created_at"
    ∷ alias "customer.group" "customer.group"
    ∷ alias "customer_group" "customer.group"
    ∷ alias "customer.vip_tier" "customer.vip_tier"
    ∷ alias "vip_tier" "customer.vip_tier"
    ∷ alias "customer.legacy_name" "customer.legacy_name"
    ∷ alias "name" "customer.legacy_name"
    ∷ alias "customer.legacy_tier" "customer.legacy_tier"
    ∷ alias "tier" "customer.legacy_tier"
    ∷ alias "customer.region" "customer.region"
    ∷ alias "region" "customer.region"
    ∷ []

abbrev pub customer_identifiers : List IdentifierPattern
customer_identifiers =
    record {
      name = "cust_default";
      identifier_type = "customer_number";
      regex = "(?i)\\bCUST-\\d{6}\\b|\\bcust-\\d{5}\\b|\\bTB-CUST-\\d{5}\\b";
      resource_type = "customer";
      primary_field = "customer.number";
      secondary_fields =
          record {
            resource_type = "order";
            field = "order.customer_id";
            transformer = some customer_id_of_number;
            confidence = 85;
          }
          ∷ [];
    }
    ∷ record {
      name = "email_default";
      identifier_type = "email";
      regex = "(?i)\\b[a-z0-9._%+\\-]+@[a-z0-9.\\-]+\\.[a-z]{2,}\\b";
      resource_type = "customer";
      primary_field = "customer.email";
      secondary_fields =
          record {
            resource_type = "order";
            field = "order.customer_email";
            transformer = none;
            confidence = 90;
          }
          ∷ [];
    }
    ∷ record {
      name = "phone_default";
      identifier_type = "phone";
      regex = "\\+?\\d[\\d\\s\\-()]{7,}\\d";
      resource_type = "customer";
      primary_field = "customer.email";
      secondary_fields = [];
    }
    ∷ []

abbrev pub customer_enum_roles : List EnumRoleMapping
customer_enum_roles =
    enum_role "customer.vip_base_tier" "customer.vip_tier" "silver"
    ∷ enum_role "customer.vip_gold_tier" "customer.vip_tier" "gold"
    ∷ enum_role "customer.vip_platinum_tier" "customer.vip_tier" "platinum"
    ∷ enum_role "customer.vip_diamond_tier" "customer.vip_tier" "diamond"
    ∷ []

unfoldable pub customer_resource : Resource
customer_resource = record {
  name = "customer";
  table_name = "customers_docs";
  default_sort = "customer.created_at";
  fields = customer_fields;
  aliases = customer_aliases;
  identifiers = customer_identifiers;
  enum_roles = customer_enum_roles;
  v1_searchable_fields = "id" ∷ "name" ∷ "tier" ∷ "region" ∷ "created_at" ∷ [];
}

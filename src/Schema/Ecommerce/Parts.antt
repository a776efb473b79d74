-- ===== src/Schema/Ecommerce/Parts.antt =====
-- internal/schema/ecommerce.go: what both resources are written with.
use Prim.Native.String.{slice}
use permission_aware_search.Common.{leb, if◌then◌else◌, ◌-◌, String, len, Bool, ◌&&◌, List, [], ◌∷◌}
use permission_aware_search.Strings.{◌+++◌, to_upper, has_prefix}
use permission_aware_search.Schema.{Field, Alias, EnumRoleMapping}

-- a `Field` literal
abbrev pub column :
    String
    → String
    → String
    → Bool
    → Bool
    → List String
    → List String
    → List String
    → String
    → String
    → Field
column name native_column kind sortable filterable enum_values operators intent_scopes description
      example =
    record {
      name = name;
      native_column = native_column;
      kind = kind;
      description = description;
      enum_values = enum_values;
      operators = operators;
      intent_scopes = intent_scopes;
      example = example;
      sortable = sortable;
      filterable = filterable;
    }

abbrev pub alias : String → String → Alias
alias input resolves = record { input = input; resolves = resolves }

abbrev pub enum_role : String → String → String → EnumRoleMapping
enum_role role field value = record { role = role; field = field; value = value }

-- `allIntents`
abbrev pub all_intents : List String
all_intents = "default" ∷ "wismo" ∷ "crm_profile" ∷ "returns_refunds" ∷ []

-- `custNumberToCustomerID`
unfoldable pub customer_id_of_number : String → String
unfolding to_upper
customer_id_of_number input =
    let upper = to_upper input in
    if leb 5 (len upper) && has_prefix upper "CUST-"
    then "cust-" +++ slice upper (len upper - 5) (len upper)
    else input

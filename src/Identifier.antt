-- ===== src/Identifier.antt =====
-- internal/identifier/types.go: the identifiers that are detected in an input, and the lookups planned for
-- them. Confidences are in hundredths.
pub mod Patterns
pub mod Detect
pub mod Shape
pub mod Resolve
pub mod Plans
pub mod Shapes
use permission_aware_search.Common.{ℕ, String, Bool, List}

-- `IdentifierType` is a string in the source.
abbrev pub type_order_number : String
type_order_number = "order_number"

abbrev pub type_tracking_id : String
type_tracking_id = "tracking_id"

abbrev pub type_payment_ref : String
type_payment_ref = "payment_reference"

abbrev pub type_customer_number : String
type_customer_number = "customer_number"

abbrev pub type_email : String
type_email = "email"

abbrev pub type_phone : String
type_phone = "phone"

abbrev pub type_unknown_token : String
type_unknown_token = "unknown_token"

pub record DetectedIdentifier : Type 0 where
  pub id_type : String
  pub normalized_value : String
  pub confidence : ℕ

pub record GroupSpec : Type 0 where
  pub resource_type : String
  pub match_field : String
  pub operator : String
  pub value : String
  pub confidence : ℕ

pub record ResolutionPlan : Type 0 where
  pub should_use_fast_path : Bool
  pub detected : List DetectedIdentifier
  pub groups : List GroupSpec
  pub query_shape : String
  pub normalization_applied : List String
  pub identifier_pattern_matched : String
  pub normalized_input : String

-- ===== src/Schema.antt =====
-- internal/schema/types.go: what a resource type looks like. A compiled regular expression is held by
-- its pattern, a confidence in hundredths.
pub mod Registry
pub mod Patterns
pub mod Lookups
pub mod Ecommerce
use permission_aware_search.Common.{ℕ, String, Bool, Option, List}

pub record Field : Type 0 where
  pub name : String
  pub native_column : String
  pub kind : String
  pub description : String
  pub enum_values : List String
  pub operators : List String
  pub intent_scopes : List String
  pub example : String
  pub sortable : Bool
  pub filterable : Bool

pub record Alias : Type 0 where
  pub input : String
  pub resolves : String

pub record SecondaryLookup : Type 0 where
  pub resource_type : String
  pub field : String
  pub transformer : Option (String → String)
  pub confidence : ℕ

pub record IdentifierPattern : Type 0 where
  pub name : String
  pub identifier_type : String
  pub regex : String
  pub resource_type : String
  pub primary_field : String
  pub secondary_fields : List SecondaryLookup

pub record EnumRoleMapping : Type 0 where
  pub role : String
  pub field : String
  pub value : String

pub record Resource : Type 0 where
  pub name : String
  pub table_name : String
  pub default_sort : String
  pub fields : List Field
  pub aliases : List Alias
  pub identifiers : List IdentifierPattern
  pub enum_roles : List EnumRoleMapping
  pub v1_searchable_fields : List String

pub record Definition : Type 0 where
  pub resources : List Resource

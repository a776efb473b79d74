-- ===== src/Parser.antt =====
-- internal/semantic/parser.go and slots.go: how a question becomes a query, with the rules only.
pub mod Patterns
pub mod Lookups
pub mod Cues
pub mod Normalize
pub mod Slots
pub mod Filters
pub mod Parse
pub mod Negation
pub mod Padding
pub mod References
pub mod Confidence
pub mod Conflicts
pub mod Parsed
pub mod Refused
use permission_aware_search.Common.{ℕ, String, Option, List}
use permission_aware_search.Schema.Registry.{Registry}

-- What the parser reads from its surroundings: the registry that `SetSchemaRegistry` has set, the order in
-- which a `range` over the map of phrases hands them out, and the text of the time so many days before the
-- anchor.
pub record Setting : Type 0 where
  pub registry : Option Registry
  pub ranged : List (String × String)
  pub days_ago : ℕ → String

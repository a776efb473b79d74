-- ===== src/Schema/Patterns.antt =====
-- internal/schema/registry.go: the lookups of identifier patterns, and the legacy allowlist.
use permission_aware_search.Common.{
  ◌==◌, if◌then◌else◌, lookup, String, Option, none, some, List, [], ◌∷◌, ◌++◌,
}
use permission_aware_search.Schema.{SecondaryLookup, IdentifierPattern}
use permission_aware_search.Schema.Registry.{Registry}

-- the inner loop of `GetIdentifierByType` and of `GetSecondaryLookups`
unfoldable pub pattern_of_type : String → List IdentifierPattern → Option IdentifierPattern
pattern_of_type identifier_type [] = none
pattern_of_type identifier_type (ip ∷ patterns) =
    if ip.identifier_type == identifier_type
    then some ip
    else pattern_of_type identifier_type patterns

module _ (r : Registry) where
  abbrev patterns_in : List String → List IdentifierPattern
  patterns_in [] = []
  patterns_in (name ∷ names) = elim (lookup name r.resources) [
    | some res ↦ res.identifiers ++ patterns_in names
    | none ↦ patterns_in names
  ]

  unfoldable pub get_all_identifier_patterns : List IdentifierPattern
  unfolding lookup
  get_all_identifier_patterns = patterns_in r.resource_order

  abbrev patterns_at : String → List IdentifierPattern
  patterns_at name = elim (lookup name r.resources) [ some res ↦ res.identifiers | none ↦ [] ]

  unfoldable pub typed_pattern_in : List String → String → Option (String × IdentifierPattern)
  unfolding lookup pattern_of_type
  typed_pattern_in [] identifier_type = none
  typed_pattern_in (name ∷ names) identifier_type =
      let rest = typed_pattern_in names identifier_type in
      elim (pattern_of_type identifier_type (patterns_at name)) [
        | some ip ↦ some (name, ip)
        | none ↦ rest
      ]

  -- the resource and its primary field
  unfoldable pub get_identifier_by_type : String → Option (String × String)
  unfolding typed_pattern_in
  get_identifier_by_type identifier_type =
      elim (typed_pattern_in r.resource_order identifier_type) [
        | some (name, ip) ↦ some (name, ip.primary_field)
        | none ↦ none
      ]

  unfoldable pub get_secondary_lookups : String → List SecondaryLookup
  unfolding typed_pattern_in
  get_secondary_lookups identifier_type = elim (typed_pattern_in r.resource_order identifier_type) [
    | some (name, ip) ↦ ip.secondary_fields
    | none ↦ []
  ]

  unfoldable pub get_v1_searchable_fields : String → List String
  unfolding lookup
  get_v1_searchable_fields resource = elim (lookup resource r.resources) [
    | some res ↦ res.v1_searchable_fields
    | none ↦ []
  ]

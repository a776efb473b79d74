-- ===== src/Semantic/Merging.antt =====
-- internal/semantic/analyzer_slm_superlinked.go and filter_source.go: how the answers of two analyzers are
-- merged.
use permission_aware_search.Common.{
  ◌==◌, if◌then◌else◌, mem, lookup, insert, String, Option, none, some, List, [], ◌∷◌, ◌++◌,
}
use permission_aware_search.Strings.{◌+++◌}
use permission_aware_search.Json.{Value}
use permission_aware_search.Json.Marshal.{marshal}
use permission_aware_search.Store.{Filter, QueryDsl}
use permission_aware_search.Semantic.{FilterSource}
use permission_aware_search.Common.Int.{le_zero}

-- `filterSourceKey`
unfoldable pub filter_source_key : String → String → Value → String
unfolding marshal
filter_source_key name op v = name +++ "|" +++ op +++ "|" +++ marshal v

abbrev pub key_of : Filter → String
key_of f = filter_source_key f.field f.op f.value

-- a loop that keeps the first of each key, with the keys seen so far
unfoldable pub first_of_each : {A : Type 0} → (A → String) → List A → List String → List A
unfolding mem
first_of_each key [] seen = []
first_of_each key (x ∷ xs) seen =
    let again = first_of_each key xs seen in
    let kept = first_of_each key xs (key x ∷ seen) in if mem (key x) seen then again else x ∷ kept

-- `mergeFilters`
unfoldable pub merge_filters : List Filter → List Filter → List Filter
unfolding first_of_each filter_source_key
merge_filters a b = first_of_each key_of (a ++ b) []

-- `appendUnique`
unfoldable pub append_unique : List String → List String → List String
unfolding first_of_each
append_unique base extra = first_of_each (λ s. s) (base ++ extra) []

-- `mergeQueryDSL`
unfoldable pub merge_query_dsl : QueryDsl → QueryDsl → QueryDsl
unfolding merge_filters
merge_query_dsl primary secondary = record {
  contract_version =
      if secondary.contract_version == ""
      then primary.contract_version
      else secondary.contract_version;
  intent_category =
      if secondary.intent_category == ""
      then primary.intent_category
      else secondary.intent_category;
  filters = merge_filters primary.filters secondary.filters;
  sort = if secondary.sort.field == "" then primary.sort else secondary.sort;
  page = if le_zero secondary.page.limit then primary.page else secondary.page;
}

-- `sourceForFilters`
unfoldable pub source_for_filters : List Filter → String → List FilterSource
source_for_filters [] source = []
source_for_filters (f ∷ filters) source =
    record { field = f.field; op = f.op; value = f.value; source = source }
    ∷ source_for_filters filters source

abbrev pub source_key : FilterSource → String
source_key fs = filter_source_key fs.field fs.op fs.value

-- one round of the loop over a group; a key of two sources is of "both"
unfoldable pub add_source : String → String → List (String × String) → List (String × String)
unfolding lookup insert
add_source key source sources = elim (lookup key sources) [
  | some prior ↦ if prior == source then sources else insert key "both" sources
  | none ↦ insert key source sources
]

-- the map of the sources, after one group
unfoldable pub add_sources : List FilterSource → List (String × String) → List (String × String)
unfolding add_source filter_source_key
add_sources [] sources = sources
add_sources (fs ∷ group) sources = add_sources group (add_source (source_key fs) fs.source sources)

abbrev pub add_groups : List (List FilterSource) → List (String × String) → List (String × String)
add_groups [] sources = sources
add_groups (group ∷ groups) sources = add_groups groups (add_sources group sources)

abbrev pub known : Option String → String
known none = "unknown"
known (some source) = if source == "" then "unknown" else source

abbrev pub source_of : List (String × String) → Filter → String
source_of sources f = known (lookup (key_of f) sources)

unfoldable pub label_filters : List (String × String) → List Filter → List FilterSource
unfolding lookup filter_source_key
label_filters sources [] = []
label_filters sources (f ∷ filters) =
    record { field = f.field; op = f.op; value = f.value; source = source_of sources f }
    ∷ label_filters sources filters

-- `mergeFilterSources`
unfoldable pub merge_filter_sources : List Filter → List (List FilterSource) → List FilterSource
unfolding label_filters add_sources
merge_filter_sources merged groups = label_filters (add_groups groups []) merged

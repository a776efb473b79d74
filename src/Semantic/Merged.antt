-- ===== src/Semantic/Merged.antt =====
-- internal/semantic: what the merge of two analyzers' filters holds, and where it says each is from.
use permission_aware_search.Common.{
  ◌==◌, if◌then◌else◌, Bool-cases, Option-cases, any, mem, lookup, lookup-insert, String, ◌≡◌, refl,
  sym, ap, ◌∙◌, inl, inr, Bool, true, false, not, ◌&&◌, ◌||◌, Option, none, some, List, [], ◌∷◌,
  ◌++◌, arith, eq_iff, eq_refl,
}
use permission_aware_search.Store.{Filter}
use permission_aware_search.Semantic.{FilterSource}
use permission_aware_search.Semantic.Merging.{
  key_of, first_of_each, merge_filters, source_for_filters, add_source, add_sources, add_groups,
  known, source_of, label_filters, merge_filter_sources,
}

-- some member has the key
abbrev pub has_key : {A : Type 0} → (A → String) → String → List A → Bool
has_key key k xs = any (λ x. key x == k) xs

-- no two members have one key
abbrev pub Distinct : {A : Type 0} → (A → String) → List A → Type 0
Distinct key [] = Unit
Distinct key (x ∷ xs) = (has_key key (key x) xs ≡ false) × Distinct key xs

module _ {A : Type 0} (key : A → String) where
  pub has_key-first_of_each :
      (k : String) (xs : List A) (seen : List String)
      → has_key key k (first_of_each key xs seen) ≡ (has_key key k xs && not (mem k seen))
  unfolding first_of_each mem
  has_key-first_of_each k [] seen = refl
  has_key-first_of_each k (x ∷ xs) seen =
      let again = has_key-first_of_each k xs seen in
      let kept = has_key-first_of_each k xs (key x ∷ seen) in
      elim (Bool-cases (mem (key x) seen)) [
        | inl old ↦ elim (Bool-cases (key x == k)) [
          | inl here ↦
              let same = ap (λ s. mem s seen) ((eq_iff (key x) k).0 here) in
              let before : mem k seen ≡ true = sym same ∙ old in
              rw (old, here, before) (ground (arith, again))
          | inr other ↦ rw (old, other) again
        ]
        | inr new ↦ elim (Bool-cases (key x == k)) [
          | inl here ↦
              let same = ap (λ s. mem s seen) ((eq_iff (key x) k).0 here) in
              let before : mem k seen ≡ false = sym same ∙ new in rw (new, here, before) refl
          | inr other ↦ rw (new, other) (rw other at kept)
        ]
      ]

  pub first_of_each-Distinct :
      (xs : List A) (seen : List String) → Distinct key (first_of_each key xs seen)
  unfolding first_of_each mem
  first_of_each-Distinct [] seen = tt
  first_of_each-Distinct (x ∷ xs) seen =
      let kept = has_key-first_of_each (key x) xs (key x ∷ seen) in
      elim (Bool-cases (mem (key x) seen)) [
        | inl old ↦ rw old (first_of_each-Distinct xs seen)
        | inr new ↦ rw new (
          (rw (eq_refl (key x)) at kept) ∙ ground arith,
          first_of_each-Distinct xs (key x ∷ seen),
        )
      ]

has_key-append :
    (k : String) (a b : List Filter)
    → (has_key key_of k (a ++ b) && true) ≡ (has_key key_of k a || has_key key_of k b)
has_key-append k [] b = ground arith
has_key-append k (f ∷ a) b = ground (arith, has_key-append k a b)

-- `mergeFilters` drops repetitions and nothing else: no two filters of the result have one key of field,
-- operator and JSON value, and a key is there exactly if a filter of either list has it.
pub merge_filters_lem :
    (a b : List Filter)
    → Distinct key_of (merge_filters a b)
      × ((k : String)
          → has_key key_of k (merge_filters a b) ≡ (has_key key_of k a || has_key key_of k b))
unfolding merge_filters mem
merge_filters_lem a b = (
  first_of_each-Distinct key_of (a ++ b) [],
  λ k. has_key-first_of_each key_of k (a ++ b) [] ∙ has_key-append k a b,
)

-- the label of a key, after the filters of one more analyzer
abbrev labelled : Option String → Bool → String → Option String
labelled prior false source = prior
labelled none true source = some source
labelled (some first) true source = if first == source then some first else some "both"

lookup-add_source :
    (k key source : String) (sources : List (String × String))
    → lookup k (add_source key source sources) ≡ labelled (lookup k sources) (key == k) source
unfolding add_source
lookup-add_source k key source sources = elim (Option-cases (lookup key sources)) [
  | inl new ↦ elim (Bool-cases (key == k)) [
    | inl here ↦
        let there = sym (ap (λ s. lookup s sources) ((eq_iff key k).0 here)) ∙ new in
        rw (add_source, new, lookup-insert key k source sources, here, there) refl
    | inr other ↦ rw (add_source, new, lookup-insert key k source sources, other) refl
  ]
  | inr (prior, old) ↦ elim (Bool-cases (prior == source)) [
    | inl again ↦ elim (Bool-cases (key == k)) [
      | inl here ↦
          let there = sym (ap (λ s. lookup s sources) ((eq_iff key k).0 here)) ∙ old in
          rw (add_source, old, again, here, there) (rw again refl)
      | inr other ↦ rw (add_source, old, again, other) refl
    ]
    | inr second ↦ elim (Bool-cases (key == k)) [
      | inl here ↦
          let there = sym (ap (λ s. lookup s sources) ((eq_iff key k).0 here)) ∙ old in
          rw (add_source, old, second, lookup-insert key k "both" sources, here, there)
            (rw second refl)
      | inr other ↦ rw (add_source, old, second, lookup-insert key k "both" sources, other) refl
    ]
  ]
]

labelled-labelled :
    (o : Option String) (x y : Bool) (source : String)
    → labelled (labelled o x source) y source ≡ labelled o (x || y) source
labelled-labelled o false y source = refl
labelled-labelled none true false source = refl
labelled-labelled none true true source = rw (eq_refl source) refl
labelled-labelled (some first) true false source = refl
labelled-labelled (some first) true true source = elim (Bool-cases (first == source)) [
  | inl same ↦ rw (same, same) refl
  | inr other ↦ elim (Bool-cases ("both" == source)) [
    | inl both ↦ rw (other, both) refl
    | inr third ↦ rw (other, third) refl
  ]
]

lookup-add_sources :
    (k source : String) (filters : List Filter) (sources : List (String × String))
    → lookup k (add_sources (source_for_filters filters source) sources)
      ≡ labelled (lookup k sources) (has_key key_of k filters) source
unfolding add_sources source_for_filters
lookup-add_sources k source [] sources = refl
lookup-add_sources k source (f ∷ filters) sources =
    lookup-add_sources k source filters (add_source (key_of f) source sources)
    ∙ ap (λ o. labelled o (has_key key_of k filters) source)
        (lookup-add_source k (key_of f) source sources)
    ∙ labelled-labelled (lookup k sources) (key_of f == k) (has_key key_of k filters) source

known_lem :
    (x y : Bool)
    → known (labelled (labelled none x "slm-local") y "superlinked")
      ≡ (if x then (if y then "both" else "slm-local") else if y then "superlinked" else "unknown")
known_lem true true = refl
known_lem true false = refl
known_lem false true = refl
known_lem false false = refl

-- where a filter is from, by the analyzers' own filters
abbrev pub origin : List Filter → List Filter → Filter → String
origin a b f =
    if has_key key_of (key_of f) a
    then (if has_key key_of (key_of f) b then "both" else "slm-local")
    else if has_key key_of (key_of f) b
    then "superlinked"
    else "unknown"

abbrev pub with_origin : List Filter → List Filter → List Filter → List FilterSource
with_origin a b [] = []
with_origin a b (f ∷ merged) =
    record { field = f.field; op = f.op; value = f.value; source = origin a b f }
    ∷ with_origin a b merged

module _ (a b : List Filter) where
  abbrev both_groups : List (String × String)
  both_groups =
      add_groups (source_for_filters a "slm-local" ∷ source_for_filters b "superlinked" ∷ []) []

  source_of_lem : (f : Filter) → source_of both_groups f ≡ origin a b f
  unfolding lookup
  source_of_lem f =
      let first = lookup-add_sources (key_of f) "slm-local" a [] in
      let second =
        lookup-add_sources (key_of f) "superlinked" b
          (add_sources (source_for_filters a "slm-local") []) in
      let whole = second ∙ ap (λ o. labelled o (has_key key_of (key_of f) b) "superlinked") first in
      ap known whole ∙ known_lem (has_key key_of (key_of f) a) (has_key key_of (key_of f) b)

  -- The merge labels each filter of its result "both" if filters of both analyzers have its key, and with
  -- the one analyzer of which a filter has the key; "unknown" is left for filters of neither.
  pub merge_filter_sources_lem :
      (merged : List Filter)
      → merge_filter_sources merged
          (source_for_filters a "slm-local" ∷ source_for_filters b "superlinked" ∷ [])
        ≡ with_origin a b merged
  unfolding merge_filter_sources label_filters
  merge_filter_sources_lem [] = refl
  merge_filter_sources_lem (f ∷ merged) = cc (source_of_lem f, merge_filter_sources_lem merged)

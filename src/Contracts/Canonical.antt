-- ===== src/Contracts/Canonical.antt =====
-- internal/contracts/fields.go and internal/search: canonical field names, and the way of a query from
-- the service to the adapter.
use permission_aware_search.Common.{
  ◌==◌, if◌then◌else◌, Bool-cases, Option-cases, >>=-eq-ok, ok, all, lookup, String, ◌≡◌, refl, sym,
  ap, ◌∙◌, inl, inr, Bool, true, false, none, some, List, [], ◌∷◌, ◌++◌, arith, eq_iff,
}
use permission_aware_search.Strings.{◌+++◌, trim_space, to_lower}
use permission_aware_search.Strings.Folding.{to_lower-trim_space_idem}
use permission_aware_search.Schema.Registry.{
  find_field, find_alias, normalize_field, filterable_fields, Registry,
}
use permission_aware_search.Contracts.{intent_default, normalize_field_name, validate_field}
use permission_aware_search.Contracts.Allowlist.{IsOpen, validate_v2-clause}
use permission_aware_search.Store.{Filter}
use permission_aware_search.Store.Sqlite.{comparison, clause, clauses, Arg, value}
use permission_aware_search.Search.{normalize_filters, validate_filters}

abbrev aliases_of : Registry → String → List (String × String)
aliases_of reg resource = elim (lookup resource reg.alias_index) [
  | some aliases ↦ aliases
  | none ↦ []
]

-- what an alias resolves to is a canonical name
abbrev pub IsClosed : Registry → String → Type 0
IsClosed reg resource =
    all (λ e. normalize_field_name (some reg) resource e.1 == e.1) (aliases_of reg resource) ≡ true

lookup-all :
    (p : String → Bool) (key found : String) (entries : List (String × String))
    → all (λ e. p e.1) entries ≡ true
    → lookup key entries ≡ some found
    → p found ≡ true
unfolding lookup
lookup-all p key found [] h e = cc
lookup-all p key found ((k, v) ∷ entries) h e = elim (Bool-cases (k == key)) [
  | inl here ↦
      let same : v ≡ found = ground arith in
      let first : p v ≡ true = ground arith in ap p (sym same) ∙ first
  | inr other ↦ lookup-all p key found entries (ground arith) (rw other at e)
]

module _ (reg : Registry) (resource : String) where
  find_alias-aliases_of :
      (key : String) → find_alias reg resource key ≡ lookup key (aliases_of reg resource)
  unfolding find_alias lookup
  find_alias-aliases_of key = elim (Option-cases (lookup resource reg.alias_index)) [
    | inl missing ↦ rw (find_alias, aliases_of, missing) refl
    | inr (aliases, there) ↦ rw (find_alias, aliases_of, there) refl
  ]

  -- the alias of the trimmed, lower-cased name, else that name
  normalize_field_name_lem :
      (name : String)
      → normalize_field_name (some reg) resource name
        ≡ elim (find_alias reg resource (to_lower (trim_space name))) as (λ _. String) [
          | some canonical ↦ canonical
          | none ↦ to_lower (trim_space name)
        ]
  unfolding normalize_field_name normalize_field
  normalize_field_name_lem name =
      let key = to_lower (trim_space name) in
      let twice = to_lower-trim_space_idem name in
      elim (Option-cases (find_alias reg resource key)) [
        | inr (canonical, there) ↦
            let there' = ap (find_alias reg resource) twice ∙ there in
            rw (normalize_field_name, normalize_field, there', there) refl
        | inl missing ↦
            let missing' = ap (find_alias reg resource) twice ∙ missing in
            elim (Option-cases (find_field reg resource key)) [
              | inl unknown ↦
                  rw (normalize_field_name, normalize_field, missing', missing, unknown) refl
              | inr (f, known) ↦
                  rw (normalize_field_name, normalize_field, missing', missing, known) refl
            ]
      ]

  name_of_alias :
      (name canonical : String)
      → find_alias reg resource (to_lower (trim_space name)) ≡ some canonical
      → normalize_field_name (some reg) resource name ≡ canonical
  name_of_alias name canonical there = normalize_field_name_lem name ∙ rw there refl

  name_of_key :
      (name : String)
      → find_alias reg resource (to_lower (trim_space name)) ≡ none
      → normalize_field_name (some reg) resource name ≡ to_lower (trim_space name)
  name_of_key name missing = normalize_field_name_lem name ∙ rw missing refl

  -- `NormalizeField` changes nothing the second time, if every alias resolves to a canonical name.
  pub normalize_field_name_idem :
      IsClosed reg resource
      → (name : String)
      → normalize_field_name (some reg) resource (normalize_field_name (some reg) resource name)
        ≡ normalize_field_name (some reg) resource name
  normalize_field_name_idem closed name =
      let key = to_lower (trim_space name) in
      elim (Option-cases (find_alias reg resource key)) [
        | inl missing ↦
            let once = name_of_key name missing in
            let missing' = ap (find_alias reg resource) (to_lower-trim_space_idem name) ∙ missing in
            ap (normalize_field_name (some reg) resource) once
            ∙ name_of_key key missing'
            ∙ to_lower-trim_space_idem name
            ∙ sym once
        | inr (canonical, there) ↦
            let once = name_of_alias name canonical there in
            let listed =
              lookup-all (λ c. normalize_field_name (some reg) resource c == c) key canonical
                (aliases_of reg resource) closed (sym (find_alias-aliases_of key) ∙ there) in
            ap (normalize_field_name (some reg) resource) once ∙ (eq_iff _ _).0 listed ∙ sym once
      ]

  -- every operator is one that takes a single value
  abbrev pub is_simple : Filter → Bool
  is_simple f = elim (comparison (to_lower f.op)) [ none ↦ false | some symbol ↦ true ]

  filter_clause :
      (intent : String) (f : Filter)
      → IsOpen reg resource
      → IsClosed reg resource
      → is_simple f ≡ true
      → validate_field
          (some reg)
          resource
          "v2"
          intent
          (normalize_field_name (some reg) resource f.field)
        ≡ ok tt
      → (text : String) × (args : List Arg) × (clause reg
            (filterable_fields reg resource)
            (record f { field = normalize_field_name (some reg) resource f.field })
          ≡ ok (text, args))
  unfolding validate_field
  filter_clause intent f o closed simple h = elim (Option-cases (comparison (to_lower f.op))) [
    | inl missing ↦ absurd (ground arith)
    | inr (symbol, there) ↦
        let name = normalize_field_name (some reg) resource f.field in
        let once = normalize_field_name_idem closed f.field in
        let (column, done) =
          validate_v2-clause reg resource (if intent == "" then intent_default else intent)
            (record f { field = name }) symbol o h there in
        (
          column +++ symbol,
          (value f.value ∷ []),
          (ap (λ n. clause reg (filterable_fields reg resource) (record f { field = n })) (sym once)
              ∙ done),
        )
  ]

  clauses_cons :
      (f : Filter) (filters : List Filter)
      → (text : String) × (args : List Arg) × (clause reg
            (filterable_fields reg resource)
            (record f { field = normalize_field_name (some reg) resource f.field })
          ≡ ok (text, args))
      → (texts : List String) × (args : List Arg) × (clauses reg
            (filterable_fields reg resource)
            (normalize_filters (some reg) resource filters)
          ≡ ok (texts, args))
      → (texts : List String) × (args : List Arg) × (clauses reg
            (filterable_fields reg resource)
            (normalize_filters (some reg) resource (f ∷ filters))
          ≡ ok (texts, args))
  unfolding normalize_filters clauses
  clauses_cons f filters (text, args, one) (texts, rest, others) =
      (text ∷ texts, args ++ rest, rw (clauses, one, others) refl)

  -- A v2 filter that the service has normalized and then validated is one that the adapter takes, so that
  -- the adapter refuses no query of such filters: `buildWhere` has a text for them. The operators take
  -- one value each, the resource is listed, its fields are all filterable and its aliases are canonical.
  pub validate_filters-clauses :
      (intent : String) (filters : List Filter)
      → IsOpen reg resource
      → IsClosed reg resource
      → all is_simple filters ≡ true
      → validate_filters
          (some reg)
          resource
          "v2"
          intent
          (normalize_filters (some reg) resource filters)
        ≡ ok tt
      → (texts : List String) × (args : List Arg) × (clauses reg
            (filterable_fields reg resource)
            (normalize_filters (some reg) resource filters)
          ≡ ok (texts, args))
  validate_filters-clauses intent [] o closed simple h =
      ([], [], unfold normalize_filters clauses in refl)
  validate_filters-clauses intent (f ∷ filters) o closed simple h =
      let named = normalize_filters (some reg) resource filters in
      let here : is_simple f ≡ true = ground arith in
      let later : all is_simple filters ≡ true = ground arith in
      let (done, first, rest) =
        >>=-eq-ok
          (validate_field (some reg) resource "v2" intent
            (normalize_field_name (some reg) resource f.field))
          (λ _. validate_filters (some reg) resource "v2" intent named)
          (unfold validate_filters normalize_filters in h) in
      clauses_cons f filters (filter_clause intent f o closed here first)
        (validate_filters-clauses intent filters o closed later rest)

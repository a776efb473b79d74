-- ===== src/Contracts/Allowlist.antt =====
-- internal/contracts against internal/store/sqlite: a field that the contract lets through, and what the
-- adapter makes of a filter on it.
use permission_aware_search.Common.{
  ◌==◌, Bool-cases, Option-cases, ok, err, all, mem, lookup, String, ◌≡◌, refl, sym, ap, subst, inl,
  inr, Bool, true, false, not, some, List, [], ◌∷◌, arith, eq_iff,
}
use permission_aware_search.Strings.{◌+++◌, to_lower}
use permission_aware_search.Schema.{Field}
use permission_aware_search.Schema.Registry.{
  get_resource, find_field, get_native_column, native_column_in, names_where, fields_of,
  filterable_fields, is_field_allowed, Registry,
}
use permission_aware_search.Schema.Patterns.{get_v1_searchable_fields}
use permission_aware_search.Contracts.{normalize_field_name, validate_v1, validate_v2}
use permission_aware_search.Store.{Filter}
use permission_aware_search.Store.Sqlite.{comparison, clause, clauses, build_where, value}

module _ (reg : Registry) where
  lookup-mem :
      (p : Field → Bool) (name : String) (f : Field) (entries : List (String × Field))
      → all (λ e. p e.1) entries ≡ true
      → lookup name entries ≡ some f
      → mem name (names_where reg p entries) ≡ true
  unfolding lookup mem
  lookup-mem p name f [] h e = cc
  lookup-mem p name f ((key, g) ∷ entries) h e = elim (Bool-cases (p g)) [
    | inr refused ↦ absurd (ground arith)
    | inl passed ↦ elim (Bool-cases (key == name)) [
      | inl here ↦ rw (passed, here) refl
      | inr there ↦ rw (passed, there) (lookup-mem p name f entries (ground arith) (rw there at e))
    ]
  ]

  native_column-mem :
      (resource name : String) (f : Field) (order : List String)
      → find_field reg resource name ≡ some f
      → mem resource order ≡ true
      → (c : String) × (native_column_in reg order name ≡ some c)
  unfolding mem native_column_in
  native_column-mem resource name f [] e m = cc
  native_column-mem resource name f (first ∷ order) e m =
      elim (Option-cases (get_native_column reg first name)) [
        | inr (c, found) ↦ (c, rw (native_column_in, found) refl)
        | inl missing ↦ elim (Bool-cases (first == resource)) [
          | inl same ↦
              let e' : find_field reg first name ≡ some f = rw ((eq_iff first resource).0 same) e in
              absurd (unfold get_native_column in ground arith)
          | inr other ↦
              let (c, found) = native_column-mem resource name f order e (rw other at m) in
              (c, rw (native_column_in, missing) found)
        ]
      ]

  -- what every definition of this program keeps to: the resource is listed, and its fields are filterable
  abbrev pub IsOpen : String → Type 0
  IsOpen resource =
      (mem resource reg.resource_order ≡ true)
      × (all (λ e. e.1.filterable) (fields_of reg resource) ≡ true)

  is_field_allowed-find_field :
      (resource intent name : String)
      → is_field_allowed reg resource intent name ≡ true
      → (f : Field) × (find_field reg resource name ≡ some f)
  unfolding is_field_allowed
  is_field_allowed-find_field resource intent name h =
      elim (Option-cases (find_field reg resource name)) [
        | inl missing ↦ absurd (ground arith)
        | inr (f, found) ↦ (f, found)
      ]

  find_field-filterable :
      (resource name : String) (f : Field)
      → IsOpen resource
      → find_field reg resource name ≡ some f
      → mem name (filterable_fields reg resource) ≡ true
  unfolding find_field filterable_fields
  find_field-filterable resource name f o e =
      elim (Option-cases (lookup resource reg.field_index)) [
        | inl missing ↦ absurd (ground arith)
        | inr (entries, found) ↦
            let whole : fields_of reg resource ≡ entries = rw (fields_of, found) refl in
            subst (λ es. mem name (names_where reg (λ g. g.filterable) es) ≡ true) (sym whole)
              (lookup-mem (λ g. g.filterable) name f entries
                (subst (λ es. all (λ e. e.1.filterable) es ≡ true) whole (o.1))
                (rw (find_field, found) at e))
      ]

  -- A field that `ValidateField` lets through at v2, once normalized, is one that the adapter takes: a
  -- filter on it, with an operator for one value, is a clause with that value, if the resource is listed
  -- and all its fields are filterable.
  pub validate_v2-clause :
      (resource intent : String) (f : Filter) (symbol : String)
      → IsOpen resource
      → validate_v2 (some reg) resource intent f.field ≡ ok tt
      → comparison (to_lower f.op) ≡ some symbol
      → (column : String) × (clause reg
            (filterable_fields reg resource)
            (record f { field = normalize_field_name (some reg) resource f.field })
          ≡ ok (column +++ symbol, value f.value ∷ []))
  unfolding validate_v2
  validate_v2-clause resource intent f symbol o h simple =
      elim (Option-cases (get_resource reg resource)) [
        | inl missing ↦ absurd (ground arith)
        | inr (res, there) ↦
            let named = normalize_field_name (some reg) resource f.field in
            elim (Bool-cases (is_field_allowed reg resource intent named)) [
              | inr refused ↦ absurd (ground arith)
              | inl allowed ↦
                  let (g, found) = is_field_allowed-find_field resource intent named allowed in
                  let listed = find_field-filterable resource named g o found in
                  let (column, native) =
                    native_column-mem resource named g reg.resource_order found (o.0) in
                  (column, unfold clause in rw (listed, native, simple) refl)
            ]
      ]

-- the fields that v1 lets through are none of those that the adapter filters by
abbrev pub Apart : Registry → String → Type 0
Apart reg resource =
    all (λ name. not (mem name (filterable_fields reg resource)))
      (get_v1_searchable_fields reg resource)
    ≡ true

mem-all :
    (p : String → Bool) (name : String) (names : List String)
    → all p names ≡ true
    → mem name names ≡ true
    → p name ≡ true
unfolding mem
mem-all p name [] h m = cc
mem-all p name (x ∷ names) h m = elim (Bool-cases (x == name)) [
  | inl same ↦ let e = ap p ((eq_iff x name).0 same) in ground arith
  | inr other ↦ mem-all p name names (ground arith) (rw other at m)
]

module _ (reg : Registry) (resource : String) where
  -- A filter on a field that `ValidateField` lets through at v1 is refused by `buildWhere`, which knows
  -- canonical names only, where v1 has no canonical name.
  pub validate_v1-build_where :
      (f : Filter) (filters : List Filter)
      → Apart reg resource
      → validate_v1 (some reg) resource f.field ≡ ok tt
      → build_where reg (filterable_fields reg resource) (f ∷ filters)
        ≡ err ("unsupported filter field: " +++ f.field)
  unfolding validate_v1
  validate_v1-build_where f filters apart h =
      elim (Bool-cases (mem f.field (get_v1_searchable_fields reg resource))) [
        | inr refused ↦ absurd (ground arith)
        | inl listed ↦
            let outside =
              mem-all (λ name. not (mem name (filterable_fields reg resource))) f.field
                (get_v1_searchable_fields reg resource) apart listed in
            let unknown : mem f.field (filterable_fields reg resource) ≡ false = ground arith in
            unfold build_where clauses clause in rw unknown refl
      ]

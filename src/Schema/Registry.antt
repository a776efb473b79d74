-- ===== src/Schema/Registry.antt =====
-- internal/schema/registry.go: the indexes that `New` builds over a definition, and the lookups.
use permission_aware_search.Schema.{Field, Alias, EnumRoleMapping, Resource, Definition}
use permission_aware_search.Common.{
  ◌==◌, if◌then◌else◌, Result, ok, err, any, lookup, insert, String, Bool, false, ◌||◌, Option,
  none, some, List, [], ◌∷◌, ◌++◌,
}
use permission_aware_search.Strings.{◌+++◌, is_empty, trim_space, to_lower}

pub record Registry : Type 0 where
  pub resource_order : List String
  pub resources : List (String × Resource)
  pub field_index : List (String × List (String × Field))
  pub alias_index : List (String × List (String × String))
  pub enum_role_index : List (String × EnumRoleMapping)
  pub enum_role_prefix_index : List (String × List EnumRoleMapping)

abbrev pub index_fields : List Field → List (String × Field) → List (String × Field)
index_fields [] index = index
index_fields (f ∷ fields) index = index_fields fields (insert f.name f index)

abbrev pub index_aliases : List Alias → List (String × String) → List (String × String)
index_aliases [] index = index
index_aliases (a ∷ aliases) index =
    index_aliases aliases (insert (to_lower a.input) a.resolves index)

-- `role[:strings.LastIndex(role, ".")]`; `none` where there is no dot
unfoldable pub before_last_dot : String → Option String
before_last_dot String.[] = none
before_last_dot (String.◌∷◌ c s) = elim (before_last_dot s) [
  | some prefix ↦ some (String.◌∷◌ c prefix)
  | none ↦ if String.◌∷◌ c "" == "." then some "" else none
]

abbrev pub entries_at : String → List (String × List EnumRoleMapping) → List EnumRoleMapping
entries_at prefix index = elim (lookup prefix index) [ none ↦ [] | some ms ↦ ms ]

-- the index is left alone unless the dot stands behind the first character
abbrev pub index_prefix :
    Option String
    → EnumRoleMapping
    → List (String × List EnumRoleMapping)
    → List (String × List EnumRoleMapping)
index_prefix none m index = index
index_prefix (some prefix) m index =
    if is_empty prefix then index else insert prefix (entries_at prefix index ++ m ∷ []) index

abbrev pub index_roles : List EnumRoleMapping → Registry → Registry
index_roles [] r = r
index_roles (m ∷ roles) r = index_roles roles (record r {
  enum_role_index = insert m.role m r.enum_role_index;
  enum_role_prefix_index = index_prefix (before_last_dot m.role) m r.enum_role_prefix_index;
})

-- one round of `New`'s loop
unfoldable pub add_resource : Registry → Resource → Registry
unfolding insert lookup to_lower before_last_dot
add_resource r res = index_roles res.enum_roles (record r {
  resources = insert res.name res r.resources;
  resource_order = r.resource_order ++ res.name ∷ [];
  field_index = insert res.name (index_fields res.fields []) r.field_index;
  alias_index = insert res.name (index_aliases res.aliases []) r.alias_index;
})

abbrev pub empty_registry : Registry
empty_registry = record {
  resource_order = [];
  resources = [];
  field_index = [];
  alias_index = [];
  enum_role_index = [];
  enum_role_prefix_index = [];
}

abbrev pub add_resources : List Resource → Registry → Registry
add_resources [] r = r
add_resources (res ∷ resources) r = add_resources resources (add_resource r res)

-- `New`
unfoldable pub new : Definition → Registry
unfolding add_resource
new def = add_resources def.resources empty_registry

module _ (r : Registry) where
  unfoldable pub get_table_name : String → Result String
  unfolding lookup
  get_table_name resource = elim (lookup resource r.resources) [
    | some res ↦ ok res.table_name
    | none ↦ err ("unknown resourceType: " +++ resource)
  ]

  unfoldable pub get_default_sort_field : String → Option String
  unfolding lookup
  get_default_sort_field resource = elim (lookup resource r.resources) [
    | some res ↦ some res.default_sort
    | none ↦ none
  ]

  unfoldable pub get_resource : String → Option Resource
  unfolding lookup
  get_resource resource = lookup resource r.resources

  -- `if fields, ok := r.fieldIndex[resource]; ok { if f, ok := fields[field]; ok …`
  unfoldable pub find_field : String → String → Option Field
  unfolding lookup
  find_field resource field = elim (lookup resource r.field_index) [
    | some fields ↦ lookup field fields
    | none ↦ none
  ]

  unfoldable pub get_native_column : String → String → Option String
  unfolding find_field
  get_native_column resource field = elim (find_field resource field) [
    | some f ↦ some f.native_column
    | none ↦ none
  ]

  unfoldable pub native_column_in : List String → String → Option String
  unfolding get_native_column
  native_column_in [] field = none
  native_column_in (resource ∷ names) field =
      let rest = native_column_in names field in
      elim (get_native_column resource field) [ some column ↦ some column | none ↦ rest ]

  unfoldable pub native_column_for_field : String → Option String
  unfolding native_column_in
  native_column_for_field field = native_column_in r.resource_order field

  -- `aliases[key]`, where the resource has aliases
  unfoldable pub find_alias : String → String → Option String
  unfolding lookup
  find_alias resource key = elim (lookup resource r.alias_index) [
    | some aliases ↦ lookup key aliases
    | none ↦ none
  ]

  -- `NormalizeField`, its second result told by `some`
  unfoldable pub normalize_field : String → String → Option String
  unfolding find_alias find_field to_lower trim_space
  normalize_field resource input = elim (find_alias resource (to_lower (trim_space input))) [
    | some canonical ↦ some canonical
    | none ↦ elim (find_field resource input) [ some f ↦ some input | none ↦ none ]
  ]

  abbrev pub names_where : (Field → Bool) → List (String × Field) → List String
  names_where p [] = []
  names_where p ((name, f) ∷ fields) =
      if p f then name ∷ names_where p fields else names_where p fields

  abbrev pub fields_of : String → List (String × Field)
  fields_of resource = elim (lookup resource r.field_index) [ some fields ↦ fields | none ↦ [] ]

  unfoldable pub filterable_fields : String → List String
  unfolding lookup
  filterable_fields resource = names_where (λ f. f.filterable) (fields_of resource)

  unfoldable pub sortable_fields : String → List String
  unfolding lookup
  sortable_fields resource = names_where (λ f. f.sortable) (fields_of resource)

  unfoldable pub is_field_allowed : String → String → String → Bool
  unfolding find_field
  is_field_allowed resource intent field = elim (find_field resource field) [
    | some f ↦ any (λ scope. scope == intent || scope == "default") f.intent_scopes
    | none ↦ false
  ]

  unfoldable pub get_enum_values : String → String → List String
  unfolding find_field
  get_enum_values resource field = elim (find_field resource field) [
    | some f ↦ f.enum_values
    | none ↦ []
  ]

  unfoldable pub get_enum_role : String → Option EnumRoleMapping
  unfolding lookup
  get_enum_role role = lookup role r.enum_role_index

  unfoldable pub get_enum_role_value : String → Option String
  unfolding lookup
  get_enum_role_value role = elim (lookup role r.enum_role_index) [
    | some m ↦ some m.value
    | none ↦ none
  ]

  unfoldable pub get_enum_roles_by_prefix : String → List EnumRoleMapping
  unfolding lookup
  get_enum_roles_by_prefix prefix = entries_at prefix r.enum_role_prefix_index

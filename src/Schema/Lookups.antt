-- ===== src/Schema/Lookups.antt =====
-- internal/schema/registry.go: what the indexes hold, against the definition that they were built from.
use permission_aware_search.Common.{
  ◌==◌, if◌then◌else◌, Bool-cases, keep, insert, lookup-insert, String, ◌≡◌, refl, sym, ap, ◌∙◌,
  inl, inr, Bool, false, Option, none, some, List, [], ◌∷◌, ◌++◌, append-nil, append_assoc, arith,
  eq_iff,
}
use permission_aware_search.Strings.{is_empty}
use permission_aware_search.Schema.{EnumRoleMapping, Resource, Definition}
use permission_aware_search.Schema.Registry.{
  before_last_dot, entries_at, index_prefix, index_roles, add_resource, empty_registry,
  add_resources, new, get_enum_roles_by_prefix, Registry,
}

abbrev is_prefix : String → Option String → Bool
is_prefix prefix none = false
is_prefix prefix (some p) = p == prefix

-- the prefix is all that stands before the last dot of the role
abbrev pub has_prefix_role : String → EnumRoleMapping → Bool
has_prefix_role prefix m = is_prefix prefix (before_last_dot m.role)

abbrev pub all_roles : List Resource → List EnumRoleMapping
all_roles [] = []
all_roles (res ∷ resources) = res.enum_roles ++ all_roles resources

keep-append :
    {A : Type 0} (p : A → Bool) (xs ys : List A) → keep p (xs ++ ys) ≡ keep p xs ++ keep p ys
keep-append p [] ys = refl
keep-append p (x ∷ xs) ys = ground (arith, keep-append p xs ys)

entries_at-insert :
    (prefix p : String) (ms : List EnumRoleMapping) (index : List (String × List EnumRoleMapping))
    → entries_at prefix (insert p ms index) ≡ (if p == prefix then ms else entries_at prefix index)
entries_at-insert prefix p ms index =
    rw (entries_at, lookup-insert p prefix ms index)
      (elim (Bool-cases (p == prefix)) [ inl e ↦ rw e refl | inr e ↦ rw e refl ])

module _ (prefix : String) (named : is_empty prefix ≡ false) where
  entries_at-index_prefix :
      (o : Option String) (m : EnumRoleMapping) (index : List (String × List EnumRoleMapping))
      → entries_at prefix (index_prefix o m index)
        ≡ entries_at prefix index ++ (if is_prefix prefix o then m ∷ [] else [])
  entries_at-index_prefix none m index = sym (append-nil _)
  entries_at-index_prefix (some p) m index = elim (Bool-cases (is_empty p)) [
    | inl empty ↦ elim (Bool-cases (p == prefix)) [
      | inl same ↦ let e = ap is_empty ((eq_iff p prefix).0 same) in absurd cc
      | inr other ↦ rw (empty, other) (sym (append-nil _))
    ]
    | inr filled ↦
        let after = entries_at-insert prefix p (entries_at p index ++ m ∷ []) index in
        elim (Bool-cases (p == prefix)) [
          | inl same ↦
              let e = (eq_iff p prefix).0 same in
              rw (filled, same) ((rw same at after) ∙ ap (λ q. entries_at q index ++ m ∷ []) e)
          | inr other ↦ rw (filled, other) ((rw other at after) ∙ sym (append-nil _))
        ]
  ]

  add_one :
      (m : EnumRoleMapping) (roles before : List EnumRoleMapping)
      → (before ++ (if has_prefix_role prefix m then m ∷ [] else []))
          ++ keep (has_prefix_role prefix) roles
        ≡ before ++ keep (has_prefix_role prefix) (m ∷ roles)
  add_one m roles before = elim (Bool-cases (has_prefix_role prefix m)) [
    | inl e ↦ rw e (append_assoc before (m ∷ []) (keep (has_prefix_role prefix) roles))
    | inr e ↦ rw e (append_assoc before [] (keep (has_prefix_role prefix) roles))
  ]

  index_roles_lem :
      (roles : List EnumRoleMapping) (r : Registry)
      → entries_at prefix (index_roles roles r).enum_role_prefix_index
        ≡ entries_at prefix r.enum_role_prefix_index ++ keep (has_prefix_role prefix) roles
  index_roles_lem [] r = sym (append-nil _)
  index_roles_lem (m ∷ roles) r =
      let one = entries_at-index_prefix (before_last_dot m.role) m r.enum_role_prefix_index in
      index_roles_lem roles _
      ∙ ap (λ es. es ++ keep (has_prefix_role prefix) roles) one
      ∙ add_one m roles (entries_at prefix r.enum_role_prefix_index)

  add_resources_lem :
      (resources : List Resource) (r : Registry)
      → entries_at prefix (add_resources resources r).enum_role_prefix_index
        ≡ entries_at prefix r.enum_role_prefix_index
          ++ keep (has_prefix_role prefix) (all_roles resources)
  unfolding add_resource
  add_resources_lem [] r = sym (append-nil _)
  add_resources_lem (res ∷ resources) r =
      let one = index_roles_lem res.enum_roles _ in
      add_resources_lem resources (add_resource r res)
      ∙ ap (λ es. es ++ keep (has_prefix_role prefix) (all_roles resources)) one
      ∙ append_assoc (entries_at prefix r.enum_role_prefix_index)
          (keep (has_prefix_role prefix) res.enum_roles)
          (keep (has_prefix_role prefix) (all_roles resources))
      ∙ ap (λ es. entries_at prefix r.enum_role_prefix_index ++ es)
          (sym (keep-append (has_prefix_role prefix) res.enum_roles (all_roles resources)))

  -- `GetEnumRolesByPrefix` over the registry of a definition gives, in the order of the definition, the
  -- roles whose text before the last dot is the prefix, for any prefix that is not empty.
  pub get_enum_roles_by_prefix_lem :
      (def : Definition)
      → get_enum_roles_by_prefix (new def) prefix
        ≡ keep (has_prefix_role prefix) (all_roles def.resources)
  unfolding get_enum_roles_by_prefix new
  get_enum_roles_by_prefix_lem def = add_resources_lem def.resources empty_registry

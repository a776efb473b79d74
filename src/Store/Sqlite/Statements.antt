-- ===== src/Store/Sqlite/Statements.antt =====
-- internal/store/sqlite/adapter.go: what a statement of the adapter asks for, written down without the code
-- that builds it.
use permission_aware_search.Common.{
  ◌==◌, if◌then◌else◌, Bool-cases, Option-cases, Result-cases, ok, length, All, mem, ℕ, String, ◌≡◌,
  refl, subst, ◌⊎◌, inl, inr, Bool, true, false, Option, none, some, List, [], ◌∷◌, ◌++◌, arith,
}
use permission_aware_search.Strings.{◌+++◌, is_empty, to_lower, to_upper, join}
use permission_aware_search.Json.{Value, null, boolean, num, str, arr, obj, nil, cons}
use permission_aware_search.Schema.Registry.{
  get_table_name, get_native_column, native_column_for_field, sortable_fields, Registry,
}
use permission_aware_search.Store.{Filter, Sort}
use permission_aware_search.Store.Sqlite.{
  comparison, values_args, question_marks, in_clause, clause, clauses, build_where,
  default_sort_field, sort_column, sort_direction, Arg, value, Adapter,
}

-- the comparisons with one argument
abbrev pub symbols : List String
symbols = " = ?" ∷ " != ?" ∷ " > ?" ∷ " >= ?" ∷ " < ?" ∷ " <= ?" ∷ " LIKE ?" ∷ []

-- a comparison of a column of the schema with arguments
pub data Condition (reg : Registry) : String → Type 0 where
  compares :
      (named column symbol : String)
      → native_column_for_field reg named ≡ some column
      → mem symbol symbols ≡ true
      → Condition reg (column +++ symbol)
  is_one_of :
      (named column : String) (n : ℕ)
      → native_column_for_field reg named ≡ some column
      → Condition reg (column +++ " IN (" +++ question_marks n +++ ")")

-- any number of conditions, each put behind an AND
pub data Conditions (reg : Registry) : String → Type 0 where
  no_condition : Conditions reg ""
  last_condition : (text : String) → Condition reg text → Conditions reg (" AND " +++ text)
  condition :
      (text rest : String)
      → Condition reg text
      → Conditions reg rest
      → Conditions reg (" AND " +++ text +++ rest)

-- a column of the schema, or none
abbrev pub Ordered : Registry → String → Type 0
Ordered reg column =
    (column ≡ "")
    ⊎ ((resource_type : String) × (named : String) × (get_native_column reg resource_type named
          ≡ some column))

-- A statement on a table of the schema whose WHERE clause is `tenant_id = ?` and, with it, conditions.
pub data ForTenant (reg : Registry) : String → Type 0 where
  counts :
      (resource_type table where_text : String)
      → get_table_name reg resource_type ≡ ok table
      → Conditions reg where_text
      → ForTenant reg ("SELECT COUNT(1) FROM " +++ table +++ " WHERE tenant_id = ? " +++ where_text)
  lists :
      (resource_type table where_text column direction : String)
      → get_table_name reg resource_type ≡ ok table
      → Conditions reg where_text
      → Ordered reg column
      → (direction ≡ "ASC") ⊎ (direction ≡ "DESC")
      → ForTenant reg (
          "SELECT id, doc_json FROM " +++ table +++ " WHERE tenant_id = ? " +++ where_text
          +++ " ORDER BY " +++ column +++ " " +++ direction +++ " LIMIT ? OFFSET ?")
  by_ids :
      (resource_type table : String) (n : ℕ)
      → get_table_name reg resource_type ≡ ok table
      → ForTenant reg (
          "SELECT doc_json FROM "
          +++ table
          +++ " WHERE tenant_id = ? AND id IN ("
          +++ question_marks n
          +++ ")")
  by_id :
      (resource_type table : String)
      → get_table_name reg resource_type ≡ ok table
      → ForTenant reg ("SELECT doc_json FROM " +++ table +++ " WHERE tenant_id = ? AND id = ?")

symbol-if :
    (b : Bool) (one symbol : String) (rest : Option String)
    → mem one symbols ≡ true
    → (rest ≡ some symbol → mem symbol symbols ≡ true)
    → (if b then some one else rest) ≡ some symbol
    → mem symbol symbols ≡ true
symbol-if true one symbol rest single later h =
    let same : one ≡ symbol = cc in subst (λ s. mem s symbols ≡ true) same single
symbol-if false one symbol rest single later h = later h

mem-comparison : (op symbol : String) → comparison op ≡ some symbol → mem symbol symbols ≡ true
unfolding mem
mem-comparison op symbol = symbol-if (op == "eq") _ symbol _ refl (
    symbol-if (op == "neq") _ symbol _ refl (
      symbol-if (op == "gt") _ symbol _ refl (
        symbol-if (op == "gte") _ symbol _ refl (
          symbol-if (op == "lt") _ symbol _ refl (
            symbol-if (op == "lte") _ symbol _ refl
              (symbol-if (op == "like") _ symbol _ refl (λ h. cc)))))))

in_clause-Condition :
    (reg : Registry) (named column : String) (v : Value) (c : String × List Arg)
    → native_column_for_field reg named ≡ some column
    → in_clause column v ≡ some c
    → Condition reg c.0
in_clause-Condition reg named column (arr (cons v vs)) c found h =
    let n = length (values_args (cons v vs)) in
    let same : column +++ " IN (" +++ question_marks n +++ ")" ≡ c.0 = cc in
    subst (Condition reg) same (is_one_of named column n found)
in_clause-Condition reg named column (arr nil) c found h = cc
in_clause-Condition reg named column null c found h = cc
in_clause-Condition reg named column (boolean b) c found h = cc
in_clause-Condition reg named column (num n) c found h = cc
in_clause-Condition reg named column (str s) c found h = cc
in_clause-Condition reg named column (obj fs) c found h = cc

module _ (reg : Registry) (allowed : List String) where
  clause-Condition :
      (f : Filter) (c : String × List Arg) → clause reg allowed f ≡ ok c → Condition reg c.0
  unfolding clause
  clause-Condition f c h = elim (Bool-cases (mem f.field allowed)) [
    | inr refused ↦ absurd (ground arith)
    | inl listed ↦ elim (Option-cases (native_column_for_field reg f.field)) [
      | inl missing ↦ absurd (ground arith)
      | inr (column, found) ↦ elim (Option-cases (comparison (to_lower f.op))) [
        | inr (symbol, simple) ↦
            let given : ok (column +++ symbol, value f.value ∷ []) ≡ ok c =
              rw (listed, found, simple) at h in
            let same : column +++ symbol ≡ c.0 = cc in
            subst (Condition reg) same
              (compares f.field column symbol found (mem-comparison (to_lower f.op) symbol simple))
        | inl other ↦ elim (Bool-cases (to_lower f.op == "in")) [
          | inr unknown ↦ absurd (ground arith)
          | inl is_in ↦ elim (Option-cases (in_clause column f.value)) [
            | inl bad ↦ absurd (ground arith)
            | inr (c', good) ↦
                let given : ok c' ≡ ok c = rw (listed, found, other, is_in, good) at h in
                let same : c' ≡ c = cc in
                subst (λ (x : String × List Arg). Condition reg x.0) same
                  (in_clause-Condition reg f.field column f.value c' found good)
          ]
        ]
      ]
    ]
  ]

  clauses-All :
      (fs : List Filter) (c : List String × List Arg)
      → clauses reg allowed fs ≡ ok c
      → All (Condition reg) c.0
  unfolding clauses
  clauses-All [] c h = let same : [] ≡ c.0 = cc in subst (All (Condition reg)) same tt
  clauses-All (f ∷ fs) c h = elim (Result-cases (clause reg allowed f)) [
    | inr (e, bad) ↦ absurd (ground arith)
    | inl (one, good) ↦ elim (Result-cases (clauses reg allowed fs)) [
      | inr (e, bad) ↦ absurd (ground arith)
      | inl (more, also) ↦
          let given : ok (one.0 ∷ more.0, one.1 ++ more.1) ≡ ok c = rw (good, also) at h in
          let same : one.0 ∷ more.0 ≡ c.0 = cc in
          subst (All (Condition reg)) same (clause-Condition f one good, clauses-All fs more also)
    ]
  ]

  join-Conditions :
      (text : String) (texts : List String)
      → All (Condition reg) (text ∷ texts)
      → Conditions reg (" AND " +++ join (text ∷ texts) " AND ")
  unfolding join
  join-Conditions text [] (h, hs) = last_condition text h
  join-Conditions text (next ∷ texts) (h, hs) = condition text _ h (join-Conditions next texts hs)

  non_empty-Conditions :
      (f : Filter) (fs : List Filter) (c : List String × List Arg)
      → clauses reg allowed (f ∷ fs) ≡ ok c
      → Conditions reg (" AND " +++ join c.0 " AND ")
  unfolding clauses
  non_empty-Conditions f fs c h = elim (Result-cases (clause reg allowed f)) [
    | inr (e, bad) ↦ absurd (ground arith)
    | inl (one, good) ↦ elim (Result-cases (clauses reg allowed fs)) [
      | inr (e, bad) ↦ absurd (ground arith)
      | inl (more, also) ↦
          let given : ok (one.0 ∷ more.0, one.1 ++ more.1) ≡ ok c = rw (good, also) at h in
          let same : one.0 ∷ more.0 ≡ c.0 = cc in
          subst (λ l. Conditions reg (" AND " +++ join l " AND ")) same
            (join-Conditions one.0 more.0 (clause-Condition f one good, clauses-All fs more also))
    ]
  ]

  pub build_where-Conditions :
      (fs : List Filter) (c : String × List Arg)
      → build_where reg allowed fs ≡ ok c
      → Conditions reg c.0
  unfolding build_where
  build_where-Conditions [] c h =
      let same : "" ≡ c.0 = cc in subst (Conditions reg) same no_condition
  build_where-Conditions (f ∷ fs) c h = elim (Result-cases (clauses reg allowed (f ∷ fs))) [
    | inr (e, bad) ↦ absurd (ground arith)
    | inl (made, good) ↦
        let given : ok (" AND " +++ join made.0 " AND ", made.1) ≡ ok c = rw good at h in
        let same : " AND " +++ join made.0 " AND " ≡ c.0 = cc in
        subst (Conditions reg) same (non_empty-Conditions f fs made good)
  ]

either-Ordered :
    (reg : Registry) (resource_type wanted default' : String) (x y : Option String)
    → get_native_column reg resource_type wanted ≡ x
    → get_native_column reg resource_type default' ≡ y
    → Ordered reg
        (elim x [ some column ↦ column | none ↦ elim y [ some column ↦ column | none ↦ "" ] ])
either-Ordered reg resource_type wanted default' (some column) y found h =
    inr (resource_type, wanted, found)
either-Ordered reg resource_type wanted default' none (some column) h found =
    inr (resource_type, default', found)
either-Ordered reg resource_type wanted default' none none h h' = inl refl

pub sort_column-Ordered :
    (a : Adapter) (resource_type : String) (sort : Sort)
    → Ordered a.reg (sort_column a resource_type sort)
unfolding sort_column
sort_column-Ordered a resource_type sort =
    let default' = default_sort_field a resource_type in
    let wanted = if is_empty sort.field then default' else sort.field in
    either-Ordered a.reg resource_type
      (if mem wanted (sortable_fields a.reg resource_type) then wanted else default') default' _ _
      refl refl

pub sort_direction_lem :
    (a : Adapter) (sort : Sort) → (sort_direction a sort ≡ "ASC") ⊎ (sort_direction a sort ≡ "DESC")
sort_direction_lem a sort = elim (Bool-cases (to_upper sort.dir == "ASC")) [
  | inl up ↦ rw up (inl refl)
  | inr down ↦ rw down (inr refl)
]

-- ===== src/Store/Sqlite.antt =====
-- internal/store/sqlite/adapter.go: a query in SQL text with its arguments. The database is not code of
-- this repository: its answers to a statement are a parameter, `SqlDb`.
pub mod Queries
pub mod Where
pub mod Arguments
pub mod Paging
pub mod Statements
use permission_aware_search.Common.Int.{ℤ, pos, negsuc, le_zero, to_ℕ, add_ℕ, lt_ℕ}
use permission_aware_search.Common.{
  ltb, ◌==◌, if◌then◌else◌, ◌>>=◌, Result, ok, err, length, mem, ℕ, ◌*◌, min, max, String, not,
  ◌||◌, Option, none, some, List, [], ◌∷◌, ◌++◌,
}
use permission_aware_search.Strings.{
  ◌+++◌, is_empty, to_lower, to_upper, join, repeat, trim_right_of,
}
use permission_aware_search.Strings.Numbers.{itoa, atoi_or_zero}
use permission_aware_search.Json.{
  Doc, Value, null, boolean, num, str, arr, obj, Values, nil, cons, field,
}
use permission_aware_search.Schema.Registry.{
  get_default_sort_field, get_native_column, native_column_for_field, sortable_fields, Registry,
}
use permission_aware_search.Store.{Filter, Sort, Candidate}

pub data Arg : Type 0 where
  value : Value → Arg
  number : ℤ → Arg

-- A row `id, doc_json`; `doc` is what `json.Unmarshal` makes of the second column.
pub record Row : Type 0 where
  pub id : String
  pub doc : Result Doc

pub record SqlDb : Type 0 where
  pub count : String → List Arg → Result ℕ
  pub rows : String → List Arg → Result (List Row)

pub record Adapter : Type 0 where
  pub db : SqlDb
  pub reg : Registry

-- the comparison operators of `buildWhere`
abbrev pub comparison : String → Option String
comparison op =
    if op == "eq"
    then some " = ?"
    else if op == "neq"
    then some " != ?"
    else if op == "gt"
    then some " > ?"
    else if op == "gte"
    then some " >= ?"
    else if op == "lt"
    then some " < ?"
    else if op == "lte"
    then some " <= ?"
    else if op == "like"
    then some " LIKE ?"
    else none

abbrev pub values_args : Values → List Arg
values_args nil = []
values_args (cons v vs) = value v ∷ values_args vs

abbrev pub question_marks : ℕ → String
question_marks n = trim_right_of "," (repeat "?," n)

-- the clause of operator `in`; `none` unless the value is a list with a member
abbrev pub in_clause : String → Value → Option (String × List Arg)
in_clause column (arr (cons v vs)) = some (
  column +++ " IN (" +++ question_marks (length (values_args (cons v vs))) +++ ")",
  values_args (cons v vs),
)
in_clause column (arr nil) = none
in_clause column null = none
in_clause column (boolean b) = none
in_clause column (num n) = none
in_clause column (str s) = none
in_clause column (obj fs) = none

-- the body of `buildWhere`'s loop
unfoldable pub clause : Registry → List String → Filter → Result (String × List Arg)
unfolding mem native_column_for_field to_lower repeat trim_right_of
clause reg allowed f =
    if not (mem f.field allowed)
    then err ("unsupported filter field: " +++ f.field)
    else elim (native_column_for_field reg f.field) [
      | none ↦ err ("unsupported filter field: " +++ f.field)
      | some column ↦ elim (comparison (to_lower f.op)) [
        | some symbol ↦ ok (column +++ symbol, value f.value ∷ [])
        | none ↦
            if to_lower f.op == "in"
            then elim (in_clause column f.value) [
              | some c ↦ ok c
              | none ↦ err ("invalid in operator value for field " +++ f.field)
            ]
            else err ("unsupported operator: " +++ f.op)
      ]
    ]

unfoldable pub clauses : Registry → List String → List Filter → Result (List String × List Arg)
unfolding clause
clauses reg allowed [] = ok ([], [])
clauses reg allowed (f ∷ filters) = do
  (text, args) ← clause reg allowed f
  (texts, rest) ← clauses reg allowed filters
  ok (text ∷ texts, args ++ rest)

-- `buildWhere`
unfoldable pub build_where : Registry → List String → List Filter → Result (String × List Arg)
unfolding clauses join
build_where reg allowed [] = ok ("", [])
build_where reg allowed (f ∷ filters) = do
  (texts, args) ← clauses reg allowed (f ∷ filters)
  ok (" AND " +++ join texts " AND ", args)

module _ (a : Adapter) where
  -- `defaultSortField`
  unfoldable pub default_sort_field : String → String
  unfolding get_default_sort_field
  default_sort_field resource_type = elim (get_default_sort_field a.reg resource_type) [
    | some f ↦ f
    | none ↦ elim (get_default_sort_field a.reg "order") [ some f ↦ f | none ↦ "" ]
  ]

  -- the column of the ORDER BY clause
  unfoldable pub sort_column : String → Sort → String
  unfolding default_sort_field sortable_fields get_native_column mem
  sort_column resource_type sort =
      let wanted = if is_empty sort.field then default_sort_field resource_type else sort.field in
      let field =
        if mem wanted (sortable_fields a.reg resource_type)
        then wanted
        else default_sort_field resource_type in
      elim (get_native_column a.reg resource_type field) [
        | some column ↦ column
        | none ↦ elim (get_native_column a.reg resource_type (default_sort_field resource_type)) [
          | some column ↦ column
          | none ↦ ""
        ]
      ]

  abbrev pub sort_direction : Sort → String
  sort_direction sort = if to_upper sort.dir == "ASC" then "ASC" else "DESC"

-- the page limit that the adapter works with
unfoldable pub page_limit : ℤ → ℕ → ℕ
page_limit limit max_candidates =
    if le_zero limit || ltb max_candidates (to_ℕ limit) then min 20 max_candidates else to_ℕ limit

-- how many rows one query may return
unfoldable pub window : ℤ → ℕ → ℕ
unfolding page_limit
window limit max_candidates =
    min max_candidates (max (page_limit limit max_candidates * 5) (page_limit limit max_candidates))

unfoldable pub offset_of : String → ℤ
unfolding atoi_or_zero
offset_of cursor = if is_empty cursor then pos 0 else atoi_or_zero cursor

-- the rows scanned into candidates
unfoldable pub scan_rows : List Row → Result (List Candidate)
scan_rows [] = ok []
scan_rows (row ∷ rows) = do
  doc ← row.doc
  rest ← scan_rows rows
  ok (record { id = row.id; doc = doc } ∷ rest)

unfoldable pub next_cursor : ℤ → ℕ → ℕ → String
unfolding itoa
next_cursor offset found total =
    let next = add_ℕ offset found in if lt_ℕ next total then itoa next else ""

abbrev pub count_sql : String → String → String
count_sql table where_text =
    "SELECT COUNT(1) FROM " +++ table +++ " WHERE tenant_id = ? " +++ where_text

abbrev pub query_sql : String → String → String → String → String
query_sql table where_text column direction =
    "SELECT id, doc_json FROM " +++ table +++ " WHERE tenant_id = ? " +++ where_text
    +++ " ORDER BY " +++ column +++ " " +++ direction +++ " LIMIT ? OFFSET ?"

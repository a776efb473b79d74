-- ===== src/Store/Sqlite/Queries.antt =====
-- internal/store/sqlite/adapter.go: the three methods of the adapter.
use permission_aware_search.Common.Int.{pos}
use permission_aware_search.Common.{
  ◌>>=◌, Result, ok, length, ℕ, String, Option, none, some, List, [], ◌∷◌, ◌++◌,
}
use permission_aware_search.Strings.{◌+++◌, to_upper, repeat, trim_right_of}
use permission_aware_search.Json.{Doc, str}
use permission_aware_search.Schema.Registry.{get_table_name, filterable_fields}
use permission_aware_search.Store.{QueryDsl, SearchResult, DataStore}
use permission_aware_search.Store.Sqlite.{
  question_marks, build_where, sort_column, sort_direction, window, offset_of, scan_rows,
  next_cursor, count_sql, query_sql, Arg, value, number, Row, Adapter,
}

abbrev pub tenant_arg : String → Arg
tenant_arg tenant_id = value (str tenant_id)

-- the statements of `Search` for a table, once the WHERE clause is built
unfoldable pub run_search :
    Adapter → String → String → String → QueryDsl → ℕ → String → List Arg → Result SearchResult
unfolding sort_column window offset_of scan_rows next_cursor to_upper
run_search a table tenant_id resource_type query max_candidates where_text where_args = do
  let args = tenant_arg tenant_id ∷ where_args
  let offset = offset_of query.page.cursor
  let column = sort_column a resource_type query.sort
  total ← a.db.count (count_sql table where_text) args
  found ←
      a.db.rows (query_sql table where_text column (sort_direction a query.sort))
        (args ++ number (pos (window query.page.limit max_candidates)) ∷ number offset ∷ [])
  candidates ← scan_rows found
  ok (record {
    candidates = candidates;
    total = total;
    next_cursor = next_cursor offset (length candidates) total;
  })

-- `Search`
unfoldable pub search_rows : Adapter → String → String → QueryDsl → ℕ → Result SearchResult
unfolding get_table_name filterable_fields build_where run_search
search_rows a tenant_id resource_type query max_candidates = do
  table ← get_table_name a.reg resource_type
  (where_text, where_args) ← build_where a.reg (filterable_fields a.reg resource_type) query.filters
  run_search a table tenant_id resource_type query max_candidates where_text where_args

-- the documents of the rows
unfoldable pub scan_docs : List Row → Result (List Doc)
scan_docs [] = ok []
scan_docs (row ∷ rows) = do doc ← row.doc; rest ← scan_docs rows; ok (doc ∷ rest)

abbrev pub ids_args : List String → List Arg
ids_args [] = []
ids_args (id ∷ ids) = value (str id) ∷ ids_args ids

-- `FetchByIDs`
unfoldable pub fetch_by_ids : Adapter → String → String → List String → Result (List Doc)
unfolding get_table_name scan_docs repeat trim_right_of
fetch_by_ids a tenant_id resource_type [] = ok []
fetch_by_ids a tenant_id resource_type (id ∷ ids) = do
  table ← get_table_name a.reg resource_type
  found ←
      a.db.rows
        ("SELECT doc_json FROM "
          +++ table
          +++ " WHERE tenant_id = ? AND id IN ("
          +++ question_marks (length (id ∷ ids))
          +++ ")")
        (tenant_arg tenant_id ∷ ids_args (id ∷ ids))
  scan_docs found

-- `QueryRowContext(…).Scan`: the first row, and none where there is none
abbrev pub first_row : List Row → Result (Option Doc)
first_row [] = ok none
first_row (row ∷ rows) = do doc ← row.doc; ok (some doc)

-- `GetByID`
unfoldable pub get_by_id : Adapter → String → String → String → Result (Option Doc)
unfolding get_table_name
get_by_id a tenant_id resource_type id = do
  table ← get_table_name a.reg resource_type
  found ←
      a.db.rows ("SELECT doc_json FROM " +++ table +++ " WHERE tenant_id = ? AND id = ?")
        (tenant_arg tenant_id ∷ value (str id) ∷ [])
  first_row found

abbrev pub sqlite_adapter : Adapter → DataStore
sqlite_adapter a = record {
  search = search_rows a;
  fetch_by_ids = fetch_by_ids a;
  get_by_id = get_by_id a;
}

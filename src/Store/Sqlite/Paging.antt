-- ===== src/Store/Sqlite/Paging.antt =====
-- internal/store/sqlite/adapter.go: the window of a query and the cursor, and the tenant that every
-- statement is for.
use permission_aware_search.Common.Int.{ℤ, pos, negsuc, le_zero, to_ℕ}
use permission_aware_search.Common.{
  ltb, if◌then◌else◌, ◌>>=◌, Bool-cases, Result-cases, >>=-ext, Result, ok, length, ℕ, ◌+◌, ◌≤◌,
  ◌<◌, String, ◌≡◌, refl, ap, ◌∙◌, ◌⊎◌, inl, inr, true, List, [], ◌∷◌, arith,
}
use permission_aware_search.Strings.Numbers.{itoa, max_int, atoi_or_zero}
use permission_aware_search.Schema.Registry.{get_table_name, filterable_fields, Registry}
use permission_aware_search.Store.{QueryDsl}
use permission_aware_search.Store.Sqlite.{
  build_where, page_limit, window, offset_of, scan_rows, next_cursor, Arg, Row, SqlDb, Adapter,
}
use permission_aware_search.Store.Sqlite.Queries.{
  tenant_arg, run_search, search_rows, scan_docs, fetch_by_ids, first_row, get_by_id,
}
use permission_aware_search.Strings.Decimal.{atoi_or_zero-itoa}
use permission_aware_search.Store.Sqlite.Statements.{
  build_where-Conditions, sort_column-Ordered, sort_direction_lem, Conditions, ForTenant, counts,
  lists, by_ids, by_id,
}

-- A query asks for at most the maximum of candidates, for at least one where the maximum is not 0, and for
-- at least the page limit that it was given, where that is positive and at most the maximum.
pub window_bounds :
    (limit : ℤ) (max_candidates : ℕ)
    → (window limit max_candidates ≤ max_candidates)
      × ((max_candidates ≡ 0) ⊎ (1 ≤ window limit max_candidates))
      × ((le_zero limit ≡ true)
          ⊎ (max_candidates < to_ℕ limit)
          ⊎ (to_ℕ limit ≤ window limit max_candidates))
unfolding window page_limit
window_bounds (pos n) max_candidates = (ground arith, ground arith, ground arith)
window_bounds (negsuc n) max_candidates = (ground arith, ground arith, inl refl)

offset_of_lem : (cursor : String) → offset_of cursor ≡ atoi_or_zero cursor
unfolding offset_of atoi_or_zero
offset_of_lem String.[] = refl
offset_of_lem (String.◌∷◌ c s) = refl

-- The cursor of a page is read back as the offset behind the rows of the page where rows are left, and as 0
-- where none are, for an offset that an `int` can hold.
pub offset_of-next_cursor :
    (offset found total : ℕ)
    → offset + found ≤ max_int
    → offset_of (next_cursor (pos offset) found total)
      ≡ (if ltb (offset + found) total then pos (offset + found) else pos 0)
unfolding next_cursor
offset_of-next_cursor offset found total h = elim (Bool-cases (ltb (offset + found) total)) [
  | inl more ↦
      rw (more, offset_of_lem (itoa (pos (offset + found)))) (atoi_or_zero-itoa (offset + found) h)
  | inr last ↦ rw (last, offset_of_lem "") (unfold atoi_or_zero in refl)
]

>>=-both {ℓ κ} :
    {A : Type ℓ} {B : Type κ} {m n : Result A} {f g : A → Result B}
    → m ≡ n
    → ((a : A) → f a ≡ g a)
    → (m >>= f) ≡ (n >>= g)
>>=-both {m} {f} {g} e h = >>=-ext m h ∙ ap (λ r. r >>= g) e

-- The databases answer alike to every statement on a table of the schema that asks, in `tenant_id = ?` and
-- conditions joined to it by AND, for rows of this tenant.
pub record SameFor (reg : Registry) (tenant_id : String) (x y : SqlDb) : Type 0 where
  pub same_count :
      (sql : String) (args : List Arg)
      → ForTenant reg sql
      → x.count sql (tenant_arg tenant_id ∷ args) ≡ y.count sql (tenant_arg tenant_id ∷ args)
  pub same_rows :
      (sql : String) (args : List Arg)
      → ForTenant reg sql
      → x.rows sql (tenant_arg tenant_id ∷ args) ≡ y.rows sql (tenant_arg tenant_id ∷ args)

module _ (reg : Registry) (x y : SqlDb) (tenant_id resource_type : String)
    (same : SameFor reg tenant_id x y) where
  abbrev on : SqlDb → Adapter
  on db = record { db = db; reg = reg }

  run_search-same :
      (table : String) (query : QueryDsl) (max_candidates : ℕ) (text : String) (args : List Arg)
      → get_table_name reg resource_type ≡ ok table
      → Conditions reg text
      → run_search (on x) table tenant_id resource_type query max_candidates text args
        ≡ run_search (on y) table tenant_id resource_type query max_candidates text args
  unfolding run_search
  run_search-same table query max_candidates text args named conditions =
      let column = sort_column-Ordered (on x) resource_type query.sort in
      let direction = sort_direction_lem (on x) query.sort in
      let counted = counts resource_type table text named conditions in
      let listed = lists resource_type table text _ _ named conditions column direction in
      >>=-both (same.same_count _ args counted) (λ total.
        ap
          (λ (r : Result (List Row)). r >>= λ found. do
            candidates ← scan_rows found
            ok (record {
              candidates = candidates;
              total = total;
              next_cursor = next_cursor (offset_of query.page.cursor) (length candidates) total;
            }))
          (same.same_rows _ _ listed))

  search_rows-same :
      (query : QueryDsl) (max_candidates : ℕ)
      → search_rows (on x) tenant_id resource_type query max_candidates
        ≡ search_rows (on y) tenant_id resource_type query max_candidates
  unfolding search_rows
  search_rows-same query max_candidates =
      let allowed = filterable_fields reg resource_type in
      elim (Result-cases (get_table_name reg resource_type)) [
        | inr (e, unknown) ↦ rw unknown refl
        | inl (table, named) ↦ elim (Result-cases (build_where reg allowed query.filters)) [
          | inr (e, bad) ↦ rw (named, bad) refl
          | inl (c, built) ↦
              rw (named, built)
                (run_search-same table query max_candidates c.0 c.1 named
                  (build_where-Conditions reg allowed query.filters c built))
        ]
      ]

  fetch_by_ids-same :
      (ids : List String)
      → fetch_by_ids (on x) tenant_id resource_type ids
        ≡ fetch_by_ids (on y) tenant_id resource_type ids
  unfolding fetch_by_ids
  fetch_by_ids-same [] = refl
  fetch_by_ids-same (id ∷ ids) = elim (Result-cases (get_table_name reg resource_type)) [
    | inr (e, unknown) ↦ rw unknown refl
    | inl (table, named) ↦
        let asked = by_ids resource_type table (length (id ∷ ids)) named in
        rw named (ap (λ (r : Result (List Row)). r >>= scan_docs) (same.same_rows _ _ asked))
  ]

  get_by_id-same :
      (id : String)
      → get_by_id (on x) tenant_id resource_type id ≡ get_by_id (on y) tenant_id resource_type id
  unfolding get_by_id
  get_by_id-same id = elim (Result-cases (get_table_name reg resource_type)) [
    | inr (e, unknown) ↦ rw unknown refl
    | inl (table, named) ↦
        let asked = by_id resource_type table named in
        rw named (ap (λ (r : Result (List Row)). r >>= first_row) (same.same_rows _ _ asked))
  ]

  -- No operation of the adapter asks for anything but rows of its tenant: over two databases that answer
  -- alike to every statement whose WHERE clause is `tenant_id = ?`, for the tenant, joined by AND to any
  -- comparisons of columns of the schema or of the id with arguments, `Search`, `FetchByIDs` and `GetByID` do
  -- the same.
  pub adapter_isolates :
      (query : QueryDsl) (max_candidates : ℕ) (ids : List String) (id : String)
      → (search_rows (on x) tenant_id resource_type query max_candidates
          ≡ search_rows (on y) tenant_id resource_type query max_candidates)
        × (fetch_by_ids (on x) tenant_id resource_type ids
            ≡ fetch_by_ids (on y) tenant_id resource_type ids)
        × (get_by_id (on x) tenant_id resource_type id
            ≡ get_by_id (on y) tenant_id resource_type id)
  adapter_isolates query max_candidates ids id =
      (search_rows-same query max_candidates, fetch_by_ids-same ids, get_by_id-same id)

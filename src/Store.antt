-- ===== src/Store.antt =====
-- internal/store/types.go: the query language of the service and the interface of a data store.
pub mod Sqlite
pub mod Mongo
use permission_aware_search.Common.Int.{ℤ}
use permission_aware_search.Common.{Result, ℕ, String, Option, List}
use permission_aware_search.Json.{Doc, Value}

pub record Filter : Type 0 where
  pub field : String
  pub op : String
  pub value : Value

pub record Sort : Type 0 where
  pub field : String
  pub dir : String

pub record Page : Type 0 where
  pub limit : ℤ
  pub cursor : String

pub record QueryDsl : Type 0 where
  pub contract_version : String
  pub intent_category : String
  pub filters : List Filter
  pub sort : Sort
  pub page : Page

pub record Candidate : Type 0 where
  pub id : String
  pub doc : Doc

pub record SearchResult : Type 0 where
  pub candidates : List Candidate
  pub total : ℕ
  pub next_cursor : String

-- `DataStore`, over what the store holds at the time of a call
pub record DataStore : Type 0 where
  pub search : String → String → QueryDsl → ℕ → Result SearchResult
  pub fetch_by_ids : String → String → List String → Result (List Doc)
  pub get_by_id : String → String → String → Result (Option Doc)

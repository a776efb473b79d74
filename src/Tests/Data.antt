-- ===== src/Tests/Data.antt =====
-- Small documents, rules, grants and a store, which the tests share.
use permission_aware_search.Common.Int.{pos}
use permission_aware_search.Common.{ok, ℕ, false, none, some, [], ◌∷◌}
use permission_aware_search.Json.{Doc, str}
use permission_aware_search.Policy.{
  new_sqlite_engine, evaluate, explain, Subject, AbacRule, PolicyDb, SqliteEngine,
}
use permission_aware_search.Store.{QueryDsl, SearchResult, DataStore}
use permission_aware_search.Search.{Engine, SearchResponse, Service}

abbrev pub alice : Subject
alice = record {
  user_id = "alice";
  tenant_id = "tenant-a";
  roles = "sales_rep" ∷ [];
  attributes = ("region", "west") ∷ [];
}

abbrev pub west_order : Doc
west_order = ("id", str "ord-1") ∷ ("tenant_id", str "tenant-a") ∷ ("region", str "west") ∷ []

abbrev pub east_order : Doc
east_order = ("id", str "ord-2") ∷ ("tenant_id", str "tenant-a") ∷ ("region", str "east") ∷ []

abbrev pub same_region : AbacRule
same_region = record {
  effect = "allow";
  subject_attr = "region";
  resource_attr = "region";
  op = "equals";
  value = "__MATCH_RESOURCE__";
}

abbrev pub other_region_denied : AbacRule
other_region_denied = record same_region { effect = "deny"; op = "not_equals" }

-- no grants, and the two rules
abbrev pub region_db : PolicyDb
region_db = record {
  grant_rows = λ tenant action resource_type ids. ok [];
  rule_rows = λ tenant action resource_type. ok (same_region ∷ other_region_denied ∷ []);
}

abbrev pub region_engine : SqliteEngine
region_engine = new_sqlite_engine region_db

-- the policy engine as the search service sees it, at one time
abbrev pub engine_at : ℕ → Engine SqliteEngine
engine_at now = record { evaluate = evaluate now; explain = explain now }

abbrev pub two_orders : SearchResult
two_orders = record {
  candidates =
      record { id = "ord-1"; doc = west_order } ∷ record { id = "ord-2"; doc = east_order } ∷ [];
  total = 2;
  next_cursor = "";
}

abbrev pub two_order_store : DataStore
two_order_store = record {
  search = λ tenant resource_type query most. ok two_orders;
  fetch_by_ids = λ tenant resource_type ids. ok (west_order ∷ []);
  get_by_id = λ tenant resource_type id. ok (some west_order);
}

abbrev pub service : Service SqliteEngine
service = record {
  store = two_order_store;
  policy = engine_at 5;
  registry = none;
  max_candidate_window = 500;
  max_placeholder_count = 3;
  request_token = λ resource_type query subject. "token";
}

abbrev pub everything : QueryDsl
everything = record {
  contract_version = "";
  intent_category = "";
  filters = [];
  sort = record { field = ""; dir = "" };
  page = record { limit = pos 10; cursor = "" };
}

abbrev pub shown_and_hidden : SearchResponse
shown_and_hidden = record {
  items = west_order ∷ [];
  authorized_count = 1;
  hidden_count = 1;
  result_reason_code = "VISIBLE_RESULTS";
  visibility_notice = "Matching records found and visible for your current access scope.";
  suggested_next_actions = [];
  redacted_placeholders =
      record {
        resource_id = "ord-2";
        kind = "order";
        reason_code = "INSUFFICIENT_PERMISSION";
        request_access_token = "token";
      }
      ∷ [];
  visibility_mode = "REDACTED_PARTIAL";
  contract_version = "v2";
  next_cursor = "";
  scope_capped_candidates = false;
}

-- ===== src/Store/Mongo.antt =====
-- internal/store/mongo/adapter.go: a stub that refuses every call.
use permission_aware_search.Store.{DataStore}
use permission_aware_search.Common.{err}

abbrev pub mongo_adapter : DataStore
mongo_adapter = record {
  search =
      λ tenant_id resource_type query max_candidates. err "mongo adapter not implemented in demo";
  fetch_by_ids = λ tenant_id resource_type ids. err "mongo adapter not implemented in demo";
  get_by_id = λ tenant_id resource_type id. err "mongo adapter not implemented in demo";
}

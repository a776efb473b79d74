-- ===== src/Http/Handlers/Answers.antt =====
-- What the handlers tell a client.
use permission_aware_search.Common.{
  Bool-cases, Result, ok, err, ℕ, String, ◌≡◌, refl, ◌⊎◌, inl, inr, true, false, none, some, [],
  ◌∷◌, ◌++◌,
}
use permission_aware_search.Http.{
  write_json, Server, ServerState, error_body, search_body, Response,
}
use permission_aware_search.Http.Flow.{search_flow}
use permission_aware_search.Http.Handlers.{after_search, handle_search, handle_detail}
use permission_aware_search.Observability.{record_search, Metrics}
use permission_aware_search.Policy.{Subject, Decision}
use permission_aware_search.Search.{normalize_query, validate_query, SearchResponse}
use permission_aware_search.Search.Filtering.{search, detail}
use permission_aware_search.Search.Guarantees.{search_total}
use permission_aware_search.Store.{QueryDsl, SearchResult, DataStore}
use permission_aware_search.Json.{Doc}
use permission_aware_search.Strings.{contains}

-- what a client is told of the answer of a search, and what is recorded
abbrev pub Told :
    {S : Type 0}
    → String
    → ℕ
    → Metrics
    → Result SearchResponse × S
    → Response × ServerState S
    → Type 0
Told trace_id duration metrics (answer, engine') (response, state') =
    (state'.engine ≡ engine')
    × (((resp : SearchResponse) × (answer ≡ ok resp)
          × (response ≡ write_json 200 (search_body resp trace_id search_flow))
          × (state'.metrics ≡ record {
            search_latency = metrics.search_latency ++ duration ∷ [];
            hidden_counts = metrics.hidden_counts ++ resp.hidden_count ∷ [];
          }))
        ⊎ ((e : String) × (answer ≡ err e)
            × (((contains e "FIELD_NOT_ALLOWED" ≡ true)
                  × (response ≡ write_json 400 (error_body e)))
                ⊎ ((contains e "FIELD_NOT_ALLOWED" ≡ false)
                    × (response ≡ write_json 500 (error_body e))))
            × (state'.metrics ≡ metrics)))

after_search-Told :
    {S : Type 0} (server : Server S) (subject : Subject) (trace_id : String) (duration : ℕ)
    (metrics : Metrics) (a : Result SearchResponse × S)
    → Told trace_id duration metrics a (after_search server subject trace_id duration metrics a)
unfolding record_search
after_search-Told server subject trace_id duration metrics (ok resp, s) =
    (refl, inl (resp, refl, refl, refl))
after_search-Told server subject trace_id duration metrics (err e, s) =
    elim (Bool-cases (contains e "FIELD_NOT_ALLOWED")) [
      | inl named ↦ (refl, inr (e, refl, inl (named, rw named refl), refl))
      | inr other ↦ (refl, inr (e, refl, inr (other, rw other refl), refl))
    ]

-- An answer of the search is told with a status of 200 and recorded, its duration and its count of hidden
-- documents behind those before it; an error is told as it is and not recorded, with a status of 400 if its
-- text has FIELD_NOT_ALLOWED in it and of 500 if not. The state of the engine is kept in every case.
pub handle_search-Told :
    {S : Type 0} (server : Server S) (subject : Subject) (resource_type : String) (q : QueryDsl)
    (trace_id : String) (duration : ℕ) (state : ServerState S)
    → Told trace_id duration state.metrics
        (search server.service subject resource_type q state.engine)
        (handle_search server subject resource_type (some q) trace_id duration state)
unfolding handle_search
handle_search-Told server subject resource_type q trace_id duration state =
    after_search-Told server subject trace_id duration state.metrics
      (search server.service subject resource_type q state.engine)

after_search_answers :
    {S : Type 0} (server : Server S) (subject : Subject) (trace_id : String) (duration : ℕ)
    (metrics : Metrics) (a : Result SearchResponse × S) (resp : SearchResponse)
    → a.0 ≡ ok resp
    → (after_search server subject trace_id duration metrics a).0.status ≡ 200
after_search_answers server subject trace_id duration metrics (ok r, s) resp found = refl
after_search_answers server subject trace_id duration metrics (err e, s) resp found = cc

-- Wherever the query is valid, the store answers and the engine answers whatever it is asked, the search is
-- answered with a status of 200.
pub handle_search_answers :
    {S : Type 0} (server : Server S) (subject : Subject) (resource_type : String) (q : QueryDsl)
    (trace_id : String) (duration : ℕ) (state : ServerState S) (res : SearchResult)
    → ((doc : Doc) (s : S)
        → (d : Decision) × ((server.service.policy.evaluate subject "view" resource_type doc s).0
            ≡ ok d))
    → validate_query server.service.registry resource_type
        (normalize_query server.service.registry resource_type q)
      ≡ ok tt
    → server.service.store.search subject.tenant_id resource_type
        (normalize_query server.service.registry resource_type q)
        server.service.max_candidate_window
      ≡ ok res
    → (handle_search server subject resource_type (some q) trace_id duration state).0.status ≡ 200
unfolding handle_search
handle_search_answers server subject resource_type q trace_id duration state res answers valid
      stored =
    let (resp, found) =
      search_total server.service subject resource_type q state.engine res answers valid stored in
    after_search_answers server subject trace_id duration state.metrics
      (search server.service subject resource_type q state.engine) resp found

abbrev pub with_store : {S : Type 0} → DataStore → Server S → Server S
with_store store server = record server { service = record (server.service) { store = store } }

-- A client cannot tell a document that the engine refuses from one that does not exist: whatever the store,
-- the response is the one that a store without the document gets.
pub handle_detail_hides :
    {S : Type 0} (server : Server S) (subject : Subject) (resource_type id : String)
    (state : ServerState S) (store : DataStore) (doc : Doc) (d : Decision)
    → server.service.store.get_by_id subject.tenant_id resource_type id ≡ ok (some doc)
    → (server.service.policy.evaluate subject "view" resource_type doc state.engine).0 ≡ ok d
    → d.allowed ≡ false
    → store.get_by_id subject.tenant_id resource_type id ≡ ok none
    → (handle_detail server subject resource_type id state).0
      ≡ (handle_detail (with_store store server) subject resource_type id state).0
unfolding handle_detail detail
handle_detail_hides server subject resource_type id state store doc d there answered refused
      missing =
    rw (there, answered, refused, missing) refl

-- ===== src/Tests/Search.antt =====
-- internal/search at concrete inputs.
use permission_aware_search.Cache
use permission_aware_search.Common.{
  ok, length, take, All, ℕ, ◌≤◌, min, String, ◌≡◌, refl, ◌⊎◌, true, some, List, [], ◌∷◌,
}
use permission_aware_search.Json.{Doc}
use permission_aware_search.Policy.{match_rule, cache_key, evaluate, Decision}
use permission_aware_search.Store.{SearchResult}
use permission_aware_search.Search.{normalize_query}
use permission_aware_search.Search.Filtering.{placeholders, response_of, search, detail}
use permission_aware_search.Search.Visibility.{Shown, Hidden, Sifts}
use permission_aware_search.Search.Guarantees.{
  search_shows_allowed, search_counts, detail_shows_allowed,
}
use permission_aware_search.Tests.Data.{
  alice, west_order, region_engine, engine_at, two_orders, service, everything, shown_and_hidden,
}
use permission_aware_search.Search.Reasons.{Reason, search-Reason}
use permission_aware_search.Search.Responses.{resource_ids}

run : (search service alice "order" everything region_engine).0 ≡ ok shown_and_hidden
unfolding search evaluate Cache.get Cache.set cache_key placeholders match_rule response_of
run = refl

search_shows_allowed_example :
    (res : SearchResult) × (ok two_orders ≡ ok res)
    × All (Shown (engine_at 5) alice "order" res.candidates) (west_order ∷ [])
    × All
        (λ p. Hidden (engine_at 5) alice "order" res.candidates p.resource_id)
        shown_and_hidden.redacted_placeholders
search_shows_allowed_example =
    search_shows_allowed service alice "order" everything region_engine shown_and_hidden run

search_counts_example :
    (res : SearchResult) × (ok two_orders ≡ ok res)
    × (◌≡◌ {A = ℕ} 1 1)
    × (1 ≤ 10)
    × (◌≡◌ {A = ℕ} 1 (min 1 3))
    × (2 ≤ length res.candidates)
    × ((◌≡◌ {A = ℕ} 1 10) ⊎ (2 ≡ length res.candidates))
    × ((docs : List Doc) × (ids : List String) × Sifts service.policy alice "order" res.candidates
          docs ids
        × (shown_and_hidden.items ≡ take 10 docs)
        × (1 ≡ length ids)
        × (resource_ids shown_and_hidden.redacted_placeholders ≡ take (min (length ids) 3) ids))
unfolding normalize_query
search_counts_example =
    search_counts service alice "order" everything region_engine shown_and_hidden run

search-Reason_example :
    (res : SearchResult) × (ok two_orders ≡ ok res)
    × Reason res.total (length res.candidates) 1 1 "VISIBLE_RESULTS"
unfolding normalize_query
search-Reason_example =
    search-Reason service alice "order" everything region_engine shown_and_hidden run

detail_run : (detail service alice "order" "ord-1" region_engine).0 ≡ ok (some west_order)
unfolding detail evaluate Cache.get Cache.set cache_key match_rule
detail_run = refl

detail_shows_allowed_example :
    (ok (some west_order) ≡ ok (some west_order))
    × ((d : Decision) × ((evaluate 5 alice "view" "order" west_order region_engine).0 ≡ ok d)
        × (d.allowed ≡ true))
detail_shows_allowed_example =
    detail_shows_allowed service alice "order" "ord-1" region_engine west_order detail_run

-- ===== src/Search/Filtering.antt =====
-- internal/search/service.go: `Search`, `Detail` and `Explain`.
use permission_aware_search.Common.Int.{ℤ, le_zero, to_ℕ}
use permission_aware_search.Common.{
  ltb, if◌then◌else◌, ◌>>=◌, Result, ok, err, length, take, ℕ, zero, suc, ◌-◌, min, String, Option,
  none, some, List, [], ◌∷◌,
}
use permission_aware_search.Json.{Doc, deep_copy_map}
use permission_aware_search.Store.{QueryDsl, Candidate, SearchResult}
use permission_aware_search.Policy.{Subject, Decision}
use permission_aware_search.Search.{
  normalize_query, validate_query, derive_result_reason, keep_candidate, Engine,
  RedactedPlaceholder, SearchResponse, Service, Sorted,
}

module _ {S : Type 0} (engine : Engine S) (subject : Subject) (resource_type : String) where
  -- What the rest of the loop makes of a decision; the first error ends it.
  abbrev pub after_decision :
      Candidate → (S → Result Sorted × S) → Result Decision × S → Result Sorted × S
  after_decision c rest (err e, s) = (err e, s)
  after_decision c rest (ok d, s) =
      let (sorted, s') = rest s in ((sorted >>= λ r. ok (keep_candidate c d r)), s')

  -- the loop over the candidates
  unfoldable pub filter_candidates : List Candidate → S → Result Sorted × S
  unfolding deep_copy_map
  filter_candidates [] s = (ok (record { allowed = []; hidden_ids = [] }), s)
  filter_candidates (c ∷ candidates) s =
      after_decision c (filter_candidates candidates)
        (engine.evaluate subject "view" resource_type c.doc s)

-- The loop over `i < n` that reads `hiddenIDs[i]`; `none` where an index is out of range.
unfoldable pub placeholders :
    (String → RedactedPlaceholder) → ℕ → List String → Option (List RedactedPlaceholder)
placeholders make zero ids = some []
placeholders make (suc n) [] = none
placeholders make (suc n) (id ∷ ids) = elim (placeholders make n ids) [
  | none ↦ none
  | some rest ↦ some (make id ∷ rest)
]

abbrev pub effective_limit : ℤ → ℕ
effective_limit limit = if le_zero limit then 20 else to_ℕ limit

abbrev pub index_out_of_range : String
index_out_of_range = "panic: index out of range"

module _ {S : Type 0} (service : Service S) (subject : Subject) (resource_type : String) where
  abbrev pub make_placeholder : QueryDsl → String → RedactedPlaceholder
  make_placeholder q id = record {
    resource_id = id;
    kind = resource_type;
    reason_code = "INSUFFICIENT_PERMISSION";
    request_access_token = service.request_token resource_type q subject;
  }

  -- the response, once the placeholders are there
  unfoldable pub response_of :
      QueryDsl → SearchResult → Sorted → List RedactedPlaceholder → SearchResponse
  unfolding derive_result_reason
  response_of q res sorted redacted =
      let shown = take (effective_limit q.page.limit) sorted.allowed in
      let hidden = length res.candidates - length sorted.allowed in
      let capped = ltb (length res.candidates) res.total in
      let (code, notice, actions) =
        derive_result_reason res.total (length res.candidates) (length shown) hidden capped in
      record {
        items = shown;
        authorized_count = length shown;
        hidden_count = hidden;
        result_reason_code = code;
        visibility_notice = notice;
        suggested_next_actions = actions;
        redacted_placeholders = redacted;
        visibility_mode = "REDACTED_PARTIAL";
        contract_version = q.contract_version;
        next_cursor = res.next_cursor;
        scope_capped_candidates = capped;
      }

  -- the rest of `Search`, behind the loop
  unfoldable pub compose_response : QueryDsl → SearchResult → Sorted → Result SearchResponse
  compose_response q res sorted =
      let hidden = length res.candidates - length sorted.allowed in
      elim (placeholders (make_placeholder q) (min hidden service.max_placeholder_count)
        sorted.hidden_ids) [
          | none ↦ err index_out_of_range
          | some redacted ↦ ok (response_of q res sorted redacted)
        ]

  abbrev pub prepared : QueryDsl → Result SearchResult
  prepared q = validate_query service.registry resource_type q >>= λ _.
      service.store.search subject.tenant_id resource_type q service.max_candidate_window

  abbrev pub after_store : QueryDsl → Result SearchResult → S → Result SearchResponse × S
  after_store q (err e) s = (err e, s)
  after_store q (ok res) s =
      let (sorted, s') = filter_candidates service.policy subject resource_type res.candidates s in
      ((sorted >>= λ r. compose_response q res r), s')

  -- `Search`
  unfoldable pub search : QueryDsl → S → Result SearchResponse × S
  unfolding normalize_query validate_query filter_candidates compose_response
  search query s =
      let q = normalize_query service.registry resource_type query in after_store q (prepared q) s

  abbrev pub after_fetch : Result (Option Doc) → S → Result (Option Doc) × S
  after_fetch (err e) s = (err e, s)
  after_fetch (ok none) s = (ok none, s)
  after_fetch (ok (some resource)) s =
      let (decision, s') = service.policy.evaluate subject "view" resource_type resource s in
      ((decision >>= λ d. ok (if d.allowed then some resource else none)), s')

  -- `Detail`: `none` where its second result is false
  unfoldable pub detail : String → S → Result (Option Doc) × S
  detail id s = after_fetch (service.store.get_by_id subject.tenant_id resource_type id) s

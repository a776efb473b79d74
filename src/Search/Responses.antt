-- ===== src/Search/Responses.antt =====
-- The response that `Search` composes: its counts, its placeholders and its reason.
use permission_aware_search.Common.{
  ltb, Result-cases, ok, length, take, ℕ, zero, suc, ◌+◌, ◌-◌, ◌≤◌, min, String, ◌≡◌, refl, ap,
  subst, inl, inr, some, List, [], ◌∷◌, arith,
}
use permission_aware_search.Store.{QueryDsl, SearchResult}
use permission_aware_search.Policy.{Subject}
use permission_aware_search.Search.{
  normalize_query, validate_query, derive_result_reason, RedactedPlaceholder, SearchResponse,
  Service, Sorted,
}
use permission_aware_search.Search.Filtering.{
  filter_candidates, placeholders, effective_limit, make_placeholder, response_of, compose_response,
  prepared, search,
}
use permission_aware_search.Search.Visibility.{filter_candidates-Sorts}

abbrev pub resource_ids : List RedactedPlaceholder → List String
resource_ids [] = []
resource_ids (p ∷ ps) = p.resource_id ∷ resource_ids ps

pub length-resource_ids : (ps : List RedactedPlaceholder) → length ps ≡ length (resource_ids ps)
length-resource_ids [] = refl
length-resource_ids (p ∷ ps) = ap suc (length-resource_ids ps)

module _ (make : String → RedactedPlaceholder)
    (keeps : (id : String) → (make id).resource_id ≡ id) where
  -- Enough ids: no index is out of range, and the placeholders stand for the first ids.
  placeholders_total :
      (n : ℕ) (ids : List String)
      → n ≤ length ids
      → (ps : List RedactedPlaceholder) × (placeholders make n ids ≡ some ps)
        × (resource_ids ps ≡ take n ids)
  unfolding placeholders
  placeholders_total zero ids h = ([], refl, refl)
  placeholders_total (suc n) [] h = absurd (omega arith)
  placeholders_total (suc n) (id ∷ ids) h =
      let (ps, made, same) = placeholders_total n ids (omega arith) in
      (make id ∷ ps, rw made, cc (keeps id, same))

module _ {S : Type 0} (service : Service S) (subject : Subject) (resource_type : String) where
  -- What a response says of the candidates that the policy has sorted.
  pub record Composed (q : QueryDsl) (res : SearchResult) (r : Sorted) (resp : SearchResponse)
      : Type 0 where
    pub items : resp.items ≡ take (effective_limit q.page.limit) r.allowed
    pub authorized_count : resp.authorized_count ≡ length resp.items
    pub hidden_count : resp.hidden_count ≡ length r.hidden_ids
    pub redacted :
        resource_ids resp.redacted_placeholders
        ≡ take (min (length r.hidden_ids) service.max_placeholder_count) r.hidden_ids
    pub capped : resp.scope_capped_candidates ≡ ltb (length res.candidates) res.total
    pub next_cursor : resp.next_cursor ≡ res.next_cursor
    pub reason :
        resp.result_reason_code
        ≡ (derive_result_reason res.total
            (length res.candidates)
            resp.authorized_count
            resp.hidden_count
            resp.scope_capped_candidates).0

  composes :
      (q : QueryDsl) (res : SearchResult) (r : Sorted) (ps : List RedactedPlaceholder)
      → length res.candidates - length r.allowed ≡ length r.hidden_ids
      → placeholders
          (make_placeholder service subject resource_type q)
          (min (length r.hidden_ids) service.max_placeholder_count)
          r.hidden_ids
        ≡ some ps
      → compose_response service subject resource_type q res r
        ≡ ok (response_of service subject resource_type q res r ps)
  unfolding compose_response
  composes q res r ps hidden made = rw (hidden, compose_response) (rw made)

  -- Where the sorted documents and ids are as many as the candidates, a response is composed.
  pub compose_response_lem :
      (q : QueryDsl) (res : SearchResult) (r : Sorted)
      → length r.allowed + length r.hidden_ids ≡ length res.candidates
      → (resp : SearchResponse) × (compose_response service subject resource_type q res r ≡ ok resp)
        × Composed q res r resp
  unfolding response_of
  compose_response_lem q res r n =
      let make = make_placeholder service subject resource_type q in
      let hidden : length res.candidates - length r.allowed ≡ length r.hidden_ids = omega arith in
      let (ps, made, same) =
        placeholders_total make (λ id. refl)
          (min (length r.hidden_ids) service.max_placeholder_count) r.hidden_ids (omega arith) in
      (
        response_of service subject resource_type q res r ps,
        composes q res r ps hidden made,
        record {
          items = refl;
          authorized_count = refl;
          hidden_count = hidden;
          redacted = same;
          capped = refl;
          next_cursor = refl;
          reason = refl;
        },
      )

  pub prepared-eq-ok :
      (q : QueryDsl) (res : SearchResult)
      → prepared service subject resource_type q ≡ ok res
      → (validate_query service.registry resource_type q ≡ ok tt)
        × (service.store.search subject.tenant_id resource_type q service.max_candidate_window
            ≡ ok res)
  prepared-eq-ok q res h = elim (Result-cases (validate_query service.registry resource_type q)) [
    | inl (checked, valid) ↦ (valid, ground arith)
    | inr (message, invalid) ↦ absurd (ground arith)
  ]

  -- Every response of `Search` is composed of what the store has found and the policy has sorted.
  pub search-Composed :
      (query : QueryDsl) (s : S) (resp : SearchResponse)
      → (search service subject resource_type query s).0 ≡ ok resp
      → (res : SearchResult) × (r : Sorted) × (prepared service subject resource_type
            (normalize_query service.registry resource_type query)
          ≡ ok res)
        × ((filter_candidates service.policy subject resource_type res.candidates s).0 ≡ ok r)
        × Composed (normalize_query service.registry resource_type query) res r resp
  search-Composed query s resp e =
      let q = normalize_query service.registry resource_type query in
      elim (Result-cases (prepared service subject resource_type q)) [
        | inr (message, failed) ↦ absurd (unfold search in ground arith)
        | inl (res, found) ↦
            elim (Result-cases
              (filter_candidates service.policy subject resource_type res.candidates s).0) [
                | inr (message, failed) ↦ absurd (unfold search in ground arith)
                | inl (r, sorted) ↦
                    let (shown, hidden, n) =
                      filter_candidates-Sorts service.policy subject resource_type res.candidates s
                        r sorted in
                    let (resp', made, composed) = compose_response_lem q res r n in
                    let same : resp' ≡ resp = unfold search in ground arith in
                    (res, r, found, sorted, subst (Composed q res r) same composed)
              ]
      ]

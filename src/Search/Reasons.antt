-- ===== src/Search/Reasons.antt =====
-- `deriveResultReason` of internal/search/service.go: what the reason of a response tells of the store.
use permission_aware_search.Common.{
  ltb, eqb, Bool-cases, ok, length, length-take, ℕ, ◌+◌, ◌≤◌, String, ◌≡◌, refl, sym, ap, ◌∙◌, ◌⊎◌,
  inl, inr, Bool, true, arith,
}
use permission_aware_search.Common.Int.{ℤ, pos, negsuc}
use permission_aware_search.Store.{QueryDsl, SearchResult}
use permission_aware_search.Policy.{Subject}
use permission_aware_search.Search.{normalize_query, derive_result_reason, SearchResponse, Service}
use permission_aware_search.Search.Filtering.{effective_limit, search}
use permission_aware_search.Search.Visibility.{filter_candidates-Sorts}
use permission_aware_search.Search.Responses.{prepared-eq-ok, search-Composed}

-- the reasons that a response can have, by what was shown and hidden and what the store found and counted
abbrev pub Reason : ℕ → ℕ → ℕ → ℕ → String → Type 0
Reason total found authorized hidden code =
    ((1 ≤ authorized) × (code ≡ "VISIBLE_RESULTS"))
    ⊎ ((authorized ≡ 0) × (1 ≤ hidden) × (code ≡ "MATCHES_EXIST_BUT_NOT_VISIBLE"))
    ⊎ ((found ≡ 0) × (total ≡ 0) × (code ≡ "NO_MATCH_IN_TENANT"))
    ⊎ ((found ≡ 0) × (1 ≤ total) × (code ≡ "NO_VISIBLE_RESULTS_FOR_CURRENT_SCOPE"))

derive_result_reason_lem :
    (total found authorized hidden : ℕ) (capped : Bool)
    → (1 ≤ authorized) ⊎ (authorized + hidden ≡ found)
    → Reason total found authorized hidden
        ((derive_result_reason total found authorized hidden capped).0)
unfolding derive_result_reason
derive_result_reason_lem total found authorized hidden capped h =
    elim (Bool-cases (ltb 0 authorized)) [
      | inl shown ↦ inl (ground arith, rw shown refl)
      | inr nothing ↦ elim (Bool-cases (ltb 0 hidden)) [
        | inl some' ↦ inr (inl (ground arith, ground arith, rw (nothing, some') refl))
        | inr none' ↦
            let empty : found ≡ 0 = ground arith in
            let none_found : eqb found 0 ≡ true = rw empty refl in
            elim (Bool-cases (eqb total 0)) [
              | inl zero' ↦ inr (inr (inl (empty, ground arith, rw (nothing, none', zero') refl)))
              | inr more ↦
                  inr (inr (inr (empty, ground arith, rw (nothing, none', more, none_found) refl)))
            ]
      ]
    ]

effective_limit-positive : (limit : ℤ) → 1 ≤ effective_limit limit
effective_limit-positive (pos n) = ground arith
effective_limit-positive (negsuc n) = omega arith

-- The reason of a response is true of the store: either a document is shown and the reason is visible
-- results; or none is, a candidate is hidden, and it is matches that are not visible; or there is no
-- candidate, and it is no match where the store counted 0, and no visible result where it counted more.
pub search-Reason :
    {S : Type 0} (service : Service S) (subject : Subject) (resource_type : String)
    (query : QueryDsl) (s : S) (resp : SearchResponse)
    → (search service subject resource_type query s).0 ≡ ok resp
    → (res : SearchResult) × (service.store.search subject.tenant_id resource_type
          (normalize_query service.registry resource_type query)
          service.max_candidate_window
        ≡ ok res)
      × Reason res.total
          (length res.candidates)
          (length resp.items)
          resp.hidden_count
          resp.result_reason_code
search-Reason service subject resource_type query s resp e =
    let q = normalize_query service.registry resource_type query in
    let (res, r, found, sorted, c) = search-Composed service subject resource_type query s resp e in
    let (shown, hidden, n) =
      filter_candidates-Sorts service.policy subject resource_type res.candidates s r sorted in
    let (valid, stored) = prepared-eq-ok service subject resource_type q res found in
    let taken = ap length (c.items) ∙ length-take (effective_limit q.page.limit) r.allowed in
    let positive = effective_limit-positive q.page.limit in
    let authorized = c.authorized_count in
    let hid = c.hidden_count in
    let told =
      derive_result_reason_lem res.total (length res.candidates) resp.authorized_count
        resp.hidden_count resp.scope_capped_candidates (ground arith) in
    (res, stored, rw (sym authorized, c.reason) told)

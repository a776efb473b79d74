-- ===== src/Search/Guarantees.antt =====
-- What a caller of `Search` and `Detail` may rely on.
use permission_aware_search.Common.{
  Option-cases, Result-cases, ok, length, take, length-take, All, All-take, ◌+◌, ◌≤◌, min, String,
  ◌≡◌, refl, sym, ap, ◌∙◌, subst, ◌⊎◌, inl, inr, true, some, List, [], ◌∷◌, arith,
}
use permission_aware_search.Json.{Doc}
use permission_aware_search.Store.{QueryDsl, Candidate, SearchResult}
use permission_aware_search.Policy.{Subject, Decision}
use permission_aware_search.Search.{
  normalize_query, validate_query, keep_candidate, Engine, RedactedPlaceholder, SearchResponse,
  Service, Sorted,
}
use permission_aware_search.Search.Filtering.{filter_candidates, effective_limit, search, detail}
use permission_aware_search.Search.Visibility.{
  filter_candidates-Sorts, filter_candidates-Sifts, Shown, Hidden, Sifts,
}
use permission_aware_search.Search.Responses.{
  resource_ids, length-resource_ids, compose_response_lem, prepared-eq-ok, search-Composed,
}

All-resource_ids :
    (P : String → Type 0) (ps : List RedactedPlaceholder)
    → All P (resource_ids ps)
    → All (λ p. P p.resource_id) ps
All-resource_ids P [] h = tt
All-resource_ids P (p ∷ ps) (x, h) = (x, All-resource_ids P ps h)

module _ {S : Type 0} (service : Service S) (subject : Subject) (resource_type : String)
    (query : QueryDsl) (s : S) where
  abbrev pub normalized : QueryDsl
  normalized = normalize_query service.registry resource_type query

  -- Every document of a response is that of a candidate which the store has found for the subject's tenant
  -- and the engine has allowed, and every placeholder has the id of a candidate that it has refused.
  pub search_shows_allowed :
      (resp : SearchResponse)
      → (search service subject resource_type query s).0 ≡ ok resp
      → (res : SearchResult) × (service.store.search subject.tenant_id resource_type normalized
            service.max_candidate_window
          ≡ ok res)
        × All (Shown service.policy subject resource_type res.candidates) resp.items
        × All
            (λ p. Hidden service.policy subject resource_type res.candidates p.resource_id)
            resp.redacted_placeholders
  search_shows_allowed resp e =
      let (res, r, found, sorted, c) =
        search-Composed service subject resource_type query s resp e in
      let (shown, hidden, n) =
        filter_candidates-Sorts service.policy subject resource_type res.candidates s r sorted in
      let (valid, stored) = prepared-eq-ok service subject resource_type normalized res found in
      let shown_in = Shown service.policy subject resource_type res.candidates in
      let hidden_in = Hidden service.policy subject resource_type res.candidates in
      let most = min (length r.hidden_ids) service.max_placeholder_count in
      (
        res,
        stored,
        subst (All shown_in) (sym (c.items))
            (All-take shown_in (effective_limit normalized.page.limit) r.allowed shown),
        All-resource_ids hidden_in resp.redacted_placeholders (
            subst (All hidden_in) (sym (c.redacted)) (All-take hidden_in most r.hidden_ids hidden)),
      )

  -- What the counts of a response count: every candidate of the store is sorted once, in order, into the
  -- documents that the engine has allowed and the ids of what it has refused; the items are the first of
  -- these documents, up to the page limit, the hidden count is the number of these ids, and the placeholders
  -- are for the first of them, up to the maximum. Either the page is full or every candidate is counted.
  pub search_counts :
      (resp : SearchResponse)
      → (search service subject resource_type query s).0 ≡ ok resp
      → (res : SearchResult) × (service.store.search subject.tenant_id resource_type normalized
            service.max_candidate_window
          ≡ ok res)
        × (resp.authorized_count ≡ length resp.items)
        × (length resp.items ≤ effective_limit normalized.page.limit)
        × (length resp.redacted_placeholders ≡ min resp.hidden_count service.max_placeholder_count)
        × (resp.authorized_count + resp.hidden_count ≤ length res.candidates)
        × ((length resp.items ≡ effective_limit normalized.page.limit)
            ⊎ (resp.authorized_count + resp.hidden_count ≡ length res.candidates))
        × ((docs : List Doc) × (ids : List String) × Sifts service.policy subject resource_type
              res.candidates docs ids
            × (resp.items ≡ take (effective_limit normalized.page.limit) docs)
            × (resp.hidden_count ≡ length ids)
            × (resource_ids resp.redacted_placeholders
                ≡ take (min (length ids) service.max_placeholder_count) ids))
  search_counts resp e =
      let (res, r, found, sorted, c) =
        search-Composed service subject resource_type query s resp e in
      let (shown, hidden, n) =
        filter_candidates-Sorts service.policy subject resource_type res.candidates s r sorted in
      let (valid, stored) = prepared-eq-ok service subject resource_type normalized res found in
      let taken =
        ap length (c.items) ∙ length-take (effective_limit normalized.page.limit) r.allowed in
      let marked =
        length-resource_ids resp.redacted_placeholders
        ∙ ap length (c.redacted)
        ∙ length-take (min (length r.hidden_ids) service.max_placeholder_count) r.hidden_ids in
      let authorized = c.authorized_count in
      let hid = c.hidden_count in
      let every =
        filter_candidates-Sifts service.policy subject resource_type res.candidates s r sorted in
      (
        res,
        stored,
        c.authorized_count,
        omega arith,
        omega arith,
        omega arith,
        ground arith,
        (r.allowed, r.hidden_ids, every, c.items, c.hidden_count, c.redacted),
      )

-- Where the engine answers whatever it is asked, the loop ends with every candidate sorted.
filter_candidates_total :
    {S : Type 0} (engine : Engine S) (subject : Subject) (resource_type : String)
    → ((doc : Doc) (s : S)
        → (d : Decision) × ((engine.evaluate subject "view" resource_type doc s).0 ≡ ok d))
    → (candidates : List Candidate) (s : S)
    → (r : Sorted) × ((filter_candidates engine subject resource_type candidates s).0 ≡ ok r)
unfolding filter_candidates
filter_candidates_total engine subject resource_type answers [] s =
    (record { allowed = []; hidden_ids = [] }, refl)
filter_candidates_total engine subject resource_type answers (c ∷ candidates) s =
    let (d, answered) = answers c.doc s in
    let s' = (engine.evaluate subject "view" resource_type c.doc s).1 in
    let (r, sorted) = filter_candidates_total engine subject resource_type answers candidates s' in
    (keep_candidate c d r, ground arith)

-- `Search` answers, and no index is out of range, wherever its query is valid, the store answers and the
-- engine answers whatever it is asked.
pub search_total :
    {S : Type 0} (service : Service S) (subject : Subject) (resource_type : String)
    (query : QueryDsl) (s : S) (res : SearchResult)
    → ((doc : Doc) (s : S)
        → (d : Decision) × ((service.policy.evaluate subject "view" resource_type doc s).0 ≡ ok d))
    → validate_query service.registry resource_type
        (normalize_query service.registry resource_type query)
      ≡ ok tt
    → service.store.search subject.tenant_id resource_type
        (normalize_query service.registry resource_type query)
        service.max_candidate_window
      ≡ ok res
    → (resp : SearchResponse) × ((search service subject resource_type query s).0 ≡ ok resp)
search_total service subject resource_type query s res answers valid stored =
    let q = normalize_query service.registry resource_type query in
    let (r, sorted) =
      filter_candidates_total service.policy subject resource_type answers res.candidates s in
    let (shown, hidden, n) =
      filter_candidates-Sorts service.policy subject resource_type res.candidates s r sorted in
    let (resp, made, composed) = compose_response_lem service subject resource_type q res r n in
    (resp, unfold search in ground arith)

module _ {S : Type 0} (service : Service S) (subject : Subject) (resource_type id : String)
    (s : S) where
  -- `Detail` returns a document only if it is the store's document of that id for the subject's tenant and
  -- the engine has allowed it.
  pub detail_shows_allowed :
      (doc : Doc)
      → (detail service subject resource_type id s).0 ≡ ok (some doc)
      → (service.store.get_by_id subject.tenant_id resource_type id ≡ ok (some doc))
        × ((d : Decision) × ((service.policy.evaluate subject "view" resource_type doc s).0 ≡ ok d)
            × (d.allowed ≡ true))
  unfolding detail
  detail_shows_allowed doc e =
      elim (Result-cases (service.store.get_by_id subject.tenant_id resource_type id)) [
        | inr (message, failed) ↦ absurd (ground arith)
        | inl (found, stored) ↦ elim (Option-cases found) [
          | inl missing ↦ absurd (ground arith)
          | inr (doc', there) ↦
              elim (Result-cases (service.policy.evaluate subject "view" resource_type doc' s).0) [
                | inr (message, failed) ↦ absurd (ground arith)
                | inl (d, answered) ↦
                    let same : doc' ≡ doc = ground arith in
                    (
                      ground arith,
                      (
                        d,
                        subst
                            (λ x.
                              (service.policy.evaluate subject "view" resource_type x s).0 ≡ ok d)
                            same answered,
                        ground arith,
                      ),
                    )
              ]
        ]
      ]

-- ===== src/Http/Lookups/Authorized.antt =====
-- The documents that the lookups show: those that the policy has allowed the subject.
use permission_aware_search.Common.{
  ◌>>=◌, Result-cases, if_cases, Result, ok, err, All, String, ◌≡◌, inl, inr, Option, none, some,
  List, [], ◌∷◌,
}
use permission_aware_search.Http.{Payload, GroupedMatch, Interpretation}
use permission_aware_search.Http.Lookups.{
  lookup_query, look_up, look_up_each, with_match, collect, grouped_interpretation,
  try_identifier_fast_path, Collected,
}
use permission_aware_search.Identifier.{GroupSpec, ResolutionPlan}
use permission_aware_search.Json.{Doc}
use permission_aware_search.Policy.{Subject}
use permission_aware_search.Search.{normalize_query, SearchResponse, Service}
use permission_aware_search.Search.Filtering.{search}
use permission_aware_search.Search.Visibility.{Shown}
use permission_aware_search.Search.Guarantees.{search_shows_allowed}
use permission_aware_search.Store.{QueryDsl, SearchResult}

module _ {S : Type 0} (service : Service S) (subject : Subject) where
  -- The document is that of a candidate which the store has found for the subject's tenant and the engine has
  -- allowed.
  pub record Authorized (doc : Doc) : Type 0 where
    pub kind : String
    pub query : QueryDsl
    pub result : SearchResult
    pub found :
        service.store.search subject.tenant_id kind query service.max_candidate_window ≡ ok result
    pub shown : Shown service.policy subject kind result.candidates doc

  All-Authorized :
      (kind : String) (query : QueryDsl) (result : SearchResult)
      → service.store.search subject.tenant_id kind query service.max_candidate_window ≡ ok result
      → (docs : List Doc) → All (Shown service.policy subject kind result.candidates) docs
      → All Authorized docs
  All-Authorized kind query result e [] h = tt
  All-Authorized kind query result e (doc ∷ docs) (x, h) = (
    record { kind = kind; query = query; result = result; found = e; shown = x },
    All-Authorized kind query result e docs h,
  )

  pub search-Authorized :
      (kind : String) (query : QueryDsl) (s : S) (resp : SearchResponse)
      → (search service subject kind query s).0 ≡ ok resp
      → All Authorized resp.items
  search-Authorized kind query s resp e =
      let (res, found, shown, hidden) = search_shows_allowed service subject kind query s resp e in
      All-Authorized kind (normalize_query service.registry kind query) res found resp.items shown

  abbrev MatchSafe : Result GroupedMatch → Type 0
  MatchSafe (err e) = Unit
  MatchSafe (ok m) = All Authorized m.items

  look_up-Safe :
      (payload : Payload) (g : GroupSpec) (s : S)
      → MatchSafe (look_up service subject payload g s).0
  unfolding look_up
  look_up-Safe payload g s =
      let q = lookup_query payload g in
      elim (Result-cases (search service subject g.resource_type q s).0) [
        | inl (resp, e) ↦ rw e (search-Authorized g.resource_type q s resp e)
        | inr (message, e) ↦ rw e tt
      ]

  look_up_each-Safe :
      (payload : Payload) (groups : List GroupSpec) (s : S)
      → All MatchSafe (look_up_each service subject payload groups s).0
  unfolding look_up_each
  look_up_each-Safe payload [] s = tt
  look_up_each-Safe payload (g ∷ groups) s = (
    look_up-Safe payload g s,
    look_up_each-Safe payload groups (look_up service subject payload g s).1,
  )

  abbrev CollectedSafe : Result Collected → Type 0
  CollectedSafe (err e) = Unit
  CollectedSafe (ok c) = All (λ (m : GroupedMatch). All Authorized m.items) c.groups

  with_match-Safe :
      (m : GroupedMatch) (rest : Result Collected)
      → All Authorized m.items
      → CollectedSafe rest
      → CollectedSafe (rest >>= λ c. ok (with_match m c))
  with_match-Safe m (err e) here later = tt
  with_match-Safe m (ok c) here later = (here, later)

  collect-Safe :
      (results : List (Result GroupedMatch))
      → All MatchSafe results
      → CollectedSafe (collect results)
  unfolding collect
  collect-Safe [] h = tt
  collect-Safe (err e ∷ results) h = tt
  collect-Safe (ok m ∷ results) (here, later) =
      with_match-Safe m (collect results) here (collect-Safe results later)

  abbrev pub documents : Option (List Doc) → List Doc
  documents none = []
  documents (some docs) = docs

  abbrev pub matches : Option (List GroupedMatch) → List GroupedMatch
  matches none = []
  matches (some groups) = groups

  -- every document of the response, in or outside of a group
  abbrev pub ShowsAuthorized : Interpretation → Type 0
  ShowsAuthorized i =
      All Authorized (documents i.items)
      × All (λ (m : GroupedMatch). All Authorized m.items) (matches i.grouped_matches)

  abbrev pub Safe : Result Interpretation × S → Type 0
  Safe (err e, s) = Unit
  Safe (ok i, s) = ShowsAuthorized i

  abbrev pub FastSafe : Result (Option Interpretation) × S → Type 0
  FastSafe (err e, s) = Unit
  FastSafe (ok none, s) = Unit
  FastSafe (ok (some i), s) = ShowsAuthorized i

  grouped-Safe :
      (payload : Payload) (trace_id : String) (plan : ResolutionPlan) (s : S)
      (collected : Result Collected)
      → CollectedSafe collected
      → FastSafe
          ((collected >>= λ c. ok (some (grouped_interpretation payload trace_id plan c))), s)
  unfolding grouped_interpretation
  grouped-Safe payload trace_id plan s (err e) h = tt
  grouped-Safe payload trace_id plan s (ok c) h = (tt, h)

  pub try_identifier_fast_path-Safe :
      (payload : Payload) (trace_id : String) (arrival : List GroupSpec → List GroupSpec)
      (plan : ResolutionPlan) (s : S)
      → FastSafe (try_identifier_fast_path service subject payload trace_id arrival plan s)
  unfolding try_identifier_fast_path
  try_identifier_fast_path-Safe payload trace_id arrival plan s =
      let (results, s') = look_up_each service subject payload (arrival plan.groups) s in
      if_cases FastSafe plan.should_use_fast_path
        (λ _.
          grouped-Safe payload trace_id plan s' (collect results)
            (collect-Safe results (look_up_each-Safe payload (arrival plan.groups) s)))
        (λ _. tt)

-- ===== src/Semantic/Mock.antt =====
-- internal/semantic/analyzer_superlinked_mock.go: an analyzer that narrows the query of the rules by the
-- candidates of a retriever in the same process.
use permission_aware_search.Common.{
  eqb, ◌==◌, if◌then◌else◌, ◌>>=◌, if_cases, Result, ok, err, length, ◌+◌, min, String, ◌≡◌, refl,
  ap, ◌∙◌, ◌⊎◌, inl, inr, true, false, not, ◌&&◌, ◌||◌, Option, none, some, List, [], ◌∷◌, ◌++◌,
  arith,
}
use permission_aware_search.Common.Int.{le_zero, ℤ, pos}
use permission_aware_search.Store.{Filter}
use permission_aware_search.Schema.Registry.{Registry}
use permission_aware_search.Semantic.{
  has_authoritative_support_filter, AnalyzeRequest, AnalyzeResult,
}
use permission_aware_search.Semantic.Merging.{source_for_filters}
use permission_aware_search.Semantic.Framing.{default_version, framed, Framer}
use permission_aware_search.Semantic.Superlinked.{id_filter}
use permission_aware_search.Parser.Parse.{doubt, ParseResult}

pub record RetrievalRequest : Type 0 where
  pub tenant_id : String
  pub resource_type : String
  pub message : String
  pub query_shape : String
  pub intent_category : String
  pub top_k : ℤ

pub record RetrievalResult : Type 0 where
  pub candidate_ids : List String
  pub evidence : List String
  pub provider : String
  pub model_version : String
  pub fallback_chain : List String
  pub gate_reason : String
  pub strategy : String
  pub latency_ms : ℤ
  pub scored_evidence : List String

-- A retriever is asked by `Retrieve` if it has that, and by `TopK` for a tenant, a resource type, a message and
-- a number of candidates if not.
pub data Retriever : Type 0 where
  top_k : (String → String → String → ℤ → Result (List String × List String)) → Retriever
  retrieve : (RetrievalRequest → Result RetrievalResult) → Retriever

pub record MockAnalyzer : Type 0 where
  pub framer : Framer
  pub retriever : Option Retriever
  pub most : ℤ
  pub registry : Option Registry

-- `NewSuperlinkedMockAnalyzerWithFramerAndRetriever`
abbrev pub new_mock_analyzer : Framer → Option Retriever → ℤ → Option Registry → MockAnalyzer
new_mock_analyzer framer retriever most registry = record {
  framer = framer;
  retriever = retriever;
  most = if le_zero most then pos 25 else most;
  registry = registry;
}

abbrev pub nothing_retrieved : RetrievalResult
nothing_retrieved = record {
  candidate_ids = [];
  evidence = [];
  provider = "";
  model_version = "";
  fallback_chain = [];
  gate_reason = "";
  strategy = "";
  latency_ms = pos 0;
  scored_evidence = [];
}

abbrev pub retrieved_from :
    MockAnalyzer → AnalyzeRequest → ParseResult → Retriever → Result RetrievalResult
retrieved_from a req parsed (retrieve ask) = ask (record {
  tenant_id = req.tenant_id;
  resource_type = parsed.resource_type;
  message = req.message;
  query_shape = req.query_shape;
  intent_category = parsed.intent_category;
  top_k = a.most;
})
retrieved_from a req parsed (top_k ask) =
    ask req.tenant_id parsed.resource_type req.message a.most >>= λ found.
    ok (record nothing_retrieved { candidate_ids = found.0; evidence = found.1 })

-- The notes so far, with what was retrieved; nothing where the retrieval fails.
abbrev pub or_nothing : List String → Result RetrievalResult → List String × RetrievalResult
or_nothing notes (err e) = (notes ++ "semantic_candidate_retrieval_failed" ∷ [], nothing_retrieved)
or_nothing notes (ok r) = (notes, r)

abbrev pub stub_notes : List String
stub_notes = "hybrid_semantic_stub" ∷ "safe_projection_only" ∷ []

unfoldable pub retrieve_candidates :
    MockAnalyzer → AnalyzeRequest → ParseResult → List String × RetrievalResult
retrieve_candidates a req parsed =
    if not parsed.clarification_needed
      && not (req.tenant_id == "")
      && (parsed.resource_type == "order" || parsed.resource_type == "customer")
    then (elim a.retriever [
      | none ↦ (stub_notes, nothing_retrieved)
      | some r ↦ or_nothing stub_notes (retrieved_from a req parsed r)
    ])
    else (stub_notes, nothing_retrieved)

-- what is made of the candidates: the filters, the notes and the evidence
unfoldable pub apply_candidates :
    MockAnalyzer
    → ParseResult
    → List String × RetrievalResult
    → List Filter × List String × List String
unfolding has_authoritative_support_filter
apply_candidates a parsed (notes, r) =
    let filters = parsed.query.filters in
    if eqb (length r.candidate_ids) 0
    then (filters, notes, parsed.safe_evidence)
    else if has_authoritative_support_filter a.registry parsed.resource_type filters
    then (
      filters,
      notes ++ "semantic_vector_rank_only_due_to_explicit_filters" ∷ [],
      parsed.safe_evidence ++ "retrieval_rank_only" ∷ r.evidence,
    )
    else (
      filters ++ id_filter r.candidate_ids ∷ [],
      notes ++ "semantic_vector_topk_applied" ∷ [],
      parsed.safe_evidence ++ r.evidence,
    )

-- `SuperlinkedMockAnalyzer.Analyze`
unfoldable pub analyze_mock : MockAnalyzer → AnalyzeRequest → Result AnalyzeResult
unfolding retrieve_candidates apply_candidates source_for_filters
analyze_mock a req =
    let parsed = a.framer.frame req.message (default_version req) req.resource_hint in
    let found = retrieve_candidates a req parsed in
    let (filters, notes, evidence) = apply_candidates a parsed found in
    let query = record (parsed.query) { filters = filters } in
    ok (record (framed req.message parsed) {
      query = query;
      rewritten_message = req.message;
      post_semantic_query = some query;
      confidence = min (parsed.confidence + 8) 99;
      provider = "superlinked-mock";
      notes = notes;
      safe_evidence = evidence;
      filter_source = source_for_filters filters "superlinked-mock";
      retrieval_provider = found.1.provider;
      retrieval_model_version = found.1.model_version;
      retrieval_fallback_chain = found.1.fallback_chain;
      retrieval_gate_reason = found.1.gate_reason;
      retrieval_strategy = found.1.strategy;
      retrieval_latency_ms = found.1.latency_ms;
      retrieval_evidence = evidence;
      retrieval_scores = found.1.scored_evidence;
    })

-- no filter more, or one on the candidates
abbrev Widened : ParseResult → RetrievalResult → List Filter × List String × List String → Type 0
Widened parsed r applied =
    (applied.0 ≡ parsed.query.filters)
    ⊎ (applied.0 ≡ parsed.query.filters ++ id_filter r.candidate_ids ∷ [])

apply_candidates-Widened :
    (a : MockAnalyzer) (parsed : ParseResult) (notes : List String) (r : RetrievalResult)
    → Widened parsed r (apply_candidates a parsed (notes, r))
unfolding apply_candidates
apply_candidates-Widened a parsed notes r =
    if_cases (Widened parsed r) (eqb (length r.candidate_ids) 0) (λ _. inl refl)
      (λ _.
        if_cases (Widened parsed r)
          (has_authoritative_support_filter a.registry parsed.resource_type parsed.query.filters)
          (λ _. inl refl) (λ _. inr refl))

retrieve_candidates_of_doubt :
    (a : MockAnalyzer) (req : AnalyzeRequest) (parsed : ParseResult)
    → parsed.clarification_needed ≡ true
    → retrieve_candidates a req parsed ≡ (stub_notes, nothing_retrieved)
unfolding retrieve_candidates
retrieve_candidates_of_doubt a req parsed doubt =
    let skipped : (not parsed.clarification_needed
          && not (req.tenant_id == "")
          && (parsed.resource_type == "order" || parsed.resource_type == "customer"))
        ≡ false =
      ground arith in
    simp skipped

-- The stub keeps every filter of the rules and adds at most one, on the ids of the candidates that it was
-- given, and none to a question that needs a clarification.
pub analyze_mock_lem :
    (a : MockAnalyzer) (req : AnalyzeRequest)
    → let parsed = a.framer.frame req.message (default_version req) req.resource_hint in
      let found = retrieve_candidates a req parsed in
      let filters = (apply_candidates a parsed found).0 in
      ((filters ≡ parsed.query.filters)
        ⊎ (filters ≡ parsed.query.filters ++ id_filter found.1.candidate_ids ∷ []))
      × (parsed.clarification_needed ≡ true → filters ≡ parsed.query.filters)
analyze_mock_lem a req =
    let parsed = a.framer.frame req.message (default_version req) req.resource_hint in
    let found = retrieve_candidates a req parsed in
    (
      apply_candidates-Widened a parsed found.0 found.1,
      λ doubt.
          let none' : found ≡ (stub_notes, nothing_retrieved) =
            retrieve_candidates_of_doubt a req parsed doubt in
          ap (λ f. (apply_candidates a parsed f).0) none' ∙ (unfold apply_candidates in refl),
    )

-- ===== src/Semantic/Refined.antt =====
-- internal/semantic/analyzer_slm_superlinked.go: the answer of the language model, refined by that of the
-- semantic search.
use permission_aware_search.Common.{
  ltb, ◌==◌, if◌then◌else◌, ◌>>=◌, Bool-cases, Result-cases, Result, ok, err, ◌≤◌, String, ◌≡◌,
  refl, inl, inr, Bool, true, false, not, ◌||◌, Option, none, some, List, [], ◌∷◌, arith,
}
use permission_aware_search.Semantic.{AnalyzeRequest, SemanticSlots, AnalyzeResult, Analyzer}
use permission_aware_search.Semantic.Merging.{
  key_of, append_unique, merge_query_dsl, source_for_filters, merge_filter_sources,
}
use permission_aware_search.Semantic.Merged.{has_key, merge_filters_lem}

abbrev pub or_other : String → String → String
or_other s other = if s == "" then other else s

abbrev pub or_texts : List String → List String → List String
or_texts [] other = other
or_texts (s ∷ texts) other = s ∷ texts

abbrev pub or_slots : Option SemanticSlots → Option SemanticSlots → Option SemanticSlots
or_slots none other = other
or_slots (some slots) other = some slots

-- the request to the second analyzer
abbrev pub refine_request : AnalyzeRequest → AnalyzeResult → AnalyzeRequest
refine_request req slm = record req {
  contract_version = or_other req.contract_version slm.query.contract_version;
  resource_hint = or_other req.resource_hint slm.resource_type;
}

-- what is answered where the second analyzer fails
abbrev pub unrefined : AnalyzeResult → AnalyzeResult
unrefined slm = record slm {
  provider = "slm-superlinked(fallback:slm-local)";
  notes = append_unique slm.notes ("superlinked_refinement_failed" ∷ []);
  filter_source = source_for_filters slm.query.filters "slm-local";
  pre_semantic_query = some slm.query;
  post_semantic_query = some slm.query;
}

-- The retrieval fields are those of the second analyzer: the code fills them in from the same result.
unfoldable pub merge_results : AnalyzeRequest → AnalyzeResult → AnalyzeResult → AnalyzeResult
unfolding append_unique merge_query_dsl merge_filter_sources source_for_filters
merge_results req slm sup =
    let intent_category = or_other sup.intent_category slm.intent_category in
    let joined = merge_query_dsl slm.query sup.query in
    let query = record joined {
      intent_category = or_other joined.intent_category intent_category;
    } in
    record sup {
      query = query;
      provider = "slm-superlinked";
      intent = or_other sup.intent slm.intent;
      intent_category = intent_category;
      intent_subcategory = or_other sup.intent_subcategory slm.intent_subcategory;
      resource_type = or_other sup.resource_type slm.resource_type;
      confidence = if ltb sup.confidence slm.confidence then slm.confidence else sup.confidence;
      notes =
          append_unique (append_unique slm.notes sup.notes)
            ("slm_rewrite_plus_superlinked_refinement" ∷ []);
      safe_evidence = append_unique slm.safe_evidence sup.safe_evidence;
      original_message = or_other sup.original_message (or_other slm.original_message req.message);
      rewritten_message =
          or_other sup.rewritten_message (or_other slm.rewritten_message req.message);
      normalized_input = or_other sup.normalized_input slm.normalized_input;
      normalization_applied = or_texts sup.normalization_applied slm.normalization_applied;
      extracted_slots = or_slots sup.extracted_slots slm.extracted_slots;
      pre_semantic_query = some slm.query;
      post_semantic_query = some query;
      filter_source = merge_filter_sources query.filters (
          source_for_filters slm.query.filters "slm-local"
          ∷ source_for_filters sup.query.filters "superlinked"
          ∷ []);
      retrieval_evidence = append_unique sup.retrieval_evidence sup.retrieval_evidence;
      retrieval_scores = append_unique sup.retrieval_scores sup.retrieval_scores;
    }

abbrev pub after_refinement : AnalyzeRequest → AnalyzeResult → Result AnalyzeResult → AnalyzeResult
after_refinement req slm (err message) = unrefined slm
after_refinement req slm (ok sup) = merge_results req slm sup

-- `SLMSuperlinkedAnalyzer.Analyze`
unfoldable pub analyze_refined : Analyzer → Analyzer → AnalyzeRequest → Result AnalyzeResult
unfolding merge_results
analyze_refined slm superlinked req = do
  first ← slm.analyze none req
  ok (after_refinement req first (superlinked.analyze none (refine_request req first)))

keeps : (x y z : Bool) → x ≡ (y || z) → (x || not y) ≡ true
keeps x true z h = rw h refl
keeps x false z h = ground arith

merge_results-keeps :
    (req : AnalyzeRequest) (slm sup : AnalyzeResult) (k : String)
    → (has_key key_of k (merge_results req slm sup).query.filters
        || not (has_key key_of k slm.query.filters))
      ≡ true
unfolding merge_results merge_query_dsl
merge_results-keeps req slm sup k =
    keeps _ _ (has_key key_of k sup.query.filters)
      ((merge_filters_lem slm.query.filters sup.query.filters).1 k)

merge_results-confidence :
    (req : AnalyzeRequest) (slm sup : AnalyzeResult)
    → slm.confidence ≤ (merge_results req slm sup).confidence
unfolding merge_results
merge_results-confidence req slm sup = elim (Bool-cases (ltb sup.confidence slm.confidence)) [
  | inl less ↦ rw less (omega arith)
  | inr more ↦ rw more (ground arith)
]

-- A refinement keeps what the language model has asked for: whenever that answers, so does the refined
-- analyzer, whatever the semantic search does; each filter of the model's query has its key in the
-- result's query, and the confidence is at least the model's.
pub analyze_refined_keeps :
    (slm superlinked : Analyzer) (req : AnalyzeRequest) (first : AnalyzeResult)
    → slm.analyze none req ≡ ok first
    → (res : AnalyzeResult) × (analyze_refined slm superlinked req ≡ ok res)
      × ((k : String)
          → (has_key key_of k res.query.filters || not (has_key key_of k first.query.filters))
            ≡ true)
      × (first.confidence ≤ res.confidence)
unfolding analyze_refined
analyze_refined_keeps slm superlinked req first h =
    let second = superlinked.analyze none (refine_request req first) in
    elim (Result-cases second) [
      | inr (message, failed) ↦
          (unrefined first, rw (h, failed) refl, (λ k. ground arith), omega arith)
      | inl (sup, refined) ↦ (
        merge_results req first sup,
        rw (h, refined) refl,
        merge_results-keeps req first sup,
        merge_results-confidence req first sup,
      )
    ]

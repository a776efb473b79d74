-- ===== src/Semantic/Superlinked.antt =====
-- internal/semantic/analyzer_superlinked.go: an analyzer that narrows the query of the rules by the candidates
-- of a gateway, where the gate lets it. Its gateway is any; that of HTTP is one.
use permission_aware_search.Common.{
  eqb, ◌==◌, if◌then◌else◌, ◌>>=◌, Result, ok, err, length, take, max, String, false, not, Option,
  none, some, List, [], ◌∷◌, ◌++◌,
}
use permission_aware_search.Common.Int.{le_zero, to_ℕ, ℤ, pos}
use permission_aware_search.Strings.{◌+++◌}
use permission_aware_search.Json.{str, arr, Values, nil, cons}
use permission_aware_search.Store.{Filter, QueryDsl}
use permission_aware_search.Schema.Registry.{Registry}
use permission_aware_search.Semantic.{
  decide, has_authoritative_support_filter, AnalyzeRequest, AnalyzeResult, Analyzer, GateDecision,
  ServingGate,
}
use permission_aware_search.Semantic.Merging.{append_unique, source_for_filters}
use permission_aware_search.Semantic.Framing.{default_version, framed, Framer}
use permission_aware_search.Semantic.Gateway.{GatewayRequest, GatewayResponse}
use permission_aware_search.Parser.Parse.{ParseResult}

pub record SuperlinkedAnalyzer : Type 0 where
  pub fallback : Analyzer
  pub framer : Framer
  pub gateway : Option (GatewayRequest → Result GatewayResponse)
  pub gate : ServingGate
  pub top_k : ℤ
  pub post_cap : ℤ
  pub registry : Option Registry

abbrev analyzer_name : String
analyzer_name = "superlinked"

-- `fallbackWithNote`
unfoldable pub fallback_with_note :
    SuperlinkedAnalyzer → AnalyzeRequest → String → Result AnalyzeResult
fallback_with_note a req note = a.fallback.analyze none req >>= λ res. ok (record res {
  provider = "superlinked(fallback:" +++ a.fallback.name +++ ")";
  notes = res.notes ++ note ∷ [];
})

-- the candidates up to the cap
abbrev pub capped : ℤ → List String → List String
capped post_cap ids = if le_zero post_cap then ids else take (to_ℕ post_cap) ids

abbrev pub id_values : List String → Values
id_values [] = nil
id_values (id ∷ ids) = cons (str id) (id_values ids)

abbrev pub id_filter : List String → Filter
id_filter ids = record { field = "id"; op = "in"; value = arr (id_values ids) }

-- the query that is served, before a filter on the candidates
abbrev pub base_query : AnalyzeRequest → ParseResult → QueryDsl
base_query req heuristic = record (heuristic.query) {
  contract_version = req.contract_version;
  intent_category =
      if heuristic.query.intent_category == ""
      then heuristic.intent_category
      else heuristic.query.intent_category;
}

-- what both ways of serving the gateway's answer have in common
abbrev pub served_with : AnalyzeRequest → ParseResult → GatewayResponse → QueryDsl → AnalyzeResult
served_with req heuristic provider query = record (framed req.message heuristic) {
  query = query;
  rewritten_message = req.message;
  post_semantic_query = some query;
  confidence = max provider.provider_confidence heuristic.confidence;
  clarification_needed = false;
  provider = analyzer_name;
  safe_evidence = append_unique heuristic.safe_evidence provider.safe_evidence;
  filter_source = source_for_filters query.filters analyzer_name;
  retrieval_provider = "superlinked_gateway";
  retrieval_model_version = provider.model_version;
  retrieval_fallback_chain = "superlinked_gateway" ∷ "deterministic_query_only" ∷ [];
  retrieval_latency_ms = provider.provider_latency_ms;
}

-- The rules have filters that tell more than a time: the candidates only rank.
unfoldable pub rank_only : AnalyzeRequest → ParseResult → GatewayResponse → AnalyzeResult
unfolding append_unique source_for_filters
rank_only req heuristic provider =
    record (served_with req heuristic provider (base_query req heuristic)) {
      notes =
          "superlinked_gateway_ok" ∷ "superlinked_served"
          ∷ "superlinked_rank_only_due_to_explicit_filters" ∷ [];
      retrieval_strategy = "hybrid_fusion";
      retrieval_evidence = append_unique provider.safe_evidence ("retrieval_rank_only" ∷ []);
    }

-- The candidates are asked for by their ids.
unfoldable pub by_candidates :
    AnalyzeRequest → ParseResult → GatewayResponse → List String → AnalyzeResult
unfolding append_unique source_for_filters
by_candidates req heuristic provider ids =
    let query = base_query req heuristic in
    let narrowed = record query { filters = query.filters ++ id_filter ids ∷ [] } in
    record (served_with req heuristic provider narrowed) {
      notes = "superlinked_gateway_ok" ∷ "superlinked_served" ∷ [];
      retrieval_strategy = "vector_only_fallback";
      retrieval_evidence = provider.safe_evidence;
    }

abbrev pub gate_decision : SuperlinkedAnalyzer → ParseResult → GatewayResponse → GateDecision
gate_decision a heuristic provider =
    decide a.gate provider.provider_confidence provider.provider_latency_ms
      (pos (length provider.candidate_ids)) heuristic.clarification_needed

-- the part of `Analyze` behind the gateway
unfoldable pub serve_candidates :
    SuperlinkedAnalyzer → AnalyzeRequest → ParseResult → GatewayResponse → Result AnalyzeResult
unfolding decide has_authoritative_support_filter rank_only by_candidates fallback_with_note
serve_candidates a req heuristic provider =
    let decision = gate_decision a heuristic provider in
    let ids = capped a.post_cap provider.candidate_ids in
    if not decision.serve_superlinked
    then fallback_with_note a req ("superlinked_gated_fallback:" +++ decision.reason)
    else if has_authoritative_support_filter a.registry heuristic.resource_type
        heuristic.query.filters
    then ok (rank_only req heuristic provider)
    else if eqb (length ids) 0
    then fallback_with_note a req "superlinked_gated_fallback:no_candidates"
    else ok (by_candidates req heuristic provider ids)

abbrev pub gateway_request : SuperlinkedAnalyzer → AnalyzeRequest → ParseResult → GatewayRequest
gateway_request a req heuristic = record {
  tenant_id = req.tenant_id;
  message = req.message;
  contract_version = req.contract_version;
  resource_hint = req.resource_hint;
  intent_category = heuristic.intent_category;
  top_k = a.top_k;
}

abbrev pub after_gateway :
    SuperlinkedAnalyzer
    → AnalyzeRequest
    → ParseResult
    → Result GatewayResponse
    → Result AnalyzeResult
after_gateway a req heuristic (err e) =
    fallback_with_note a req ("superlinked gateway error: " +++ e)
after_gateway a req heuristic (ok provider) = serve_candidates a req heuristic provider

abbrev pub with_gateway :
    SuperlinkedAnalyzer
    → AnalyzeRequest
    → ParseResult
    → Option (GatewayRequest → Result GatewayResponse)
    → Result AnalyzeResult
with_gateway a req heuristic none = fallback_with_note a req "superlinked endpoint not configured"
with_gateway a req heuristic (some ask) =
    after_gateway a req heuristic (ask (gateway_request a req heuristic))

abbrev pub with_default_version : AnalyzeRequest → AnalyzeRequest
with_default_version req = record req { contract_version = default_version req }

-- `SuperlinkedAnalyzer.Analyze`
unfoldable pub analyze_superlinked : SuperlinkedAnalyzer → AnalyzeRequest → Result AnalyzeResult
unfolding serve_candidates fallback_with_note
analyze_superlinked a asked =
    let req = with_default_version asked in
    with_gateway a req (a.framer.frame req.message req.contract_version req.resource_hint) a.gateway

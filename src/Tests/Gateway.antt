-- ===== src/Tests/Gateway.antt =====
-- The analyzers on a gateway and on a retriever at concrete inputs.
use permission_aware_search.Common.{
  Result, ok, err, String, ◌≡◌, refl, ◌⊎◌, none, some, List, [], ◌∷◌, map,
}
use permission_aware_search.Common.Int.{pos}
use permission_aware_search.Store.{Filter}
use permission_aware_search.Semantic.{AnalyzeRequest, AnalyzeResult, Analyzer}
use permission_aware_search.Semantic.Framing.{
  deterministic_framer, framed, analyze_by_rules, Framer,
}
use permission_aware_search.Semantic.Gateway.{
  normalize, analyze_at_gateway, GatewayResponse, GatewayHttpResponse, with_status,
}
use permission_aware_search.Semantic.Ranked.{normalize-IsResponse, IsResponse}
use permission_aware_search.Semantic.Superlinked.{analyze_superlinked, SuperlinkedAnalyzer}
use permission_aware_search.Semantic.Narrowed.{analyze_superlinked-Outcome, FellBack, Narrowed}
use permission_aware_search.Semantic.Mock.{analyze_mock, top_k}
use permission_aware_search.Parser.Normalize.{phrases, prompt_phrases}
use permission_aware_search.Schema.Ecommerce.{ecommerce_registry}

abbrev answer : GatewayHttpResponse
answer = record {
  candidate_ids = "ord-1" ∷ " ord-1 " ∷ "ord-2" ∷ [];
  scores = pos 90 ∷ pos 80 ∷ pos 10 ∷ [];
  provider_confidence = pos 90;
  safe_evidence = [];
  provider_latency_ms = pos 12;
  model_version = "m1";
  index_version = "i1";
  query = none;
  confidence = pos 0;
}

-- The second order is given the score of the repetition before it.
misaligned :
    normalize 10 answer
    ≡ ok (record {
      candidate_ids = "ord-1" ∷ "ord-2" ∷ [];
      scores = 90 ∷ 80 ∷ [];
      provider_confidence = 90;
      safe_evidence = [];
      provider_latency_ms = pos 12;
      model_version = "m1";
      index_version = "i1";
    })
unfolding normalize
misaligned = refl

normalize-IsResponse_example :
    ((r : GatewayResponse) × (normalize 10 answer ≡ ok r) × IsResponse 10 r)
    ⊎ (normalize 10 answer ≡ err "superlinked invalid provider payload: empty candidateIds")
    ⊎ (normalize 10 answer ≡ err "superlinked invalid provider payload: scores length mismatch")
normalize-IsResponse_example = normalize-IsResponse 10 answer

abbrev plain_framer : Framer
plain_framer =
    deterministic_framer
      (record {
        registry = some ecommerce_registry;
        ranged = phrases;
        days_ago = λ days. "2026-01-01";
      })
      prompt_phrases

abbrev rule_analyzer : Analyzer
rule_analyzer = record { name = "rule-slm"; analyze = λ deadline. analyze_by_rules plain_framer }

abbrev at_gateway : SuperlinkedAnalyzer
at_gateway = record {
  fallback = rule_analyzer;
  framer = plain_framer;
  gateway = some (
      analyze_at_gateway (record {
        endpoint = "http://localhost";
        max_candidates = pos 10;
        exchange = λ req. with_status 200 (pos 3) (ok answer);
      }));
  gate = record {
    mode = "serve";
    min_confidence = 55;
    max_latency_ms = pos 120;
    max_candidates = pos 300;
  };
  top_k = pos 100;
  post_cap = pos 1;
  registry = some ecommerce_registry;
}

abbrev latest : AnalyzeRequest
latest = record {
  message = "where is the tracking of my order";
  contract_version = "";
  resource_hint = "";
  tenant_id = "tenant-a";
  query_shape = "";
  provider_override = "";
}

abbrev ops_of : Result AnalyzeResult → List String
ops_of (err e) = e ∷ []
ops_of (ok res) = map (λ (f : Filter). f.op) res.query.filters

narrowed_run : ops_of (analyze_superlinked at_gateway latest) ≡ "in" ∷ []
unfolding analyze_superlinked analyze_at_gateway analyze_by_rules deterministic_framer
    ecommerce_registry
narrowed_run = refl

abbrev by_rules_alone : AnalyzeResult
by_rules_alone =
    record (framed "where is the tracking of my order"
      (plain_framer.frame "where is the tracking of my order" "v2" "")) {
        rewritten_message = "where is the tracking of my order";
        provider = "rule-slm";
        filter_source = [];
      }

analyze_superlinked-Outcome_example :
    (res : AnalyzeResult) × (analyze_superlinked at_gateway latest ≡ ok res)
    × (FellBack at_gateway by_rules_alone res
        ⊎ Narrowed at_gateway
            (record latest { contract_version = "v2" })
            (plain_framer.frame "where is the tracking of my order" "v2" "")
            res)
unfolding analyze_by_rules deterministic_framer ecommerce_registry
analyze_superlinked-Outcome_example =
    analyze_superlinked-Outcome at_gateway latest by_rules_alone refl

-- The stub asks for the candidates of its retriever.
mock_run :
    ops_of (
      analyze_mock
        (record {
          framer = plain_framer;
          retriever = some (top_k (λ tenant kind message most. ok ("ord-1" ∷ [], [])));
          most = pos 25;
          registry = some ecommerce_registry;
        })
        latest)
    ≡ "in" ∷ []
unfolding analyze_mock deterministic_framer ecommerce_registry
mock_run = refl

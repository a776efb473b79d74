-- ===== src/Tests/Local.antt =====
-- internal/semantic/analyzer_slm_local.go at concrete inputs.
use permission_aware_search.Common.{
  Result, ok, err, all, String, ◌≡◌, refl, Bool, true, false, some, List, [], ◌∷◌, map,
}
use permission_aware_search.Common.Int.{pos}
use permission_aware_search.Schema.Ecommerce.{ecommerce_registry}
use permission_aware_search.Store.{Filter, QueryDsl}
use permission_aware_search.Semantic.{AnalyzeRequest, AnalyzeResult}
use permission_aware_search.Semantic.Framing.{deterministic_framer, empty_query, empty_result}
use permission_aware_search.Semantic.Model.{Answer}
use permission_aware_search.Semantic.Local.{
  apply_message_guardrails, analyze_locally, LocalAnalyzer,
}
use permission_aware_search.Semantic.Guarded.{is_harmless, apply_message_guardrails_lem}
use permission_aware_search.Parser.Normalize.{phrases, prompt_phrases}
use permission_aware_search.Parser.Filters.{a_filter, denied_states}
use permission_aware_search.Parser.Negation.{denies}
use permission_aware_search.Strings.{equal_fold}

abbrev shipped_query : QueryDsl
shipped_query = record empty_query {
  contract_version = "v2";
  intent_category = "wismo";
  filters = a_filter "shipment.state" "eq" "Shipped" ∷ a_filter "order.state" "eq" "Open" ∷ [];
  page = record { limit = pos 5; cursor = "" };
}

abbrev shipped_result : AnalyzeResult
shipped_result = record empty_result {
  query = shipped_query;
  resource_type = "order";
  intent_category = "wismo";
}

not_shipped_run :
    map
      (λ (f : Filter). f.op)
      (apply_message_guardrails
        (some ecommerce_registry)
        "open orders not yet shipped"
        shipped_result).query.filters
    ≡ "eq" ∷ "neq" ∷ "neq" ∷ "neq" ∷ []
unfolding apply_message_guardrails ecommerce_registry
not_shipped_run = refl

apply_message_guardrails_lem_example :
    let out =
      (apply_message_guardrails
        (some ecommerce_registry)
        "open orders not yet shipped"
        shipped_result).query in
    (all is_harmless out.filters ≡ true)
    × (all (denies out.filters) (denied_states (some ecommerce_registry)) ≡ true)
    × (out.sort ≡ shipped_query.sort)
    × (out.page ≡ shipped_query.page)
unfolding apply_message_guardrails denied_states equal_fold ecommerce_registry
apply_message_guardrails_lem_example =
    apply_message_guardrails_lem (some ecommerce_registry) "open orders not yet shipped"
      shipped_result refl refl

-- a model whose first answer names no known resource, and which repairs it
abbrev answer_of : String → Answer
answer_of resource = record {
  intent = "search_order";
  intent_category = "wismo";
  intent_subcategory = "";
  resource_type = resource;
  confidence = 90;
  clarification_needed = false;
  safe_evidence = [];
  query = shipped_query;
}

abbrev repairing : LocalAnalyzer
repairing = record {
  registry = some ecommerce_registry;
  framer =
      deterministic_framer
        (record { registry = some ecommerce_registry; ranged = phrases; days_ago = λ n. "" })
        prompt_phrases;
  model = record {
    endpoint = "http://localhost";
    model = "llama";
    generate = λ req. some (answer_of "parcel");
    regenerate = λ req previous errors. some (answer_of "order");
  };
}

abbrev asked : AnalyzeRequest
asked = record {
  message = "open orders";
  contract_version = "";
  resource_hint = "";
  tenant_id = "acme";
  query_shape = "";
  provider_override = "";
}

abbrev signature : Result AnalyzeResult → Result (String × String × List String × Bool)
signature (ok res) = ok (res.provider, res.original_message, res.notes, res.repaired)
signature (err message) = err message

-- The repaired answer has lost the provider, the message and the note of its repair.
repaired_run :
    signature (analyze_locally repairing asked)
    ≡ ok ("", "", "slm_remote_used" ∷ "loopback_validated" ∷ [], true)
unfolding analyze_locally deterministic_framer ecommerce_registry
repaired_run = refl

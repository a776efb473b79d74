-- ===== src/Semantic/Chain.antt =====
-- internal/semantic/rewrite_intent_router.go: the chain of providers, tried in turn. What the framer says
-- of the intent category, and what a provider returns when it is told a deadline, are parameters: the call
-- is synchronous, a provider that does not heed its deadline is not cut off, and one that never returns is
-- not modelled.
use permission_aware_search.Common.Int.{ℤ, pos, le_zero, to_ℕ}
use permission_aware_search.Common.{
  ltb, ◌==◌, if◌then◌else◌, ◌>>=◌, Result, ok, err, mem, lookup, ℕ, String, ◌⊎◌, inl, inr, Bool,
  not, ◌&&◌, ◌||◌, Option, none, some, List, [], ◌∷◌, ◌++◌,
}
use permission_aware_search.Strings.{◌+++◌, trim_space, join}
use permission_aware_search.Schema.Registry.{Registry}
use permission_aware_search.Contracts.{contract_version_v2, is_nil}
use permission_aware_search.Semantic.{route, AnalyzeRequest, AnalyzeResult, Analyzer}
use permission_aware_search.Semantic.Merging.{append_unique}
use permission_aware_search.Semantic.Remote.{dedupe_from, validate_remote_result}

pub record ProviderConfig : Type 0 where
  pub id : String
  pub kind : String
  pub model : String
  pub endpoint : String
  pub timeout_ms : ℤ
  pub min_confidence : ℕ

pub record RouteConfig : Type 0 where
  pub tenant_id : String
  pub query_shape : String
  pub intent_category : String
  pub primary_provider_id : String
  pub fallback_provider_ids : List String

pub record DefaultConfig : Type 0 where
  pub primary_provider_id : String
  pub fallback_provider_ids : List String

pub record ModelConfig : Type 0 where
  pub providers : List ProviderConfig
  pub routes : List RouteConfig
  pub defaults : DefaultConfig

pub record RoutedAnalyzer : Type 0 where
  pub config : ModelConfig
  pub providers : List (String × Analyzer)
  pub frame : String → String → String → String
  pub registry : Option Registry

-- `ensureRuleFallback`
unfoldable pub ensure_rule_fallback : List String → List String
unfolding dedupe_from mem
ensure_rule_fallback chain =
    let out = dedupe_from chain [] in
    if mem "intent-rule" out then out else out ++ "intent-rule" ∷ []

-- a field of a route that is blank fits anything
abbrev fits : String → String → Bool
fits wanted given = wanted == "" || wanted == given

-- `resolveProviderChain`, over the routes that are left
unfoldable pub resolve_routes :
    DefaultConfig → List RouteConfig → String → String → String → List String
unfolding ensure_rule_fallback
resolve_routes defaults [] tenant_id query_shape intent_category =
    ensure_rule_fallback (defaults.primary_provider_id ∷ defaults.fallback_provider_ids)
resolve_routes defaults (route ∷ routes) tenant_id query_shape intent_category =
    let later = resolve_routes defaults routes tenant_id query_shape intent_category in
    if fits route.tenant_id tenant_id
      && fits route.query_shape query_shape
      && fits route.intent_category intent_category
    then ensure_rule_fallback (route.primary_provider_id ∷ route.fallback_provider_ids)
    else later

abbrev pub resolve_provider_chain : ModelConfig → String → String → String → List String
resolve_provider_chain config tenant_id query_shape intent_category =
    resolve_routes config.defaults config.routes (trim_space tenant_id) (trim_space query_shape)
      (trim_space intent_category)

-- `providerConfig`
unfoldable pub provider_config : List ProviderConfig → String → ProviderConfig
provider_config [] id = record {
  id = id;
  kind = "";
  model = "";
  endpoint = "";
  timeout_ms = pos 1500;
  min_confidence = 0;
}
provider_config (p ∷ providers) id = if p.id == id then p else provider_config providers id

-- the deadline that `callProviderWithTimeout` hands to the provider in its context
abbrev pub deadline : ProviderConfig → ℕ
deadline cfg = if le_zero cfg.timeout_ms then 1500 else to_ℕ cfg.timeout_ms

-- what one provider comes to: a result that is let through, or the reason why not
unfoldable pub attempt : RoutedAnalyzer → AnalyzeRequest → String → AnalyzeResult ⊎ String
unfolding lookup provider_config validate_remote_result
attempt a req id = elim (lookup id a.providers) [
  | none ↦ inr "provider_not_found"
  | some provider ↦
      let cfg = provider_config a.config.providers id in
      elim (provider.analyze (some (deadline cfg)) req) [
        | err message ↦ inr "timeout_or_error"
        | ok answer ↦
            let (normalized, errors) =
              validate_remote_result a.registry answer req.contract_version in
            if not (is_nil errors)
            then inr "invalid_output"
            else if ltb 0 cfg.min_confidence && ltb normalized.confidence cfg.min_confidence
            then inr "low_confidence"
            else inl normalized
      ]
]

abbrev name_at : String → List (String × Analyzer) → String
name_at id providers = elim (lookup id providers) [ none ↦ "" | some provider ↦ provider.name ]

-- the result of the provider that has served, with what the router says of it
unfoldable pub served :
    RoutedAnalyzer → String → List String → List String → AnalyzeResult → AnalyzeResult
unfolding lookup join append_unique provider_config
served a id attempted reasons res =
    let model = (provider_config a.config.providers id).model in
    record res {
      rewrite_intent_provider = id;
      rewrite_intent_model_version = if model == "" then name_at id a.providers else model;
      rewrite_intent_fallback_chain = attempted;
      rewrite_intent_gate_reason =
          if is_nil reasons then res.rewrite_intent_gate_reason else join reasons ";";
      notes = append_unique res.notes (("rewrite_intent_provider:" +++ id) ∷ []);
    }

-- what `Analyze` does once the chain is used up
unfoldable pub rule_fallback :
    RoutedAnalyzer → AnalyzeRequest → List String → List String → Result AnalyzeResult
unfolding lookup join append_unique
rule_fallback a req attempted reasons = elim (lookup "intent-rule" a.providers) [
  | none ↦ err "no rewrite/intent provider available"
  | some rule ↦ do
    res ← rule.analyze none req
    ok (record res {
      rewrite_intent_provider = "intent-rule";
      rewrite_intent_model_version = "deterministic-rule";
      rewrite_intent_fallback_chain = attempted ++ "intent-rule" ∷ [];
      rewrite_intent_gate_reason = join reasons ";";
      notes = append_unique res.notes ("rewrite_intent_router_fallback:intent-rule" ∷ []);
    })
]

-- the loop over the chain
unfoldable pub try_chain :
    RoutedAnalyzer → AnalyzeRequest → List String → List String → List String → Result AnalyzeResult
unfolding attempt served rule_fallback
try_chain a req [] attempted reasons = rule_fallback a req attempted reasons
try_chain a req (id ∷ chain) attempted reasons = elim (attempt a req id) [
  | inl res ↦ ok (served a id (attempted ++ id ∷ []) reasons res)
  | inr reason ↦
      try_chain a req chain (attempted ++ id ∷ []) (reasons ++ (id +++ ":" +++ reason) ∷ [])
]

-- the request with a contract version
abbrev pub asked : AnalyzeRequest → AnalyzeRequest
asked req = record req {
  contract_version =
      if req.contract_version == "" then contract_version_v2 else req.contract_version;
}

abbrev pub chain_for : RoutedAnalyzer → AnalyzeRequest → List String
chain_for a req =
    resolve_provider_chain a.config req.tenant_id req.query_shape
      (a.frame req.message req.contract_version req.resource_hint)

-- `Analyze`
unfoldable pub analyze : RoutedAnalyzer → AnalyzeRequest → Result AnalyzeResult
unfolding try_chain resolve_routes trim_space
analyze a req = try_chain a (asked req) (chain_for a (asked req)) [] []

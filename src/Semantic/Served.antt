-- ===== src/Semantic/Served.antt =====
-- internal/semantic/rewrite_intent_router.go: what `Analyze` answers.
use permission_aware_search.Common.{
  Result-cases, Sum-cases, ok, Member, lookup, ◌≤◌, String, ◌≡◌, refl, ◌⊎◌, inl, inr, none, some,
  List, [], ◌∷◌, ◌++◌, arith,
}
use permission_aware_search.Strings.{◌+++◌}
use permission_aware_search.Semantic.{AnalyzeRequest, AnalyzeResult, Analyzer}
use permission_aware_search.Semantic.Remote.{validate_remote_result}
use permission_aware_search.Semantic.Chain.{
  provider_config, deadline, attempt, served, rule_fallback, try_chain, asked, chain_for, analyze,
  RoutedAnalyzer,
}
use permission_aware_search.Semantic.Checked.{Accepted}

-- the provider has answered, and nothing speaks against its answer
pub record Passed (a : RoutedAnalyzer) (req : AnalyzeRequest) (id : String) (res : AnalyzeResult)
    : Type 0 where
  pub provider : Analyzer
  pub answer : AnalyzeResult
  pub found : lookup id a.providers ≡ some provider
  pub answered :
      provider.analyze (some (deadline (provider_config a.config.providers id))) req ≡ ok answer
  pub normalized : (validate_remote_result a.registry answer req.contract_version).0 ≡ res
  pub no_errors : (validate_remote_result a.registry answer req.contract_version).1 ≡ []
  pub confident : (provider_config a.config.providers id).min_confidence ≤ res.confidence

-- The result is the checked answer of a provider, but for what the router says of the provider.
pub record FromProvider (a : RoutedAnalyzer) (req : AnalyzeRequest) (id : String)
    (res : AnalyzeResult) : Type 0 where
  pub provider : Analyzer
  pub answer : AnalyzeResult
  pub found : lookup id a.providers ≡ some provider
  pub answered :
      provider.analyze (some (deadline (provider_config a.config.providers id))) req ≡ ok answer
  pub same : res ≡ record ((validate_remote_result a.registry answer req.contract_version).0) {
    rewrite_intent_provider = id;
    rewrite_intent_model_version = res.rewrite_intent_model_version;
    rewrite_intent_fallback_chain = res.rewrite_intent_fallback_chain;
    rewrite_intent_gate_reason = res.rewrite_intent_gate_reason;
    notes = res.notes;
  }
  pub no_errors : (validate_remote_result a.registry answer req.contract_version).1 ≡ []
  pub confident : (provider_config a.config.providers id).min_confidence ≤ res.confidence
  pub accepted : Accepted a.registry res

-- the chain has come to a provider that has passed, or to the rule provider at its end
abbrev pub Outcome : RoutedAnalyzer → AnalyzeRequest → List String → AnalyzeResult → Type 0
Outcome a req chain res =
    ((id : String) × (normalized : AnalyzeResult) × (attempted : List String) × (reasons : List
        String)
      × Member id chain
      × Passed a req id normalized
      × (res ≡ served a id attempted reasons normalized))
    ⊎ ((attempted : List String) × (reasons : List String) × (rule_fallback a req attempted reasons
          ≡ ok res))

module _ (a : RoutedAnalyzer) (req : AnalyzeRequest) where
  -- the loop comes to an end with an answer if the rule provider is there and answers, whatever the others
  -- do.
  try_chain-eq-ok :
      (rule : Analyzer) (answer : AnalyzeResult)
      → lookup "intent-rule" a.providers ≡ some rule
      → rule.analyze none req ≡ ok answer
      → (chain attempted reasons : List String)
      → (res : AnalyzeResult) × (try_chain a req chain attempted reasons ≡ ok res)
  unfolding try_chain rule_fallback
  try_chain-eq-ok rule answer there answers [] attempted reasons =
      elim (Result-cases (rule_fallback a req attempted reasons)) [
        | inl (res, e) ↦ (res, e)
        | inr (message, e) ↦ absurd (ground arith)
      ]
  try_chain-eq-ok rule answer there answers (id ∷ chain) attempted reasons =
      elim (Sum-cases (attempt a req id)) [
        | inl (x, e) ↦ (served a id (attempted ++ id ∷ []) reasons x, rw (try_chain, e) refl)
        | inr (reason, e) ↦
            let (res, done) =
              try_chain-eq-ok rule answer there answers chain (attempted ++ id ∷ [])
                (reasons ++ (id +++ ":" +++ reason) ∷ []) in
            (res, rw (try_chain, e) done)
      ]

module _ (a : RoutedAnalyzer) (req : AnalyzeRequest) where
  -- Where every provider that is asked returns, with an answer or an error, `Analyze` answers if the rule
  -- provider is there and answers, whatever the other providers return.
  pub analyze_total :
      (rule : Analyzer) (answer : AnalyzeResult)
      → lookup "intent-rule" a.providers ≡ some rule
      → rule.analyze none (asked req) ≡ ok answer
      → (res : AnalyzeResult) × (analyze a req ≡ ok res)
  unfolding analyze
  analyze_total rule answer there answers =
      try_chain-eq-ok a (asked req) rule answer there answers (chain_for a (asked req)) [] []

-- ===== src/Semantic/Narrowed.antt =====
-- What the analyzer on a gateway serves.
use permission_aware_search.Common.{
  leb, eqb, Bool-cases, if_cases, Result, ok, err, length, take, length-take, ℕ, zero, suc, ◌≤◌,
  ◌<◌, String, ◌≡◌, refl, sym, ap, ◌∙◌, subst, ◌⊎◌, inl, inr, Bool, true, false, Option, none, some,
  List, [], ◌∷◌, ◌++◌, append-nil, arith,
}
use permission_aware_search.Common.Int.{ℤ, pos, negsuc}
use permission_aware_search.Strings.{◌+++◌}
use permission_aware_search.Store.{Filter}
use permission_aware_search.Semantic.{
  decide, has_authoritative_support_filter, decide_lem, AnalyzeRequest, AnalyzeResult, ServingGate,
}
use permission_aware_search.Semantic.Framing.{default_version}
use permission_aware_search.Semantic.Gateway.{GatewayRequest, GatewayResponse}
use permission_aware_search.Semantic.Superlinked.{
  fallback_with_note, capped, id_filter, rank_only, by_candidates, gate_decision, serve_candidates,
  gateway_request, after_gateway, with_gateway, with_default_version, analyze_superlinked,
  SuperlinkedAnalyzer,
}
use permission_aware_search.Parser.Parse.{ParseResult}

-- The result is that of the fallback, with a note.
pub record FellBack (a : SuperlinkedAnalyzer) (base res : AnalyzeResult) : Type 0 where
  pub note : String
  pub same : res ≡ record base {
    provider = "superlinked(fallback:" +++ a.fallback.name +++ ")";
    notes = base.notes ++ note ∷ [];
  }

-- one filter more, on some of the candidates of the gateway
pub record OnCandidates (a : SuperlinkedAnalyzer) (provider : GatewayResponse) (extra : List Filter)
    : Type 0 where
  pub ids : List String
  pub one_filter : extra ≡ id_filter ids ∷ []
  pub some_ids : 0 < length ids
  pub first_ids : ids ≡ take (length ids) provider.candidate_ids
  pub within_cap : (n : ℕ) → a.post_cap ≡ pos (suc n) → length ids ≤ suc n

-- The query is that of the rules, with no filter more or with one on candidates of the gateway, which was
-- sure enough of a question that needs no clarification.
pub record Narrowed (a : SuperlinkedAnalyzer) (req : AnalyzeRequest) (heuristic : ParseResult)
    (res : AnalyzeResult) : Type 0 where
  pub ask : GatewayRequest → Result GatewayResponse
  pub provider : GatewayResponse
  pub gateway : a.gateway ≡ some ask
  pub answered : ask (gateway_request a req heuristic) ≡ ok provider
  pub extra : List Filter
  pub same_filters : res.query.filters ≡ heuristic.query.filters ++ extra
  pub same_sort : res.query.sort ≡ heuristic.query.sort
  pub same_page : res.query.page ≡ heuristic.query.page
  pub same_resource : res.resource_type ≡ heuristic.resource_type
  pub few : (extra ≡ []) ⊎ OnCandidates a provider extra
  pub clear : heuristic.clarification_needed ≡ false
  pub sure : a.gate.min_confidence ≤ provider.provider_confidence
  pub confident : provider.provider_confidence ≤ res.confidence

served_clear :
    (g : ServingGate) (confidence : ℕ) (latency_ms count : ℤ) (clarification_needed : Bool)
    → (decide g confidence latency_ms count clarification_needed).serve_superlinked ≡ true
    → (clarification_needed ≡ false) × (g.min_confidence ≤ confidence)
served_clear g confidence latency_ms count clarification_needed h =
    let all' = sym (decide_lem g confidence latency_ms count clarification_needed) ∙ h in
    (ground arith, ground arith)

take-length : (xs : List String) → take (length xs) xs ≡ xs
take-length [] = refl
take-length (x ∷ xs) = ap (λ l. x ∷ l) (take-length xs)

take-length-take : (n : ℕ) (xs : List String) → take (length (take n xs)) xs ≡ take n xs
take-length-take zero xs = refl
take-length-take (suc n) [] = refl
take-length-take (suc n) (x ∷ xs) = ap (λ l. x ∷ l) (take-length-take n xs)

capped_first : (cap : ℤ) (ids : List String) → capped cap ids ≡ take (length (capped cap ids)) ids
capped_first (negsuc n) ids = sym (take-length ids)
capped_first (pos zero) ids = sym (take-length ids)
capped_first (pos (suc n)) ids =
    let positive : leb (suc n) 0 ≡ false = ground arith in
    rw positive (sym (take-length-take (suc n) ids))

capped_bound : (n : ℕ) (ids : List String) → length (capped (pos (suc n)) ids) ≤ suc n
capped_bound n ids =
    let positive : leb (suc n) 0 ≡ false = ground arith in
    let taken = length-take (suc n) ids in rw positive (omega arith)

capped-OnCandidates :
    (a : SuperlinkedAnalyzer) (provider : GatewayResponse)
    → 0 < length (capped a.post_cap provider.candidate_ids)
    → OnCandidates a provider (id_filter (capped a.post_cap provider.candidate_ids) ∷ [])
capped-OnCandidates a provider h = record {
  ids = capped a.post_cap provider.candidate_ids;
  one_filter = refl;
  some_ids = h;
  first_ids = capped_first a.post_cap provider.candidate_ids;
  within_cap = λ n e.
      subst (λ cap. length (capped cap provider.candidate_ids) ≤ suc n) (sym e)
        (capped_bound n provider.candidate_ids);
}

fallback_with_note_lem :
    (a : SuperlinkedAnalyzer) (req : AnalyzeRequest) (note : String) (base : AnalyzeResult)
    → a.fallback.analyze none req ≡ ok base
    → (res : AnalyzeResult) × (fallback_with_note a req note ≡ ok res) × FellBack a base res
unfolding fallback_with_note
fallback_with_note_lem a req note base h = (
  record base {
    provider = "superlinked(fallback:" +++ a.fallback.name +++ ")";
    notes = base.notes ++ note ∷ [];
  },
  rw h refl,
  record { note = note; same = refl },
)

abbrev Outcome :
    SuperlinkedAnalyzer
    → AnalyzeRequest
    → ParseResult
    → AnalyzeResult
    → Result AnalyzeResult
    → Type 0
Outcome a req heuristic base answer =
    (res : AnalyzeResult) × (answer ≡ ok res) × (FellBack a base res ⊎ Narrowed a req heuristic res)

fell_back :
    (a : SuperlinkedAnalyzer) (req : AnalyzeRequest) (heuristic : ParseResult) (note : String)
    (base : AnalyzeResult)
    → a.fallback.analyze none req ≡ ok base
    → Outcome a req heuristic base (fallback_with_note a req note)
fell_back a req heuristic note base h =
    let (res, answered, fell) = fallback_with_note_lem a req note base h in
    (res, answered, inl fell)

serve_candidates-Outcome :
    (a : SuperlinkedAnalyzer) (req : AnalyzeRequest) (heuristic : ParseResult)
    (ask : GatewayRequest → Result GatewayResponse) (provider : GatewayResponse)
    (base : AnalyzeResult)
    → a.gateway ≡ some ask
    → ask (gateway_request a req heuristic) ≡ ok provider
    → a.fallback.analyze none req ≡ ok base
    → Outcome a req heuristic base (serve_candidates a req heuristic provider)
unfolding serve_candidates rank_only by_candidates
serve_candidates-Outcome a req heuristic ask provider base there answered h =
    let ids = capped a.post_cap provider.candidate_ids in
    let out = Outcome a req heuristic base in
    let gate = (gate_decision a heuristic provider).serve_superlinked in
    elim (Bool-cases gate) [
      | inr held ↦ rw held (
          fell_back a req heuristic
            ("superlinked_gated_fallback:" +++ (gate_decision a heuristic provider).reason) base h)
      | inl served ↦
          let (clear, sure) =
            served_clear a.gate provider.provider_confidence provider.provider_latency_ms
              (pos (length provider.candidate_ids)) heuristic.clarification_needed served in
          rw served (
            if_cases out
              (has_authoritative_support_filter a.registry heuristic.resource_type
                heuristic.query.filters)
              (λ _. (
                rank_only req heuristic provider,
                refl,
                inr (record {
                  ask = ask;
                  provider = provider;
                  gateway = there;
                  answered = answered;
                  extra = [];
                  same_filters = sym (append-nil heuristic.query.filters);
                  same_sort = refl;
                  same_page = refl;
                  same_resource = refl;
                  few = inl refl;
                  clear = clear;
                  sure = sure;
                  confident = omega arith;
                }),
              ))
              (λ _. elim (Bool-cases (eqb (length ids) 0)) [
                | inl none' ↦
                    rw none'
                      (fell_back a req heuristic "superlinked_gated_fallback:no_candidates" base h)
                | inr some' ↦ rw some' (
                  by_candidates req heuristic provider ids,
                  refl,
                  inr (record {
                    ask = ask;
                    provider = provider;
                    gateway = there;
                    answered = answered;
                    extra = id_filter ids ∷ [];
                    same_filters = refl;
                    same_sort = refl;
                    same_page = refl;
                    same_resource = refl;
                    few = inr (capped-OnCandidates a provider (ground arith));
                    clear = clear;
                    sure = sure;
                    confident = omega arith;
                  }),
                )
              ]))
    ]

after_gateway-Outcome :
    (a : SuperlinkedAnalyzer) (req : AnalyzeRequest) (heuristic : ParseResult)
    (ask : GatewayRequest → Result GatewayResponse) (answer : Result GatewayResponse)
    (base : AnalyzeResult)
    → a.gateway ≡ some ask
    → ask (gateway_request a req heuristic) ≡ answer
    → a.fallback.analyze none req ≡ ok base
    → Outcome a req heuristic base (after_gateway a req heuristic answer)
after_gateway-Outcome a req heuristic ask (err e) base there answered h =
    fell_back a req heuristic ("superlinked gateway error: " +++ e) base h
after_gateway-Outcome a req heuristic ask (ok provider) base there answered h =
    serve_candidates-Outcome a req heuristic ask provider base there answered h

with_gateway-Outcome :
    (a : SuperlinkedAnalyzer) (req : AnalyzeRequest) (heuristic : ParseResult)
    (gateway : Option (GatewayRequest → Result GatewayResponse)) (base : AnalyzeResult)
    → a.gateway ≡ gateway
    → a.fallback.analyze none req ≡ ok base
    → Outcome a req heuristic base (with_gateway a req heuristic gateway)
with_gateway-Outcome a req heuristic none base there h =
    fell_back a req heuristic "superlinked endpoint not configured" base h
with_gateway-Outcome a req heuristic (some ask) base there h =
    after_gateway-Outcome a req heuristic ask (ask (gateway_request a req heuristic)) base there
      refl h

-- Whatever the gateway answers, `SuperlinkedAnalyzer.Analyze` answers where its fallback does: with the
-- fallback's result and a note, or, after an answer of its gateway to the request, with the query of the rules,
-- which it narrows by at most one filter, on the first candidates of that answer up to the cap, and only for a
-- question that needs no clarification and with the confidence that the gate asks for.
pub analyze_superlinked-Outcome :
    (a : SuperlinkedAnalyzer) (asked : AnalyzeRequest) (base : AnalyzeResult)
    → a.fallback.analyze none (with_default_version asked) ≡ ok base
    → (res : AnalyzeResult) × (analyze_superlinked a asked ≡ ok res)
      × (FellBack a base res
          ⊎ Narrowed a
              (with_default_version asked)
              (a.framer.frame asked.message (default_version asked) asked.resource_hint)
              res)
unfolding analyze_superlinked
analyze_superlinked-Outcome a asked base h =
    let req = with_default_version asked in
    with_gateway-Outcome a req (a.framer.frame req.message req.contract_version req.resource_hint)
      a.gateway base refl h

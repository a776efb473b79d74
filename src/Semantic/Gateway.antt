-- ===== src/Semantic/Gateway.antt =====
-- internal/semantic/superlinked_gateway.go: candidates from a service behind HTTP. What the exchange gives is
-- a parameter. The floating-point numbers of the service are in hundredths.
use permission_aware_search.Common.{
  leb, eqb, ◌==◌, if◌then◌else◌, Result, ok, err, length, take, ℕ, zero, suc, min, String, not,
  ◌&&◌, ◌||◌, Option, none, some, List, [], ◌∷◌, ◌++◌,
}
use permission_aware_search.Common.Int.{le_zero, to_ℕ, lt_ℤ, ℤ, pos, negsuc}
use permission_aware_search.Strings.{◌+++◌, trim_space, to_lower, trim_right_of}
use permission_aware_search.Strings.Numbers.{format_ℕ}
use permission_aware_search.Json.{Value, null, boolean, num, str, arr, obj, Values, nil, cons}
use permission_aware_search.Store.{Filter}
use permission_aware_search.Semantic.Remote.{dedupe_strings}

pub record GatewayRequest : Type 0 where
  pub tenant_id : String
  pub message : String
  pub contract_version : String
  pub resource_hint : String
  pub intent_category : String
  pub top_k : ℤ

pub record GatewayResponse : Type 0 where
  pub candidate_ids : List String
  pub scores : List ℕ
  pub provider_confidence : ℕ
  pub safe_evidence : List String
  pub provider_latency_ms : ℤ
  pub model_version : String
  pub index_version : String

-- The decoded answer. `query` has the filters of the older shape, if they are there and decoded.
pub record GatewayHttpResponse : Type 0 where
  pub candidate_ids : List String
  pub scores : List ℤ
  pub provider_confidence : ℤ
  pub safe_evidence : List String
  pub provider_latency_ms : ℤ
  pub model_version : String
  pub index_version : String
  pub query : Option (List Filter)
  pub confidence : ℤ

-- what comes of a request over HTTP, with the time that it took
pub data Exchange : Type 0 where
  not_sent : String → Exchange
  timed_out : String → Exchange
  with_status : ℕ → ℤ → Result GatewayHttpResponse → Exchange

pub record HttpSuperlinkedGateway : Type 0 where
  pub endpoint : String
  pub max_candidates : ℤ
  pub exchange : GatewayRequest → Exchange

-- `NewHTTPSuperlinkedGateway`
unfoldable pub new_http_superlinked_gateway :
    String → ℤ → (GatewayRequest → Exchange) → HttpSuperlinkedGateway
unfolding trim_right_of
new_http_superlinked_gateway endpoint max_candidates exchange = record {
  endpoint = trim_right_of "/" endpoint;
  max_candidates = if le_zero max_candidates then pos 100 else max_candidates;
  exchange = exchange;
}

-- `clamp01`
unfoldable pub clamp01 : ℤ → ℕ
clamp01 (negsuc n) = 0
clamp01 (pos n) = min n 100

-- the texts of a list of JSON values that are not blank
abbrev pub texts_of : Values → List String
texts_of nil = []
texts_of (cons (str s) vs) =
    let rest = texts_of vs in if trim_space s == "" then rest else trim_space s ∷ rest
texts_of (cons null vs) = texts_of vs
texts_of (cons (boolean b) vs) = texts_of vs
texts_of (cons (num n) vs) = texts_of vs
texts_of (cons (arr ws) vs) = texts_of vs
texts_of (cons (obj fs) vs) = texts_of vs

abbrev pub ids_of_value : Value → List String
ids_of_value (arr vs) = texts_of vs
ids_of_value null = []
ids_of_value (boolean b) = []
ids_of_value (num n) = []
ids_of_value (str s) = []
ids_of_value (obj fs) = []

-- `extractIDsFromFilters`
unfoldable pub extract_ids_from_filters : List Filter → List String
unfolding to_lower trim_space
extract_ids_from_filters [] = []
extract_ids_from_filters (f ∷ filters) =
    let rest = extract_ids_from_filters filters in
    if not (f.field == "id") || not (to_lower f.op == "in")
    then rest
    else ids_of_value f.value ++ rest

-- the loop over `i < n` that reads `in.Scores[i]`; `none` where an index is out of range
unfoldable pub clamped_scores : ℕ → List ℤ → Option (List ℕ)
unfolding clamp01
clamped_scores zero scores = some []
clamped_scores (suc n) [] = none
clamped_scores (suc n) (s ∷ scores) = elim (clamped_scores n scores) [
  | none ↦ none
  | some rest ↦ some (clamp01 s ∷ rest)
]

-- `range` over the candidates, where the service has no scores
unfoldable pub same_scores : ℕ → List String → List ℕ
same_scores confidence [] = []
same_scores confidence (id ∷ ids) = confidence ∷ same_scores confidence ids

abbrev pub scores_for : GatewayHttpResponse → List String → Option (List ℕ)
scores_for answer ids =
    if eqb (length answer.scores) 0
    then some (same_scores (clamp01 answer.provider_confidence) ids)
    else clamped_scores (length ids) answer.scores

abbrev pub response_with :
    GatewayHttpResponse → List String → Option (List ℕ) → Result GatewayResponse
response_with answer ids none = err "panic: index out of range"
response_with answer ids (some scores) = ok (record {
  candidate_ids = ids;
  scores = scores;
  provider_confidence = clamp01 answer.provider_confidence;
  safe_evidence = dedupe_strings answer.safe_evidence;
  provider_latency_ms = answer.provider_latency_ms;
  model_version = trim_space answer.model_version;
  index_version = trim_space answer.index_version;
})

-- `normalize`; its loop over the candidates is that of `dedupeStrings`
unfoldable pub normalize : ℕ → GatewayHttpResponse → Result GatewayResponse
unfolding dedupe_strings clamp01 clamped_scores same_scores trim_space
normalize max_candidates answer =
    let candidates = dedupe_strings answer.candidate_ids in
    let ids = take max_candidates candidates in
    if eqb (length candidates) 0
    then err "superlinked invalid provider payload: empty candidateIds"
    else if not (eqb (length answer.scores) 0)
        && not (eqb (length answer.scores) (length answer.candidate_ids))
    then err "superlinked invalid provider payload: scores length mismatch"
    else response_with answer ids (scores_for answer ids)

-- the fields that the answer leaves to the caller, and the candidates of the older shape
unfoldable pub completed_answer : ℤ → GatewayHttpResponse → GatewayHttpResponse
unfolding extract_ids_from_filters
completed_answer elapsed answer = record answer {
  provider_latency_ms =
      if le_zero answer.provider_latency_ms then elapsed else answer.provider_latency_ms;
  provider_confidence =
      if le_zero answer.provider_confidence && not (le_zero answer.confidence)
      then answer.confidence
      else answer.provider_confidence;
  candidate_ids =
      if eqb (length answer.candidate_ids) 0
      then (elim answer.query [
        | none ↦ answer.candidate_ids
        | some filters ↦ extract_ids_from_filters filters
      ])
      else answer.candidate_ids;
}

abbrev pub after_exchange : ℕ → Exchange → Result GatewayResponse
after_exchange max_candidates (not_sent e) = err ("superlinked request failed: " +++ e)
after_exchange max_candidates (timed_out e) = err ("superlinked request timed out: " +++ e)
after_exchange max_candidates (with_status status elapsed (err e)) =
    if leb 300 status
    then err ("superlinked returned non-success status: status=" +++ format_ℕ status)
    else err ("superlinked response decode failed: " +++ e)
after_exchange max_candidates (with_status status elapsed (ok answer)) =
    if leb 300 status
    then err ("superlinked returned non-success status: status=" +++ format_ℕ status)
    else normalize max_candidates (completed_answer elapsed answer)

abbrev pub asked_top_k : ℤ → ℤ → ℤ
asked_top_k max_candidates top_k =
    if le_zero top_k
    then max_candidates
    else if lt_ℤ max_candidates top_k
    then max_candidates
    else top_k

-- `HTTPSuperlinkedGateway.Analyze`
unfoldable pub analyze_at_gateway : HttpSuperlinkedGateway → GatewayRequest → Result GatewayResponse
unfolding normalize completed_answer format_ℕ
analyze_at_gateway g req =
    if g.endpoint == ""
    then err "superlinked request failed: endpoint is empty"
    else after_exchange (to_ℕ g.max_candidates)
        (g.exchange (record req { top_k = asked_top_k g.max_candidates req.top_k }))

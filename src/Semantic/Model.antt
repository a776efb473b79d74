-- ===== src/Semantic/Model.antt =====
-- internal/semantic/analyzer_slm_local.go: what the language model is asked and answers.
use permission_aware_search.Common.{
  ltb, eqb, ◌==◌, if◌then◌else◌, ℕ, ◌/◌, ◌%◌, String, Bool, ◌||◌, Option, none, some, List, [], ◌∷◌,
}
use permission_aware_search.Strings.{◌+++◌}
use permission_aware_search.Strings.Numbers.{format_ℕ, itoa}
use permission_aware_search.Json.{
  Value, boolean, num, str, arr, obj, Values, nil, cons, Fields, end, field,
}
use permission_aware_search.Store.{Filter, QueryDsl}
use permission_aware_search.Semantic.{AnalyzeRequest, AnalyzeResult}
use permission_aware_search.Semantic.Framing.{empty_result}

-- the JSON object that the model answers with
pub record Answer : Type 0 where
  pub intent : String
  pub intent_category : String
  pub intent_subcategory : String
  pub resource_type : String
  pub confidence : ℕ
  pub clarification_needed : Bool
  pub safe_evidence : List String
  pub query : QueryDsl

-- The model behind its endpoint: what it answers to the prompt for a request, and to the prompt that asks
-- for a repair of an answer with its errors; `none` where the call fails or the answer is not decoded.
pub record Model : Type 0 where
  pub endpoint : String
  pub model : String
  pub generate : AnalyzeRequest → Option Answer
  pub regenerate : AnalyzeRequest → Option Value → List String → Option Answer

abbrev pub result_of : Option Answer → Option AnalyzeResult
result_of none = none
result_of (some r) = some (record empty_result {
  query = r.query;
  intent = r.intent;
  intent_category = r.intent_category;
  intent_subcategory = r.intent_subcategory;
  resource_type = r.resource_type;
  confidence = r.confidence;
  clarification_needed = r.clarification_needed;
  safe_evidence = r.safe_evidence;
})

abbrev pub is_off : Model → Bool
is_off m = m.endpoint == "" || m.model == ""

-- `tryRemoteSLM`
unfoldable pub try_remote_slm : Model → AnalyzeRequest → Option AnalyzeResult
try_remote_slm m req = if is_off m then none else result_of (m.generate req)

-- `tryRepairRemoteSLM`
unfoldable pub try_repair_remote_slm :
    Model → AnalyzeRequest → Option Value → List String → Option AnalyzeResult
try_repair_remote_slm m req previous errors =
    if is_off m then none else result_of (m.regenerate req previous errors)

abbrev pub values_of : List String → Values
values_of [] = nil
values_of (s ∷ texts) = cons (str s) (values_of texts)

abbrev pub filter_values : List Filter → Values
filter_values [] = nil
filter_values (f ∷ filters) =
    cons (obj (field "field" (str f.field) (field "op" (str f.op) (field "value" f.value end))))
      (filter_values filters)

-- a number of hundredths
unfoldable pub decimal : ℕ → String
unfolding format_ℕ
decimal n =
    let whole = format_ℕ (n / 100) in
    if eqb (n % 100) 0
    then whole
    else if eqb (n % 10) 0
    then whole +++ "." +++ format_ℕ (n % 100 / 10)
    else if ltb (n % 100) 10
    then whole +++ ".0" +++ format_ℕ (n % 100)
    else whole +++ "." +++ format_ℕ (n % 100)

-- the fields of a query behind its contract version and its intent
abbrev pub query_fields : QueryDsl → Fields
query_fields q =
    let page = field "limit" (num (itoa q.page.limit)) (field "cursor" (str q.page.cursor) end) in
    let sort = field "field" (str q.sort.field) (field "dir" (str q.sort.dir) end) in
    field "filters" (arr (filter_values q.filters))
      (field "sort" (obj sort) (field "page" (obj page) end))

-- the JSON of a `QueryDSL`
unfoldable pub query_value : QueryDsl → Value
unfolding itoa
query_value q =
    let later = query_fields q in
    obj (
      field "contractVersion" (str q.contract_version) (
        if q.intent_category == ""
        then later
        else field "intentCategory" (str q.intent_category) later))

-- `asRawRemote`, with the keys in the order that a map is printed in
unfoldable pub as_raw_remote : AnalyzeResult → Value
unfolding query_value decimal
as_raw_remote res = obj (
    field "clarificationNeeded" (boolean res.clarification_needed) (
      field "confidence" (num (decimal res.confidence)) (
        field "intent" (str res.intent) (
          field "intentCategory" (str res.intent_category) (
            field "intentSubcategory" (str res.intent_subcategory) (
              field "query" (query_value res.query) (
                field "resourceType" (str res.resource_type)
                  (field "safeEvidence" (arr (values_of res.safe_evidence)) end))))))))

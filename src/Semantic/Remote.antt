-- ===== src/Semantic/Remote.antt =====
-- internal/semantic/analyzer_slm_local.go: the checks on what a language model has answered.
use permission_aware_search.Common.Int.{pos, le_zero}
use permission_aware_search.Common.{
  ◌==◌, if◌then◌else◌, Result, ok, err, mem, String, Bool, not, ◌&&◌, ◌||◌, Option, List, [], ◌∷◌,
  ◌++◌,
}
use permission_aware_search.Strings.{◌+++◌, trim_space, to_lower}
use permission_aware_search.Schema.Registry.{Registry}
use permission_aware_search.Contracts.{
  intent_default, intent_wismo, intent_crm_profile, intent_returns_refunds, validate_field,
}
use permission_aware_search.Store.{Filter}
use permission_aware_search.Semantic.{AnalyzeResult}

-- the loop of `dedupeStrings`, with the texts seen so far
unfoldable pub dedupe_from : List String → List String → List String
unfolding trim_space mem
dedupe_from [] seen = []
dedupe_from (v ∷ texts) seen =
    let skipped = dedupe_from texts seen in
    let kept = dedupe_from texts (trim_space v ∷ seen) in
    if trim_space v == "" || mem (trim_space v) seen then skipped else trim_space v ∷ kept

-- `dedupeStrings`
unfoldable pub dedupe_strings : List String → List String
unfolding dedupe_from
dedupe_strings texts = dedupe_from texts []

abbrev pub report : Bool → String → List String
report bad message = if bad then message ∷ [] else []

abbrev pub error_of : Result (Unit {0}) → List String
error_of (ok x) = []
error_of (err message) = message ∷ []

abbrev pub is_valid_intent : String → Bool
is_valid_intent intent =
    intent == intent_default
    || intent == intent_wismo
    || intent == intent_crm_profile
    || intent == intent_returns_refunds

abbrev pub is_valid_op : String → Bool
is_valid_op op =
    op == "eq"
    || op == "neq"
    || op == "gt"
    || op == "gte"
    || op == "lt"
    || op == "lte"
    || op == "like"
    || op == "in"

-- the result with the fields that are blank filled in
unfoldable pub fill_blanks : AnalyzeResult → String → AnalyzeResult
fill_blanks res contract_version =
    let version =
      if res.query.contract_version == "" then contract_version else res.query.contract_version in
    let query_intent =
      if res.query.intent_category == "" then res.intent_category else res.query.intent_category in
    record res {
      query = record (res.query) {
        contract_version = version;
        intent_category = query_intent;
        page =
            if le_zero res.query.page.limit
            then record (res.query.page) { limit = pos 20 }
            else res.query.page;
      };
      intent_category = if res.intent_category == "" then query_intent else res.intent_category;
    }

-- no field is looked up while one of these is blank
abbrev pub is_checkable : AnalyzeResult → Bool
is_checkable res =
    not (res.resource_type == "" || res.intent_category == "" || res.query.contract_version == "")

abbrev pub check_field : Option Registry → AnalyzeResult → String → List String
check_field reg res name =
    if is_checkable res
    then error_of
        (validate_field reg res.resource_type res.query.contract_version res.intent_category name)
    else []

unfoldable pub filter_errors : Option Registry → AnalyzeResult → List Filter → List String
unfolding to_lower validate_field
filter_errors reg res [] = []
filter_errors reg res (f ∷ filters) =
    report (not (is_valid_op (to_lower f.op))) ("invalid operator for field " +++ f.field)
    ++ (check_field reg res f.field ++ filter_errors reg res filters)

-- the errors of a result that has been filled in; `intent` is what it had before
unfoldable pub remote_errors : Option Registry → String → AnalyzeResult → List String
unfolding filter_errors
remote_errors reg intent res =
    let sort_errors =
      if res.query.sort.field == "" then [] else check_field reg res res.query.sort.field in
    let odd =
      (res.intent_category == intent_wismo || res.intent_category == intent_returns_refunds)
      && res.resource_type == "customer" in
    report (not (res.resource_type == "order" || res.resource_type == "customer"))
      "invalid resourceType"
    ++ (report (not (is_valid_intent intent)) "invalid intentCategory"
        ++ (report (not (res.query.intent_category == res.intent_category))
              "query intentCategory mismatch"
            ++ (filter_errors reg res res.query.filters
                ++ (sort_errors ++ report odd "resource-intent inconsistency"))))

-- `validateRemoteResult`
unfoldable pub validate_remote_result :
    Option Registry → AnalyzeResult → String → AnalyzeResult × List String
unfolding fill_blanks remote_errors dedupe_strings
validate_remote_result reg res contract_version =
    let filled = fill_blanks res contract_version in
    (filled, dedupe_strings (remote_errors reg res.intent_category filled))

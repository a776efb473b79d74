-- ===== src/Semantic/Local.antt =====
-- internal/semantic/analyzer_slm_local.go: the analyzer that asks a language model, has its answer checked
-- and repaired, and falls back to the rules.
use permission_aware_search.Common.{
  ◌==◌, if◌then◌else◌, Result, ok, ◌+◌, min, String, Bool, true, false, not, ◌&&◌, ◌||◌, Option,
  none, some, List, [], ◌∷◌, ◌++◌,
}
use permission_aware_search.Strings.{trim_space, to_lower, equal_fold}
use permission_aware_search.Json.{Value}
use permission_aware_search.Json.Sprint.{sprint}
use permission_aware_search.Schema.Registry.{Registry}
use permission_aware_search.Contracts.{intent_wismo, normalize_field_name}
use permission_aware_search.Store.{Filter}
use permission_aware_search.Semantic.{AnalyzeRequest, AnalyzeResult}
use permission_aware_search.Semantic.Merging.{append_unique, source_for_filters}
use permission_aware_search.Semantic.Remote.{dedupe_strings, validate_remote_result}
use permission_aware_search.Semantic.Framing.{default_version, framed, Framer}
use permission_aware_search.Semantic.Model.{
  try_remote_slm, try_repair_remote_slm, as_raw_remote, Model,
}
use permission_aware_search.Parser.Cues.{has_not_shipped_cue}
use permission_aware_search.Parser.Filters.{apply_not_shipped_filters}

-- a filter that says that the order was shipped, delivered or made ready
abbrev pub says_shipped : String → Filter → Bool
says_shipped name f =
    let state = trim_space (sprint f.value) in
    name == "shipment.state"
    && equal_fold f.op "eq"
    && (equal_fold state "Shipped" || equal_fold state "Delivered" || equal_fold state "Ready")

-- the loop of `applyMessageGuardrails`
unfoldable pub drop_shipped : Option Registry → List Filter → List Filter
unfolding normalize_field_name trim_space equal_fold sprint
drop_shipped reg [] = []
drop_shipped reg (f ∷ filters) =
    let name = normalize_field_name reg "order" f.field in
    let rest = drop_shipped reg filters in
    if says_shipped name f then rest else record f { field = name } ∷ rest

abbrev pub is_guarded : String → AnalyzeResult → Bool
is_guarded message res =
    let lower = to_lower (trim_space message) in
    not (lower == "")
    && not (not (res.resource_type == "order") || not (res.intent_category == intent_wismo))
    && has_not_shipped_cue lower

-- `applyMessageGuardrails`
unfoldable pub apply_message_guardrails : Option Registry → String → AnalyzeResult → AnalyzeResult
unfolding to_lower trim_space has_not_shipped_cue drop_shipped apply_not_shipped_filters
    append_unique
apply_message_guardrails reg message res =
    if is_guarded message res
    then record res {
      query = record (res.query) {
        filters = apply_not_shipped_filters reg (drop_shipped reg res.query.filters);
      };
      safe_evidence = append_unique res.safe_evidence ("guardrail:not_shipped" ∷ []);
      notes = append_unique res.notes ("guardrail_not_shipped_enforced" ∷ []);
    }
    else res

pub record LocalAnalyzer : Type 0 where
  pub registry : Option Registry
  pub framer : Framer
  pub model : Model

module _ (a : LocalAnalyzer) where
  -- the answer by rules, before it is guarded
  abbrev pub by_rules : AnalyzeRequest → AnalyzeResult
  by_rules req =
      let rewritten = a.framer.normalize req.message in
      let parsed = a.framer.frame rewritten (default_version req) req.resource_hint in
      record (framed req.message parsed) {
        rewritten_message = rewritten;
        confidence = min (parsed.confidence + 5) 98;
        provider = "slm-local";
        notes = "query_rewrite_applied" ∷ "slm_remote_fallback" ∷ [];
      }

  -- the queries of a result as they stand, and where its filters come from
  abbrev pub settled : AnalyzeResult → AnalyzeResult
  settled res = record res {
    pre_semantic_query = some res.query;
    post_semantic_query = some res.query;
    final_validated_query = some res.query;
    filter_source = source_for_filters res.query.filters "slm-local";
  }

  unfoldable pub fallback_result : AnalyzeRequest → AnalyzeResult
  unfolding apply_message_guardrails source_for_filters
  fallback_result req = settled (apply_message_guardrails a.registry req.message (by_rules req))

  -- the first answer of the model, with what the analyzer knows of the request
  abbrev pub completed : AnalyzeRequest → AnalyzeResult → AnalyzeResult
  completed req remote =
      let rewritten = a.framer.normalize req.message in
      let parsed = a.framer.frame rewritten (default_version req) req.resource_hint in
      record remote {
        provider = "slm-local";
        original_message = req.message;
        rewritten_message = rewritten;
        normalized_input = parsed.normalized_input;
        normalization_applied = parsed.normalization_applied;
        extracted_slots = some parsed.extracted_slots;
      }

  -- a checked answer: the answer, its raw form, its errors, all errors so far and whether it was repaired
  pub record Checked : Type 0 where
    pub normalized : AnalyzeResult
    pub raw : Option Value
    pub errors : List String
    pub all_errors : List String
    pub repaired : Bool

  abbrev pub check : AnalyzeRequest → AnalyzeResult → Checked
  check req remote =
      let (normalized, errors) = validate_remote_result a.registry remote (default_version req) in
      record {
        normalized = normalized;
        raw = some (as_raw_remote remote);
        errors = errors;
        all_errors = errors;
        repaired = false;
      }

  abbrev pub check_again : AnalyzeRequest → Checked → Option AnalyzeResult → Checked
  check_again req c none = c
  check_again req c (some answer) =
      let again = check req answer in
      record again { all_errors = c.all_errors ++ again.errors; repaired = true }

  -- An answer with these errors is repaired once. The repaired answer is not completed.
  unfoldable pub repair_errors : AnalyzeRequest → Checked → List String → Checked
  unfolding validate_remote_result try_repair_remote_slm as_raw_remote
  repair_errors req c [] = c
  repair_errors req c (e ∷ errors) =
      check_again req c (try_repair_remote_slm a.model req c.raw (e ∷ errors))

  abbrev pub repaired_once : AnalyzeRequest → Checked → Checked
  repaired_once req c = repair_errors req c c.errors

  abbrev pub rejected : AnalyzeRequest → Checked → AnalyzeResult
  rejected req c =
      let fallback = fallback_result req in
      record fallback {
        notes = fallback.notes ++ "slm_remote_invalid_fallback" ∷ [];
        slm_raw = c.raw;
        validation_errors = dedupe_strings c.all_errors;
        repaired = c.repaired;
        final_validated_query = some fallback.query;
      }

  -- an answer without errors; the note of a repair is lost with the copy that it was written to
  abbrev pub accepted : AnalyzeRequest → Checked → AnalyzeResult
  accepted req c =
      let guarded = apply_message_guardrails a.registry req.message c.normalized in
      settled (record guarded {
        notes = guarded.notes ++ "slm_remote_used" ∷ "loopback_validated" ∷ [];
        slm_raw = c.raw;
        validation_errors = dedupe_strings c.all_errors;
        repaired = c.repaired;
      })

  unfoldable pub served : AnalyzeRequest → Checked → AnalyzeResult
  unfolding fallback_result apply_message_guardrails dedupe_strings source_for_filters
  served req c = elim c.errors [ [] ↦ accepted req c | e ∷ es ↦ rejected req c ]

  -- `SLMLocalAnalyzer.Analyze`
  unfoldable pub analyze_locally : AnalyzeRequest → Result AnalyzeResult
  unfolding try_remote_slm as_raw_remote repair_errors served fallback_result validate_remote_result
  analyze_locally request =
      let req = record request { contract_version = default_version request } in
      elim (try_remote_slm a.model req) [
        | none ↦ ok (fallback_result req)
        | some remote ↦ ok (served req (repaired_once req (check req (completed req remote))))
      ]

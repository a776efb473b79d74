-- ===== src/Http/Flow.antt =====
-- internal/http/server.go: the stages that a response tells under "debug".
use permission_aware_search.Common.{
  ◌==◌, if◌then◌else◌, any, String, Bool, Option, none, some, List, [], ◌∷◌, ◌++◌,
}
use permission_aware_search.Strings.{◌+++◌, has_prefix, trim_prefix}
use permission_aware_search.Http.{ok_stage, Stage}

-- `hasSemanticNote`
abbrev pub has_semantic_note : List String → String → Bool
has_semantic_note notes expected = any (λ n. n == expected) notes

abbrev pub fallback_prefix : String
fallback_prefix = "superlinked_gated_fallback:"

-- `superlinkedFallbackReason`; `none` where its second result is false
unfoldable pub superlinked_fallback_reason : List String → Option String
unfolding trim_prefix
superlinked_fallback_reason [] = none
superlinked_fallback_reason (n ∷ notes) =
    if has_prefix n fallback_prefix
    then some (trim_prefix n fallback_prefix)
    else superlinked_fallback_reason notes

abbrev pub warning_stage : String → Stage
warning_stage stage = record { stage = stage; status = "warning" }

abbrev pub gateway_stages : List String → List Stage
gateway_stages notes =
    if has_semantic_note notes "superlinked_gateway_ok"
    then ok_stage "superlinked_gateway_called" ∷ []
    else []

unfoldable pub refinement_stages : List String → List Stage
unfolding superlinked_fallback_reason
refinement_stages notes = elim (superlinked_fallback_reason notes) [
  | some reason ↦
      warning_stage "superlinked_serving_gate"
      ∷ warning_stage "semantic_refinement_completed"
      ∷ warning_stage ("semantic_fallback_reason:" +++ reason)
      ∷ []
  | none ↦
      if has_semantic_note notes "superlinked_served"
      then ok_stage "superlinked_serving_gate" ∷ ok_stage "semantic_refinement_completed" ∷ []
      else ok_stage "semantic_refinement_completed" ∷ []
]

-- `buildSemanticDebugFlow`
unfoldable pub build_semantic_debug_flow : List String → Bool → List Stage
unfolding refinement_stages
build_semantic_debug_flow notes clarification =
    (ok_stage "ingress" ∷ ok_stage "auth_subject_built" ∷ ok_stage "rewrite_completed" ∷ [])
    ++ gateway_stages notes
    ++ refinement_stages notes
    ++ (if clarification
        then ok_stage "clarification_required" ∷ []
        else ok_stage "datastore_search"
          ∷ ok_stage "policy_filter"
          ∷ ok_stage "response_composed"
          ∷ [])

-- the stages of a plain search
abbrev pub search_flow : List Stage
search_flow =
    ok_stage "ingress"
    ∷ ok_stage "auth_subject_built"
    ∷ ok_stage "contract_validation"
    ∷ ok_stage "datastore_search"
    ∷ ok_stage "policy_filter"
    ∷ ok_stage "response_composed"
    ∷ []

-- the stages of the lookups
abbrev pub lookup_flow : List Stage
lookup_flow =
    ok_stage "ingress"
    ∷ ok_stage "auth_subject_built"
    ∷ ok_stage "identifier_detection_completed"
    ∷ ok_stage "identifier_parallel_lookup_completed"
    ∷ ok_stage "grouped_resolution_composed"
    ∷ []

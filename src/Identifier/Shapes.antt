-- ===== src/Identifier/Shapes.antt =====
-- What the shape of `AnalyzeQuery` says of the input, and when the analyzers are skipped.
use permission_aware_search.Common.{
  leb, eqb, ◌==◌, if◌then◌else◌, Bool-cases, length, ◌*◌, String, len, ◌≡◌, refl, ◌⊎◌, inl, inr,
  Bool, true, false, not, ◌&&◌, ◌||◌, Option, List,
}
use permission_aware_search.Common.Int.{lt_ℤ, pos}
use permission_aware_search.Strings.{trim_space, to_lower, contains}
use permission_aware_search.Strings.Words.{fields}
use permission_aware_search.Identifier.{DetectedIdentifier}
use permission_aware_search.Identifier.Patterns.{PatternRegistry}
use permission_aware_search.Identifier.Detect.{detect_with_registry, has_typed_identifier}
use permission_aware_search.Identifier.Shape.{
  shape_empty, shape_typeahead, shape_identifier, shape_contact, shape_keyword_phrase,
  shape_sentence, shape_unsupported, normalize_input, has_typed_contact, is_likely_id_prefix,
  has_email_prefix, is_unsupported_domain, contains_verb_tokens, re_letters_space, or_default,
  classify_short, classify_shape, skips, analyze_query, QueryShapeThresholds, QueryAnalysis,
}
use permission_aware_search.Regex.{match_string}

-- the shape is a known one, and it fits whether a contact or a typed identifier was detected
abbrev Fits : Bool → Bool → String → Type 0
Fits contact typed shape =
    ((shape == shape_contact && not contact) ≡ false)
    × ((shape == shape_identifier && not typed) ≡ false)
    × ((skips shape || shape == shape_sentence || shape == shape_keyword_phrase) ≡ true)

shapes-Fits :
    (blank short contact typed wordless long few : Bool) (rest : String)
    → Fits contact typed rest
    → Fits contact typed (
        if blank
        then shape_empty
        else if short
        then shape_typeahead
        else if contact
        then shape_contact
        else if typed
        then shape_identifier
        else if wordless
        then shape_empty
        else if long
        then shape_sentence
        else if few
        then rest
        else shape_sentence)
shapes-Fits true s c i w l f rest h = (refl, refl, refl)
shapes-Fits false true c i w l f rest h = (refl, refl, refl)
shapes-Fits false false true i w l f rest h = (refl, refl, refl)
shapes-Fits false false false true w l f rest h = (refl, refl, refl)
shapes-Fits false false false false true l f rest h = (refl, refl, refl)
shapes-Fits false false false false false true f rest h = (refl, refl, refl)
shapes-Fits false false false false false false true rest h = h
shapes-Fits false false false false false false false rest h = (refl, refl, refl)

short-Fits :
    (contact typed prefix verb phrase : Bool)
    → Fits contact typed (
        if prefix
        then shape_typeahead
        else if verb
        then shape_sentence
        else if phrase
        then shape_keyword_phrase
        else shape_typeahead)
short-Fits c i true v p = (refl, refl, refl)
short-Fits c i false true p = (refl, refl, refl)
short-Fits c i false false true = (refl, refl, refl)
short-Fits c i false false false = (refl, refl, refl)

abbrev FitsTo : List DetectedIdentifier → String → Type 0
FitsTo detected shape = Fits (has_typed_contact detected) (has_typed_identifier detected) shape

classify_short-FitsTo :
    (trimmed : String) (tokens : List String) (t : QueryShapeThresholds)
    (detected : List DetectedIdentifier)
    → FitsTo detected (classify_short trimmed tokens t)
unfolding classify_short
classify_short-FitsTo trimmed tokens t detected =
    short-Fits (has_typed_contact detected) (has_typed_identifier detected)
      (has_email_prefix trimmed (or_default t.email_prefix_min_len 3)
        || is_likely_id_prefix trimmed (or_default t.id_prefix_min_len 2))
      (contains_verb_tokens tokens)
      (leb 2 (length tokens)
        && leb (or_default t.generic_prefix_min_len 3 * 2) (len trimmed)
        && match_string re_letters_space trimmed)

classify_shape-FitsTo :
    (normalized : String) (detected : List DetectedIdentifier) (t : QueryShapeThresholds)
    → FitsTo detected (classify_shape normalized detected t)
unfolding classify_shape
classify_shape-FitsTo normalized detected t =
    let trimmed = trim_space normalized in
    let tokens = fields (to_lower trimmed) in
    shapes-Fits (trimmed == "") (leb (len trimmed) (or_default t.short_no_op_len 2))
      (has_typed_contact detected) (has_typed_identifier detected) (eqb (length tokens) 0)
      (leb 4 (length tokens) && (contains_verb_tokens tokens || contains trimmed "?"))
      (leb (length tokens) 3) (classify_short trimmed tokens t)
      (classify_short-FitsTo trimmed tokens t detected)

-- what is true of every analysis
pub record IsAnalysis (t : QueryShapeThresholds) (a : QueryAnalysis) : Type 0 where
  pub fits : FitsTo a.detected a.query_shape
  pub asked :
      (a.should_skip_semantic ≡ true)
      ⊎ (((a.query_shape == shape_sentence || a.query_shape == shape_keyword_phrase) ≡ true)
          × (lt_ℤ t.short_no_op_len (pos (len a.normalized_input)) ≡ true))

unsupported-FitsTo :
    (detected : List DetectedIdentifier) (unsupported : Bool) (shape : String)
    → FitsTo detected shape
    → FitsTo detected (if unsupported then shape_unsupported else shape)
unsupported-FitsTo detected true shape h = (refl, refl, refl)
unsupported-FitsTo detected false shape h = h

skips-asked :
    (shape : String) (long : Bool)
    → (skips shape || shape == shape_sentence || shape == shape_keyword_phrase) ≡ true
    → ((if not long then true else skips shape) ≡ true)
      ⊎ (((shape == shape_sentence || shape == shape_keyword_phrase) ≡ true) × (long ≡ true))
skips-asked shape false h = inl refl
skips-asked shape true h = elim (Bool-cases (skips shape)) [
  | inl skipped ↦ inl skipped
  | inr asked ↦ inr (rw asked at h, refl)
]

-- An analysis tells to skip the analyzers for all but sentences and phrases that are longer than the
-- threshold, although `handleQueryInterpret` does not look at that. An input is
-- taken for a contact or an identifier only where one was detected, and the shape is one of the seven.
pub analyze_query-IsAnalysis :
    (input tenant_id : String) (registry : Option PatternRegistry) (t : QueryShapeThresholds)
    → IsAnalysis t (analyze_query input tenant_id registry t)
unfolding analyze_query
analyze_query-IsAnalysis input tenant_id registry t =
    let normalized = (normalize_input input).0 in
    let detected = (detect_with_registry normalized tenant_id registry).0 in
    let first = classify_shape normalized detected t in
    let unsupported =
      is_unsupported_domain normalized
      && not (first == shape_identifier)
      && not (first == shape_contact) in
    let shape = if unsupported then shape_unsupported else first in
    let fits =
      unsupported-FitsTo detected unsupported first (classify_shape-FitsTo normalized detected t) in
    record {
      fits = fits;
      asked = skips-asked shape (lt_ℤ t.short_no_op_len (pos (len normalized))) (fits.2);
    }

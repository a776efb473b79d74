-- ===== src/Identifier/Shape.antt =====
-- internal/identifier/query_shape.go: the shape of an input, and whether the analyzers are skipped for it.
use permission_aware_search.Common.{
  leb, eqb, ◌==◌, if◌then◌else◌, length, any, keep, mem, ℕ, ◌*◌, String, len, Bool, true, false,
  not, ◌&&◌, ◌||◌, Option, none, some, List, [], ◌∷◌, ◌++◌,
}
use permission_aware_search.Common.Int.{le_zero, to_ℕ, lt_ℤ, ℤ, pos}
use permission_aware_search.Strings.{trim_space, to_lower, to_upper, contains, has_prefix}
use permission_aware_search.Strings.Words.{fields}
use permission_aware_search.Regex.{
  is_letter, is_blank, match_string, plus, Re, class, seq, start, finish,
}
use permission_aware_search.Identifier.{type_email, type_phone, DetectedIdentifier}
use permission_aware_search.Identifier.Patterns.{PatternRegistry}
use permission_aware_search.Identifier.Detect.{detect_with_registry, has_typed_identifier, verbs}
use permission_aware_search.Semantic.Merging.{first_of_each}
use permission_aware_search.Parser.Normalize.{Noted, unwrap, strip_noise, collapse_spaces}
use Prim.Native.Char.{code}
use Prim.Native.String.{find as index}

abbrev pub shape_empty : String
shape_empty = "empty"

abbrev pub shape_typeahead : String
shape_typeahead = "typeahead_prefix"

abbrev pub shape_identifier : String
shape_identifier = "identifier_token"

abbrev pub shape_contact : String
shape_contact = "contact_lookup"

abbrev pub shape_keyword_phrase : String
shape_keyword_phrase = "keyword_phrase"

abbrev pub shape_sentence : String
shape_sentence = "sentence_nl"

abbrev pub shape_unsupported : String
shape_unsupported = "unsupported_domain"

pub record QueryShapeThresholds : Type 0 where
  pub short_no_op_len : ℤ
  pub generic_prefix_min_len : ℤ
  pub id_prefix_min_len : ℤ
  pub email_prefix_min_len : ℤ

pub record QueryAnalysis : Type 0 where
  pub original_input : String
  pub normalized_input : String
  pub normalization_applied : List String
  pub query_shape : String
  pub detected : List DetectedIdentifier
  pub identifier_pattern_matched : String
  pub should_skip_semantic : Bool

-- `dedupeStringSlice`
unfoldable pub dedupe_string_slice : List String → List String
unfolding first_of_each
dedupe_string_slice texts = first_of_each (λ s. s) (keep (λ s. not (s == "")) texts) []

-- the last steps of `NormalizeInput`: the text keeps its case, and it is told whether it has any
unfoldable pub settle_input : Noted → Noted
unfolding trim_space to_lower dedupe_string_slice
settle_input (n, applied) =
    let text = trim_space n in
    let noted' =
      if to_lower text == text then applied else applied ++ "case_normalized_for_match" ∷ [] in
    (text, dedupe_string_slice noted')

-- `NormalizeInput`; its expressions are those of `normalizeSemanticInput`
unfoldable pub normalize_input : String → Noted
unfolding unwrap strip_noise collapse_spaces settle_input trim_space
normalize_input input =
    let n = trim_space input in
    if n == "" then ("", []) else settle_input (collapse_spaces (strip_noise (unwrap n)))

-- `hasTypedContact`
abbrev pub has_typed_contact : List DetectedIdentifier → Bool
has_typed_contact detected = any (λ d. d.id_type == type_email || d.id_type == type_phone) detected

unfoldable pub after_dash : String → String
after_dash String.[] = ""
after_dash (String.◌∷◌ c s) = let rest = after_dash s in if eqb (code c) b'-' then s else rest

abbrev pub id_prefixes : List String
id_prefixes = "ORD-" ∷ "TRK-" ∷ "PAY-" ∷ "CUST-" ∷ "PIX-" ∷ "EFL-" ∷ []

-- `isLikelyIDPrefix`; after one of the prefixes there is a dash to split at
unfoldable pub is_likely_id_prefix : String → ℕ → Bool
unfolding to_upper trim_space after_dash
is_likely_id_prefix input min_len =
    let up = to_upper (trim_space input) in
    any (λ p. has_prefix up p) id_prefixes && leb min_len (len (trim_space (after_dash up)))

-- `hasEmailPrefix`
unfoldable pub has_email_prefix : String → ℕ → Bool
unfolding trim_space contains
has_email_prefix input min_len =
    let text = trim_space input in
    let at = index text "@" in if not (contains text "@") || eqb at 0 then false else leb min_len at

abbrev pub unsupported_domain : List String
unsupported_domain =
    "calendar" ∷ "poster" ∷ "flyer" ∷ "brochure" ∷ "banner" ∷ "business cards" ∷ "wedding cards"
    ∷ "print" ∷ "product" ∷ "sku" ∷ "material" ∷ "color" ∷ "style" ∷ []

-- `isUnsupportedDomain`
unfoldable pub is_unsupported_domain : String → Bool
unfolding contains to_lower
is_unsupported_domain input = any (contains (to_lower input)) unsupported_domain

-- `containsVerbTokens`
unfoldable pub contains_verb_tokens : List String → Bool
unfolding mem
contains_verb_tokens tokens = any (λ t. mem t (verbs ++ "why" ∷ [])) tokens

-- `^[[:alpha:]\s]+$`
unfoldable pub re_letters_space : Re
re_letters_space = seq start (seq (plus (class (λ c. is_letter c || is_blank c))) finish)

-- a threshold, or its default where it is not positive
abbrev pub or_default : ℤ → ℕ → ℕ
or_default t default = if le_zero t then default else to_ℕ t

-- the shape of an input of at most three tokens
unfoldable pub classify_short : String → List String → QueryShapeThresholds → String
unfolding has_email_prefix is_likely_id_prefix contains_verb_tokens match_string re_letters_space
classify_short trimmed tokens t =
    if has_email_prefix trimmed (or_default t.email_prefix_min_len 3)
      || is_likely_id_prefix trimmed (or_default t.id_prefix_min_len 2)
    then shape_typeahead
    else if contains_verb_tokens tokens
    then shape_sentence
    else if leb 2 (length tokens)
        && leb (or_default t.generic_prefix_min_len 3 * 2) (len trimmed)
        && match_string re_letters_space trimmed
    then shape_keyword_phrase
    else shape_typeahead

-- `classifyShape`
unfoldable pub classify_shape : String → List DetectedIdentifier → QueryShapeThresholds → String
unfolding trim_space fields to_lower contains contains_verb_tokens classify_short
classify_shape normalized detected t =
    let trimmed = trim_space normalized in
    let tokens = fields (to_lower trimmed) in
    if trimmed == ""
    then shape_empty
    else if leb (len trimmed) (or_default t.short_no_op_len 2)
    then shape_typeahead
    else if has_typed_contact detected
    then shape_contact
    else if has_typed_identifier detected
    then shape_identifier
    else if eqb (length tokens) 0
    then shape_empty
    else if leb 4 (length tokens) && (contains_verb_tokens tokens || contains trimmed "?")
    then shape_sentence
    else if leb (length tokens) 3
    then classify_short trimmed tokens t
    else shape_sentence

abbrev pub skips : String → Bool
skips shape =
    shape == shape_empty
    || shape == shape_typeahead
    || shape == shape_identifier
    || shape == shape_contact
    || shape == shape_unsupported

-- `AnalyzeQuery`
unfoldable pub analyze_query :
    String → String → Option PatternRegistry → QueryShapeThresholds → QueryAnalysis
unfolding normalize_input detect_with_registry classify_shape is_unsupported_domain
analyze_query input tenant_id registry t =
    let (normalized, applied) = normalize_input input in
    let (detected, matched) = detect_with_registry normalized tenant_id registry in
    let first = classify_shape normalized detected t in
    let shape =
      if is_unsupported_domain normalized
        && not (first == shape_identifier)
        && not (first == shape_contact)
      then shape_unsupported
      else first in
    record {
      original_input = input;
      normalized_input = normalized;
      normalization_applied = applied;
      query_shape = shape;
      detected = detected;
      identifier_pattern_matched = matched;
      should_skip_semantic =
          if not (lt_ℤ t.short_no_op_len (pos (len normalized))) then true else skips shape;
    }

abbrev pub default_thresholds : QueryShapeThresholds
default_thresholds = record {
  short_no_op_len = pos 2;
  generic_prefix_min_len = pos 3;
  id_prefix_min_len = pos 2;
  email_prefix_min_len = pos 3;
}

-- `LoadThresholds` of config.go, where `read` is the decoded file, if it was read and decoded
unfoldable pub load_thresholds : String → Option QueryShapeThresholds → QueryShapeThresholds
unfolding trim_space
load_thresholds path none = default_thresholds
load_thresholds path (some t) = if trim_space path == "" then default_thresholds else record {
  short_no_op_len = if lt_ℤ t.short_no_op_len (pos 0) then pos 2 else t.short_no_op_len;
  generic_prefix_min_len =
      if le_zero t.generic_prefix_min_len then pos 3 else t.generic_prefix_min_len;
  id_prefix_min_len = if le_zero t.id_prefix_min_len then pos 2 else t.id_prefix_min_len;
  email_prefix_min_len = if le_zero t.email_prefix_min_len then pos 3 else t.email_prefix_min_len;
}

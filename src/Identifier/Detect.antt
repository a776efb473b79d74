-- ===== src/Identifier/Detect.antt =====
-- internal/identifier/detector.go: the identifiers in an input, and whether they are looked up at once.
use permission_aware_search.Common.{
  leb, eqb, ◌==◌, if◌then◌else◌, length, any, ℕ, String, len, Bool, true, false, not, ◌&&◌, ◌||◌,
  Option, List, [], ◌∷◌, ◌++◌,
}
use permission_aware_search.Strings.{◌+++◌, trim_space, to_lower, to_upper, contains, has_prefix}
use permission_aware_search.Strings.Words.{fields, drop_bytes}
use permission_aware_search.Regex.{match_string, find_all}
use permission_aware_search.Identifier.{
  type_order_number, type_tracking_id, type_payment_ref, type_customer_number, type_email,
  type_phone, type_unknown_token, DetectedIdentifier,
}
use permission_aware_search.Identifier.Patterns.{
  re_alpha_num_only, PatternRegistry, patterns_for_tenant, CompiledPattern,
}
use permission_aware_search.Semantic.Merging.{first_of_each}

-- `normalizeByType`
unfoldable pub normalize_by_type : String → String → String
unfolding to_upper to_lower drop_bytes
normalize_by_type id_type raw =
    let up = to_upper raw in
    if id_type == type_order_number
    then (if has_prefix up "ORD-" && eqb (len up) 9 then "ORD-0" +++ drop_bytes 4 up else up)
    else if id_type == type_tracking_id
        || id_type == type_payment_ref
        || id_type == type_customer_number
    then up
    else if id_type == type_email
    then to_lower raw
    else raw

abbrev pub match_confidence : String → ℕ
match_confidence id_type =
    if id_type == type_email then 90 else if id_type == type_phone then 85 else 95

-- what a match adds
abbrev pub detected_as : String → String → List DetectedIdentifier
detected_as id_type text =
    let v = trim_space (if id_type == type_email then to_lower text else text) in
    if v == ""
    then []
    else record {
      id_type = id_type;
      normalized_value = normalize_by_type id_type v;
      confidence = match_confidence id_type;
    }
      ∷ []

abbrev pub all_detected_as : String → List String → List DetectedIdentifier
all_detected_as id_type [] = []
all_detected_as id_type (text ∷ texts) = detected_as id_type text ++ all_detected_as id_type texts

unfoldable pub detect_patterns : List CompiledPattern → String → List DetectedIdentifier
unfolding find_all normalize_by_type trim_space to_lower
detect_patterns [] input = []
detect_patterns (p ∷ patterns) input =
    all_detected_as p.id_type (find_all p.matcher input) ++ detect_patterns patterns input

abbrev pub name_unless : List String → String → String → String
name_unless [] name later = later
name_unless (m ∷ matches) name later = name

-- the name of the first pattern that matches; a pattern without a name is passed over
unfoldable pub pattern_matched : List CompiledPattern → String → String
unfolding find_all
pattern_matched [] input = ""
pattern_matched (p ∷ patterns) input =
    let later = pattern_matched patterns input in
    if p.name == "" then later else name_unless (find_all p.matcher input) p.name later

abbrev pub detected_key : DetectedIdentifier → String
detected_key d = d.id_type +++ "|" +++ d.normalized_value

-- `dedupeDetected`
unfoldable pub dedupe_detected : List DetectedIdentifier → List DetectedIdentifier
unfolding first_of_each
dedupe_detected detected = first_of_each detected_key detected []

-- the token that is looked for as it is where nothing was detected
unfoldable pub unknown_token : String → List DetectedIdentifier
unfolding match_string re_alpha_num_only fields trim_space
unknown_token input =
    let token = trim_space input in
    if not (token == "") && match_string re_alpha_num_only token && leb (length (fields token)) 3
    then record { id_type = type_unknown_token; normalized_value = token; confidence = 40 } ∷ []
    else []

abbrev pub or_unknown : List DetectedIdentifier → String → List DetectedIdentifier
or_unknown [] input = unknown_token input
or_unknown (d ∷ detected) input = d ∷ detected

-- `DetectWithRegistry`
unfoldable pub detect_with_registry :
    String → String → Option PatternRegistry → List DetectedIdentifier × String
unfolding detect_patterns pattern_matched dedupe_detected unknown_token patterns_for_tenant
    trim_space to_lower
detect_with_registry input tenant_id registry =
    let patterns = patterns_for_tenant registry tenant_id in
    if to_lower (trim_space input) == "" then ([], "") else (
      dedupe_detected (or_unknown (detect_patterns patterns input) input),
      pattern_matched patterns input,
    )

-- `hasTypedIdentifier`
abbrev pub has_typed_identifier : List DetectedIdentifier → Bool
has_typed_identifier detected = any (λ d. not (d.id_type == type_unknown_token)) detected

-- `startsWithKnownPrefix`
unfoldable pub starts_with_known_prefix : String → Bool
unfolding to_upper
starts_with_known_prefix input =
    let up = to_upper input in
    has_prefix up "ORD-" || has_prefix up "TRK-" || has_prefix up "PAY-" || has_prefix up "CUST-"

abbrev pub verbs : List String
verbs =
    "show" ∷ "find" ∷ "get" ∷ "check" ∷ "give" ∷ "list" ∷ "what" ∷ "where" ∷ "has" ∷ "have" ∷ "is"
    ∷ "are" ∷ []

-- `containsVerb`
unfoldable pub contains_verb : String → Bool
unfolding contains
contains_verb lower =
    any (λ v. contains lower (" " +++ v +++ " ") || has_prefix lower (v +++ " ")) verbs

abbrev pub is_nil {ℓ} : {A : Type ℓ} → List A → Bool
is_nil [] = true
is_nil (x ∷ xs) = false

-- `ShouldUseFastPath`
unfoldable pub should_use_fast_path : String → List DetectedIdentifier → Bool
unfolding fields trim_space starts_with_known_prefix contains_verb to_lower
should_use_fast_path input detected =
    let short = leb (length (fields (trim_space input))) 6 in
    if is_nil detected
    then false
    else if short && has_typed_identifier detected
    then true
    else if starts_with_known_prefix (trim_space input)
    then true
    else if short && not (contains_verb (to_lower input))
    then true
    else false

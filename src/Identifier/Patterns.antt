-- ===== src/Identifier/Patterns.antt =====
-- internal/identifier/patterns.go, and the expressions of detector.go.
use permission_aware_search.Common.{
  ◌==◌, if◌then◌else◌, mem, lookup, insert, ℕ, String, Bool, not, ◌||◌, Option, none, some, List,
  [], ◌∷◌, ◌++◌,
}
use permission_aware_search.Strings.{trim_space, lower_char, to_lower}
use permission_aware_search.Regex.{
  is_digit, is_letter, is_blank, digit, opt, plus, at_least, times, one_of, lit, lit_i, Re, class,
  seq, alt, boundary, start, finish,
}
use permission_aware_search.Identifier.{
  type_order_number, type_tracking_id, type_payment_ref, type_customer_number, type_email,
  type_phone, type_unknown_token,
}
use Prim.Native.Char.{Char}

-- a prefix and so many digits, as a word
abbrev pub numbered : String → ℕ → Re
numbered name n = seq boundary (seq (lit_i name) (seq (times n digit) boundary))

-- `(?i)\bORD-\d{6}\b|\bord-\d{5}\b`
unfoldable pub re_order_number : Re
unfolding lower_char
re_order_number = alt (numbered "ORD-" 6) (numbered "ord-" 5)

-- `(?i)\bTRK-\d{8}\b|\bTB-TRK-\d{6}\b`
unfoldable pub re_tracking_id : Re
unfolding lower_char
re_tracking_id = alt (numbered "TRK-" 8) (numbered "TB-TRK-" 6)

-- `(?i)\bPAY-\d{8}\b`
unfoldable pub re_payment_ref : Re
unfolding lower_char
re_payment_ref = numbered "PAY-" 8

-- `(?i)\bCUST-\d{6}\b|\bcust-\d{5}\b|\bTB-CUST-\d{5}\b`
unfoldable pub re_customer_number : Re
unfolding lower_char
re_customer_number = alt (numbered "CUST-" 6) (alt (numbered "cust-" 5) (numbered "TB-CUST-" 5))

abbrev pub is_alnum : Char → Bool
is_alnum c = is_digit c || is_letter c

-- `(?i)\b[a-z0-9._%+\-]+@[a-z0-9.\-]+\.[a-z]{2,}\b`
unfoldable pub re_email : Re
re_email =
    let local = plus (class (λ c. is_alnum c || one_of "._%+-" c)) in
    let host = plus (class (λ c. is_alnum c || one_of ".-" c)) in
    seq boundary (
      seq local
        (seq (lit "@") (seq host (seq (lit ".") (seq (at_least 2 (class is_letter)) boundary)))))

-- `\+?\d[\d\s\-()]{7,}\d`
unfoldable pub re_phone : Re
re_phone =
    let inner = class (λ c. is_digit c || is_blank c || one_of "-()" c) in
    seq (opt (lit "+")) (seq digit (seq (at_least 7 inner) digit))

-- `^[a-zA-Z0-9@\-\._:+#]+$`
unfoldable pub re_alpha_num_only : Re
re_alpha_num_only = seq start (seq (plus (class (λ c. is_alnum c || one_of "@-._:+#" c))) finish)

-- three letters between a prefix and digits
abbrev pub lettered : String → Re
lettered name =
    seq boundary (
      seq (lit_i name)
        (seq (times 3 (class is_letter)) (seq (lit "-") (seq (plus digit) boundary))))

pub record CompiledPattern : Type 0 where
  pub name : String
  pub id_type : String
  pub matcher : Re

abbrev pub compiled : String → String → Re → CompiledPattern
compiled name id_type matcher = record { name = name; id_type = id_type; matcher = matcher }

-- `defaultCompiledPatterns`
unfoldable pub default_compiled_patterns : List CompiledPattern
unfolding re_order_number re_tracking_id re_payment_ref re_customer_number re_email re_phone
    lower_char
default_compiled_patterns =
    compiled "ord_default" type_order_number re_order_number
    ∷ compiled "trk_default" type_tracking_id re_tracking_id
    ∷ compiled "pay_default" type_payment_ref re_payment_ref
    ∷ compiled "cust_default" type_customer_number re_customer_number
    ∷ compiled "email_default" type_email re_email
    ∷ compiled "phone_default" type_phone re_phone
    ∷ compiled "pix_pattern" type_order_number (lettered "PIX-")
    ∷ compiled "efl_pattern" type_order_number (lettered "EFL-")
    ∷ compiled "prefixed_numeric" type_order_number
        (seq boundary (seq (class is_letter) (seq (at_least 6 digit) boundary)))
    ∷ compiled "numeric_long" type_order_number (seq boundary (seq (at_least 6 digit) boundary))
    ∷ []

-- `PatternConfig`
pub record PatternConfig : Type 0 where
  pub name : String
  pub id_type : String
  pub regex : String

abbrev pub known_types : List String
known_types =
    type_order_number ∷ type_tracking_id ∷ type_payment_ref ∷ type_customer_number ∷ type_email
    ∷ type_phone ∷ type_unknown_token ∷ []

-- `patternTypeToIdentifierType`: each type is written as it is named
unfoldable pub pattern_type_to_identifier_type : String → Option String
unfolding to_lower trim_space mem
pattern_type_to_identifier_type pattern_type =
    let name = to_lower (trim_space pattern_type) in
    if mem name known_types then some name else none

-- `PatternRegistry`
abbrev pub PatternRegistry : Type 0
PatternRegistry = List (String × List CompiledPattern)

abbrev pub compiled_from : PatternConfig → Option String → Option Re → List CompiledPattern
compiled_from d none re = []
compiled_from d (some id_type) none = []
compiled_from d (some id_type) (some re) = compiled d.name id_type re ∷ []

-- the patterns of one tenant; `compile` is `regexp.Compile`
unfoldable pub compile_all : (String → Option Re) → List PatternConfig → List CompiledPattern
unfolding pattern_type_to_identifier_type
compile_all compile [] = []
compile_all compile (d ∷ defs) =
    compiled_from d (pattern_type_to_identifier_type d.id_type) (compile d.regex)
    ++ compile_all compile defs

abbrev pub put_patterns : String → List CompiledPattern → PatternRegistry → PatternRegistry
put_patterns tenant [] registry = registry
put_patterns tenant (p ∷ patterns) registry = insert tenant (p ∷ patterns) registry

unfoldable pub add_tenants :
    (String → Option Re) → List (String × List PatternConfig) → PatternRegistry → PatternRegistry
unfolding compile_all insert
add_tenants compile [] registry = registry
add_tenants compile ((tenant, defs) ∷ tenants) registry =
    add_tenants compile tenants (put_patterns tenant (compile_all compile defs) registry)

-- `LoadPatternRegistry`, where `read` is the decoded file, if it was read and decoded
unfoldable pub load_pattern_registry :
    (String → Option Re) → String → Option (List (String × List PatternConfig)) → PatternRegistry
unfolding default_compiled_patterns add_tenants trim_space
load_pattern_registry compile path read =
    let registry = ("default", default_compiled_patterns) ∷ [] in
    if trim_space path == ""
    then registry
    else elim read [ none ↦ registry | some tenants ↦ add_tenants compile tenants registry ]

abbrev pub patterns_or : Option (List CompiledPattern) → List CompiledPattern → List CompiledPattern
patterns_or none other = other
patterns_or (some []) other = other
patterns_or (some (p ∷ patterns)) other = p ∷ patterns

-- `patternsForTenant`; a registry that is nil has the default patterns
unfoldable pub patterns_for_tenant : Option PatternRegistry → String → List CompiledPattern
unfolding default_compiled_patterns lookup trim_space
patterns_for_tenant none tenant_id = default_compiled_patterns
patterns_for_tenant (some registry) tenant_id =
    let tenant = trim_space tenant_id in
    let common = patterns_or (lookup "default" registry) default_compiled_patterns in
    if not (tenant == "") then patterns_or (lookup tenant registry) common else common

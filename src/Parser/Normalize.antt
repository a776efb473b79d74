-- ===== src/Parser/Normalize.antt =====
-- How a question is normalized: `normalizeSemanticInput` of internal/semantic/slots.go, and
-- `normalizePrompt` of analyzer_slm_local.go. Both range over a map of phrases, in any order.
use permission_aware_search.Common.{
  eqb, ◌==◌, if◌then◌else◌, String, not, ◌||◌, none, some, List, [], ◌∷◌, ◌++◌,
}
use permission_aware_search.Strings.{◌+++◌, trim_space, lower_char, to_lower, contains}
use permission_aware_search.Strings.Words.{trim, replace}
use permission_aware_search.Regex.{
  is_digit, is_letter, find, replace_all, space, plus, one_of, lit_i, Re, class, seq, star, group,
  start, finish,
}
use permission_aware_search.Semantic.Remote.{dedupe_strings}
use Prim.Native.Char.{code}

-- `(?i)searchquery:\s*(.*)$`
unfoldable pub re_wrapper : Re
unfolding lower_char
re_wrapper =
    seq (lit_i "searchquery:")
      (seq (star space) (seq (group (star (class (λ c. not (eqb (code c) 10))))) finish))

-- `^[^[:alnum:]@+]+`
unfoldable pub re_leading_noise : Re
re_leading_noise = seq start (plus (class (λ c. not (is_digit c || is_letter c || one_of "@+" c))))

-- `\s+`
unfoldable pub re_spaces : Re
re_spaces = plus space

-- the map of `normalizeSemanticInput`
abbrev pub phrases : List (String × String)
phrases =
    ("ordres", "orders")
    ∷ ("shwo", "show")
    ∷ ("opne", "open")
    ∷ ("paymnt", "payment")
    ∷ ("paymet", "payment")
    ∷ ("un-successful", "unsuccessful")
    ∷ ("payment unsuccessful", "payment failed")
    ∷ ("payment failure", "payment failed")
    ∷ ("declined payment", "payment failed")
    ∷ ("payment declined", "payment failed")
    ∷ ("orders in open status", "orders in open state")
    ∷ ("order in open status", "order in open state")
    ∷ ("state is open", "open state")
    ∷ ("show me", "show")
    ∷ []

-- a text, and what was done to it
abbrev pub Noted : Type 0
Noted = String × List String

unfoldable pub apply_phrases : List (String × String) → Noted → Noted
unfolding replace contains
apply_phrases [] (text, applied) = (text, applied)
apply_phrases ((old, new) ∷ rest) (text, applied) = apply_phrases rest (
    if contains text old
    then (replace old new text, applied ++ ("phrase_normalized:" +++ old +++ "->" +++ new) ∷ [])
    else (text, applied))

-- the text with what was done to it, where it changed
abbrev pub noted : String → String → String → List String → Noted
noted old new note applied = (new, (if new == old then applied else applied ++ note ∷ []))

-- the text within the wrapper
unfoldable pub unwrap : String → Noted
unfolding contains to_lower find re_wrapper trim_space
unwrap n =
    if contains (to_lower n) "searchquery:"
    then elim (find re_wrapper n) [
      | none ↦ (n, [])
      | some f ↦ elim f.groups [
        | [] ↦ (n, [])
        | inner ∷ gs ↦ (trim_space inner, "trim_wrapper" ∷ [])
      ]
    ]
    else (n, [])

unfoldable pub strip_noise : Noted → Noted
unfolding trim replace_all re_leading_noise
strip_noise (n, applied) =
    let text = trim "\"'" n in
    noted text (replace_all re_leading_noise text "") "strip_leading_symbols" applied

unfoldable pub fold_case : Noted → Noted
unfolding to_lower trim_space
fold_case (n, applied) =
    noted (trim_space n) (to_lower (trim_space n)) "case_normalized_for_match" applied

unfoldable pub collapse_spaces : Noted → Noted
unfolding replace_all re_spaces
collapse_spaces (n, applied) = noted n (replace_all re_spaces n " ") "collapse_spaces" applied

-- `normalizeSemanticInput`, which ranges over the phrases in this order
unfoldable pub normalize_semantic_input : List (String × String) → String → Noted
unfolding unwrap strip_noise fold_case apply_phrases collapse_spaces dedupe_strings trim_space
normalize_semantic_input ranged input =
    let n = trim_space input in
    let (text, applied) =
      collapse_spaces (apply_phrases ranged (fold_case (strip_noise (unwrap n)))) in
    if n == "" then ("", []) else (trim_space text, dedupe_strings applied)

-- the map of `normalizePrompt`
abbrev pub prompt_phrases : List (String × String)
prompt_phrases =
    ("where is my order", "order tracking status")
    ∷ ("has my order shipped", "order shipped status")
    ∷ ("tracking link doesn't work", "tracking issue")
    ∷ ("last 3 orders", "recent orders")
    ∷ ("lifetime value", "customer segment")
    ∷ ("initiate refund", "refund status")
    ∷ ("eligible for a return", "return eligible")
    ∷ ("check refund status", "refund status")
    ∷ ("view recent tickets", "support history")
    ∷ ("check account notes", "account notes")
    ∷ []

unfoldable pub replace_each : List (String × String) → String → String
unfolding replace
replace_each [] text = text
replace_each ((old, new) ∷ rest) text = replace_each rest (replace old new text)

-- `normalizePrompt`, which ranges over the phrases in this order
unfoldable pub normalize_prompt : List (String × String) → String → String
unfolding replace_each to_lower
normalize_prompt ranged message = replace_each ranged (to_lower message)

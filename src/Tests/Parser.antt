-- ===== src/Tests/Parser.antt =====
-- internal/semantic/parser.go at concrete inputs.
use mathlib.Core.List.{reverse}
use permission_aware_search.Common.{ok, String, ◌≡◌, refl, ◌≢◌, true, false, some, [], ◌∷◌, map}
use permission_aware_search.Parser.{Setting}
use permission_aware_search.Parser.Normalize.{phrases, normalize_semantic_input}
use permission_aware_search.Parser.Parse.{parse_natural_language}
use permission_aware_search.Parser.Patterns.{
  re_not_shipped, extract_order_number, extract_tracking_number, extract_customer_number,
  extract_payment_reference, extract_phone, extract_email, customer_id_from_customer_number,
}
use permission_aware_search.Store.{Filter}
use permission_aware_search.Schema.Ecommerce.{ecommerce_registry}
use permission_aware_search.Regex.{match_string}
use permission_aware_search.Search.{normalize_query, validate_query}
use permission_aware_search.Parser.References.{IsReference, IsExact, references_lem}
use permission_aware_search.Parser.Parsed.{parse_natural_language-IsParse, IsParse}
use permission_aware_search.Parser.Refused.{parse_natural_language-refused}

orders :
    (extract_order_number "Show Order # 12345 now" ≡ "ORD-012345")
    × (extract_order_number "ord-000123" ≡ "ORD-000123")
    × (extract_order_number "border 1234" ≡ "")
    × (extract_payment_reference "PAY 123456789" ≡ "PAY-23456789")
    × (extract_phone "call +1 (555) 010-9999 please" ≡ "+1 (555) 010-9999")
    × (extract_email "mail <Ann@Example.com>, or" ≡ "<ann@example.com>")
    × (customer_id_from_customer_number "CUST-001234" ≡ "cust-01234")
unfolding extract_order_number extract_payment_reference extract_phone extract_email
    customer_id_from_customer_number
orders = (refl, refl, refl, refl, refl, refl, refl)

negations :
    (match_string re_not_shipped "orders that have not been shipped" ≡ true)
    × (match_string re_not_shipped "not yet shipped" ≡ true)
    × (match_string re_not_shipped "is it shipped" ≡ false)
unfolding match_string re_not_shipped
negations = (refl, refl, refl)

abbrev demo : Setting
demo = record { registry = some ecommerce_registry; ranged = phrases; days_ago = λ n. "2026-01-01" }

normalized :
    (normalize_semantic_input phrases " searchQuery: \"Shwo  me un-successful paymnt\" ").0
    ≡ "show me unsuccessful payment"
unfolding normalize_semantic_input
normalized = refl

-- a question that contradicts itself
conflicting :
    let parsed =
      parse_natural_language demo "open orders with failed payment and payment captured" "" "" in
    (parsed.confidence ≡ 40)
    × (parsed.clarification_needed ≡ true)
    × (map (λ (f : Filter). f.field) parsed.query.filters ≡ "order.state" ∷ [])
unfolding parse_natural_language ecommerce_registry
conflicting = (refl, refl, refl)

-- The order in which the phrases are ranged over decides what is understood.
order_of_phrases :
    ((normalize_semantic_input phrases "orders in opne status").0 ≡ "orders in open state")
    × ((normalize_semantic_input (reverse phrases) "orders in opne status").0
        ≡ "orders in open status")
unfolding normalize_semantic_input
order_of_phrases = (refl, refl)

abbrev long_message : String
long_message = "Where is order #1234, trk 12345678, paid by PAY-1234567890 for cust 77777?"

references_lem_example :
    IsReference "ORD-" 6 (extract_order_number long_message)
    × IsReference "TRK-" 8 (extract_tracking_number long_message)
    × IsReference "CUST-" 6 (extract_customer_number long_message)
    × IsExact "PAY-" 8 (extract_payment_reference long_message)
references_lem_example = references_lem long_message

parse_natural_language-IsParse_example :
    IsParse demo "" (parse_natural_language demo "failed payment, payment captured" "" "customer")
parse_natural_language-IsParse_example =
    parse_natural_language-IsParse demo "failed payment, payment captured" "" "customer"

parse_natural_language-refused_example :
    let q = (parse_natural_language demo "show customers" "v2" "").query in
    validate_query
      (some ecommerce_registry)
      "customer"
      (normalize_query (some ecommerce_registry) "customer" q)
    ≢ ok tt
unfolding parse_natural_language ecommerce_registry
parse_natural_language-refused_example =
    parse_natural_language-refused demo "show customers" "" refl refl refl

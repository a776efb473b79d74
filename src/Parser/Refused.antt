-- ===== src/Parser/Refused.antt =====
-- A question about customers that no intent fits is framed as a query that the contract refuses.
use permission_aware_search.Common.{
  ◌==◌, if◌then◌else◌, ◌>>=◌, Result, ok, err, String, ◌≡◌, refl, sym, ap, ◌∙◌, subst, ◌≢◌, Option,
  some, List,
}
use permission_aware_search.Contracts.{normalize_field_name, validate_field}
use permission_aware_search.Schema.Registry.{Registry}
use permission_aware_search.Schema.Ecommerce.{ecommerce_registry}
use permission_aware_search.Store.{Filter, Page, QueryDsl}
use permission_aware_search.Search.{
  normalize_filters, normalize_query, validate_filters, validate_query,
}
use permission_aware_search.Parser.{Setting}
use permission_aware_search.Parser.Lookups.{created_at_field}
use permission_aware_search.Parser.Parse.{parse_natural_language}
use permission_aware_search.Parser.Parsed.{parse_natural_language-IsParse}

abbrev pub shop : Option Registry
shop = some ecommerce_registry

customer_sort : created_at_field shop "customer" ≡ "customer.created_at"
unfolding created_at_field ecommerce_registry
customer_sort = refl

kept_sort : normalize_field_name shop "customer" "customer.created_at" ≡ "customer.created_at"
unfolding normalize_field_name ecommerce_registry
kept_sort = refl

pub refused_sort :
    validate_field shop "customer" "v2" "default" "customer.created_at"
    ≡ err "FIELD_NOT_ALLOWED: customer.created_at"
unfolding validate_field ecommerce_registry
refused_sort = refl

bind-ne-ok :
    {W : Type 0} (first : Result (Unit {0})) (next : Unit {0} → Result W) (w : W) (message : String)
    → next tt ≡ err message
    → (first >>= next) ≢ ok w
bind-ne-ok (ok x) next w message h e = let same : next tt ≡ ok w = e in cc (h, same)
bind-ne-ok (err m) next w message h e = cc

abbrev shape : List Filter → String → Page → QueryDsl
shape filters dir page = record {
  contract_version = "v2";
  intent_category = "default";
  filters = filters;
  sort = record { field = "customer.created_at"; dir = dir };
  page = page;
}

refused-shape :
    (filters : List Filter) (dir : String) (page : Page)
    → validate_query shop "customer" (normalize_query shop "customer" (shape filters dir page))
      ≢ ok tt
unfolding validate_query normalize_query
refused-shape filters dir page =
    let name = normalize_field_name shop "customer" "customer.created_at" in
    bind-ne-ok
      (validate_filters shop "customer" "v2" "default" (normalize_filters shop "customer" filters))
      (λ _. if name == "" then ok tt else validate_field shop "customer" "v2" "default" name) tt
      "FIELD_NOT_ALLOWED: customer.created_at" (rw kept_sort refused_sort)

-- With the e-commerce schema and the contract version `v2` a message that is framed as a question about
-- customers with no particular intent has a query that `Search` refuses, whatever it asks: the field that it
-- is sorted by is not allowed under the default intent.
pub parse_natural_language-refused :
    (env : Setting) (message hint : String)
    → env.registry ≡ some ecommerce_registry
    → (parse_natural_language env message "v2" hint).resource_type ≡ "customer"
    → (parse_natural_language env message "v2" hint).intent_category ≡ "default"
    → let q = (parse_natural_language env message "v2" hint).query in
      validate_query
        (some ecommerce_registry)
        "customer"
        (normalize_query (some ecommerce_registry) "customer" q)
      ≢ ok tt
parse_natural_language-refused env message hint wired customer intent =
    let p = parse_natural_language env message "v2" hint in
    let ok' = parse_natural_language-IsParse env message "v2" hint in
    let sort : p.query.sort.field ≡ "customer.created_at" =
      ok'.sorted
      ∙ ap (created_at_field env.registry) customer
      ∙ ap (λ reg. created_at_field reg "customer") wired
      ∙ customer_sort in
    let category : p.query.intent_category ≡ "default" = ok'.same_intent ∙ intent in
    let version : p.query.contract_version ≡ "v2" = ok'.versioned in
    let same : shape p.query.filters p.query.sort.dir p.query.page ≡ p.query = λ i. record {
      contract_version = sym version i;
      intent_category = sym category i;
      filters = p.query.filters;
      sort = record { field = sym sort i; dir = p.query.sort.dir };
      page = p.query.page;
    } in
    subst (λ q. validate_query shop "customer" (normalize_query shop "customer" q) ≢ ok tt) same
      (refused-shape p.query.filters p.query.sort.dir p.query.page)

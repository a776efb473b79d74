-- ===== src/Tests/Http.antt =====
-- internal/http and internal/observability at concrete inputs.
use permission_aware_search.Common.{
  ok, err, ◌≤◌, String, ◌≡◌, refl, inl, true, false, none, some, [], ◌∷◌, arith,
}
use permission_aware_search.Common.Int.{pos}
use permission_aware_search.Http.{
  Payload, Server, ServerState, GroupedMatch, Interpretation, Body, error_body, subject_body,
  search_body, interpretation_body, mock_body, doc_body, decision_body, metrics_body,
  seed_stats_body, Response,
}
use permission_aware_search.Http.Lookups.{collect, try_identifier_fast_path}
use permission_aware_search.Http.Lookups.Arrivals.{collect-perm, Gathered}
use permission_aware_search.Http.Lookups.Refused.{fast_path-refused}
use permission_aware_search.Http.Lookups.Authorized.{ShowsAuthorized}
use permission_aware_search.Http.Interpret.{is_short, with_version, handle_query_interpret}
use permission_aware_search.Http.Interpret.Shown.{handle_query_interpret-ShowsAuthorized}
use permission_aware_search.Http.Handlers.{handle_search, handle_detail}
use permission_aware_search.Http.Handlers.Answers.{
  Told, handle_search-Told, handle_search_answers, with_store, handle_detail_hides,
}
use permission_aware_search.Identifier.{type_email, GroupSpec, ResolutionPlan}
use permission_aware_search.Identifier.Shape.{shape_contact, analyze_query, default_thresholds}
use permission_aware_search.Identifier.Resolve.{build_resolution_plan}
use permission_aware_search.Policy.{match_rule, cache_key, allow, evaluate, Decision, SqliteEngine}
use permission_aware_search.Search.{normalize_query, validate_query, Service}
use permission_aware_search.Search.Filtering.{placeholders, response_of, search}
use permission_aware_search.Store.{DataStore}
use permission_aware_search.Semantic.{Router}
use permission_aware_search.Observability.{new_metrics, sum, snapshot, Metrics, Snapshot}
use permission_aware_search.Observability.Percentiles.{Percentile, snapshot_lem}
use permission_aware_search.Tests.Data.{
  alice, west_order, east_order, region_engine, two_orders, two_order_store, service, everything,
}
use permission_aware_search.Schema.Ecommerce.{ecommerce_registry}
use permission_aware_search.Http.Responses.{no_op_interpretation}
use permission_aware_search.Cache
use mathlib.Core.List.Perm

abbrev busy : Metrics
busy = record { search_latency = 30 ∷ 10 ∷ 20 ∷ []; hidden_counts = 1 ∷ 0 ∷ 2 ∷ [] }

busy_run :
    snapshot busy
    ≡ ok (
        some
          (record { p50_ms = 20; p95_ms = 20; p99_ms = 20; hidden_total = 3; hidden_searches = 3 }))
unfolding snapshot
busy_run = refl

abbrev rules_only : Router
rules_only = record { default_provider = "rule-slm"; providers = [] }

abbrev shop_service : Service SqliteEngine
shop_service = record service { registry = some ecommerce_registry }

abbrev server : Server SqliteEngine
server = record {
  service = shop_service;
  router = rules_only;
  id_fast_path_enabled = true;
  id_grouped_enabled = true;
  id_patterns = none;
  shape_thresholds = default_thresholds;
  id_registry = some ecommerce_registry;
}

abbrev idle : ServerState SqliteEngine
idle = record { engine = region_engine; metrics = new_metrics }

abbrev question : String → Payload
question message = record {
  message = message;
  provider = "";
  resource_hint = "";
  contract_version = "";
  debug = false;
}

abbrev ask : Server SqliteEngine → String → Response
ask s message =
    (handle_query_interpret s alice (λ groups. groups) (question message) "trc-1" idle).0

answered : (ask server "ord-12345").status ≡ 200
unfolding handle_query_interpret try_identifier_fast_path build_resolution_plan ecommerce_registry
    evaluate Cache.get Cache.set cache_key placeholders match_rule response_of validate_query
    normalize_query
answered = refl

-- A mail address, which has a lookup of a customer, is answered with an error.
refused_email : (ask server "ann@example.com").status ≡ 500
unfolding handle_query_interpret try_identifier_fast_path build_resolution_plan ecommerce_registry
    evaluate Cache.get Cache.set cache_key placeholders match_rule response_of validate_query
    normalize_query
refused_email = refl

too_short : (ask server "x").status ≡ 200
unfolding handle_query_interpret
too_short = refl

snapshot_lem_example :
    (s : Snapshot) × (snapshot busy ≡ ok (some s))
    × Percentile 50 (30 ∷ 10 ∷ 20 ∷ []) s.p50_ms
    × Percentile 95 (30 ∷ 10 ∷ 20 ∷ []) s.p95_ms
    × Percentile 99 (30 ∷ 10 ∷ 20 ∷ []) s.p99_ms
    × (s.p50_ms ≤ s.p95_ms)
    × (s.p95_ms ≤ s.p99_ms)
    × (s.hidden_total ≡ sum (1 ∷ 0 ∷ 2 ∷ []))
    × (s.hidden_searches ≡ 3)
snapshot_lem_example = snapshot_lem busy (omega arith)

handle_search-Told_example :
    Told "trc-1" 12 new_metrics
      (search shop_service alice "order" everything region_engine)
      (handle_search server alice "order" (some everything) "trc-1" 12 idle)
handle_search-Told_example = handle_search-Told server alice "order" everything "trc-1" 12 idle

-- an engine that allows whatever it is asked
abbrev open_server : Server SqliteEngine
open_server = record server {
  service = record service {
    policy = record {
      evaluate = λ subject action resource_type doc s. (ok (allow "open"), s);
      explain = λ subject action resource_type id s. (ok (allow "open"), s);
    };
  };
}

handle_search_answers_example :
    (handle_search open_server alice "order" (some everything) "trc-1" 12 idle).0.status ≡ 200
unfolding validate_query normalize_query
handle_search_answers_example =
    handle_search_answers open_server alice "order" everything "trc-1" 12 idle two_orders
      (λ doc s. (allow "open", refl)) refl refl

-- a store whose order the engine refuses, and one without it
abbrev east_server : Server SqliteEngine
east_server =
    with_store
      (record two_order_store { get_by_id = λ tenant resource_type id. ok (some east_order) })
      server

abbrev empty_store : DataStore
empty_store = record two_order_store { get_by_id = λ tenant resource_type id. ok none }

refused_east :
    (d : Decision) × ((evaluate 5 alice "view" "order" east_order region_engine).0 ≡ ok d)
    × (d.allowed ≡ false)
unfolding evaluate Cache.get Cache.set cache_key match_rule
refused_east = (_, refl, refl)

handle_detail_hides_example :
    (handle_detail east_server alice "order" "ord-2" idle).0
    ≡ (handle_detail (with_store empty_store east_server) alice "order" "ord-2" idle).0
handle_detail_hides_example =
    handle_detail_hides east_server alice "order" "ord-2" idle empty_store east_order refused_east.0
      refl refused_east.1 refused_east.2 refl

abbrev found_orders : GroupedMatch
found_orders = record {
  resource_type = "order";
  match_field = "order.number";
  authorized_count = 1;
  hidden_count = 0;
  items = west_order ∷ [];
  redacted_placeholders = [];
}

abbrev hidden_payments : GroupedMatch
hidden_payments = record found_orders {
  match_field = "payment.reference";
  authorized_count = 0;
  hidden_count = 2;
  items = [];
}

collect-perm_example :
    ∥ Gathered
      (ok hidden_payments ∷ ok found_orders ∷ [])
      (record { groups = found_orders ∷ hidden_payments ∷ []; authorized = 1; hidden = 2 }) ∥₁
unfolding collect
collect-perm_example =
    collect-perm (ok found_orders ∷ ok hidden_payments ∷ [])
      (ok hidden_payments ∷ ok found_orders ∷ [])
      (record { groups = found_orders ∷ hidden_payments ∷ []; authorized = 1; hidden = 2 })
      (Perm.swap (ok hidden_payments) (ok found_orders) []) refl

abbrev by_email : GroupSpec
by_email = record {
  resource_type = "customer";
  match_field = "customer.email";
  operator = "eq";
  value = "ann@example.com";
  confidence = 98;
}

abbrev email_plan : ResolutionPlan
email_plan = record {
  should_use_fast_path = true;
  detected =
      record { id_type = type_email; normalized_value = "ann@example.com"; confidence = 98 } ∷ [];
  groups = by_email ∷ [];
  query_shape = shape_contact;
  normalization_applied = [];
  identifier_pattern_matched = "email";
  normalized_input = "ann@example.com";
}

fast_path-refused_example :
    (message : String) × ((try_identifier_fast_path shop_service alice
        (with_version (question "ann@example.com"))
        "trc-1"
        (λ groups. groups)
        email_plan
        region_engine).0
      ≡ err message)
fast_path-refused_example =
    fast_path-refused shop_service alice (with_version (question "ann@example.com")) "trc-1"
      (λ groups. groups) email_plan region_engine by_email refl refl refl (inl refl) refl

-- the interpretation in a body; the second argument stands in for one
abbrev interpretation_of : Body → Interpretation → Interpretation
interpretation_of (interpretation_body i) default = i
interpretation_of (error_body e) default = default
interpretation_of (subject_body subject) default = default
interpretation_of (search_body resp trace_id stages) default = default
interpretation_of (mock_body analyzed) default = default
interpretation_of (doc_body doc) default = default
interpretation_of (decision_body d) default = default
interpretation_of (metrics_body figures) default = default
interpretation_of (seed_stats_body stats) default = default

abbrev order_answer : Interpretation
order_answer =
    interpretation_of (ask server "ord-12345").body
      (no_op_interpretation (analyze_query "x" "tenant-a" none default_thresholds) "trc-1")

answered_orders : (ask server "ord-12345").body ≡ interpretation_body order_answer
unfolding handle_query_interpret try_identifier_fast_path build_resolution_plan ecommerce_registry
    evaluate Cache.get Cache.set cache_key placeholders match_rule response_of validate_query
    normalize_query
answered_orders = refl

handle_query_interpret-ShowsAuthorized_example : ShowsAuthorized shop_service alice order_answer
handle_query_interpret-ShowsAuthorized_example =
    handle_query_interpret-ShowsAuthorized server alice (λ groups. groups) (question "ord-12345")
      "trc-1" idle order_answer answered_orders

-- One order of the lookup by number is shown, and the other is counted.
shown_orders : (order_answer.authorized_count ≡ 1) × (order_answer.hidden_count ≡ 1)
unfolding handle_query_interpret try_identifier_fast_path build_resolution_plan ecommerce_registry
    evaluate Cache.get Cache.set cache_key placeholders match_rule response_of validate_query
    normalize_query
shown_orders = (refl, refl)

-- Characters are counted, not bytes.
short_text : is_short (pos 2) "éé" ≡ true
short_text = refl

-- ===== src/Policy.antt =====
-- internal/policy: who may see a resource. The SQL database is not code of this repository: its two
-- queries are a parameter, `PolicyDb`. `time.Now()` is an argument.
pub mod Rules
pub mod Decisions
pub mod Grants
use permission_aware_search.Cache
use permission_aware_search.Cache.{GrantsCache}
use permission_aware_search.Common.{
  ◌==◌, if◌then◌else◌, ◌>>=◌, Result, ok, err, any, mem, lookup, ℕ, String, Bool, true, false, not,
  ◌&&◌, Option, none, some, List, [], ◌∷◌, map,
}
use permission_aware_search.Strings.{◌+++◌}
use permission_aware_search.Json.{Doc, string_field, str}

pub record Subject : Type 0 where
  pub user_id : String
  pub tenant_id : String
  pub roles : List String
  pub attributes : List (String × String)

pub record Decision : Type 0 where
  pub allowed : Bool
  pub reason : String

pub record AbacRule : Type 0 where
  pub effect : String
  pub subject_attr : String
  pub resource_attr : String
  pub op : String
  pub value : String

-- The rows of `acl_grants` for a tenant, an action, a resource type and some subject ids, and those of
-- `policy_rules` for a tenant, an action and a resource type.
pub record PolicyDb : Type 0 where
  pub grant_rows : String → String → String → List String → Result (List String)
  pub rule_rows : String → String → String → Result (List AbacRule)

pub record SqliteEngine : Type 0 where
  pub db : PolicyDb
  pub cache : GrantsCache

-- `NewSQLiteEngine`: 30 s, in nanoseconds
abbrev pub new_sqlite_engine : PolicyDb → SqliteEngine
new_sqlite_engine db = record { db = db; cache = Cache.new_grants_cache 30_000_000_000 }

-- the zero value of a missing attribute
abbrev pub attribute : String → List (String × String) → String
attribute k attrs = elim (lookup k attrs) [ none ↦ "" | some v ↦ v ]

abbrev pub match_resource : String
match_resource = "__MATCH_RESOURCE__"

unfoldable pub match_rule : AbacRule → Subject → Doc → Bool
unfolding lookup
match_rule rule subject resource =
    let s_val = attribute rule.subject_attr subject.attributes in
    let r_val = string_field rule.resource_attr resource in
    if rule.op == "equals"
    then (if rule.value == match_resource
        then not (s_val == "") && s_val == r_val
        else s_val == rule.value)
    else if rule.op == "not_equals"
    then (if rule.value == match_resource then not (s_val == r_val) else not (s_val == rule.value))
    else false

-- the loop of `evalABAC`
unfoldable pub eval_rules : List AbacRule → Subject → Doc → Bool → Bool × String
eval_rules [] subject resource allowed =
    if allowed then (true, "abac_allow") else (false, "no_grant")
eval_rules (rule ∷ rules) subject resource allowed =
    let next =
      eval_rules rules subject resource
        (if match_rule rule subject resource && rule.effect == "allow" then true else allowed) in
    if match_rule rule subject resource && rule.effect == "deny" then (false, "abac_deny") else next

-- `evalABAC`
unfoldable pub eval_abac : PolicyDb → Subject → String → String → Doc → Result (Bool × String)
unfolding eval_rules
eval_abac db subject action resource_type resource = do
  rules ← db.rule_rows subject.tenant_id action resource_type
  ok (eval_rules rules subject resource false)

-- `hasDenyRule`
unfoldable pub has_deny_rule : PolicyDb → Subject → String → String → Doc → Result Bool
has_deny_rule db subject action resource_type resource = do
  rules ← db.rule_rows subject.tenant_id action resource_type
  ok (any (λ r. r.effect == "deny" && match_rule r subject resource) rules)

-- `fmt.Sprintf("%s:%s:%s:%s", …)`
unfoldable pub cache_key : Subject → String → String → String
cache_key subject action resource_type =
    subject.tenant_id +++ ":" +++ subject.user_id +++ ":" +++ resource_type +++ ":" +++ action

abbrev pub subject_ids : Subject → List String
subject_ids subject = ("user:" +++ subject.user_id) ∷ map (λ r. "role:" +++ r) subject.roles

-- the tail of `grantsForSubject`: an error stores nothing
abbrev pub store_grants :
    ℕ → String → Result (List String) → SqliteEngine → Result (List String) × SqliteEngine
store_grants now key (err e) engine = (err e, engine)
store_grants now key (ok ids) engine =
    (ok (Cache.copy_set ids), record engine { cache = Cache.set now key ids engine.cache })

abbrev pub cached_or_queried :
    ℕ
    → Subject
    → String
    → String
    → String
    → Option (List String)
    → SqliteEngine
    → Result (List String) × SqliteEngine
cached_or_queried now subject action resource_type key (some cached) engine = (ok cached, engine)
cached_or_queried now subject action resource_type key none engine =
    store_grants now key
      (engine.db.grant_rows subject.tenant_id action resource_type (subject_ids subject)) engine

-- `grantsForSubject`
unfoldable pub grants_for_subject :
    ℕ → Subject → String → String → SqliteEngine → Result (List String) × SqliteEngine
grants_for_subject now subject action resource_type engine =
    let key = cache_key subject action resource_type in
    let (cached, cache) = Cache.get now key engine.cache in
    cached_or_queried now subject action resource_type key cached (record engine { cache = cache })

abbrev pub deny : String → Decision
deny reason = record { allowed = false; reason = reason }

abbrev pub allow : String → Decision
allow reason = record { allowed = true; reason = reason }

-- `Evaluate` behind the tenant test, once the grants are there
unfoldable pub decide : PolicyDb → Subject → String → String → Doc → List String → Result Decision
unfolding eval_abac has_deny_rule
decide db subject action resource_type resource grants =
    if not (mem "*" grants) && not (mem (string_field "id" resource) grants)
    then (do
      (by_abac, reason) ← eval_abac db subject action resource_type resource
      ok (if by_abac then allow "abac_allow" else deny reason))
    else (do
      denied ← has_deny_rule db subject action resource_type resource
      ok (if denied then deny "abac_deny" else allow "acl_grant"))

unfoldable pub other_tenant : Subject → Doc → Bool
unfolding lookup
other_tenant subject resource =
    let tenant = string_field "tenant_id" resource in
    not (tenant == "") && not (tenant == subject.tenant_id)

unfoldable pub evaluate :
    ℕ → Subject → String → String → Doc → SqliteEngine → Result Decision × SqliteEngine
unfolding grants_for_subject decide other_tenant
evaluate now subject action resource_type resource engine =
    if other_tenant subject resource
    then (ok (deny "tenant_mismatch"), engine)
    else (let (grants, engine') = grants_for_subject now subject action resource_type engine in
        ((grants >>= λ g. decide engine'.db subject action resource_type resource g), engine'))

-- `Explain` evaluates a document that has the id and the subject's own tenant only.
unfoldable pub explain :
    ℕ → Subject → String → String → String → SqliteEngine → Result Decision × SqliteEngine
unfolding evaluate
explain now subject action resource_type resource_id engine =
    evaluate now subject action resource_type
      (("id", str resource_id) ∷ ("tenant_id", str subject.tenant_id) ∷ []) engine

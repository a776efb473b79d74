-- ===== src/Tests/Policy.antt =====
-- internal/policy at concrete inputs.
use permission_aware_search.Cache
use permission_aware_search.Common.{
  if◌then◌else◌, ok, any, mem, String, ◌≡◌, refl, ◌↔◌, true, false, ◌||◌, [], ◌∷◌, arith,
}
use permission_aware_search.Strings.Laws.{lacks, Lacks-of_lacks}
use permission_aware_search.Policy.{
  new_sqlite_engine, match_rule, eval_rules, cache_key, grants_for_subject, deny, allow, evaluate,
  Subject, Decision, PolicyDb, SqliteEngine,
}
use permission_aware_search.Policy.Rules.{matches, eval_rules_lem}
use permission_aware_search.Policy.Decisions.{evaluate-IsPermitted, IsPermitted}
use permission_aware_search.Policy.Grants.{grants_reused, cache_key_inj}
use permission_aware_search.Tests.Data.{
  alice, west_order, east_order, same_region, other_region_denied, region_db, region_engine,
}

evaluate-IsPermitted_example :
    (d : Decision) × ((evaluate 5 alice "view" "order" west_order region_engine).0 ≡ ok d)
    × ((d.allowed ≡ true)
        ↔ IsPermitted alice west_order [] (same_region ∷ other_region_denied ∷ []))
unfolding Cache.read cache_key
evaluate-IsPermitted_example =
    evaluate-IsPermitted 5 alice "view" "order" west_order region_engine [] _ refl refl

west_allowed :
    (evaluate 5 alice "view" "order" west_order region_engine).0 ≡ ok (allow "abac_allow")
unfolding evaluate Cache.get Cache.set cache_key match_rule
west_allowed = refl

east_denied : (evaluate 5 alice "view" "order" east_order region_engine).0 ≡ ok (deny "abac_deny")
unfolding evaluate Cache.get Cache.set cache_key match_rule
east_denied = refl

eval_rules_lem_example :
    eval_rules (same_region ∷ other_region_denied ∷ []) alice east_order false ≡ (
      if any (matches "deny" alice east_order) (same_region ∷ other_region_denied ∷ [])
      then (false, "abac_deny")
      else if false
          || any (matches "allow" alice east_order) (same_region ∷ other_region_denied ∷ [])
      then (true, "abac_allow")
      else (false, "no_grant"))
eval_rules_lem_example =
    eval_rules_lem (same_region ∷ other_region_denied ∷ []) alice east_order false

-- the roles of the second request are not those of the first
abbrev alice_as_admin : Subject
alice_as_admin = record alice { roles = "admin" ∷ [] }

-- grants for everyone who comes as a sales representative
abbrev role_db : PolicyDb
role_db = record region_db {
  grant_rows =
      λ tenant action resource_type ids. ok (if mem "role:sales_rep" ids then "*" ∷ [] else []);
}

abbrev role_engine : SqliteEngine
role_engine = new_sqlite_engine role_db

grants_reused_example :
    (grants_for_subject 9 alice_as_admin "view" "order"
      (grants_for_subject 5 alice "view" "order" role_engine).1).0
    ≡ ok (Cache.copy_set ("*" ∷ []))
unfolding Cache.read cache_key
grants_reused_example =
    grants_reused 5 9 alice alice_as_admin "view" "order" role_engine ("*" ∷ []) refl refl
      (unfold mem in refl) (omega arith)

-- Two subjects of different tenants have one key.
keys_collide :
    cache_key (record alice { tenant_id = "a:b"; user_id = "c" }) "view" "order"
    ≡ cache_key (record alice { tenant_id = "a"; user_id = "b:c" }) "view" "order"
unfolding cache_key
keys_collide = refl

cache_key_inj_example :
    ("tenant-a" ≡ alice_as_admin.tenant_id)
    × (alice.user_id ≡ "alice")
    × (◌≡◌ {A = String} "order" "order")
    × (◌≡◌ {A = String} "view" "view")
unfolding lacks cache_key
cache_key_inj_example =
    cache_key_inj alice alice_as_admin "view" "view" "order" "order"
      (Lacks-of_lacks ":" "tenant-a" refl) (Lacks-of_lacks ":" "alice" refl)
      (Lacks-of_lacks ":" "order" refl) (Lacks-of_lacks ":" "tenant-a" refl)
      (Lacks-of_lacks ":" "alice" refl) (Lacks-of_lacks ":" "order" refl) refl

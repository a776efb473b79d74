-- ===== src/Policy/Rules.antt =====
-- The rules of a tenant as a specification: deny rules win, whatever the order of the rows.
use permission_aware_search.Common.{
  ◌==◌, if◌then◌else◌, any, Member, any-eq-true, any_of_Member, String, ◌≡◌, refl, Bool, true,
  false, ◌&&◌, ◌||◌, List, [], ◌∷◌, arith, eq_iff,
}
use permission_aware_search.Json.{Doc}
use permission_aware_search.Policy.{match_rule, eval_rules, Subject, AbacRule}

-- some rule with this effect matches
pub record Matches (effect : String) (rules : List AbacRule) (subject : Subject) (resource : Doc)
    : Type 0 where
  pub rule : AbacRule
  pub listed : Member rule rules
  pub same_effect : rule.effect ≡ effect
  pub matched : match_rule rule subject resource ≡ true

abbrev pub matches : String → Subject → Doc → AbacRule → Bool
matches effect subject resource r = r.effect == effect && match_rule r subject resource

pub any-Matches :
    (effect : String) (rules : List AbacRule) (subject : Subject) (resource : Doc)
    → any (matches effect subject resource) rules ≡ true
    → Matches effect rules subject resource
any-Matches effect rules subject resource h =
    let (r, listed, holds) = any-eq-true (matches effect subject resource) rules h in
    record {
      rule = r;
      listed = listed;
      same_effect = ground (arith, eq_iff r.effect effect);
      matched = ground arith;
    }

pub any_of_Matches :
    (effect : String) (rules : List AbacRule) (subject : Subject) (resource : Doc)
    → Matches effect rules subject resource
    → any (matches effect subject resource) rules ≡ true
any_of_Matches effect rules subject resource m =
    any_of_Member (matches effect subject resource) m.rule rules m.listed
      (rw (m.matched, (eq_iff _ _).1 m.same_effect) refl)

-- `evalABAC`'s loop, whatever it has seen so far: a matching deny rule decides, wherever it stands;
-- else a matching allow rule does; else nothing grants.
pub eval_rules_lem :
    (rules : List AbacRule) (subject : Subject) (resource : Doc) (allowed : Bool)
    → eval_rules rules subject resource allowed ≡ (
        if any (matches "deny" subject resource) rules
        then (false, "abac_deny")
        else if allowed || any (matches "allow" subject resource) rules
        then (true, "abac_allow")
        else (false, "no_grant"))
unfolding eval_rules
eval_rules_lem [] subject resource allowed = ground arith
eval_rules_lem (r ∷ rules) subject resource allowed = ground (
  arith,
  eval_rules_lem rules subject resource true,
  eval_rules_lem rules subject resource allowed,
  eq_iff r.effect "deny",
  eq_iff r.effect "allow",
)

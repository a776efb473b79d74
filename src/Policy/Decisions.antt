-- ===== src/Policy/Decisions.antt =====
-- `Evaluate` against its specification.
use permission_aware_search.Cache
use mathlib.Core.Logic.{◌⊎◌}
use permission_aware_search.Common.{
  if◌then◌else◌, Bool-cases, Result-cases, Result, ok, any, mem, ℕ, String, ◌≡◌, refl, sym, ◌∙◌,
  ◌↔◌, inl, inr, Bool, true, false, ◌||◌, List, arith,
}
use permission_aware_search.Json.{Doc, string_field}
use permission_aware_search.Policy.{
  eval_abac, has_deny_rule, cache_key, subject_ids, grants_for_subject, deny, allow, decide,
  other_tenant, evaluate, Subject, Decision, AbacRule, PolicyDb, SqliteEngine,
}
use permission_aware_search.Policy.Rules.{
  matches, any-Matches, any_of_Matches, eval_rules_lem, Matches,
}
use permission_aware_search.Policy.Grants.{Known, grants_for_subject-Known}
use permission_aware_search.Cache.Laws.{mem-copy_set}

abbrev pub IsGranted : List String → Doc → Type 0
IsGranted grants resource =
    (mem "*" grants ≡ true) ⊎ (mem (string_field "id" resource) grants ≡ true)

-- What grants and rules permit: a document that names no other tenant, that no deny rule of the subject's
-- tenant matches, and for which there is a grant (for all or for its id) or a matching allow rule.
pub record IsPermitted (subject : Subject) (resource : Doc) (grants : List String)
    (rules : List AbacRule) : Type 0 where
  pub tenant : other_tenant subject resource ≡ false
  pub undenied : ¬ (Matches "deny" rules subject resource)
  pub reason : IsGranted grants resource ⊎ Matches "allow" rules subject resource

IsPermitted-copy_set :
    {subject : Subject} {resource : Doc} {ids : List String} {rules : List AbacRule}
    → IsPermitted subject resource (Cache.copy_set ids) rules
      ↔ IsPermitted subject resource ids rules
IsPermitted-copy_set {subject} {resource} {ids} {rules} =
    let star = mem-copy_set "*" ids in
    let own = mem-copy_set (string_field "id" resource) ids in
    (
      (λ p. record {
        tenant = p.tenant;
        undenied = p.undenied;
        reason = elim p.reason [
          | inl (inl h) ↦ inl (inl (sym star ∙ h))
          | inl (inr h) ↦ inl (inr (sym own ∙ h))
          | inr h ↦ inr h
        ];
      }),
      λ p. record {
        tenant = p.tenant;
        undenied = p.undenied;
        reason = elim p.reason [
          | inl (inl h) ↦ inl (inl (star ∙ h))
          | inl (inr h) ↦ inl (inr (own ∙ h))
          | inr h ↦ inr h
        ];
      },
    )

pub db-grants_for_subject :
    (now : ℕ) (subject : Subject) (action resource_type : String) (engine : SqliteEngine)
    → (grants_for_subject now subject action resource_type engine).1.db ≡ engine.db
unfolding grants_for_subject
db-grants_for_subject now subject action resource_type engine = ground arith

module _ (db : PolicyDb) (subject : Subject) (action resource_type : String) (resource : Doc)
    (grants : List String) (rules : List AbacRule)
    (queried : db.rule_rows subject.tenant_id action resource_type ≡ ok rules) where
  denied : Bool
  denied = any (matches "deny" subject resource) rules

  granted : Bool
  granted = mem "*" grants || mem (string_field "id" resource) grants

  decide_lem :
      decide db subject action resource_type resource grants
      ≡ ok (
          if granted
          then (if denied then deny "abac_deny" else allow "acl_grant")
          else if denied
          then deny "abac_deny"
          else if any (matches "allow" subject resource) rules
          then allow "abac_allow"
          else deny "no_grant")
  unfolding decide granted denied
  decide_lem = rw queried (ground (arith, eval_rules_lem rules subject resource false))

  granted_iff : (granted ≡ true) ↔ IsGranted grants resource
  unfolding granted
  granted_iff = ground arith

  undenied_iff : (denied ≡ false) ↔ ¬ (Matches "deny" rules subject resource)
  unfolding denied
  undenied_iff = (
    (λ e m. cc (any_of_Matches "deny" rules subject resource m)),
    λ none. elim (Bool-cases (any (matches "deny" subject resource) rules)) [
      | inl e ↦ absurd (none (any-Matches "deny" rules subject resource e))
      | inr e ↦ e
    ],
  )

  allow_iff :
      (any (matches "allow" subject resource) rules ≡ true) ↔ Matches "allow" rules subject resource
  allow_iff =
      (any-Matches "allow" rules subject resource, any_of_Matches "allow" rules subject resource)

  decide-IsPermitted :
      other_tenant subject resource ≡ false
      → (d : Decision) × (decide db subject action resource_type resource grants ≡ ok d)
        × ((d.allowed ≡ true) ↔ IsPermitted subject resource grants rules)
  decide-IsPermitted same = elim (Bool-cases denied) [
    | inl bad ↦ (
      deny "abac_deny",
      decide_lem ∙ ground arith,
      ((λ e. cc), λ p. cc (undenied_iff.1 p.undenied)),
    )
    | inr fine ↦ elim (Bool-cases granted) [
      | inl g ↦ (
        allow "acl_grant",
        decide_lem ∙ ground arith,
        (
          (λ e. record {
            tenant = same;
            undenied = undenied_iff.0 fine;
            reason = inl (granted_iff.0 g);
          }),
          λ p. refl,
        ),
      )
      | inr g ↦ elim (Bool-cases (any (matches "allow" subject resource) rules)) [
        | inl a ↦ (
          allow "abac_allow",
          decide_lem ∙ ground arith,
          (
            (λ e. record {
              tenant = same;
              undenied = undenied_iff.0 fine;
              reason = inr (allow_iff.0 a);
            }),
            λ p. refl,
          ),
        )
        | inr a ↦ (
          deny "no_grant",
          decide_lem ∙ ground arith,
          (
            (λ e. cc),
            λ p. elim p.reason [ inl h ↦ cc (granted_iff.1 h) | inr h ↦ cc (allow_iff.1 h) ],
          ),
        )
      ]
    ]
  ]

module _ (now : ℕ) (subject : Subject) (action resource_type : String) (resource : Doc)
    (engine : SqliteEngine) where
  abbrev grants_read : Result (List String)
  grants_read = (grants_for_subject now subject action resource_type engine).0

  abbrev rules_read : Result (List AbacRule)
  rules_read = engine.db.rule_rows subject.tenant_id action resource_type

  evaluate-grants_read :
      (grants : List String) (rules : List AbacRule)
      → grants_read ≡ ok grants
      → rules_read ≡ ok rules
      → (d : Decision) × ((evaluate now subject action resource_type resource engine).0 ≡ ok d)
        × ((d.allowed ≡ true) ↔ IsPermitted subject resource grants rules)
  unfolding evaluate
  evaluate-grants_read grants rules g r = elim (Bool-cases (other_tenant subject resource)) [
    | inl other ↦ (deny "tenant_mismatch", ground arith, ((λ e. cc), λ p. cc (p.tenant)))
    | inr same ↦
        let engine' = (grants_for_subject now subject action resource_type engine).1 in
        let kept = db-grants_for_subject now subject action resource_type engine in
        let (d, decided, correct) =
          decide-IsPermitted engine'.db subject action resource_type resource grants rules
            (rw kept r) same in
        (d, rw (same, g) decided, correct)
  ]

  -- Where the subject's ids are known, from a live cache entry or else from the rows of the table, and the
  -- query of the rules succeeds, `Evaluate` returns a decision, and it allows exactly what these ids and these
  -- rules permit: a document that names no other tenant, that no deny rule matches, and for which there is the
  -- id `*`, its own id or a matching allow rule.
  pub evaluate-IsPermitted :
      (ids : List String) (rules : List AbacRule)
      → Known
          (Cache.read now (cache_key subject action resource_type) engine.cache)
          (engine.db.grant_rows subject.tenant_id action resource_type (subject_ids subject))
          ids
      → engine.db.rule_rows subject.tenant_id action resource_type ≡ ok rules
      → (d : Decision) × ((evaluate now subject action resource_type resource engine).0 ≡ ok d)
        × ((d.allowed ≡ true) ↔ IsPermitted subject resource ids rules)
  evaluate-IsPermitted ids rules known r =
      let found = Cache.read now (cache_key subject action resource_type) engine.cache in
      let given =
        grants_for_subject-Known now subject action resource_type engine ids found refl known in
      let (d, decided, correct) = evaluate-grants_read (Cache.copy_set ids) rules given r in
      (
        d,
        decided,
        ((λ e. IsPermitted-copy_set.0 (correct.0 e)), λ p. correct.1 (IsPermitted-copy_set.1 p)),
      )

  -- `Evaluate` never fails open: it allows only with grants and rules that it has read and that permit the
  -- document.
  pub evaluate_fails_closed :
      (d : Decision)
      → (evaluate now subject action resource_type resource engine).0 ≡ ok d
      → d.allowed ≡ true
      → (grants : List String) × (rules : List AbacRule) × (grants_read ≡ ok grants)
        × (rules_read ≡ ok rules)
        × IsPermitted subject resource grants rules
  evaluate_fails_closed d e allowed = elim (Result-cases grants_read) [
    | inr (message, failed) ↦ absurd (unfold evaluate in ground arith)
    | inl (grants, g) ↦ elim (Result-cases rules_read) [
      | inr (message, failed) ↦
          let kept = db-grants_for_subject now subject action resource_type engine in
          absurd (unfold evaluate decide eval_abac has_deny_rule in ground arith)
      | inl (rules, r) ↦
          let (d', e', correct) = evaluate-grants_read grants rules g r in
          (grants, rules, g, r, correct.0 (ground arith))
    ]
  ]

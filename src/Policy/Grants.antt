-- ===== src/Policy/Grants.antt =====
-- The grants that `Evaluate` works with: how the cache answers for the table.
use Prim.Native.String.{[], ◌∷◌}
use text.Mathlib.TextLemmas.{nil-append, cons-append}
use permission_aware_search.Cache
use permission_aware_search.Common.{
  Result, ok, err, ℕ, ◌+◌, ◌≤◌, String, ◌≡◌, refl, ap, ◌∙◌, List, arith, eq_refl,
}
use permission_aware_search.Strings.{◌+++◌}
use permission_aware_search.Strings.Laws.{Lacks, append-sep_inj}
use permission_aware_search.Cache.Laws.{copy_set_idem, read-set}
use permission_aware_search.Policy.{
  cache_key, subject_ids, grants_for_subject, Subject, SqliteEngine,
}

module _ (now : ℕ) (subject : Subject) (action resource_type : String) (engine : SqliteEngine) where
  abbrev key : String
  key = cache_key subject action resource_type

  abbrev rows : Result (List String)
  rows = engine.db.grant_rows subject.tenant_id action resource_type (subject_ids subject)

  -- A live entry answers, and nothing is queried; else the rows of the table do, or their error.
  grants_for_subject_lem :
      (grants_for_subject now subject action resource_type engine).0
      ≡ elim (Cache.read now key engine.cache) [
        | Cache.live ids ↦ ok (Cache.copy_set ids)
        | _ ↦ elim rows [ ok ids ↦ ok (Cache.copy_set ids) | err e ↦ err e ]
      ]
  unfolding grants_for_subject Cache.get
  grants_for_subject_lem = ground arith

-- The ids that are known of a subject: those of a live cache entry, or else those of the table's rows.
abbrev pub Known : Cache.Found → Result (List String) → List String → Type 0
Known (Cache.live cached) queried ids = cached ≡ ids
Known Cache.absent queried ids = queried ≡ ok ids
Known Cache.expired queried ids = queried ≡ ok ids

pub grants_for_subject-Known :
    (now : ℕ) (subject : Subject) (action resource_type : String) (engine : SqliteEngine)
    (ids : List String) (found : Cache.Found)
    → Cache.read now (cache_key subject action resource_type) engine.cache ≡ found
    → Known found
        (engine.db.grant_rows subject.tenant_id action resource_type (subject_ids subject))
        ids
    → (grants_for_subject now subject action resource_type engine).0 ≡ ok (Cache.copy_set ids)
grants_for_subject-Known now subject action resource_type engine ids (Cache.live cached) read h =
    grants_for_subject_lem now subject action resource_type engine
    ∙ rw read (ap (λ l. ok (Cache.copy_set l)) h)
grants_for_subject-Known now subject action resource_type engine ids Cache.absent read h =
    grants_for_subject_lem now subject action resource_type engine ∙ rw (read, h) refl
grants_for_subject-Known now subject action resource_type engine ids Cache.expired read h =
    grants_for_subject_lem now subject action resource_type engine ∙ rw (read, h) refl

-- A miss that finds rows stores them.
grants_for_subject_stores :
    (t : ℕ) (s : Subject) (action resource_type : String) (engine : SqliteEngine)
    (ids : List String)
    → Cache.read t (cache_key s action resource_type) engine.cache ≡ Cache.absent
    → engine.db.grant_rows s.tenant_id action resource_type (subject_ids s) ≡ ok ids
    → (grants_for_subject t s action resource_type engine).1
      ≡ record engine { cache = Cache.set t (cache_key s action resource_type) ids engine.cache }
unfolding grants_for_subject Cache.get
grants_for_subject_stores t s action resource_type engine ids miss found = ground arith

-- Once the grants of a subject have been read from the table, any subject with the same key is given
-- these until `ttl` has passed: the table is not asked, whatever the roles of the second subject are.
pub grants_reused :
    (t now : ℕ) (s s' : Subject) (action resource_type : String) (engine : SqliteEngine)
    (ids : List String)
    → cache_key s' action resource_type ≡ cache_key s action resource_type
    → Cache.read t (cache_key s action resource_type) engine.cache ≡ Cache.absent
    → engine.db.grant_rows s.tenant_id action resource_type (subject_ids s) ≡ ok ids
    → now ≤ t + engine.cache.ttl
    → (grants_for_subject now s' action resource_type
        (grants_for_subject t s action resource_type engine).1).0
      ≡ ok (Cache.copy_set ids)
grants_reused t now s s' action resource_type engine ids same miss found h =
    rw (grants_for_subject_stores t s action resource_type engine ids miss found)
      (rw grants_for_subject_lem (rw (same, read-set, eq_refl) (ground (arith, copy_set_idem ids))))

-- Where no tenant, user or resource type has a colon, the key determines tenant, user, resource type
-- and action.
pub cache_key_inj :
    (s s' : Subject) (action action' resource_type resource_type' : String)
    → Lacks ":" s.tenant_id
    → Lacks ":" s.user_id
    → Lacks ":" resource_type
    → Lacks ":" s'.tenant_id
    → Lacks ":" s'.user_id
    → Lacks ":" resource_type'
    → cache_key s action resource_type ≡ cache_key s' action' resource_type'
    → (s.tenant_id ≡ s'.tenant_id)
      × (s.user_id ≡ s'.user_id)
      × (resource_type ≡ resource_type')
      × (action ≡ action')
unfolding cache_key
cache_key_inj s s' action action' resource_type resource_type' a b c a' b' c' e =
    let colon : (t : String) → ":" +++ t ≡ ":" ∷ t =
      λ t. cons-append ":" [] t ∙ ap (λ u. ":" ∷ u) (nil-append t) in
    let (tenant, e1) = append-sep_inj ":" s.tenant_id s'.tenant_id _ _ a a' (simp colon at e) in
    let (user, e2) = append-sep_inj ":" s.user_id s'.user_id _ _ b b' e1 in
    let (resource, e3) = append-sep_inj ":" resource_type resource_type' _ _ c c' e2 in
    (tenant, user, resource, e3)

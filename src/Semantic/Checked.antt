-- ===== src/Semantic/Checked.antt =====
-- internal/semantic/analyzer_slm_local.go: what is known of a language model's answer that no check objects
-- to.
use permission_aware_search.Common.Int.{le_zero}
use permission_aware_search.Common.{
  ◌==◌, if◌then◌else◌, Bool-cases, ok, All, String, ◌≡◌, refl, ap, ◌∙◌, subst, ◌⊎◌, inl, inr, Bool,
  true, false, not, ◌&&◌, ◌||◌, Option, List, [], ◌∷◌, ◌++◌, eq_iff,
}
use permission_aware_search.Strings.{◌+++◌, trim_space, to_lower}
use permission_aware_search.Schema.Registry.{Registry}
use permission_aware_search.Contracts.{intent_wismo, intent_returns_refunds, validate_field}
use permission_aware_search.Store.{Filter}
use permission_aware_search.Semantic.{AnalyzeResult}
use permission_aware_search.Semantic.Remote.{
  dedupe_strings, report, is_valid_intent, is_valid_op, fill_blanks, is_checkable, check_field,
  filter_errors, remote_errors, validate_remote_result,
}
use permission_aware_search.Semantic.Errors.{
  Silent, dedupe_from-Silent, Silent-append, Silent-report, Silent-step, not-false, prefixed-filled,
  validate_field-Loud, error_of-Loud,
}

-- what the checks of `validateRemoteResult` are for, of a result that has been filled in
pub record Accepted (reg : Option Registry) (res : AnalyzeResult) : Type 0 where
  pub resource : (res.resource_type ≡ "order") ⊎ (res.resource_type ≡ "customer")
  pub intent : is_valid_intent res.intent_category ≡ true
  pub same_intent : res.query.intent_category ≡ res.intent_category
  pub filters :
      All
        (λ f.
          (is_valid_op (to_lower f.op) ≡ true)
          × (validate_field reg res.resource_type res.query.contract_version res.intent_category
                f.field
              ≡ ok tt))
        res.query.filters
  pub sort :
      (res.query.sort.field ≡ "")
      ⊎ (validate_field reg res.resource_type res.query.contract_version res.intent_category
            res.query.sort.field
          ≡ ok tt)
  pub limit : le_zero res.query.page.limit ≡ false
  pub consistent :
      (res.resource_type ≡ "customer")
      → ((res.intent_category == intent_wismo || res.intent_category == intent_returns_refunds)
          ≡ false)

module _ (reg : Option Registry) (res : AnalyzeResult) (checkable : is_checkable res ≡ true) where
  check_field-Silent :
      (name : String)
      → Silent (check_field reg res name)
      → validate_field reg res.resource_type res.query.contract_version res.intent_category name
        ≡ ok tt
  check_field-Silent name h =
      error_of-Loud _ (validate_field-Loud reg _ _ _ name)
        (subst Silent (rw (check_field, checkable) refl) h)

  filter_errors-Silent :
      (filters : List Filter)
      → Silent (filter_errors reg res filters)
      → All
          (λ f.
            (is_valid_op (to_lower f.op) ≡ true)
            × (validate_field reg res.resource_type res.query.contract_version res.intent_category
                  f.field
                ≡ ok tt))
          filters
  unfolding filter_errors
  filter_errors-Silent [] h = tt
  filter_errors-Silent (f ∷ filters) h =
      let bad = not (is_valid_op (to_lower f.op)) in
      let message = "invalid operator for field " +++ f.field in
      let (op, h') =
        Silent-append (report bad message)
          (check_field reg res f.field ++ filter_errors reg res filters) h in
      let (own, rest) =
        Silent-append (check_field reg res f.field) (filter_errors reg res filters) h' in
      let loud = prefixed-filled "i" "nvalid operator for field " f.field refl in
      (
        (not-false _ (Silent-report bad message loud op), check_field-Silent f.field own),
        filter_errors-Silent filters rest,
      )

checkable_lem :
    (res : AnalyzeResult)
    → (res.resource_type == "") ≡ false
    → (res.intent_category == "") ≡ false
    → (res.query.contract_version == "") ≡ false
    → is_checkable res ≡ true
checkable_lem res x y z = rw (is_checkable, x, y, z) refl

sort-Silent :
    (reg : Option Registry) (res : AnalyzeResult)
    → is_checkable res ≡ true
    → Silent (if res.query.sort.field == "" then [] else check_field reg res res.query.sort.field)
    → (res.query.sort.field ≡ "")
      ⊎ (validate_field reg res.resource_type res.query.contract_version res.intent_category
            res.query.sort.field
          ≡ ok tt)
sort-Silent reg res checkable h = elim (Bool-cases (res.query.sort.field == "")) [
  | inl blank ↦ inl ((eq_iff _ _).0 blank)
  | inr given ↦ inr (check_field-Silent reg res checkable res.query.sort.field (rw given at h))
]

test-filled : (p : String → Bool) (s : String) → p "" ≡ false → p s ≡ true → (s == "") ≡ false
test-filled p s h e = elim (Bool-cases (s == "")) [
  | inl blank ↦ let same = ap p ((eq_iff s "").0 blank) in cc
  | inr filled ↦ filled
]

intent-fill_blanks :
    (res : AnalyzeResult) (version : String)
    → (res.intent_category == "") ≡ false
    → (fill_blanks res version).intent_category ≡ res.intent_category
unfolding fill_blanks
intent-fill_blanks res version h = rw h refl

version-fill_blanks :
    (res : AnalyzeResult) (version : String)
    → (version == "") ≡ false
    → ((fill_blanks res version).query.contract_version == "") ≡ false
unfolding fill_blanks
version-fill_blanks res version h = elim (Bool-cases (res.query.contract_version == "")) [
  | inl blank ↦ rw blank h
  | inr given ↦ rw given given
]

known_kind-cases :
    (kind : String)
    → (kind == "order" || kind == "customer") ≡ true
    → (kind ≡ "order") ⊎ (kind ≡ "customer")
known_kind-cases kind h = elim (Bool-cases (kind == "order")) [
  | inl order ↦ inl ((eq_iff kind "order").0 order)
  | inr other ↦ inr ((eq_iff kind "customer").0 (rw other at h))
]

odd-customer :
    (b : Bool) (kind : String) → (b && kind == "customer") ≡ false → kind ≡ "customer" → b ≡ false
odd-customer true kind h e = let yes' = (eq_iff kind "customer").1 e in cc
odd-customer false kind h e = refl

limit-filled :
    (res : AnalyzeResult) (version : String)
    → le_zero (fill_blanks res version).query.page.limit ≡ false
unfolding fill_blanks
limit-filled res version = elim (Bool-cases (le_zero res.query.page.limit)) [
  | inl blank ↦ rw blank refl
  | inr given ↦ rw given given
]

-- `validateRemoteResult`, asked with a contract version: if it has no error to report, the result it
-- returns is of a known resource and intent, each of its filters has a known operator and a field that the
-- contract allows, so has its sort if there is one, and its limit is positive.
pub validate_remote_result-Accepted :
    (reg : Option Registry) (res : AnalyzeResult) (version : String)
    → (version == "") ≡ false
    → (validate_remote_result reg res version).1 ≡ []
    → Accepted reg (validate_remote_result reg res version).0
unfolding validate_remote_result remote_errors dedupe_strings trim_space
validate_remote_result-Accepted reg res version asked h =
    let filled = fill_blanks res version in
    let all_silent = dedupe_from-Silent (remote_errors reg res.intent_category filled) h in
    let known_kind = filled.resource_type == "order" || filled.resource_type == "customer" in
    let one_intent = filled.query.intent_category == filled.intent_category in
    let odd =
      (filled.intent_category == intent_wismo || filled.intent_category == intent_returns_refunds)
      && filled.resource_type == "customer" in
    let bad_intent = not (is_valid_intent res.intent_category) in
    let sort_errors =
      if filled.query.sort.field == ""
      then []
      else check_field reg filled filled.query.sort.field in
    let after_fields = sort_errors ++ report odd "resource-intent inconsistency" in
    let after_same = filter_errors reg filled filled.query.filters ++ after_fields in
    let after_intent = report (not one_intent) "query intentCategory mismatch" ++ after_same in
    let after_kind = report bad_intent "invalid intentCategory" ++ after_intent in
    let (kind, h1) =
      Silent-step (not known_kind) "invalid resourceType" after_kind refl all_silent in
    let (intent, h2) = Silent-step bad_intent "invalid intentCategory" after_intent refl h1 in
    let (same, h3) =
      Silent-step (not one_intent) "query intentCategory mismatch" after_same refl h2 in
    let (fields, h4) =
      Silent-append (filter_errors reg filled filled.query.filters) after_fields h3 in
    let (sorting, last) =
      Silent-append sort_errors (report odd "resource-intent inconsistency") h4 in
    let consistent = Silent-report odd "resource-intent inconsistency" refl last in
    let known = not-false known_kind kind in
    let valid = not-false (is_valid_intent res.intent_category) intent in
    let given = test-filled is_valid_intent res.intent_category refl valid in
    let kept = intent-fill_blanks res version given in
    let named =
      test-filled (λ kind. kind == "order" || kind == "customer") filled.resource_type refl known in
    let checkable =
      checkable_lem filled named (ap (λ s. s == "") kept ∙ given)
        (version-fill_blanks res version asked) in
    record {
      resource = known_kind-cases filled.resource_type known;
      intent = ap is_valid_intent kept ∙ valid;
      same_intent = (eq_iff _ _).0 (not-false _ same);
      filters = filter_errors-Silent reg filled checkable filled.query.filters fields;
      sort = sort-Silent reg filled checkable sorting;
      limit = limit-filled res version;
      consistent = odd-customer _ filled.resource_type consistent;
    }

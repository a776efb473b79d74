-- ===== src/Semantic/Providers.antt =====
-- internal/semantic/rewrite_intent_router.go: which providers a chain has.
use permission_aware_search.Common.{
  ◌==◌, Bool-cases, any, mem, String, ◌≡◌, refl, sym, ap, ◌∙◌, subst, inl, inr, Bool, true, false,
  not, ◌&&◌, ◌||◌, List, [], ◌∷◌, ◌++◌, arith, eq_iff, eq_refl,
}
use permission_aware_search.Strings.{trim_space}
use permission_aware_search.Semantic.Merged.{has_key, Distinct}
use permission_aware_search.Semantic.Remote.{dedupe_from}
use permission_aware_search.Semantic.Chain.{ensure_rule_fallback}

abbrev pub same : String → String
same s = s

-- some text of the chain is the identifier, up to blanks around it
abbrev pub names : String → List String → Bool
names id chain = any (λ c. trim_space c == id) chain

has_key-dedupe_from :
    (id : String) (chain seen : List String)
    → has_key same id (dedupe_from chain seen)
      ≡ (not (id == "") && names id chain && not (mem id seen))
unfolding dedupe_from mem
has_key-dedupe_from id [] seen = ground arith
has_key-dedupe_from id (c ∷ chain) seen =
    let skipped = has_key-dedupe_from id chain seen in
    let kept = has_key-dedupe_from id chain (trim_space c ∷ seen) in
    elim (Bool-cases (trim_space c == id)) [
      | inl here ↦
          let e = (eq_iff (trim_space c) id).0 here in
          elim (Bool-cases (trim_space c == "" || mem (trim_space c) seen)) [
            | inl out ↦
                let outside = subst (λ s. (s == "" || mem s seen) ≡ true) e out in
                rw (out, here) (skipped ∙ ground arith)
            | inr first ↦
                let inside = subst (λ s. (s == "" || mem s seen) ≡ false) e first in
                rw (first, here) (ground arith)
          ]
      | inr other ↦ elim (Bool-cases (trim_space c == "" || mem (trim_space c) seen)) [
        | inl out ↦ rw (out, other) skipped
        | inr first ↦ rw (first, other) (rw other at kept)
      ]
    ]

dedupe_from-Distinct : (chain seen : List String) → Distinct same (dedupe_from chain seen)
unfolding dedupe_from mem
dedupe_from-Distinct [] seen = tt
dedupe_from-Distinct (c ∷ chain) seen =
    let kept = has_key-dedupe_from (trim_space c) chain (trim_space c ∷ seen) in
    elim (Bool-cases (trim_space c == "" || mem (trim_space c) seen)) [
      | inl out ↦ rw out (dedupe_from-Distinct chain seen)
      | inr first ↦ rw first (
        (rw (eq_refl (trim_space c)) at kept) ∙ ground arith,
        dedupe_from-Distinct chain (trim_space c ∷ seen),
      )
    ]

has_key-last :
    (id last : String) (xs : List String)
    → has_key same id (xs ++ last ∷ []) ≡ (has_key same id xs || last == id)
has_key-last id last [] = ground arith
has_key-last id last (x ∷ xs) = ground (arith, has_key-last id last xs)

Distinct-last :
    (last : String) (xs : List String)
    → has_key same last xs ≡ false
    → Distinct same xs
    → Distinct same (xs ++ last ∷ [])
Distinct-last last [] h d = (refl, tt)
Distinct-last last (x ∷ xs) h (new, d) = (
  ground (arith, has_key-last x last xs, eq_iff last x, eq_iff x last, new, h),
  Distinct-last last xs (ground arith) d,
)

mem-has_key : (id : String) (xs : List String) → mem id xs ≡ has_key same id xs
unfolding mem
mem-has_key id [] = refl
mem-has_key id (x ∷ xs) = ground (arith, mem-has_key id xs)

-- The chain of `ensureRuleFallback` has no provider twice, and its providers are those named in the chain
-- that it is given, up to blanks and but for blank names, and the rule provider.
pub ensure_rule_fallback_lem :
    (chain : List String)
    → Distinct same (ensure_rule_fallback chain)
      × ((id : String)
          → has_key same id (ensure_rule_fallback chain)
            ≡ (not (id == "") && names id chain || "intent-rule" == id))
unfolding ensure_rule_fallback mem
ensure_rule_fallback_lem chain =
    let listed = has_key-dedupe_from "intent-rule" chain [] in
    let there = mem-has_key "intent-rule" (dedupe_from chain []) in
    elim (Bool-cases (mem "intent-rule" (dedupe_from chain []))) [
      | inl given ↦ rw given (
        dedupe_from-Distinct chain [],
        λ id.
            let at_id = has_key-dedupe_from id chain [] in
            elim (Bool-cases ("intent-rule" == id)) [
              | inl rule ↦
                  let e = (eq_iff "intent-rule" id).0 rule in
                  let found =
                    subst (λ s. has_key same s (dedupe_from chain []) ≡ true) e
                      (sym there ∙ given) in
                  rw rule (found ∙ ground arith)
              | inr other ↦ rw other (at_id ∙ ground arith)
            ],
      )
      | inr added ↦ rw added (
        Distinct-last "intent-rule" (dedupe_from chain []) (sym there ∙ added)
            (dedupe_from-Distinct chain []),
        λ id.
            let at_id = has_key-dedupe_from id chain [] in
            has_key-last id "intent-rule" (dedupe_from chain [])
            ∙ ap (λ b. b || "intent-rule" == id) (at_id ∙ ground arith),
      )
    ]

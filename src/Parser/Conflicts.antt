-- ===== src/Parser/Conflicts.antt =====
-- Where the cues of a message contradict each other, no filter on the state in question is left.
use permission_aware_search.Common.{
  ◌==◌, Bool-cases, all, keep, all-keep_self, all-keep, String, ◌≡◌, refl, ◌⊎◌, inl, inr, Bool,
  true, false, not, List,
}
use permission_aware_search.Store.{Filter}
use permission_aware_search.Semantic.{SemanticSlots}
use permission_aware_search.Parser.{Setting}
use permission_aware_search.Parser.Filters.{Draft}
use permission_aware_search.Parser.Parse.{
  fill_window, fill_identifiers, fill_intent, guard_conflicts, draft_of,
}
use permission_aware_search.Parser.Cues.{classify_intent}

abbrev pub names_other : String → Filter → Bool
names_other name f = not (f.field == name)

abbrev pub IsGuarded : SemanticSlots → List Filter → Type 0
IsGuarded slots filters =
    ((slots.has_payment_conflict ≡ false) ⊎ (all (names_other "payment.state") filters ≡ true))
    × ((slots.has_shipment_conflict ≡ false) ⊎ (all (names_other "shipment.state") filters ≡ true))

pub guard_conflicts-IsGuarded :
    (slots : SemanticSlots) (d : Draft) → IsGuarded slots (guard_conflicts slots d).filters
unfolding guard_conflicts
guard_conflicts-IsGuarded slots d =
    let paid = names_other "payment.state" in
    let sent = names_other "shipment.state" in
    let kept = all-keep_self paid d.filters in
    let both = all-keep paid sent (keep paid d.filters) kept in
    let once = all-keep_self sent d.filters in
    let twice = all-keep_self sent (keep paid d.filters) in
    elim (Bool-cases slots.has_payment_conflict) [
      | inl p ↦ elim (Bool-cases slots.has_shipment_conflict) [
        | inl q ↦ rw (p, q) (inr both, inr twice)
        | inr q ↦ rw (p, q) (inr kept, inl refl)
      ]
      | inr p ↦ elim (Bool-cases slots.has_shipment_conflict) [
        | inl q ↦ rw (p, q) (inl refl, inr once)
        | inr q ↦ rw (p, q) (inl refl, inl refl)
      ]
    ]

pub draft_of-IsGuarded :
    (env : Setting) (message lower resource_type : String) (slots : SemanticSlots) (d : Draft)
    → IsGuarded slots (draft_of env message lower resource_type slots d).filters
unfolding draft_of
draft_of-IsGuarded env message lower resource_type slots d = guard_conflicts-IsGuarded slots (
    fill_intent env.registry (classify_intent lower) resource_type lower slots
      (fill_identifiers env.registry message (fill_window env lower resource_type d)))

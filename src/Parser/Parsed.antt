-- ===== src/Parser/Parsed.antt =====
-- What `ParseNaturalLanguage` answers, whatever the message is.
use permission_aware_search.Common.{
  ltb, ◌==◌, if◌then◌else◌, Bool-cases, if_cases, String, ◌≡◌, refl, ◌⊎◌, inl, inr, Bool, true,
  false, ◌&&◌, ◌||◌, arith, eq_iff,
}
use permission_aware_search.Common.Int.{pos}
use permission_aware_search.Strings.{◌+++◌}
use permission_aware_search.Contracts.{
  contract_version_v2, intent_default, intent_wismo, intent_crm_profile, intent_returns_refunds,
  intent_unsupported,
}
use permission_aware_search.Parser.{Setting}
use permission_aware_search.Parser.Lookups.{created_at_field}
use permission_aware_search.Parser.Cues.{
  contains_any, is_temporal_order_listing, has_crm_identity_cue, unsupported_terms, returns_terms,
  wismo_terms, crm_terms, classify_intent, infer_resource_type,
}
use permission_aware_search.Parser.Normalize.{normalize_semantic_input}
use permission_aware_search.Parser.Slots.{extract_semantic_slots}
use permission_aware_search.Parser.Parse.{first_draft, parse_natural_language, ParseResult}
use permission_aware_search.Parser.Confidence.{IsConfidence, draft_of-IsConfidence}
use permission_aware_search.Parser.Conflicts.{IsGuarded, draft_of-IsGuarded}

abbrev IsIntent : String → Type 0
IsIntent intent =
    (intent ≡ intent_default)
    ⊎ (intent ≡ intent_wismo)
    ⊎ (intent ≡ intent_crm_profile)
    ⊎ (intent ≡ intent_returns_refunds)
    ⊎ (intent ≡ intent_unsupported)

five-IsIntent :
    (unsupported returns temporal wismo crm : Bool)
    → IsIntent (
        if unsupported
        then intent_unsupported
        else if returns
        then intent_returns_refunds
        else if temporal
        then intent_wismo
        else if wismo
        then intent_wismo
        else if crm
        then intent_crm_profile
        else intent_default)
five-IsIntent true returns temporal wismo crm = inr (inr (inr (inr refl)))
five-IsIntent false true temporal wismo crm = inr (inr (inr (inl refl)))
five-IsIntent false false true wismo crm = inr (inl refl)
five-IsIntent false false false true crm = inr (inl refl)
five-IsIntent false false false false true = inr (inr (inl refl))
five-IsIntent false false false false false = inl refl

classify_intent-IsIntent : (lower : String) → IsIntent (classify_intent lower)
unfolding classify_intent
classify_intent-IsIntent lower =
    five-IsIntent (contains_any lower unsupported_terms) (contains_any lower returns_terms)
      (is_temporal_order_listing lower) (contains_any lower wismo_terms)
      (has_crm_identity_cue lower && contains_any lower crm_terms)

abbrev IsResource : String → Type 0
IsResource resource = (resource ≡ "order") ⊎ (resource ≡ "customer")

hint-IsResource : (hint : String) → (hint == "order" || hint == "customer") ≡ true → IsResource hint
hint-IsResource hint h = elim (Bool-cases (hint == "order")) [
  | inl one ↦ inl ((eq_iff hint "order").0 one)
  | inr other ↦ inr ((eq_iff hint "customer").0 (ground arith))
]

either-IsResource :
    (hinted orders customers : Bool) (hint : String)
    → (hinted ≡ true → IsResource hint)
    → (default' : String) → IsResource default'
    → IsResource (
        if hinted
        then hint
        else if orders
        then "order"
        else if customers
        then "customer"
        else default')
either-IsResource true orders customers hint h default' d = h refl
either-IsResource false true customers hint h default' d = inl refl
either-IsResource false false true hint h default' d = inr refl
either-IsResource false false false hint h default' d = d

infer_resource_type-IsResource :
    (lower hint intent : String) → IsResource (infer_resource_type lower hint intent)
unfolding infer_resource_type
infer_resource_type-IsResource lower hint intent =
    let last : String =
      if intent == intent_wismo || intent == intent_returns_refunds then "order" else "order" in
    either-IsResource _ _ _ hint (hint-IsResource hint) last (
      if_cases (λ (r : String). IsResource r)
        (intent == intent_wismo || intent == intent_returns_refunds) (λ _. inl refl)
        (λ _. inl refl))

-- what is true of every parse
pub record IsParse (env : Setting) (version : String) (p : ParseResult) : Type 0 where
  pub versioned :
      p.query.contract_version ≡ (if version == "" then contract_version_v2 else version)
  pub known_intent : IsIntent p.intent_category
  pub same_intent : p.query.intent_category ≡ p.intent_category
  pub known_resource : IsResource p.resource_type
  pub named : p.intent ≡ "search_" +++ p.resource_type
  pub sorted : p.query.sort.field ≡ created_at_field env.registry p.resource_type
  pub newest_first : p.query.sort.dir ≡ "desc"
  pub first_page : (p.query.page.limit ≡ pos 20) × (p.query.page.cursor ≡ "")
  pub guarded : IsGuarded p.extracted_slots p.query.filters
  pub confidence : IsConfidence p.extracted_slots p.confidence
  pub clarified : p.clarification_needed ≡ ltb p.confidence 66

-- `ParseNaturalLanguage`, on every message: the intent and the resource are known ones, the query names
-- them and asks for the first page of twenty, newest first; where the cues for a payment or a shipment
-- contradict each other, no filter on its state is left and the confidence is 0.40, else the confidence is
-- between 0.55 and 2.53; a clarification is asked for exactly below 0.66.
pub parse_natural_language-IsParse :
    (env : Setting) (message version hint : String)
    → IsParse env version (parse_natural_language env message version hint)
unfolding parse_natural_language
parse_natural_language-IsParse env message version hint =
    let (lower, applied) = normalize_semantic_input env.ranged message in
    let slots = extract_semantic_slots env.registry lower in
    let resource_type = infer_resource_type lower hint (classify_intent lower) in
    record {
      versioned = refl;
      known_intent = classify_intent-IsIntent lower;
      same_intent = refl;
      known_resource = infer_resource_type-IsResource lower hint (classify_intent lower);
      named = refl;
      sorted = refl;
      newest_first = refl;
      first_page = (refl, refl);
      guarded = draft_of-IsGuarded env message lower resource_type slots (first_draft applied);
      confidence =
          draft_of-IsConfidence env message lower resource_type slots (first_draft applied) refl;
      clarified = refl;
    }

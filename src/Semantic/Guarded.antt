-- ===== src/Semantic/Guarded.antt =====
-- `applyMessageGuardrails`, and what `SLMLocalAnalyzer.Analyze` serves: the answers by rules and the checked
-- answers of the model, both guarded.
use permission_aware_search.Common.{
  ◌==◌, Bool-cases, any, all, All, all-append, String, ◌≡◌, refl, ap, ◌∙◌, ◌⊎◌, inl, inr, Bool,
  true, false, not, ◌&&◌, Option, some, List, [], ◌∷◌, arith,
}
use permission_aware_search.Strings.{trim_space, equal_fold}
use permission_aware_search.Schema.Registry.{Registry}
use permission_aware_search.Contracts.{normalize_field_name}
use permission_aware_search.Store.{Filter}
use permission_aware_search.Semantic.{AnalyzeRequest, AnalyzeResult}
use permission_aware_search.Semantic.Remote.{validate_remote_result}
use permission_aware_search.Semantic.Checked.{Accepted}
use permission_aware_search.Semantic.Framing.{default_version}
use permission_aware_search.Semantic.Model.{try_remote_slm, try_repair_remote_slm, as_raw_remote}
use permission_aware_search.Semantic.Local.{
  says_shipped, drop_shipped, is_guarded, apply_message_guardrails, fallback_result, completed,
  check, LocalAnalyzer, Checked,
}
use permission_aware_search.Parser.Filters.{denied_states}
use permission_aware_search.Parser.Negation.{
  denies, is_plain, IsNegative, apply_not_shipped_filters_lem,
}
use permission_aware_search.Json.Sprint.{sprint}

-- what a message that says that an order has not been shipped rules out
abbrev pub ruled_out : List String
ruled_out = "shipped" ∷ "delivered" ∷ "ready" ∷ []

-- the filter asks by `eq` for one of these states of the shipment
abbrev pub asks_for : List String → Filter → Bool
asks_for states f =
    f.field == "shipment.state"
    && equal_fold f.op "eq"
    && any (equal_fold (trim_space (sprint f.value))) states

abbrev pub is_harmless : Filter → Bool
is_harmless f = not (asks_for ruled_out f)

asks_for-says_shipped :
    (f : Filter) (name : String)
    → says_shipped name f ≡ false
    → is_harmless (record f { field = name }) ≡ true
unfolding equal_fold
asks_for-says_shipped f name h = ground arith

drop_shipped-harmless :
    (reg : Option Registry) (filters : List Filter)
    → all is_harmless (drop_shipped reg filters) ≡ true
unfolding drop_shipped
drop_shipped-harmless reg [] = refl
drop_shipped-harmless reg (f ∷ filters) =
    let name = normalize_field_name reg "order" f.field in
    elim (Bool-cases (says_shipped name f)) [
      | inl shipped ↦ rw shipped (drop_shipped-harmless reg filters)
      | inr other ↦
          rw other (rw (asks_for-says_shipped f name other, drop_shipped-harmless reg filters) refl)
    ]

negative-harmless :
    (filters : List Filter) → All IsNegative filters → all is_harmless filters ≡ true
unfolding equal_fold
negative-harmless [] h = refl
negative-harmless (f ∷ filters) (negative, later) =
    let unlike : equal_fold f.op "eq" ≡ false = rw negative refl in
    rw (unlike, negative-harmless filters later) (ground arith)

-- Where the message says that an order has not been shipped, the result is one of orders under `wismo`, and
-- the denied states of the schema have no blanks around them, the guardrails leave no filter that asks by `eq`
-- for a shipment that is shipped, delivered or ready, deny each of the denied states, and change neither the
-- sort nor the page.
pub apply_message_guardrails_lem :
    (reg : Option Registry) (message : String) (res : AnalyzeResult)
    → is_guarded message res ≡ true
    → all is_plain (denied_states reg) ≡ true
    → let out = (apply_message_guardrails reg message res).query in
      (all is_harmless out.filters ≡ true)
      × (all (denies out.filters) (denied_states reg) ≡ true)
      × (out.sort ≡ res.query.sort)
      × (out.page ≡ res.query.page)
unfolding apply_message_guardrails
apply_message_guardrails_lem reg message res guarded plain =
    let kept = drop_shipped reg res.query.filters in
    let (added, same, negative, denied, again) = apply_not_shipped_filters_lem reg kept plain in
    let harmless =
      ap (all is_harmless) same
      ∙ all-append is_harmless kept added (drop_shipped-harmless reg res.query.filters)
          (negative-harmless added negative) in
    rw guarded (harmless, denied, refl, refl)

module _ (a : LocalAnalyzer) where
  -- `validateRemoteResult` has made the answer of this one, without an error
  abbrev pub Clean : AnalyzeRequest → AnalyzeResult → AnalyzeResult → Type 0
  Clean req remote answer =
      validate_remote_result a.registry remote (default_version req) ≡ (answer, [])

  -- The answer is the model's first one, with what is known of the request, or its repair of that one, told
  -- the errors that were found in it.
  pub record Given (req : AnalyzeRequest) (answer : AnalyzeResult) : Type 0 where
    pub first : AnalyzeResult
    pub modelled : try_remote_slm a.model req ≡ some first
    pub checked :
        Clean req (completed a req first) answer
        ⊎ ((again : AnalyzeResult) × (try_repair_remote_slm a.model req
                (some (as_raw_remote (completed a req first)))
                (validate_remote_result a.registry (completed a req first) (default_version req)).1
              ≡ some again)
            × Clean req again answer)

  -- an answer of the model that was checked without an error, and the result made of it
  pub record FromModel (req : AnalyzeRequest) (res : AnalyzeResult) : Type 0 where
    pub answer : AnalyzeResult
    pub given : Given req answer
    pub accepted : Accepted a.registry answer
    pub query : res.query ≡ (apply_message_guardrails a.registry req.message answer).query
    pub confidence :
        res.confidence ≡ (apply_message_guardrails a.registry req.message answer).confidence
    pub resource_type :
        res.resource_type ≡ (apply_message_guardrails a.registry req.message answer).resource_type

  abbrev pub IsServed : AnalyzeRequest → AnalyzeResult → Type 0
  IsServed req res = (res.query ≡ (fallback_result a req).query) ⊎ FromModel req res

  abbrev IsChecked : AnalyzeRequest → Checked a → Type 0
  IsChecked req c = c.errors ≡ [] → Accepted a.registry c.normalized × Given req c.normalized

  module _ (req : AnalyzeRequest) (asked : (default_version req == "") ≡ false)
      (first : AnalyzeResult) (modelled : try_remote_slm a.model req ≡ some first) where
    abbrev first_check : Checked a
    first_check = check a req (completed a req first)

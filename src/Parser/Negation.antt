-- ===== src/Parser/Negation.antt =====
-- What `applyNotShippedFilters` adds, and that it adds nothing the second time.
use permission_aware_search.Common.{
  Bool-cases, all, All, String, ◌≡◌, refl, sym, ◌∙◌, inl, inr, Bool, true, ◌||◌, Option, List, [],
  ◌∷◌, ◌++◌, append-nil, append_assoc, arith, eq_refl,
}
use permission_aware_search.Strings.{trim_space, equal_fold}
use permission_aware_search.Json.Sprint.{sprint}
use permission_aware_search.Schema.Registry.{new, Registry}
use permission_aware_search.Store.{Filter}
use permission_aware_search.Parser.Filters.{
  a_filter, has_state_negation, denied_states, deny_state, deny_states, apply_not_shipped_filters,
}

abbrev pub denies : List Filter → String × String → Bool
denies filters d = has_state_negation filters d.0 d.1

-- a state that has no blanks around it
abbrev pub is_plain : String × String → Bool
is_plain d = equal_fold (trim_space d.1) d.1

has_state_negation-append :
    (xs ys : List Filter) (name state : String)
    → has_state_negation (xs ++ ys) name state
      ≡ (has_state_negation xs name state || has_state_negation ys name state)
unfolding has_state_negation
has_state_negation-append [] ys name state = refl
has_state_negation-append (x ∷ xs) ys name state =
    ground (arith, has_state_negation-append xs ys name state)

a_filter-denies :
    (d : String × String) → is_plain d ≡ true → denies (a_filter d.0 "neq" d.1 ∷ []) d ≡ true
unfolding has_state_negation sprint
a_filter-denies d plain = rw (eq_refl d.0, plain) refl

denies-deny_state :
    (d e : String × String) (filters : List Filter)
    → denies filters e ≡ true
    → denies (deny_state d filters) e ≡ true
denies-deny_state d e filters h = elim (Bool-cases (denies filters d)) [
  | inl there ↦ rw there h
  | inr new ↦
      rw new (rw (has_state_negation-append filters (a_filter d.0 "neq" d.1 ∷ []) e.0 e.1, h) refl)
]

deny_state-denies :
    (d : String × String) (filters : List Filter)
    → is_plain d ≡ true
    → denies (deny_state d filters) d ≡ true
deny_state-denies d filters plain = elim (Bool-cases (denies filters d)) [
  | inl there ↦ rw there there
  | inr new ↦ rw new (
      has_state_negation-append filters (a_filter d.0 "neq" d.1 ∷ []) d.0 d.1
      ∙ rw (new, a_filter-denies d plain) refl)
]

-- What is denied stays denied.
denies-deny_states :
    (denied : List (String × String)) (filters : List Filter) (e : String × String)
    → denies filters e ≡ true
    → denies (deny_states denied filters) e ≡ true
unfolding deny_states
denies-deny_states [] filters e h = h
denies-deny_states (d ∷ denied) filters e h =
    denies-deny_states denied (deny_state d filters) e (denies-deny_state d e filters h)

pub deny_states-denies :
    (denied : List (String × String)) (filters : List Filter)
    → all is_plain denied ≡ true
    → all (denies (deny_states denied filters)) denied ≡ true
unfolding deny_states
deny_states-denies [] filters plain = refl
deny_states-denies (d ∷ denied) filters plain =
    let next = deny_state d filters in
    let first = denies-deny_states denied next d (deny_state-denies d filters (ground arith)) in
    let later = deny_states-denies denied next (ground arith) in rw (first, later) refl

deny_states_denied :
    (denied : List (String × String)) (filters : List Filter)
    → all (denies filters) denied ≡ true
    → deny_states denied filters ≡ filters
unfolding deny_states
deny_states_denied [] filters h = refl
deny_states_denied (d ∷ denied) filters h =
    let here : denies filters d ≡ true = ground arith in
    rw here (deny_states_denied denied filters (ground arith))

abbrev pub IsNegative : Filter → Type 0
IsNegative f = f.op ≡ "neq"

-- The filters stay, and filters of `neq` are put behind them.
pub deny_states-append :
    (denied : List (String × String)) (filters : List Filter)
    → (added : List Filter) × (deny_states denied filters ≡ filters ++ added) × All IsNegative added
unfolding deny_states
deny_states-append [] filters = ([], sym (append-nil filters), tt)
deny_states-append (d ∷ denied) filters = elim (Bool-cases (denies filters d)) [
  | inl there ↦ rw there (deny_states-append denied filters)
  | inr new ↦
      let one = a_filter d.0 "neq" d.1 ∷ [] in
      let (added, same, negative) = deny_states-append denied (filters ++ one) in
      rw new (one ++ added, same ∙ append_assoc filters one added, (refl, negative))
]

-- `applyNotShippedFilters` keeps the filters it is given, puts `neq` filters behind them so that every
-- state to be denied is denied, and adds none when it is called again. The states have no blanks around
-- them.
pub apply_not_shipped_filters_lem :
    (reg : Option Registry) (filters : List Filter)
    → all is_plain (denied_states reg) ≡ true
    → (added : List Filter) × (apply_not_shipped_filters reg filters ≡ filters ++ added)
      × All IsNegative added
      × (all (denies (apply_not_shipped_filters reg filters)) (denied_states reg) ≡ true)
      × (apply_not_shipped_filters reg (apply_not_shipped_filters reg filters)
          ≡ apply_not_shipped_filters reg filters)
unfolding apply_not_shipped_filters
apply_not_shipped_filters_lem reg filters plain =
    let denied = denied_states reg in
    let (added, same, negative) = deny_states-append denied filters in
    let done = deny_states-denies denied filters plain in
    (added, same, negative, done, deny_states_denied denied (deny_states denied filters) done)

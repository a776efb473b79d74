-- ===== src/Parser/References.antt =====
-- The reference numbers that are extracted from a message: a prefix and digits, padded to their width.
use permission_aware_search.Common.{
  ltb, ◌==◌, Bool-cases, Option-cases, keep, All, ℕ, ◌-◌, ◌≤◌, ◌<◌, String, len, ◌≡◌, refl, sym,
  subst, ◌⊎◌, inl, inr, Bool, true, not, Option, none, some, List, [], ◌∷◌, arith,
}
use permission_aware_search.Strings.{◌+++◌, trim_space, repeat}
use permission_aware_search.Strings.Numbers.{digits}
use permission_aware_search.Regex.{find, Re}
use permission_aware_search.Regex.Digits.{is_digits, IsDigits}
use permission_aware_search.Parser.Patterns.{
  prefixed, re_ord_prefixed, re_ord_numeric, re_cnum, re_tracking, re_payment_ref, left_pad,
  first_group, padded, candidate, extract_order_number, extract_tracking_number,
  extract_customer_number, fill_zeros, payment_text, extract_payment_reference,
}
use permission_aware_search.Strings.Words.{last_bytes}
use permission_aware_search.Regex.Groups.{
  HasDigits, find-IsDigits, digits-HasDigits, lit_i-HasDigits,
}
use permission_aware_search.Parser.Padding.{zeros-digits, left_pad-digits, drop_bytes-IsDigits}
use Prim.Native.Char.{width}

-- nothing, or the prefix and at least so many digits
abbrev pub IsReference : String → ℕ → String → Type 0
IsReference head width text =
    (text ≡ "")
    ⊎ ((digits : String) × (text ≡ head +++ digits)
        × (is_digits digits ≡ true)
        × (width ≤ len digits))

padded-IsReference :
    (head : String) (width : ℕ) (found : Option String)
    → (digits : (num : String) → found ≡ some num → is_digits num ≡ true)
    → IsReference head width (padded head width found)
padded-IsReference head width none digits = inl refl
padded-IsReference head width (some num) digits =
    let (same, long) = left_pad-digits num width (digits num refl) in
    inr (left_pad num width, refl, same, long)

first_of-IsDigits :
    (gs : List String) (num : String)
    → All IsDigits gs
    → elim gs [ [] ↦ none | g ∷ gs ↦ some g ] ≡ some num
    → IsDigits num
first_of-IsDigits [] num h e = cc
first_of-IsDigits (g ∷ gs) num h e = let same : g ≡ num = cc in rw (← same) h.0

keep-IsDigits : (p : String → Bool) (gs : List String) → All IsDigits gs → All IsDigits (keep p gs)
keep-IsDigits p [] h = tt
keep-IsDigits p (g ∷ gs) h = elim (Bool-cases (p g)) [
  | inl kept ↦ rw kept (h.0, keep-IsDigits p gs h.1)
  | inr left ↦ rw left (keep-IsDigits p gs h.1)
]

first_group-IsDigits :
    (re : Re) (message num : String)
    → HasDigits re
    → first_group (find re message) ≡ some num
    → IsDigits num
first_group-IsDigits re message num h e = elim (Option-cases (find re message)) [
  | inl missed ↦ absurd (ground arith)
  | inr (f, hit) ↦ first_of-IsDigits f.groups num (find-IsDigits re message f h hit) (rw hit at e)
]

candidate-IsDigits :
    (re : Re) (message num : String)
    → HasDigits re
    → candidate (find re message) ≡ some num
    → IsDigits num
candidate-IsDigits re message num h e = elim (Option-cases (find re message)) [
  | inl missed ↦ absurd (ground arith)
  | inr (f, hit) ↦
      first_of-IsDigits (keep (λ g. not (g == "")) f.groups) num
        (keep-IsDigits (λ g. not (g == "")) f.groups (find-IsDigits re message f h hit))
        (rw hit at e)
]

prefixed-HasDigits : (name : String) → HasDigits (prefixed name)
prefixed-HasDigits name = (tt, (lit_i-HasDigits name, ((tt, tt), (digits-HasDigits 3, tt))))

numeric-HasDigits : HasDigits re_ord_numeric
unfolding re_ord_numeric
numeric-HasDigits = (
  (tt, (lit_i-HasDigits "order", (tt, (((tt, tt), tt), (tt, (digits-HasDigits 4, tt)))))),
  ((tt, tt), digits-HasDigits 4),
)

extract_order_number-IsReference :
    (message : String) → IsReference "ORD-" 6 (extract_order_number message)
unfolding extract_order_number re_ord_prefixed
extract_order_number-IsReference message =
    elim (Option-cases (first_group (find (prefixed "ord") message))) [
      | inr (num, hit) ↦
          let digits =
            first_group-IsDigits (prefixed "ord") message num (prefixed-HasDigits "ord") hit in
          let (same, long) = left_pad-digits num 6 digits in
          let here : extract_order_number message ≡ "ORD-" +++ left_pad num 6 =
            rw (extract_order_number, hit) refl in
          inr (left_pad num 6, here, same, long)
      | inl missed ↦
          let later = candidate (find re_ord_numeric message) in
          let here : extract_order_number message ≡ padded "ORD-" 6 later =
            rw (extract_order_number, missed) refl in
          subst (IsReference "ORD-" 6) (sym here) (
            padded-IsReference "ORD-" 6 later
              (λ num hit. candidate-IsDigits re_ord_numeric message num numeric-HasDigits hit))
    ]

single-IsReference :
    (name head message : String) (width : ℕ)
    → IsReference head width (padded head width (first_group (find (prefixed name) message)))
single-IsReference name head message width =
    padded-IsReference head width (first_group (find (prefixed name) message))
      (λ num hit. first_group-IsDigits (prefixed name) message num (prefixed-HasDigits name) hit)

-- nothing, or the prefix and exactly so many digits
abbrev pub IsExact : String → ℕ → String → Type 0
IsExact head width text =
    (text ≡ "")
    ⊎ ((digits : String) × (text ≡ head +++ digits) × IsDigits digits × (len digits ≡ width))

payment_text-IsExact :
    (found : Option String)
    → ((num : String) → found ≡ some num → IsDigits num)
    → IsExact "PAY-" 8 (payment_text found)
unfolding fill_zeros
payment_text-IsExact none digits = inl refl
payment_text-IsExact (some num) digits = elim (Bool-cases (ltb 8 (len num))) [
  | inl wide ↦
      let (same, long) = drop_bytes-IsDigits (len num - 8) num (digits num refl) (omega arith) in
      let wide' : 8 < len num = ground arith in
      let last = last_bytes 8 num in
      let (zeros, whole) = zeros-digits (8 - len last) last same in
      rw wide (inr (repeat "0" (8 - len last) +++ last, refl, zeros, omega arith))
  | inr short ↦
      let short' : len num ≤ 8 = ground arith in
      let (zeros, whole) = zeros-digits (8 - len num) num (digits num refl) in
      rw short (inr (repeat "0" (8 - len num) +++ num, refl, zeros, omega arith))
]

-- What is extracted from any message is nothing, or the prefix of its kind and digits only: at least six
-- for an order or a customer, at least eight for a tracking number, and exactly eight for a payment.
pub references_lem :
    (message : String)
    → IsReference "ORD-" 6 (extract_order_number message)
      × IsReference "TRK-" 8 (extract_tracking_number message)
      × IsReference "CUST-" 6 (extract_customer_number message)
      × IsExact "PAY-" 8 (extract_payment_reference message)
unfolding extract_tracking_number extract_customer_number extract_payment_reference re_tracking
    re_cnum re_payment_ref
references_lem message = (
  extract_order_number-IsReference message,
  single-IsReference "trk" "TRK-" message 8,
  single-IsReference "cust" "CUST-" message 6,
  payment_text-IsExact (first_group (find (prefixed "pay") (trim_space message))) (λ num hit.
      first_group-IsDigits (prefixed "pay") (trim_space message) num (prefixed-HasDigits "pay")
        hit),
)

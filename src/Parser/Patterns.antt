-- ===== src/Parser/Patterns.antt =====
-- The regular expressions of internal/semantic/parser.go and slots.go, and what is extracted with them.
use permission_aware_search.Common.{
  ltb, leb, eqb, ◌==◌, if◌then◌else◌, keep, ℕ, ◌-◌, String, len, Bool, not, ◌&&◌, ◌||◌, Option,
  none, some, List, [], ◌∷◌,
}
use permission_aware_search.Strings.{
  ◌+++◌, trim_space, lower_char, to_lower, to_upper, contains, repeat,
}
use permission_aware_search.Strings.Words.{fields, trim, split, drop_bytes, last_bytes}
use permission_aware_search.Regex.{
  is_digit, is_blank, find, digit, space, opt, plus, at_least, one_of, lit, lit_i, Re, class, seq,
  alt, star, group, boundary, Found,
}
use Prim.Native.Char.{Char, code}
use Prim.Native.String

-- `[-\s]?`
abbrev pub joint : Re
joint = opt (class (λ c. eqb (code c) b'-' || is_blank c))

-- a prefix and at least three digits, as a word
abbrev pub prefixed : String → Re
prefixed name =
    seq boundary (seq (lit_i name) (seq joint (seq (group (at_least 3 digit)) boundary)))

unfoldable pub re_ord_prefixed : Re
unfolding lower_char
re_ord_prefixed = prefixed "ord"

abbrev pub spaces : Re
spaces = star space

abbrev pub order_word : Re
order_word = seq boundary (
    seq (lit_i "order")
      (seq spaces (seq (opt (lit "#")) (seq spaces (seq (group (at_least 4 digit)) boundary)))))

unfoldable pub re_ord_numeric : Re
unfolding lower_char
re_ord_numeric = alt order_word (seq (lit "#") (group (at_least 4 digit)))

unfoldable pub re_cnum : Re
unfolding lower_char
re_cnum = prefixed "cust"

unfoldable pub re_tracking : Re
unfolding lower_char
re_tracking = prefixed "trk"

unfoldable pub re_payment_ref : Re
unfolding lower_char
re_payment_ref = prefixed "pay"

-- `[\d\s\-()]`
abbrev pub is_phone_char : Char → Bool
is_phone_char c = is_digit c || is_blank c || one_of "-()" c

unfoldable pub re_phone : Re
re_phone = seq (opt (lit "+")) (seq digit (seq (at_least 7 (class is_phone_char)) digit))

abbrev pub word_i : String → Re
word_i word = seq boundary (seq (lit_i word) boundary)

abbrev pub and_space : Re → Re
and_space re = seq re (plus space)

unfoldable pub re_not_shipped : Re
unfolding lower_char
re_not_shipped =
    alt
      (seq boundary (
        seq (and_space (lit_i "not")) (
          seq (opt (and_space (lit_i "yet")))
            (seq (opt (and_space (lit_i "been"))) (seq (lit_i "shipped") boundary)))))
      (alt (word_i "unshipped") (
        alt
          (seq boundary (
            seq (and_space (alt (lit_i "has") (alt (lit_i "have") (lit_i "had")))) (
              seq (and_space (lit_i "not"))
                (seq (and_space (lit_i "been")) (seq (lit_i "shipped") boundary)))))
          (seq boundary (
            seq (and_space (alt (lit_i "hasn't") (alt (lit_i "haven't") (lit_i "hadn't"))))
              (seq (and_space (lit_i "been")) (seq (lit_i "shipped") boundary))))))

-- `leftPad`
unfoldable pub left_pad : String → ℕ → String
unfolding trim_space repeat
left_pad num width =
    let n = trim_space num in if leb width (len n) then n else repeat "0" (width - len n) +++ n

abbrev pub first_group : Option Found → Option String
first_group none = none
first_group (some f) = elim f.groups [ [] ↦ none | g ∷ gs ↦ some g ]

abbrev pub padded : String → ℕ → Option String → String
padded head width none = ""
padded head width (some num) = head +++ left_pad num width

-- the first group that is not empty
abbrev pub candidate : Option Found → Option String
candidate none = none
candidate (some f) = elim (keep (λ g. not (g == "")) f.groups) [ [] ↦ none | g ∷ gs ↦ some g ]

-- `extractOrderNumber`
unfoldable pub extract_order_number : String → String
unfolding find left_pad re_ord_prefixed re_ord_numeric
extract_order_number message = elim (first_group (find re_ord_prefixed message)) [
  | some num ↦ "ORD-" +++ left_pad num 6
  | none ↦ padded "ORD-" 6 (candidate (find re_ord_numeric message))
]

-- `extractTrackingNumber`
unfoldable pub extract_tracking_number : String → String
unfolding find left_pad re_tracking
extract_tracking_number message = padded "TRK-" 8 (first_group (find re_tracking message))

-- `extractCustomerNumber`
unfoldable pub extract_customer_number : String → String
unfolding find left_pad re_cnum
extract_customer_number message = padded "CUST-" 6 (first_group (find re_cnum message))

-- the loop of `extractPaymentReference` that puts a zero in front up to eight digits
unfoldable pub fill_zeros : String → String
unfolding repeat
fill_zeros digits = repeat "0" (8 - len digits) +++ digits

abbrev pub payment_text : Option String → String
payment_text none = ""
payment_text (some digits) =
    "PAY-" +++ fill_zeros (if ltb 8 (len digits) then last_bytes 8 digits else digits)

-- `extractPaymentReference`
unfoldable pub extract_payment_reference : String → String
unfolding find fill_zeros re_payment_ref trim_space drop_bytes
extract_payment_reference message =
    payment_text (first_group (find re_payment_ref (trim_space message)))

-- `extractPhone`
unfoldable pub extract_phone : String → String
unfolding find re_phone
extract_phone message = elim (find re_phone message) [ none ↦ "" | some f ↦ f.text ]

abbrev pub first_email : List String → String
first_email [] = ""
first_email (part ∷ parts) =
    let clean = trim ",.!?\"'()[]{}" part in
    if contains clean "@" && contains clean "." then to_lower clean else first_email parts

-- `extractEmail`
unfoldable pub extract_email : String → String
unfolding fields trim contains to_lower
extract_email message = first_email (fields message)

abbrev pub customer_id : List String → String
customer_id (head ∷ tail ∷ []) =
    let num = trim_space tail in
    if num == ""
    then ""
    else "cust-" +++ left_pad (if ltb 5 (len num) then last_bytes 5 num else num) 5
customer_id parts = ""

-- `customerIDFromCustomerNumber`
unfoldable pub customer_id_from_customer_number : String → String
unfolding split to_upper trim_space left_pad drop_bytes
customer_id_from_customer_number cnum = customer_id (split (String.char_at "-" 0) (to_upper cnum))

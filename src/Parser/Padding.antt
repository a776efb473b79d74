-- ===== src/Parser/Padding.antt =====
-- Texts of digits that are trimmed, padded with zeros and cut.
use permission_aware_search.Common.{
  leb, eqb, if◌then◌else◌, Bool-cases, ℕ, zero, suc, ◌+◌, ◌-◌, ◌≤◌, String, len, ◌≡◌, refl, ap, ◌∙◌,
  inl, inr, true, false, arith,
}
use permission_aware_search.Strings.{
  ◌+++◌, is_space, trim_left, cons_unless_space, trim_right, trim_space, repeat,
}
use permission_aware_search.Strings.Words.{drop_bytes}
use permission_aware_search.Regex.{is_digit}
use permission_aware_search.Regex.Digits.{is_digits, is_digits-append, IsDigits}
use permission_aware_search.Parser.Patterns.{left_pad}
use Prim.Native.Char.{Char, code, len_utf8, len_utf8_def, width}
use Prim.Native.Nat.{compare, Ordering}
use Prim.Native.String.len
use text.Mathlib.TextPositions.{len-append}

-- digits hold no blank to be trimmed
is_space-digit : (c : Char) → is_digit c ≡ true → is_space c ≡ false
unfolding is_space
is_space-digit c h = ground arith

cons_unless_space-ink :
    (c : Char) (s : String) → is_space c ≡ false → cons_unless_space c s ≡ String.◌∷◌ c s
cons_unless_space-ink c String.[] ink = rw ink refl
cons_unless_space-ink c (String.◌∷◌ d s) ink = refl

trim_right-digits : (s : String) → is_digits s ≡ true → trim_right s ≡ s
unfolding trim_right is_digits
trim_right-digits String.[] h = refl
trim_right-digits (String.◌∷◌ c s) h =
    ap (cons_unless_space c) (trim_right-digits s (ground arith))
    ∙ cons_unless_space-ink c s (is_space-digit c (ground arith))

trim_space-digits : (s : String) → is_digits s ≡ true → trim_space s ≡ s
unfolding trim_space trim_left is_digits
trim_space-digits String.[] h = refl
trim_space-digits (String.◌∷◌ c s) h =
    let ink = is_space-digit c (ground arith) in rw ink (trim_right-digits (String.◌∷◌ c s) h)

repeat-digits : (n : ℕ) → (is_digits (repeat "0" n) ≡ true) × (len (repeat "0" n) ≡ n)
unfolding repeat is_digits
repeat-digits zero = (refl, refl)
repeat-digits (suc n) =
    let (same, long) = repeat-digits n in
    (
      is_digits-append "0" (repeat "0" n) refl same,
      omega (arith, len-append "0" (repeat "0" n), long),
    )

abbrev pad : String → ℕ → String
pad n width = if leb width (len n) then n else repeat "0" (width - len n) +++ n

left_pad-trimmed :
    (num : String) (width : ℕ) → is_digits num ≡ true → left_pad num width ≡ pad num width
unfolding left_pad
left_pad-trimmed num width h = ap (λ n. pad n width) (trim_space-digits num h)

-- padding with zeros
pub zeros-digits :
    (n : ℕ) (num : String)
    → is_digits num ≡ true
    → (is_digits (repeat "0" n +++ num) ≡ true) × (len (repeat "0" n +++ num) ≡ n + len num)
zeros-digits n num h =
    let (zeros, long) = repeat-digits n in
    (
      is_digits-append (repeat "0" n) num zeros h,
      omega (arith, len-append (repeat "0" n) num, long),
    )

pub left_pad-digits :
    (num : String) (width : ℕ)
    → is_digits num ≡ true
    → (is_digits (left_pad num width) ≡ true) × (width ≤ len (left_pad num width))
left_pad-digits num width h =
    let (zeros, long) = zeros-digits (width - len num) num h in
    elim (Bool-cases (leb width (len num))) [
      | inl wide ↦
          let same : left_pad num width ≡ num = left_pad-trimmed num width h ∙ rw wide refl in
          rw same (h, ground arith)
      | inr short ↦
          let same : left_pad num width ≡ repeat "0" (width - len num) +++ num =
            left_pad-trimmed num width h ∙ rw short refl in
          rw same (zeros, ground arith)
    ]

-- a digit takes one byte
digit-width : (c : Char) → is_digit c ≡ true → len_utf8 c ≡ 1
digit-width c h =
    let small : compare (code c) 128 ≡ Ordering.lt = ground arith in
    (λ i. len_utf8_def c i) ∙ rw small refl

pub drop_bytes-IsDigits :
    (n : ℕ) (s : String)
    → IsDigits s
    → n ≤ len s
    → IsDigits (drop_bytes n s) × (len (drop_bytes n s) ≡ len s - n)
unfolding drop_bytes is_digits
drop_bytes-IsDigits n String.[] h le = (refl, omega arith)
drop_bytes-IsDigits n (String.◌∷◌ c s) h le = elim (Bool-cases (eqb n 0)) [
  | inl none' ↦ rw none' (h, ground arith)
  | inr some' ↦ rw some' (
      let positive : 1 ≤ n = ground arith in
      let one = digit-width c (ground arith) in
      let whole : len (String.◌∷◌ c s) ≡ suc (len s) = len.cons c s ∙ rw one (omega arith) in
      let (same, long) = drop_bytes-IsDigits (n - len_utf8 c) s (ground arith) (omega arith) in
      (same, omega arith))
]

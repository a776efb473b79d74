-- ===== src/Strings/Numbers.antt =====
-- What the program uses of Go's package `strconv`, for decimal integers of 64 bits.
use Prim.Native.Char.{code}
use Prim.Native.String.{[], ◌∷◌, char_at}
use permission_aware_search.Common.Int.{ℤ, pos, negsuc}
use permission_aware_search.Common.{
  ltb, leb, eqb, if◌then◌else◌, ℕ, zero, suc, ◌+◌, ◌-◌, ◌*◌, ◌/◌, ◌%◌, ◌^◌, min, String, ◌≡◌, refl,
  ◌&&◌, Option, none, some,
}
use permission_aware_search.Strings.{◌+++◌}

-- the digits of a number in front of a text; the fuel is one more than the number
unfoldable pub digits : ℕ → ℕ → String → String
digits zero n out = out
digits (suc fuel) n out =
    let more = digits fuel (n / 10) (char_at "0123456789" (n % 10) ∷ out) in
    if ltb n 10 then char_at "0123456789" n ∷ out else more

unfoldable pub format_ℕ : ℕ → String
unfolding digits
format_ℕ n = digits (suc n) n ""

-- `strconv.Itoa`
unfoldable pub itoa : ℤ → String
unfolding format_ℕ
itoa (pos n) = format_ℕ n
itoa (negsuc n) = "-" +++ format_ℕ (suc n)

-- the value of a text of digits behind the digits read so far
unfoldable pub scan_digits : String → ℕ → Option ℕ
scan_digits [] n = some n
scan_digits (c ∷ s) n =
    let more = scan_digits s (n * 10 + (code c - b'0')) in
    if leb b'0' (code c) && leb (code c) b'9' then more else none

unfoldable pub parse_ℕ : String → Option ℕ
unfolding scan_digits
parse_ℕ [] = none
parse_ℕ (c ∷ s) = scan_digits (c ∷ s) 0

abbrev pub max_int : ℕ
max_int = 2 ^ 63 - 1

-- a value out of range is clamped, beside the error
abbrev positive : Option ℕ → Option ℤ
positive none = none
positive (some n) = some (pos (min n max_int))

abbrev negative : Option ℕ → Option ℤ
negative none = none
negative (some zero) = some (pos 0)
negative (some (suc n)) = some (negsuc (min n max_int))

unfoldable pub parse_int : String → Option ℤ
unfolding parse_ℕ
parse_int [] = none
parse_int (c ∷ s) =
    if eqb (code c) b'-'
    then negative (parse_ℕ s)
    else if eqb (code c) b'+'
    then positive (parse_ℕ s)
    else positive (parse_ℕ (c ∷ s))

-- `n, _ := strconv.Atoi(s)`
unfoldable pub atoi_or_zero : String → ℤ
unfolding parse_int
atoi_or_zero s = elim (parse_int s) [ none ↦ pos 0 | some n ↦ n ]

numbers :
    (itoa (pos 1203) ≡ "1203")
    × (itoa (negsuc 9) ≡ "-10")
    × (atoi_or_zero "-10" ≡ negsuc 9)
    × (atoi_or_zero "12x" ≡ pos 0)
    × (atoi_or_zero "+7" ≡ pos 7)
unfolding itoa atoi_or_zero
numbers = (refl, refl, refl, refl, refl)

-- ===== src/Strings/Decimal.antt =====
-- What is written by `strconv.Itoa` is read back by `strconv.Atoi`.
use Prim.Native.Char.{Char, code}
use Prim.Native.String
use permission_aware_search.Common.Int.{pos}
use permission_aware_search.Common.{
  ltb, leb, eqb, Bool-cases, ℕ, zero, suc, ◌+◌, ◌-◌, ◌*◌, ◌/◌, ◌%◌, ◌≤◌, ◌<◌, min, String, ◌≡◌,
  refl, sym, ap, ◌∙◌, subst, inl, inr, Bool, true, false, ◌&&◌, some, arith,
}
use permission_aware_search.Strings.Numbers.{
  digits, format_ℕ, itoa, scan_digits, parse_ℕ, max_int, parse_int, atoi_or_zero,
}

abbrev pub all_below : ℕ → (ℕ → Bool) → Bool
all_below zero p = true
all_below (suc n) p = p n && all_below n p

pub all_below-lt : (n k : ℕ) (p : ℕ → Bool) → all_below n p ≡ true → k < n → p k ≡ true
all_below-lt zero k p h l = absurd (omega arith)
all_below-lt (suc n) k p h l = elim (Bool-cases (eqb k n)) [
  | inl last ↦ let same : k ≡ n = ground arith in let here = ap p same in ground arith
  | inr before ↦ all_below-lt n k p (ground arith) (ground arith)
]

abbrev digit : ℕ → Char
digit k = String.char_at "0123456789" k

code-digit : (k : ℕ) → k < 10 → code (digit k) ≡ 48 + k
code-digit k h =
    let checked = all_below-lt 10 k (λ j. eqb (code (digit j)) (48 + j)) refl h in ground arith

scan_digits-digit :
    (k : ℕ) (s : String) (n : ℕ)
    → k < 10
    → scan_digits (String.◌∷◌ (digit k) s) n ≡ scan_digits s (n * 10 + k)
unfolding scan_digits
scan_digits-digit k s n h =
    let c = code-digit k h in
    let low : leb 48 (code (digit k)) ≡ true = ground arith in
    let high : leb (code (digit k)) 57 ≡ true = ground arith in
    let value : code (digit k) - 48 ≡ k = omega arith in rw (low, high, value) refl

-- the fuel is enough
scan_digits-digits :
    (fuel n : ℕ) (out : String) → n < fuel → scan_digits (digits fuel n out) 0 ≡ scan_digits out n
unfolding digits
scan_digits-digits zero n out h = absurd (omega arith)
scan_digits-digits (suc fuel) n out h = elim (Bool-cases (ltb n 10)) [
  | inl small ↦
      rw small
        (scan_digits-digit n out 0 (ground arith) ∙ ap (λ m. scan_digits out m) (omega arith))
  | inr big ↦
      let ten : 10 ≤ n = ground arith in
      rw big (
        scan_digits-digits fuel (n / 10) (String.◌∷◌ (digit (n % 10)) out) (omega arith)
        ∙ scan_digits-digit (n % 10) out (n / 10) (omega arith)
        ∙ ap (λ m. scan_digits out m) (omega arith))
]

first_digit :
    (fuel n : ℕ) (out : String)
    → n < fuel
    → (k : ℕ) × (s : String) × (k < 10) × (digits fuel n out ≡ String.◌∷◌ (digit k) s)
unfolding digits
first_digit zero n out h = absurd (omega arith)
first_digit (suc fuel) n out h = elim (Bool-cases (ltb n 10)) [
  | inl small ↦ (n, out, ground arith, rw (digits, small) refl)
  | inr big ↦
      let ten : 10 ≤ n = ground arith in
      let (k, s, below, e) =
        first_digit fuel (n / 10) (String.◌∷◌ (digit (n % 10)) out) (omega arith) in
      (k, s, below, rw (digits, big) e)
]

parse_int-digit :
    (k : ℕ) (s : String) (n : ℕ)
    → k < 10
    → scan_digits (String.◌∷◌ (digit k) s) 0 ≡ some n
    → parse_int (String.◌∷◌ (digit k) s) ≡ some (pos (min n max_int))
unfolding parse_int parse_ℕ
parse_int-digit k s n h e =
    let c = code-digit k h in
    let not_minus : eqb (code (digit k)) b'-' ≡ false = ground arith in
    let not_plus : eqb (code (digit k)) b'+' ≡ false = ground arith in
    rw (not_minus, not_plus, e) refl

-- `Atoi` reads back what `Itoa` has written of a count that an `int` can hold.
pub atoi_or_zero-itoa : (n : ℕ) → n ≤ max_int → atoi_or_zero (itoa (pos n)) ≡ pos n
unfolding atoi_or_zero itoa format_ℕ
atoi_or_zero-itoa n h =
    let (k, s, below, e) = first_digit (suc n) n "" (omega arith) in
    let whole : scan_digits (digits (suc n) n "") 0 ≡ some n =
      scan_digits-digits (suc n) n "" (omega arith) ∙ unfold scan_digits in refl in
    let read = parse_int-digit k s n below (subst (λ t. scan_digits t 0 ≡ some n) e whole) in
    let fits : min n max_int ≡ n = omega (arith, h) in
    subst (λ t. atoi_or_zero t ≡ pos n) (sym e) (rw (atoi_or_zero, read) (ap pos fits))

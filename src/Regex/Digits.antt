-- ===== src/Regex/Digits.antt =====
-- Texts of digits, and the expressions that describe nothing else.
use permission_aware_search.Common.{
  ℕ, zero, suc, ◌≤◌, String, len, ◌≡◌, refl, ap, Bool, true, ◌&&◌, List, [], arith,
}
use permission_aware_search.Strings.{◌+++◌}
use permission_aware_search.Regex.{is_digit, digit, at_least}
use permission_aware_search.Regex.Sound.{Describes, Stars, done, more}
use Prim.Native.Char.{Char}
use text.Mathlib.TextLemmas.{nil-append, cons-append}
use text.Mathlib.TextPositions.{len-append, len_utf8-pos}
use Prim.Native.String.len

-- every character is an ASCII digit
unfoldable pub is_digits : String → Bool
is_digits String.[] = true
is_digits (String.◌∷◌ c s) = is_digit c && is_digits s

pub is_digits-append :
    (s t : String) → is_digits s ≡ true → is_digits t ≡ true → is_digits (s +++ t) ≡ true
unfolding is_digits
is_digits-append String.[] t hs ht = rw (nil-append t) ht
is_digits-append (String.◌∷◌ c s) t hs ht =
    let rest = is_digits-append s t (ground arith) ht in rw (cons-append c s t) (ground arith)

pub len-cons-pos : (c : Char) (s : String) → 1 ≤ len (String.◌∷◌ c s)
len-cons-pos c s = let (k, e) = len_utf8-pos c in omega (arith, len.cons c s)

Stars-digits :
    (t : String) (g : List String) → Stars (Describes digit) t g → (is_digits t ≡ true) × (g ≡ [])
unfolding is_digits
Stars-digits t g (done e f) = (rw e refl, f)
Stars-digits t g (more (c, test, e', f') rest e f) =
    let (later, none') = Stars-digits _ _ rest in
    (rw (e, e') (is_digits-append (String.◌∷◌ c "") _ (ground arith) later), rw (f, f') none')

pub at_least-digits :
    (n : ℕ) (t : String) (g : List String)
    → Describes (at_least n digit) t g
    → (is_digits t ≡ true) × (g ≡ []) × (n ≤ len t)
unfolding is_digits
at_least-digits zero t g d = let (a, b) = Stars-digits t g d in (a, b, omega arith)
at_least-digits (suc n) t g (u, v, gu, gv, (c, test, e', f'), rest, e, f) =
    let (later, none', long) = at_least-digits n v gv rest in
    (
      rw (e, e') (is_digits-append (String.◌∷◌ c "") _ (ground arith) later),
      rw (f, f') none',
      (let first = len-cons-pos c "" in omega (arith, len-append u v, ap len e, ap len e')),
    )

abbrev pub IsDigits : String → Type 0
IsDigits d = is_digits d ≡ true

-- ===== src/Regex.antt =====
-- What the program uses of Go's package `regexp`: expressions as data, and the search for the leftmost
-- match, whose alternatives are tried in order and whose repetitions are greedy. Classes and word
-- characters are those of ASCII, as in Go; case is folded on ASCII letters only.
pub mod Sound
pub mod Digits
pub mod Groups
use permission_aware_search.Common.{
  leb, eqb, if◌then◌else◌, ℕ, zero, suc, String, len, ◌≡◌, refl, Bool, true, false, not, ◌&&◌, ◌||◌,
  Option, none, some, List, [], ◌∷◌, ◌++◌,
}
use permission_aware_search.Strings.{◌+++◌, is_empty, lower_char}
use Prim.Native.Char.{Char, code}
use Prim.Native.String
use mathlib.Core.Option

pub data Re : Type 0 where
  blank : Re
  class : (Char → Bool) → Re
  seq : Re → Re → Re
  alt : Re → Re → Re
  star : Re → Re
  group : Re → Re
  boundary : Re
  start : Re
  finish : Re

-- what follows a match: its text and groups, the character before the rest, and the rest
abbrev pub Next : Type 0 → Type 0
Next R = String → List String → Option Char → String → Option R

abbrev pub Matcher : Type 0 → Type 0
Matcher R = Option Char → String → Next R → Option R

abbrev pub is_digit : Char → Bool
is_digit c = leb b'0' (code c) && leb (code c) b'9'

abbrev pub is_letter : Char → Bool
is_letter c = (leb b'a' (code c) && leb (code c) b'z') || (leb b'A' (code c) && leb (code c) b'Z')

abbrev pub is_word : Char → Bool
is_word c = is_digit c || is_letter c || eqb (code c) b'_'

-- `\s`
abbrev pub is_blank : Char → Bool
is_blank c = let n = code c in eqb n 9 || eqb n 10 || eqb n 12 || eqb n 13 || eqb n 32

abbrev pub word_before : Option Char → Bool
word_before none = false
word_before (some c) = is_word c

abbrev pub word_after : String → Bool
word_after String.[] = false
word_after (String.◌∷◌ c s) = is_word c

abbrev pub at_boundary : Option Char → String → Bool
at_boundary before s = if word_before before then not (word_after s) else word_after s

abbrev pub is_start : Option Char → Bool
is_start none = true
is_start (some c) = false

unfoldable pub take_class {ℓ} :
    {R : Type ℓ} → (Char → Bool) → String → (Char → String → Option R) → Option R
take_class test String.[] next = none
take_class test (String.◌∷◌ c s) next = if test c then next c s else none

pub repeated : {R : Type 0} → Matcher R → ℕ → Matcher R
repeated one zero before s next = next "" [] before s
repeated one (suc rounds) before s next =
    elim (one before s
      (λ t g b r. repeated one rounds b r (λ t' g' b' r'. next (t +++ t') (g ++ g') b' r'))) [
        | some found ↦ some found
        | none ↦ next "" [] before s
      ]

-- A repetition takes at most as many rounds as there are characters.
unfoldable pub run : {R : Type 0} → Re → Matcher R
unfolding take_class repeated
run blank before s next = next "" [] before s
run (class test) before s next = take_class test s (λ c r. next (String.◌∷◌ c "") [] (some c) r)
run (seq a b) before s next =
    run a before s (λ t g m r. run b m r (λ t' g' m' r'. next (t +++ t') (g ++ g') m' r'))
run (alt a b) before s next = elim (run a before s next) [
  | some found ↦ some found
  | none ↦ run b before s next
]
run (star a) before s next = repeated (run a) (len s) before s next
run (group a) before s next = run a before s (λ t g m r. next t (t ∷ g) m r)
run boundary before s next = if at_boundary before s then next "" [] before s else none
run start before s next = if is_start before then next "" [] before s else none
run finish before s next = if is_empty s then next "" [] before s else none

-- a match: its text, the groups that took part in their order, and where the text goes on
pub record Found : Type 0 where
  pub text : String
  pub groups : List String
  pub before : Option Char
  pub rest : String

abbrev pub found : Next Found
found text groups before rest =
    some (record { text = text; groups = groups; before = before; rest = rest })

-- the leftmost match from here on
unfoldable pub find_from : Re → Option Char → String → Option Found
unfolding run
find_from re before String.[] = run re before "" found
find_from re before (String.◌∷◌ c s) = elim (run re before (String.◌∷◌ c s) found) [
  | some f ↦ some f
  | none ↦ find_from re (some c) s
]

-- `FindStringSubmatch`, and `FindString` by the field `text`
unfoldable pub find : Re → String → Option Found
unfolding find_from
find re s = find_from re none s

-- `MatchString`
unfoldable pub match_string : Re → String → Bool
unfolding find
match_string re s = elim (find re s) [ some f ↦ true | none ↦ false ]

-- `FindAllString` with no limit; no expression of the program matches an empty text
find_all_from : ℕ → Re → Option Char → String → List String
find_all_from zero re before s = []
find_all_from (suc fuel) re before s = elim (find_from re before s) [
  | none ↦ []
  | some f ↦ f.text ∷ find_all_from fuel re f.before f.rest
]

unfoldable pub find_all : Re → String → List String
unfolding find_all_from find_from
find_all re s = find_all_from (suc (len s)) re none s

replace_from : ℕ → Re → String → Option Char → String → String
replace_from zero re new before s = s
replace_from (suc fuel) re new before String.[] = ""
replace_from (suc fuel) re new before (String.◌∷◌ c s) =
    elim (run re before (String.◌∷◌ c s) found) [
      | some f ↦ new +++ replace_from fuel re new f.before f.rest
      | none ↦ String.◌∷◌ c (replace_from fuel re new (some c) s)
    ]

-- `ReplaceAllString`
unfoldable pub replace_all : Re → String → String → String
unfolding replace_from run
replace_all re s new = replace_from (suc (len s)) re new none s

-- The shorthands of the expressions below.
abbrev pub digit : Re
digit = class is_digit

abbrev pub space : Re
space = class is_blank

abbrev pub opt : Re → Re
opt a = alt a blank

abbrev pub plus : Re → Re
plus a = seq a (star a)

-- `a{n,}`
abbrev pub at_least : ℕ → Re → Re
at_least zero a = star a
at_least (suc n) a = seq a (at_least n a)

-- `a{n}`
abbrev pub times : ℕ → Re → Re
times zero a = blank
times (suc n) a = seq a (times n a)

abbrev pub one_of : String → Char → Bool
one_of String.[] c = false
one_of (String.◌∷◌ d s) c = eqb (code d) (code c) || one_of s c

abbrev pub lit : String → Re
lit String.[] = blank
lit (String.◌∷◌ c s) = seq (class (λ d. eqb (code d) (code c))) (lit s)

-- a literal under `(?i)`
abbrev pub lit_i : String → Re
lit_i String.[] = blank
lit_i (String.◌∷◌ c s) =
    seq (class (λ d. eqb (code (lower_char d)) (code (lower_char c)))) (lit_i s)

pub runs :
    (Option.map
        (λ (f : Found). f.groups)
        (find (seq boundary (seq (lit_i "ord") (group (at_least 3 digit)))) "an Ord1234x")
      ≡ some ("1234" ∷ []))
    × (replace_all (plus space) "a \t b" " " ≡ "a b")
    × (find_all (plus digit) "a12b3" ≡ "12" ∷ "3" ∷ [])
unfolding find replace_all find_all lower_char
runs = (refl, refl, refl)

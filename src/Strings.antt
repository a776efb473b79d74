-- ===== src/Strings.antt =====
-- What the program uses of Go's package `strings`. Case is folded on ASCII letters only.
pub mod Laws
pub mod Numbers
pub mod Decimal
pub mod Folding
pub mod Words
use Prim.Native.Char.{Char, code}
use Prim.Native.String
use Prim.Native.String.{[], ◌∷◌, char_at, find, slice}
use text.Mathlib.Text.{starts_with}
use mathlib.Core.List
use permission_aware_search.Common.{
  ℕ, zero, suc, ◌+◌, ◌-◌, String, len, Bool, true, false, not, ◌&&◌, ◌||◌, List, Option, none, some,
  ltb, leb, eqb, ◌==◌, if◌then◌else◌,
}

infixr 65 ◌+++◌
abbrev pub ◌+++◌ : String → String → String
s +++ t = String.◌++◌ s t

abbrev pub is_empty : String → Bool
is_empty [] = true
is_empty (c ∷ s) = false

-- the number of characters, `len([]rune(s))`
abbrev pub rune_count : String → ℕ
rune_count [] = 0
rune_count (c ∷ s) = suc (rune_count s)

-- `unicode.IsSpace`
unfoldable pub is_space : Char → Bool
is_space c =
    let n = code c in
    (leb 9 n && leb n 13)
    || eqb n 32
    || eqb n 133
    || eqb n 160
    || eqb n 5760
    || (leb 8192 n && leb n 8202)
    || eqb n 8232
    || eqb n 8233
    || eqb n 8239
    || eqb n 8287
    || eqb n 12288

unfoldable pub trim_left : String → String
unfolding is_space
trim_left [] = []
trim_left (c ∷ s) = let rest = trim_left s in if is_space c then rest else c ∷ s

-- one character in front of what is already trimmed
abbrev pub cons_unless_space : Char → String → String
cons_unless_space c [] = if is_space c then [] else c ∷ []
cons_unless_space c (d ∷ s) = c ∷ d ∷ s

unfoldable pub trim_right : String → String
unfolding is_space
trim_right [] = []
trim_right (c ∷ s) = cons_unless_space c (trim_right s)

-- `strings.TrimSpace`
unfoldable pub trim_space : String → String
unfolding trim_left trim_right
trim_space s = trim_right (trim_left s)

unfoldable pub lower_char : Char → Char
lower_char c =
    if leb b'A' (code c) && leb (code c) b'Z'
    then char_at "abcdefghijklmnopqrstuvwxyz" (code c - b'A')
    else c

unfoldable pub upper_char : Char → Char
upper_char c =
    if leb b'a' (code c) && leb (code c) b'z'
    then char_at "ABCDEFGHIJKLMNOPQRSTUVWXYZ" (code c - b'a')
    else c

-- `strings.ToLower`
unfoldable pub to_lower : String → String
unfolding lower_char
to_lower [] = []
to_lower (c ∷ s) = lower_char c ∷ to_lower s

-- `strings.ToUpper`
unfoldable pub to_upper : String → String
unfolding upper_char
to_upper [] = []
to_upper (c ∷ s) = upper_char c ∷ to_upper s

-- `strings.EqualFold`
unfoldable pub equal_fold : String → String → Bool
unfolding to_lower
equal_fold s t = to_lower s == to_lower t

-- `strings.Contains`
unfoldable pub contains : String → String → Bool
contains s t = leb (find s t) (len s)

-- `strings.HasPrefix`
abbrev pub has_prefix : String → String → Bool
has_prefix s t = starts_with s t

-- `strings.TrimPrefix`
unfoldable pub trim_prefix : String → String → String
trim_prefix s t = if starts_with s t then slice s (len t) (len s) else s

-- `strings.Join`
unfoldable pub join : List String → String → String
join List.[] sep = ""
join (List.◌∷◌ x List.[]) sep = x
join (List.◌∷◌ x xs) sep = x +++ sep +++ join xs sep

-- `strings.Repeat`
unfoldable pub repeat : String → ℕ → String
repeat s zero = ""
repeat s (suc n) = s +++ repeat s n

abbrev pub cons_unless : Char → Char → String → String
cons_unless cut c [] = if eqb (code c) (code cut) then [] else c ∷ []
cons_unless cut c (d ∷ s) = c ∷ d ∷ s

-- `strings.TrimRight` with a cut set of one character
unfoldable pub trim_right_of : Char → String → String
trim_right_of cut [] = []
trim_right_of cut (c ∷ s) = cons_unless cut c (trim_right_of cut s)

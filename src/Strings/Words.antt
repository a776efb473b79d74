-- ===== src/Strings/Words.antt =====
-- More of Go's package `strings`: words, cut sets, splitting and replacing.
use permission_aware_search.Common.{
  eqb, ◌==◌, if◌then◌else◌, ℕ, zero, suc, ◌+◌, ◌-◌, String, len, ◌≡◌, refl, Bool, false, ◌||◌, List,
  [], ◌∷◌,
}
use permission_aware_search.Strings.{◌+++◌, is_space, contains}
use Prim.Native.Char.{Char, code, len_utf8}
use Prim.Native.String
use Prim.Native.String.{find, slice}

abbrev pub flush : String → List String → List String
flush word words = if word == "" then words else word ∷ words

-- the word that the text begins with, and the later ones
unfoldable pub split_words : String → String × List String
unfolding is_space
split_words String.[] = ("", [])
split_words (String.◌∷◌ c s) =
    let (word, words) = split_words s in
    if is_space c then ("", flush word words) else (String.◌∷◌ c word, words)

-- `strings.Fields`
unfoldable pub fields : String → List String
unfolding split_words
fields s = flush (split_words s).0 (split_words s).1

abbrev pub in_set : String → Char → Bool
in_set String.[] c = false
in_set (String.◌∷◌ d set) c = eqb (code d) (code c) || in_set set c

unfoldable pub trim_left_set : String → String → String
trim_left_set set String.[] = ""
trim_left_set set (String.◌∷◌ c s) =
    let rest = trim_left_set set s in if in_set set c then rest else String.◌∷◌ c s

abbrev pub cons_unless_in : String → Char → String → String
cons_unless_in set c String.[] = if in_set set c then "" else String.◌∷◌ c ""
cons_unless_in set c (String.◌∷◌ d s) = String.◌∷◌ c (String.◌∷◌ d s)

unfoldable pub trim_right_set : String → String → String
trim_right_set set String.[] = ""
trim_right_set set (String.◌∷◌ c s) = cons_unless_in set c (trim_right_set set s)

-- `strings.Trim`, the cut set first
unfoldable pub trim : String → String → String
unfolding trim_left_set trim_right_set
trim set s = trim_right_set set (trim_left_set set s)

abbrev pub cons_head : Char → List String → List String
cons_head c [] = String.◌∷◌ c "" ∷ []
cons_head c (part ∷ parts) = String.◌∷◌ c part ∷ parts

-- `strings.Split` at a separator of one character
unfoldable pub split : Char → String → List String
split at String.[] = "" ∷ []
split at (String.◌∷◌ c s) =
    let parts = split at s in if eqb (code c) (code at) then "" ∷ parts else cons_head c parts

replace_in : ℕ → String → String → String → String
unfolding contains
replace_in zero old new s = s
replace_in (suc fuel) old new s =
    let rest = replace_in fuel old new (slice s (find s old + len old) (len s)) in
    if contains s old then slice s 0 (find s old) +++ new +++ rest else s

-- `strings.ReplaceAll`, of a text that is not empty: as many rounds as there are bytes are enough
unfoldable pub replace : String → String → String → String
unfolding replace_in
replace old new s = replace_in (suc (len s)) old new s

-- `s[n:]`, for a place between two characters
unfoldable pub drop_bytes : ℕ → String → String
drop_bytes n String.[] = ""
drop_bytes n (String.◌∷◌ c s) =
    let rest = drop_bytes (n - len_utf8 c) s in if eqb n 0 then String.◌∷◌ c s else rest

-- the last bytes, `s[len(s)-n:]`
abbrev pub last_bytes : ℕ → String → String
last_bytes n s = drop_bytes (len s - n) s

words_of_text :
    (fields " show  me\tord-1 " ≡ "show" ∷ "me" ∷ "ord-1" ∷ [])
    × (trim ",.!" ",a.b!." ≡ "a.b")
    × (split (String.char_at "-" 0) "CUST-12-" ≡ "CUST" ∷ "12" ∷ "" ∷ [])
    × (replace "ab" "c" "xabyab" ≡ "xcyc")
unfolding fields trim split replace
words_of_text = (refl, refl, refl, refl)

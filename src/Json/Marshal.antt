-- ===== src/Json/Marshal.antt =====
-- The text that `json.Marshal` makes of a value: no blanks, and strings with their control characters, the
-- quote, the backslash and the characters of HTML escaped. The fields of an object are in the order given.
use Prim.Native.Char.{Char, code}
use Prim.Native.String.{[], ◌∷◌, char_at}
use permission_aware_search.Common.{
  ltb, eqb, if◌then◌else◌, ℕ, ◌/◌, ◌%◌, String, ◌≡◌, refl, true, false, ◌||◌,
}
use permission_aware_search.Strings.{◌+++◌}
use permission_aware_search.Json.{
  Value, null, boolean, num, str, arr, obj, Values, nil, cons, Fields, end, field,
}

abbrev hex_digit : ℕ → Char
hex_digit n = char_at "0123456789abcdef" n

abbrev escaped : Char → String
escaped c =
    let n = code c in
    if eqb n 34
    then "\\\""
    else if eqb n 92
    then "\\\\"
    else if eqb n 8
    then "\\b"
    else if eqb n 12
    then "\\f"
    else if eqb n 10
    then "\\n"
    else if eqb n 13
    then "\\r"
    else if eqb n 9
    then "\\t"
    else if ltb n 32 || eqb n 60 || eqb n 62 || eqb n 38
    then "\\u00" +++ (hex_digit (n / 16) ∷ hex_digit (n % 16) ∷ "")
    else if eqb n 8232
    then "\\u2028"
    else if eqb n 8233
    then "\\u2029"
    else c ∷ ""

unfoldable pub quoted : String → String
quoted [] = "\""
quoted (c ∷ s) = escaped c +++ quoted s

abbrev text : String → String
text s = "\"" +++ quoted s

unfoldable mutual
  unfolding quoted

  pub marshal : Value → String
  marshal null = "null"
  marshal (boolean true) = "true"
  marshal (boolean false) = "false"
  marshal (num n) = n
  marshal (str s) = text s
  marshal (arr vs) = "[" +++ marshal_values vs
  marshal (obj fs) = "{" +++ marshal_fields fs

  pub marshal_values : Values → String
  marshal_values nil = "]"
  marshal_values (cons v nil) = marshal v +++ "]"
  marshal_values (cons v (cons w vs)) = marshal v +++ "," +++ marshal_values (cons w vs)

  pub marshal_fields : Fields → String
  marshal_fields end = "}"
  marshal_fields (field k v end) = text k +++ ":" +++ marshal v +++ "}"
  marshal_fields (field k v (field l w fs)) =
      text k +++ ":" +++ marshal v +++ "," +++ marshal_fields (field l w fs)

texts :
    marshal (arr (cons (str "a\"<\n") (cons (obj (field "k" (num "1.5") end)) nil)))
    ≡ "[\"a\\\"\\u003c\\n\",{\"k\":1.5}]"
unfolding marshal
texts = refl

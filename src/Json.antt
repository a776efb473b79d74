-- ===== src/Json.antt =====
-- JSON values as `encoding/json` decodes them into `interface{}`, and documents, which are
-- `map[string]interface{}`. A number is held by its decimal text: no modelled code computes with it.
-- store/types.go's `DeepCopyMap` goes through the encoded text; here it rebuilds the value.
pub mod Copy
pub mod Marshal
pub mod Sprint
use permission_aware_search.Common.{String, Bool, List, [], ◌∷◌, Option, none, some, lookup}

mutual
  pub data Value : Type 0 where
    null : Value
    boolean : Bool → Value
    num : String → Value
    str : String → Value
    arr : Values → Value
    obj : Fields → Value

  pub data Values : Type 0 where
    nil : Values
    cons : Value → Values → Values

  pub data Fields : Type 0 where
    end : Fields
    field : String → Value → Fields → Fields

abbrev pub Doc : Type 0
Doc = List (String × Value)

-- `s, _ := v.(string)`
abbrev pub as_string : Option Value → String
as_string (some (str s)) = s
as_string (some null) = ""
as_string (some (boolean b)) = ""
as_string (some (num n)) = ""
as_string (some (arr vs)) = ""
as_string (some (obj fs)) = ""
as_string none = ""

abbrev pub string_field : String → Doc → String
string_field k doc = as_string (lookup k doc)

unfoldable mutual
  pub copy_value : Value → Value
  copy_value null = null
  copy_value (boolean b) = boolean b
  copy_value (num n) = num n
  copy_value (str s) = str s
  copy_value (arr vs) = arr (copy_values vs)
  copy_value (obj fs) = obj (copy_fields fs)

  pub copy_values : Values → Values
  copy_values nil = nil
  copy_values (cons v vs) = cons (copy_value v) (copy_values vs)

  pub copy_fields : Fields → Fields
  copy_fields end = end
  copy_fields (field k v fs) = field k (copy_value v) (copy_fields fs)

unfoldable pub deep_copy_map : Doc → Doc
unfolding copy_value
deep_copy_map [] = []
deep_copy_map ((k, v) ∷ doc) = (k, copy_value v) ∷ deep_copy_map doc

-- ===== src/Json/Copy.antt =====
-- A deep copy is the document that it copies.
use permission_aware_search.Common.{[], ◌∷◌, ◌≡◌, refl, ap}
use permission_aware_search.Json.{
  Value, null, boolean, num, str, arr, obj, Values, nil, cons, Fields, end, field, Doc, copy_value,
  copy_values, copy_fields, deep_copy_map,
}

mutual
  unfolding copy_value copy_values copy_fields

  copy_value_lem : (v : Value) → copy_value v ≡ v
  copy_value_lem null = refl
  copy_value_lem (boolean b) = refl
  copy_value_lem (num n) = refl
  copy_value_lem (str s) = refl
  copy_value_lem (arr vs) = ap arr (copy_values_lem vs)
  copy_value_lem (obj fs) = ap obj (copy_fields_lem fs)

  copy_values_lem : (vs : Values) → copy_values vs ≡ vs
  copy_values_lem nil = refl
  copy_values_lem (cons v vs) = cc (copy_value_lem v, copy_values_lem vs)

  copy_fields_lem : (fs : Fields) → copy_fields fs ≡ fs
  copy_fields_lem end = refl
  copy_fields_lem (field k v fs) = cc (copy_value_lem v, copy_fields_lem fs)

pub deep_copy_map_lem : (doc : Doc) → deep_copy_map doc ≡ doc
unfolding deep_copy_map
deep_copy_map_lem [] = refl
deep_copy_map_lem ((k, v) ∷ doc) = cc (copy_value_lem v, deep_copy_map_lem doc)

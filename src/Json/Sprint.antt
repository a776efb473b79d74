-- ===== src/Json/Sprint.antt =====
-- The text that `fmt.Sprint` makes of a JSON value. The fields of an object are in the order given.
use permission_aware_search.Common.{String, true, false}
use permission_aware_search.Strings.{◌+++◌}
use permission_aware_search.Json.{
  Value, null, boolean, num, str, arr, obj, Values, nil, cons, Fields, end, field,
}

unfoldable mutual
  pub sprint : Value → String
  sprint null = "<nil>"
  sprint (boolean true) = "true"
  sprint (boolean false) = "false"
  sprint (num n) = n
  sprint (str s) = s
  sprint (arr vs) = "[" +++ sprint_values vs
  sprint (obj fs) = "map[" +++ sprint_fields fs

  pub sprint_values : Values → String
  sprint_values nil = "]"
  sprint_values (cons v nil) = sprint v +++ "]"
  sprint_values (cons v (cons w vs)) = sprint v +++ " " +++ sprint_values (cons w vs)

  pub sprint_fields : Fields → String
  sprint_fields end = "]"
  sprint_fields (field k v end) = k +++ ":" +++ sprint v +++ "]"
  sprint_fields (field k v (field l w fs)) =
      k +++ ":" +++ sprint v +++ " " +++ sprint_fields (field l w fs)

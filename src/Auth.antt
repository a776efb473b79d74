-- ===== src/Auth.antt =====
-- internal/auth/supertokens.go: the subject that the headers of a request name. The attributes that
-- `json.Unmarshal` reads from a header are an argument.
use Prim.Native.Char.{code}
use permission_aware_search.Common.{
  eqb, ◌==◌, if◌then◌else◌, Bool-cases, All, lookup, insert, lookup-insert, String, ◌≡◌, refl, inl,
  inr, false, none, some, List, [], ◌∷◌,
}
use permission_aware_search.Strings.{trim_space}
use permission_aware_search.Policy.{Subject}

pub record Headers : Type 0 where
  pub user_id : String
  pub supertokens_user_id : String
  pub tenant_id : String
  pub roles : String
  pub user_attrs : String
  pub user_region : String

abbrev pub or_else : String → String → String
or_else s default = if s == "" then default else s

-- `strings.Split(s, ",")`: the text before the first comma, and the rest
unfoldable pub split_commas : String → String × List String
split_commas String.[] = ("", [])
split_commas (String.◌∷◌ c s) =
    let (first, rest) = split_commas s in
    if eqb (code c) b',' then ("", first ∷ rest) else (String.◌∷◌ c first, rest)

-- the loop over the parts
unfoldable pub trimmed_parts : List String → List String
unfolding trim_space
trimmed_parts [] = []
trimmed_parts (p ∷ parts) =
    let rest = trimmed_parts parts in if trim_space p == "" then rest else trim_space p ∷ rest

abbrev pub roles_of : String → List String
roles_of header =
    let (first, rest) = split_commas (or_else header "sales_rep") in trimmed_parts (first ∷ rest)

-- `attrs[key]`, which is empty where the key is missing
abbrev pub text_at : String → List (String × String) → String
text_at key attrs = elim (lookup key attrs) [ none ↦ "" | some s ↦ s ]

abbrev header_region : String → List (String × String) → List (String × String)
header_region header attrs = elim (lookup "region" attrs) [
  | some s ↦ attrs
  | none ↦ insert "region" header attrs
]

abbrev default_region : List (String × String) → List (String × String)
default_region attrs = if text_at "region" attrs == "" then insert "region" "west" attrs else attrs

-- `SubjectFromRequest`; the first argument is what `json.Unmarshal` makes of the attributes' header
unfoldable pub subject_from_request : (String → List (String × String)) → Headers → Subject
unfolding split_commas trimmed_parts lookup insert
subject_from_request unmarshal h = record {
  user_id = or_else (or_else h.user_id h.supertokens_user_id) "alice";
  tenant_id = or_else h.tenant_id "tenant-a";
  roles = roles_of h.roles;
  attributes =
      default_region
        (header_region h.user_region (if h.user_attrs == "" then [] else unmarshal h.user_attrs));
}

trimmed_parts-filled :
    (parts : List String) → All (λ role. (role == "") ≡ false) (trimmed_parts parts)
unfolding trimmed_parts
trimmed_parts-filled [] = tt
trimmed_parts-filled (p ∷ parts) = elim (Bool-cases (trim_space p == "")) [
  | inl blank ↦ rw blank (trimmed_parts-filled parts)
  | inr filled ↦ rw filled (filled, trimmed_parts-filled parts)
]

or_else-filled : (s default : String) → (default == "") ≡ false → (or_else s default == "") ≡ false
or_else-filled s default h = elim (Bool-cases (s == "")) [
  | inl blank ↦ rw blank h
  | inr filled ↦ rw filled filled
]

default_region-filled :
    (attrs : List (String × String)) → (text_at "region" (default_region attrs) == "") ≡ false
default_region-filled attrs = elim (Bool-cases (text_at "region" attrs == "")) [
  | inl blank ↦
      let west : text_at "region" (insert "region" "west" attrs) ≡ "west" =
        rw (text_at, lookup-insert "region" "region" "west" attrs) refl in
      rw (blank, west) refl
  | inr filled ↦ rw filled filled
]

-- Whatever the headers are, the subject has a user, a tenant and a region, and none of its roles is empty.
pub subject_from_request_filled :
    (unmarshal : String → List (String × String)) (h : Headers)
    → (((subject_from_request unmarshal h).user_id == "") ≡ false)
      × (((subject_from_request unmarshal h).tenant_id == "") ≡ false)
      × ((text_at "region" (subject_from_request unmarshal h).attributes == "") ≡ false)
      × All (λ role. (role == "") ≡ false) (subject_from_request unmarshal h).roles
unfolding subject_from_request
subject_from_request_filled unmarshal h = (
  or_else-filled (or_else h.user_id h.supertokens_user_id) "alice" refl,
  or_else-filled h.tenant_id "tenant-a" refl,
  default_region-filled
      (header_region h.user_region (if h.user_attrs == "" then [] else unmarshal h.user_attrs)),
  (let (first, rest) = split_commas (or_else h.roles "sales_rep") in
      trimmed_parts-filled (first ∷ rest)),
)

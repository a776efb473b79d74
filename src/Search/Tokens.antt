-- ===== src/Search/Tokens.antt =====
-- internal/search/service.go: the token of a placeholder. Base64, the keyed hash and the JSON text are
-- held by an interface, `Codec`.
use Prim.Native.Char.{code}
use text.Mathlib.TextLemmas.{nil-append, cons-append}
use permission_aware_search.Common.Int.{pos}
use permission_aware_search.Common.{
  eqb, ◌==◌, if◌then◌else◌, Bool-cases, Option-cases, Result, ok, err, lookup, ℕ, ◌+◌, String, ◌≡◌,
  refl, sym, ap, ◌∙◌, inl, inr, Bool, true, false, not, ◌&&◌, ◌||◌, Option, none, some, [], ◌∷◌,
  arith, eq_iff, eq_refl,
}
use permission_aware_search.Strings.{◌+++◌}
use permission_aware_search.Strings.Numbers.{itoa}
use permission_aware_search.Strings.Laws.{lacks}
use permission_aware_search.Json.{Doc, Value, null, boolean, num, str, arr, obj}
use permission_aware_search.Policy.{Subject}
use permission_aware_search.Store.{QueryDsl}

-- `base64.RawURLEncoding`, `hmac` under the service's secret, and `json`
pub record Codec : Type 0 where
  pub encode : String → String
  pub decode : String → Option String
  pub sign : String → String
  pub marshal : Doc → String
  pub unmarshal : String → Option Doc

-- what the packages document, of a payload: a decoder undoes its encoder, base64 text has no dot, and the
-- JSON text of the payload is read back as the payload
pub record Carries (c : Codec) (payload : Doc) : Type 0 where
  pub decode-encode : (s : String) → c.decode (c.encode s) ≡ some s
  pub lacks-encode : lacks "." (c.encode (c.marshal payload)) ≡ true
  pub unmarshal-marshal : c.unmarshal (c.marshal payload) ≡ some payload

-- `splitToken`: at the first dot; `none` where there is none
unfoldable pub split_token : String → Option (String × String)
split_token String.[] = none
split_token (String.◌∷◌ c s) =
    let rest = split_token s in
    (if eqb (code c) b'.'
      then some ("", s)
      else elim rest [ none ↦ none | some (first, last) ↦ some (String.◌∷◌ c first, last) ])

abbrev pub token_payload : String → QueryDsl → Subject → ℕ → Doc
token_payload resource_type query subject now =
    ("contract", str query.contract_version)
    ∷ ("exp", num (itoa (pos (now + 600))))
    ∷ ("resourceType", str resource_type)
    ∷ ("tenantId", str subject.tenant_id)
    ∷ ("userId", str subject.user_id)
    ∷ []

-- `payload[key] == text`, of an `interface{}` and a string
abbrev pub is_text : String → Option Value → Bool
is_text text (some (str s)) = s == text
is_text text (some null) = false
is_text text (some (boolean b)) = false
is_text text (some (num n)) = false
is_text text (some (arr vs)) = false
is_text text (some (obj fs)) = false
is_text text none = false

module _ (c : Codec) where
  -- `requestToken`, at a time in seconds
  unfoldable pub request_token : String → QueryDsl → Subject → ℕ → String
  unfolding itoa
  request_token resource_type query subject now =
      let raw = c.marshal (token_payload resource_type query subject now) in
      c.encode raw +++ "." +++ c.encode (c.sign raw)

  abbrev invalid_token : Result (Unit {0})
  invalid_token = err "invalid token"

  -- `ValidateRequestAccessToken`
  unfoldable pub validate_request_access_token : String → Subject → Result (Unit {0})
  unfolding split_token lookup
  validate_request_access_token token subject = elim (split_token token) [
    | none ↦ invalid_token
    | some (first, last) ↦ elim (c.decode first) [
      | none ↦ invalid_token
      | some raw ↦ elim (c.decode last) [
        | none ↦ invalid_token
        | some sig ↦ if not (sig == c.sign raw) then invalid_token else elim (c.unmarshal raw) [
          | none ↦ invalid_token
          | some payload ↦
              if not (is_text subject.tenant_id (lookup "tenantId" payload))
                || not (is_text subject.user_id (lookup "userId" payload))
              then invalid_token
              else ok tt
        ]
      ]
    ]
  ]

split_token-append :
    (s t : String) → lacks "." s ≡ true → split_token (s +++ "." +++ t) ≡ some (s, t)
unfolding split_token lacks
split_token-append String.[] t l =
    rw (nil-append ("." +++ t), cons-append "." "" t, nil-append t) refl
split_token-append (String.◌∷◌ d s) t l = elim (Bool-cases (eqb (code d) b'.')) [
  | inl dot ↦ absurd (ground arith)
  | inr other ↦
      let hyp = split_token-append s t (ground arith) in
      rw (cons-append d s ("." +++ t), other, hyp) refl
]

validate_lem :
    (c : Codec) (token first last raw sig : String) (payload : Doc) (subject : Subject)
    → split_token token ≡ some (first, last)
    → c.decode first ≡ some raw
    → c.decode last ≡ some sig
    → c.unmarshal raw ≡ some payload
    → validate_request_access_token c token subject ≡ (
        if sig == c.sign raw
          && is_text subject.tenant_id (lookup "tenantId" payload)
          && is_text subject.user_id (lookup "userId" payload)
        then ok tt
        else err "invalid token")
unfolding validate_request_access_token
validate_lem c token first last raw sig payload subject parts decoded signed read = ground arith

module _ (c : Codec) (resource_type : String) (query : QueryDsl) (owner : Subject) (now : ℕ)
    (laws : Carries c (token_payload resource_type query owner now)) where
  -- A token that the service has issued is accepted for a subject exactly if that has the tenant and the
  -- user of the subject it was issued for: the time `exp` that the token carries is never looked at.
  pub validate-request_token :
      (subject : Subject)
      → validate_request_access_token c (request_token c resource_type query owner now) subject ≡ (
          if owner.tenant_id == subject.tenant_id && owner.user_id == subject.user_id
          then ok tt
          else err "invalid token")
  unfolding request_token lookup
  validate-request_token subject =
      let payload = token_payload resource_type query owner now in
      let raw = c.marshal payload in
      let whole =
        validate_lem c (request_token c resource_type query owner now) (c.encode raw)
          (c.encode (c.sign raw)) raw (c.sign raw) payload subject
          (split_token-append (c.encode raw) (c.encode (c.sign raw)) (laws.lacks-encode))
          (laws.decode-encode raw) (laws.decode-encode (c.sign raw)) (laws.unmarshal-marshal) in
      rw (eq_refl (c.sign raw)) at whole

both :
    (x y z : Bool)
    → (if x && y && z then ok tt else err "invalid token") ≡ ok (tt {0})
    → (y ≡ true) × (z ≡ true)
both true true true h = (refl, refl)
both true true false h = cc
both true false z h = cc
both false y z h = cc

-- A token is accepted for a subject only if its second part is the base64 text of the keyed hash of what
-- its first part holds, and that names the tenant and the user of the subject.
pub validate-authentic :
    (c : Codec) (token : String) (subject : Subject)
    → validate_request_access_token c token subject ≡ ok tt
    → (first : String) × (last : String) × (raw : String) × (payload : Doc) × (split_token token
        ≡ some (first, last))
      × (c.decode first ≡ some raw)
      × (c.decode last ≡ some (c.sign raw))
      × (c.unmarshal raw ≡ some payload)
      × (is_text subject.tenant_id (lookup "tenantId" payload) ≡ true)
      × (is_text subject.user_id (lookup "userId" payload) ≡ true)
unfolding validate_request_access_token
validate-authentic c token subject h = elim (Option-cases (split_token token)) [
  | inl whole ↦ absurd (ground arith)
  | inr ((first, last), parts) ↦ elim (Option-cases (c.decode first)) [
    | inl bad ↦ absurd (ground arith)
    | inr (raw, decoded) ↦ elim (Option-cases (c.decode last)) [
      | inl bad ↦ absurd (ground arith)
      | inr (sig, signed) ↦ elim (Bool-cases (sig == c.sign raw)) [
        | inr forged ↦ absurd (ground arith)
        | inl genuine ↦ elim (Option-cases (c.unmarshal raw)) [
          | inl bad ↦ absurd (ground arith)
          | inr (payload, read) ↦
              let same = (eq_iff sig (c.sign raw)).0 genuine in
              let whole =
                validate_lem c token first last raw sig payload subject parts decoded signed read in
              let (tenant, user) = both _ _ _ (sym whole ∙ h) in
              (first, last, raw, payload, parts, decoded, signed ∙ ap some same, read, tenant, user)
        ]
      ]
    ]
  ]
]

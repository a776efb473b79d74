-- ===== src/Tests/Requests.antt =====
-- internal/auth and the request tokens of internal/search at concrete inputs.
use permission_aware_search.Common.Int.{pos}
use permission_aware_search.Common.{err, lookup, String, ◌≡◌, refl, true, some, [], ◌∷◌}
use permission_aware_search.Strings.{◌+++◌, trim_space}
use permission_aware_search.Strings.Laws.{lacks}
use permission_aware_search.Json.{Doc}
use permission_aware_search.Store.{QueryDsl}
use permission_aware_search.Auth.{subject_from_request, Headers}
use permission_aware_search.Search.Tokens.{
  split_token, token_payload, is_text, request_token, validate_request_access_token,
  validate-request_token, validate-authentic, Codec,
}
use permission_aware_search.Tests.Data.{alice}

abbrev headers : Headers
headers = record {
  user_id = "";
  supertokens_user_id = "carol";
  tenant_id = "tenant-b";
  roles = " admin, ,viewer";
  user_attrs = "";
  user_region = "";
}

carol : subject_from_request (λ text. []) headers ≡ record {
  user_id = "carol";
  tenant_id = "tenant-b";
  roles = "admin" ∷ "viewer" ∷ [];
  attributes = ("region", "west") ∷ [];
}
unfolding subject_from_request trim_space
carol = refl

abbrev query : QueryDsl
query = record {
  contract_version = "v2";
  intent_category = "default";
  filters = [];
  sort = record { field = ""; dir = "" };
  page = record { limit = pos 10; cursor = "" };
}

-- a codec of one payload
abbrev toy : Codec
toy = record {
  encode = λ s. s;
  decode = λ s. some s;
  sign = λ s. "hash of " +++ s;
  marshal = λ doc. "payload";
  unmarshal = λ s. some (token_payload "order" query alice 100);
}

validate-request_token_example :
    validate_request_access_token toy
      (request_token toy "order" query alice 100)
      (record alice { tenant_id = "tenant-b" })
    ≡ err "invalid token"
unfolding lacks
validate-request_token_example =
    validate-request_token toy "order" query alice 100
      (record { decode-encode = λ s. refl; lacks-encode = refl; unmarshal-marshal = refl })
      (record alice { tenant_id = "tenant-b" })

validate-authentic_example :
    (first : String) × (last : String) × (raw : String) × (payload : Doc) × (split_token
        "payload.hash of payload"
      ≡ some (first, last))
    × (toy.decode first ≡ some raw)
    × (toy.decode last ≡ some (toy.sign raw))
    × (toy.unmarshal raw ≡ some payload)
    × (is_text "tenant-a" (lookup "tenantId" payload) ≡ true)
    × (is_text "alice" (lookup "userId" payload) ≡ true)
unfolding validate_request_access_token
validate-authentic_example = validate-authentic toy "payload.hash of payload" alice refl

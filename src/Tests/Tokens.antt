-- ===== src/Tests/Tokens.antt =====
-- Runs of the token verification and of the client.
use auth_mini_gateway.Prelude.{
  ◌<◌, ◌≤◌, ◌≡◌, ◌≢◌, refl, true, false, ◌||◌, some, none, [], ◌∷◌, ◌++◌, ◌↔◌, is_empty, length,
  if◌then◌else◌, take,
}
use auth_mini_gateway.Prelude.Result.{ok, err}
use auth_mini_gateway.Prelude.Number.{pos}
use auth_mini_gateway.Prelude.Text.{Str, codes, str_eq}
use auth_mini_gateway.Prelude.Text.Split.{split}
use auth_mini_gateway.AuthTypes.{
  VerifiedAccessToken, Jwks, TokenResponse, RefreshError, invalidated,
}
use auth_mini_gateway.Jwt.{
  Codecs, Value, string, number, array, object, empty, item, end, field, audience_rejected,
  get_field, as_str, as_i64, as_array, is_text, not_empty, later_than, texts_of,
  audience_claim_contains, audiences_contain, find_key, parts_of, decode_json, bytes_of, key_for,
  check_signature, expiry, methods, check_claims, signed_payload, verify_access_token,
}
use auth_mini_gateway.Jwt.Audience.{ClaimNames, audience_claim_contains_iff}
use auth_mini_gateway.Jwt.Verified.{
  IsSigned, HasClaims, verify_access_token-ok, verify_access_token-audience_rejected,
}
use auth_mini_gateway.Client.{
  Answer, answered, Wires, bounded_body, refresh, refresh_answer, try_from, is_server_error,
  max_auth_mini_body,
}
use auth_mini_gateway.Client.Answers.{rejection_text, refresh-rejected, refresh-ok}

abbrev key_text : Str
key_text = codes "kkkkkkkkkkkkkkkkkkkkkkkkkkkkkkkk"

abbrev signature_text : Str
signature_text = codes "ssssssssssssssssssssssssssssssssssssssssssssssssssssssssssssssss"

abbrev header : Value
header =
    object
      (field (codes "alg") (string (codes "EdDSA")) (field (codes "kid") (string (codes "k1")) end))

abbrev payload : Value
payload = object (
    field (codes "iss") (string (codes "https://auth.test")) (
      field (codes "typ") (string (codes "access")) (
        field (codes "exp") (number (some (pos 2000))) (
          field (codes "sub") (string (codes "u1")) (
            field (codes "sid") (string (codes "a1")) (
              field (codes "amr") (array empty)
                (field (codes "aud") (array (item (string (codes "gw.test")) empty)) end)))))))

abbrev codecs : Codecs
codecs = record {
  b64_decode = λ s. some s;
  parse_json = λ s. if str_eq s (codes "h") then some header else some payload;
  is_key = λ _. true;
  verifies = λ _ _ _. true;
}

abbrev token : Str
token = codes "h.p." ++ signature_text

abbrev jwks : Jwks
jwks = record {
  keys =
      record {
        alg = some (codes "EdDSA");
        crv = some (codes "Ed25519");
        kid = some (codes "k1");
        kty = some (codes "OKP");
        x = some key_text;
      }
      ∷ [];
}

abbrev verified : VerifiedAccessToken
verified = record { user_id = codes "u1"; auth_session_id = codes "a1"; amr = []; exp = 2000 }

accepted :
    verify_access_token codecs token jwks (codes "https://auth.test") (codes "gw.test") 1000
    ≡ ok verified
unfolding verify_access_token signed_payload parts_of split decode_json key_for get_field as_str
    is_text find_key check_signature bytes_of check_claims expiry as_i64 later_than not_empty
    methods as_array texts_of audience_claim_contains audiences_contain str_eq
accepted = refl

refused :
    verify_access_token codecs token jwks (codes "https://auth.test") (codes "other.test") 1000
    ≡ err audience_rejected
unfolding verify_access_token signed_payload parts_of split decode_json key_for get_field as_str
    is_text find_key check_signature bytes_of check_claims expiry as_i64 later_than not_empty
    methods as_array texts_of audience_claim_contains audiences_contain str_eq
refused = refl

verify_access_token-ok_example :
    (payload' : Value) × IsSigned codecs token jwks payload'
    × HasClaims codecs payload' (codes "https://auth.test")
    × ClaimNames (get_field (codes "aud") payload') (codes "gw.test")
    × (1000 < verified.exp)
    × (as_str (get_field (codes "sub") payload') ≡ some verified.user_id)
    × (verified.user_id ≢ [])
    × (as_str (get_field (codes "sid") payload') ≡ some verified.auth_session_id)
    × (verified.auth_session_id ≢ [])
verify_access_token-ok_example =
    verify_access_token-ok codecs token jwks (codes "https://auth.test") (codes "gw.test") 1000
      verified accepted

verify_access_token-audience_rejected_example :
    (payload' : Value) × IsSigned codecs token jwks payload'
    × HasClaims codecs payload' (codes "https://auth.test")
    × (ClaimNames (get_field (codes "aud") payload') (codes "other.test") → ⊥)
verify_access_token-audience_rejected_example =
    verify_access_token-audience_rejected codecs token jwks (codes "https://auth.test")
      (codes "other.test") 1000 refused

audience_claim_contains_iff_example :
    (audience_claim_contains (get_field (codes "aud") payload) (codes "gw.test") ≡ true)
    ↔ ClaimNames (get_field (codes "aud") payload) (codes "gw.test")
audience_claim_contains_iff_example =
    audience_claim_contains_iff (get_field (codes "aud") payload) (codes "gw.test")

abbrev wires : Wires
wires = record {
  error_wire = λ s. some s;
  token_wire = λ s. some (record {
    session_id = codes "a1";
    access_token = codes "access";
    token_type = none;
    refresh_token = s;
  });
  jwks_wire = λ _. some jwks;
}

abbrev rejection_answer : Answer
rejection_answer = record {
  status = 401;
  content_length = none;
  body = some (codes "session_invalidated");
}

rejected_refresh :
    refresh wires (answered rejection_answer) ≡ err (RefreshError.rejected invalidated)
unfolding refresh refresh_answer bounded_body take is_server_error str_eq
rejected_refresh = refl

refresh-rejected_example :
    (a : Answer) × (answered rejection_answer ≡ answered a)
    × (a.status ≡ 401)
    × ((body : Str) × (bounded_body a ≡ some body)
        × (length body ≤ max_auth_mini_body)
        × (wires.error_wire body ≡ some (rejection_text invalidated)))
refresh-rejected_example =
    refresh-rejected wires (answered rejection_answer) invalidated rejected_refresh

abbrev success_answer : Answer
success_answer = record { status = 200; content_length = some 7; body = some (codes "refresh") }

abbrev new_tokens : TokenResponse
new_tokens = record {
  session_id = codes "a1";
  access_token = codes "access";
  refresh_token = codes "refresh";
}

refreshed : refresh wires (answered success_answer) ≡ ok new_tokens
unfolding refresh refresh_answer bounded_body take is_server_error try_from str_eq
refreshed = refl

refresh-ok_example :
    (a : Answer) × (answered success_answer ≡ answered a)
    × (a.status ≡ 200)
    × ((is_empty new_tokens.session_id
          || (is_empty new_tokens.access_token || is_empty new_tokens.refresh_token))
        ≡ false)
refresh-ok_example = refresh-ok wires (answered success_answer) new_tokens refreshed

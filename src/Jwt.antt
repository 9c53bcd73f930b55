-- ===== src/Jwt.antt =====
-- src/jwt.rs: the verification of an access token. Base64, serde_json and ed25519_dalek are parameters.
pub mod Audience
pub mod Verified
use auth_mini_gateway.Prelude.{
  ℕ, zero, suc, ◌≡◌, Bool, true, false, ◌&&◌, ◌||◌, not, Option, none, some, List, [], ◌∷◌, ◌++◌,
  leb, ◌==◌, if◌then◌else◌, is_empty, length,
}
use auth_mini_gateway.Prelude.Result.{Result, ok, err, ok_or, refuse_if, ◌>>=◌, ◌>>◌}
use auth_mini_gateway.Prelude.Number.{ℤ, pos, negsuc}
use auth_mini_gateway.Prelude.Text.{Str, codes, str_eq}
use auth_mini_gateway.Prelude.Text.Split.{split}
use auth_mini_gateway.AuthTypes.{VerifiedAccessToken, Jwk, Jwks}

-- serde_json::Value; a number is what `as_i64` makes of it, and the keys of an object are distinct.
mutual
  pub data Value : Type 0 where
    null : Value
    boolean : Bool → Value
    number : Option ℤ → Value
    string : Str → Value
    array : Values → Value
    object : Fields → Value

  pub data Values : Type 0 where
    empty : Values
    item : Value → Values → Values

  pub data Fields : Type 0 where
    end : Fields
    field : Str → Value → Fields → Fields

-- AccessTokenVerificationError
pub data TokenError : Type 0 where
  audience_rejected invalid : TokenError

pub record Codecs : Type 0 where
  -- crate::util::b64_decode, which is base64's URL_SAFE_NO_PAD
  pub b64_decode : Str → Option Str
  -- serde_json::from_slice
  pub parse_json : Str → Option Value
  -- VerifyingKey::from_bytes accepts the bytes
  pub is_key : Str → Bool
  -- Verifier::verify of a message and a signature under a key
  pub verifies : Str → Str → Str → Bool

find_field : Str → Fields → Option Value
find_field key end = none
find_field key (field k v fs) = if str_eq k key then some v else find_field key fs

unfoldable pub get_field : Str → Value → Option Value
unfolding find_field
get_field key (object fs) = find_field key fs
get_field key _ = none

unfoldable pub as_str : Option Value → Option Str
as_str (some (string s)) = some s
as_str _ = none

unfoldable pub as_i64 : Option Value → Option ℤ
as_i64 (some (number n)) = n
as_i64 _ = none

unfoldable pub as_array : Option Value → Option Values
as_array (some (array vs)) = some vs
as_array _ = none

-- The comparison with Some(expected)
unfoldable pub is_text : Option Str → Str → Bool
is_text none expected = false
is_text (some s) expected = str_eq s expected

-- filter(|value| !value.is_empty())
unfoldable pub not_empty : Option Str → Option Str
not_empty none = none
not_empty (some s) = if is_empty s then none else some s

cons_text : Option Str → Option (List Str) → Option (List Str)
cons_text (some s) (some ss) = some (s ∷ ss)
cons_text _ _ = none

-- map(as_str).collect()
unfoldable pub texts_of : Values → Option (List Str)
unfolding cons_text
texts_of empty = some []
texts_of (item v vs) = cons_text (as_str (some v)) (texts_of vs)

-- The loop over the audiences, with what was found so far.
unfoldable pub audiences_contain : Bool → Values → Str → Bool
audiences_contain found empty expected = found
audiences_contain found (item (string []) vs) expected = false
audiences_contain found (item (string (c ∷ s)) vs) expected =
    audiences_contain (found || str_eq (c ∷ s) expected) vs expected
audiences_contain found (item _ vs) expected = false

unfoldable pub audience_claim_contains : Option Value → Str → Bool
audience_claim_contains (some (string audience)) expected = str_eq audience expected
audience_claim_contains (some (array audiences)) expected =
    audiences_contain false audiences expected
audience_claim_contains _ expected = false

unfoldable pub find_key : Str → List Jwk → Option Jwk
find_key kid [] = none
find_key kid (key ∷ keys) = if is_text key.kid kid then some key else find_key kid keys

-- `exp <= now_unix`, for a time after 1970.
unfoldable pub later_than : ℤ → ℕ → Option ℕ
later_than (pos exp) at = if leb exp at then none else some exp
later_than (negsuc n) at = none

three_parts : List Str → Option (Str × Str × Str)
three_parts (a ∷ b ∷ c ∷ []) = some (a, b, c)
three_parts _ = none

unfoldable pub parts_of : Str → Option (Str × Str × Str)
unfolding three_parts
parts_of token = three_parts (split b'.' token)

module _ (c : Codecs) where
  json_of : Option Str → Option Value
  json_of none = none
  json_of (some bytes) = c.parse_json bytes

  unfoldable pub decode_json : Str → Option Value
  unfolding json_of
  decode_json segment = json_of (c.b64_decode segment)

  unfoldable pub bytes_of : Option Str → Option Str
  bytes_of none = none
  bytes_of (some s) = c.b64_decode s

  -- The key that the header names, fit for EdDSA.
  unfoldable pub key_for : Value → Jwks → Result TokenError Jwk
  key_for header jwks = do
    refuse_if (not (is_text (as_str (get_field (codes "alg") header)) (codes "EdDSA"))) invalid
    kid ← ok_or (as_str (get_field (codes "kid") header)) invalid
    key ← ok_or (find_key kid jwks.keys) invalid
    refuse_if
        (not (is_text key.alg (codes "EdDSA"))
          || (not (is_text key.kty (codes "OKP")) || not (is_text key.crv (codes "Ed25519"))))
        invalid
    ok key

  unfoldable pub check_signature : Jwk → Str → Str → Str → Result TokenError (Unit {0})
  check_signature key header payload signature = do
    public_bytes ← ok_or (bytes_of key.x) invalid
    refuse_if (not (length public_bytes == 32)) invalid
    signature_bytes ← ok_or (c.b64_decode signature) invalid
    refuse_if (not (length signature_bytes == 64)) invalid
    refuse_if (not (c.is_key public_bytes)) invalid
    refuse_if (not (c.verifies public_bytes (header ++ (b'.' ∷ payload)) signature_bytes)) invalid

  unfoldable pub expiry : Value → ℕ → Result TokenError ℕ
  expiry payload at = do
    exp ← ok_or (as_i64 (get_field (codes "exp") payload)) invalid
    ok_or (later_than exp at) invalid

  unfoldable pub methods : Value → Result TokenError (List Str)
  methods payload = do
    values ← ok_or (as_array (get_field (codes "amr") payload)) invalid
    ok_or (texts_of values) invalid

  unfoldable pub check_claims : Value → Str → Str → ℕ → Result TokenError VerifiedAccessToken
  check_claims payload issuer audience at = do
    refuse_if (not (is_text (as_str (get_field (codes "iss") payload)) issuer)) invalid
    refuse_if (not (is_text (as_str (get_field (codes "typ") payload)) (codes "access"))) invalid
    exp ← expiry payload at
    user_id ← ok_or (not_empty (as_str (get_field (codes "sub") payload))) invalid
    auth_session_id ← ok_or (not_empty (as_str (get_field (codes "sid") payload))) invalid
    amr ← methods payload
    refuse_if (not (audience_claim_contains (get_field (codes "aud") payload) audience))
        audience_rejected
    ok (record { user_id = user_id; auth_session_id = auth_session_id; amr = amr; exp = exp })

  -- The payload, once its signature is verified.
  unfoldable pub signed_payload : Str → Jwks → Result TokenError Value
  signed_payload token jwks = do
    parts ← ok_or (parts_of token) invalid
    header ← ok_or (decode_json parts.0) invalid
    key ← key_for header jwks
    check_signature key parts.0 parts.1 parts.2
    ok_or (decode_json parts.1) invalid

  unfoldable pub verify_access_token :
      Str → Jwks → Str → Str → ℕ → Result TokenError VerifiedAccessToken
  verify_access_token token jwks issuer audience at = do
    payload ← signed_payload token jwks
    check_claims payload issuer audience at

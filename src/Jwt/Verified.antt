-- ===== src/Jwt/Verified.antt =====
-- src/jwt.rs: what a verified token says, and which tokens have their audience rejected.
use auth_mini_gateway.Prelude.{
  ℕ, ◌<◌, ◌≡◌, ◌≢◌, refl, ◌⊎◌, Bool, true, false, ◌&&◌, Option, none, some, [], ◌∷◌, ◌++◌, arith,
  Option-cases, inl, inr,
}
use auth_mini_gateway.Prelude.Result.{Result, ok, err, ok_or, refuse_if, ◌>>=◌, >>=-eq-ok}
use auth_mini_gateway.Prelude.Number.{pos, negsuc}
use auth_mini_gateway.Prelude.Text.{Str, codes}
use auth_mini_gateway.AuthTypes.{VerifiedAccessToken, Jwk, Jwks}
use auth_mini_gateway.Jwt.{
  Codecs, Value, TokenError, audience_rejected, invalid, get_field, as_str, as_i64, is_text,
  not_empty, later_than, audience_claim_contains, parts_of, decode_json, bytes_of, key_for,
  check_signature, signed_payload, expiry, methods, check_claims, verify_access_token,
}
use auth_mini_gateway.Jwt.Audience.{ClaimNames, audience_claim_contains_iff}

-- The check fails in no other way than as an invalid token.
abbrev OnlyInvalid : {A : Type 0} → Result TokenError A → Type 0
OnlyInvalid m = m ≡ err audience_rejected → ⊥

OnlyInvalid-bind :
    {A B : Type 0} (m : Result TokenError A) (f : A → Result TokenError B)
    → OnlyInvalid m
    → ((a : A) → OnlyInvalid (f a))
    → OnlyInvalid (m >>= f)
OnlyInvalid-bind (ok a) f hm hf h = hf a h
OnlyInvalid-bind (err audience_rejected) f hm hf h = hm refl
OnlyInvalid-bind (err invalid) f hm hf h = absurd (ground arith)

OnlyInvalid-ok_or : {A : Type 0} (o : Option A) → OnlyInvalid (ok_or o invalid)
OnlyInvalid-ok_or none h = absurd (ground arith)
OnlyInvalid-ok_or (some a) h = absurd (ground arith)

OnlyInvalid-refuse_if : (b : Bool) → OnlyInvalid (refuse_if b invalid)
OnlyInvalid-refuse_if true h = absurd (ground arith)
OnlyInvalid-refuse_if false h = absurd (ground arith)

OnlyInvalid-ok : {A : Type 0} (a : A) → OnlyInvalid (ok a)
OnlyInvalid-ok a h = absurd (ground arith)

ruleset invalid_rules = (OnlyInvalid-bind, OnlyInvalid-ok_or, OnlyInvalid-refuse_if, OnlyInvalid-ok)

Result-cases :
    {A : Type 0} (m : Result TokenError A)
    → ((a : A) × (m ≡ ok a)) ⊎ ((e : TokenError) × (m ≡ err e))
Result-cases (ok a) = inl (a, refl)
Result-cases (err e) = inr (e, refl)

module _ (c : Codecs) where
  -- A key of the set, under the id that the header names, signs the first two parts of the token.
  pub record IsSigned (token : Str) (jwks : Jwks) (payload : Value) : Type 0 where
    pub texts : Str × Str × Str
    pub parts : parts_of token ≡ some texts
    pub decoded : decode_json c texts.1 ≡ some payload
    pub header : Value
    pub header_decoded : decode_json c texts.0 ≡ some header
    pub key : Jwk
    pub chosen : key_for c header jwks ≡ ok key
    pub public_bytes : Str
    pub signature_bytes : Str
    pub key_bytes : bytes_of c key.x ≡ some public_bytes
    pub signature : c.b64_decode texts.2 ≡ some signature_bytes
    pub verified : c.verifies public_bytes (texts.0 ++ (b'.' ∷ texts.1)) signature_bytes ≡ true

  ok_or-ok :
      {A : Type 0} (o : Option A) {a : A}
      → ◌≡◌ {A = Result TokenError A} (ok_or o invalid) (ok a)
      → o ≡ some a
  ok_or-ok none h = absurd (ground arith)
  ok_or-ok (some a) h = ground arith

  check_signature-verifies :
      (key : Jwk) (header payload signature : Str) {u : Unit}
      → check_signature c key header payload signature ≡ ok u
      → (public_bytes : Str) × (signature_bytes : Str) × (bytes_of c key.x ≡ some public_bytes)
        × (c.b64_decode signature ≡ some signature_bytes)
        × (c.verifies public_bytes (header ++ (b'.' ∷ payload)) signature_bytes ≡ true)
  unfolding check_signature
  check_signature-verifies key header payload signature h = elim (Option-cases (bytes_of c key.x)) [
    | inl e ↦ absurd (ground arith)
    | inr (public_bytes, e) ↦ elim (Option-cases (c.b64_decode signature)) [
      | inl d ↦ absurd (ground arith)
      | inr (signature_bytes, d) ↦ (public_bytes, signature_bytes, e, d, ground arith)
    ]
  ]

  signed_payload-IsSigned :
      (token : Str) (jwks : Jwks) (payload : Value)
      → signed_payload c token jwks ≡ ok payload
      → IsSigned token jwks payload
  unfolding signed_payload
  signed_payload-IsSigned token jwks payload h =
      let (parts, p, h1) = >>=-eq-ok (ok_or (parts_of token) invalid) _ h in
      let (header, q, h2) = >>=-eq-ok (ok_or (decode_json c parts.0) invalid) _ h1 in
      let (key, k, h3) = >>=-eq-ok (key_for c header jwks) _ h2 in
      let (_, r, h4) = >>=-eq-ok (check_signature c key parts.0 parts.1 parts.2) _ h3 in
      let (public_bytes, signature_bytes, e, d, v) = check_signature-verifies key _ _ _ r in
      record {
        texts = parts;
        parts = ok_or-ok (parts_of token) p;
        decoded = ok_or-ok _ h4;
        header = header;
        header_decoded = ok_or-ok _ q;
        key = key;
        chosen = k;
        public_bytes = public_bytes;
        signature_bytes = signature_bytes;
        key_bytes = e;
        signature = d;
        verified = v;
      }

  key_for-OnlyInvalid : (header : Value) (jwks : Jwks) → OnlyInvalid (key_for c header jwks)
  unfolding key_for
  key_for-OnlyInvalid header jwks = search invalid_rules

  check_signature-OnlyInvalid :
      (key : Jwk) (a b d : Str) → OnlyInvalid (check_signature c key a b d)
  unfolding check_signature
  check_signature-OnlyInvalid key a b d = search invalid_rules depth 8 fits 20000

  signed_payload-OnlyInvalid :
      (token : Str) (jwks : Jwks) → OnlyInvalid (signed_payload c token jwks)
  unfolding signed_payload
  signed_payload-OnlyInvalid token jwks =
      search (invalid_rules, key_for-OnlyInvalid, check_signature-OnlyInvalid)

  -- The claims that are asked of every token of this issuer.
  pub record HasClaims (payload : Value) (issuer : Str) : Type 0 where
    pub issued : is_text (as_str (get_field (codes "iss") payload)) issuer ≡ true
    pub access : is_text (as_str (get_field (codes "typ") payload)) (codes "access") ≡ true

  claims_of :
      (payload : Value) (issuer : Str)
      → ((is_text (as_str (get_field (codes "iss") payload)) issuer)
          && is_text (as_str (get_field (codes "typ") payload)) (codes "access"))
        ≡ true
      → HasClaims payload issuer
  claims_of payload issuer h = record { issued = ground arith; access = ground arith }

  not_empty-some : (o : Option Str) {s : Str} → not_empty o ≡ some s → (o ≡ some s) × (s ≢ [])
  unfolding not_empty
  not_empty-some none h = absurd (ground arith)
  not_empty-some (some []) h = absurd (ground arith)
  not_empty-some (some (a ∷ s)) h = (h, λ q. ground arith)

  expiry-later : (payload : Value) (at : ℕ) {exp : ℕ} → expiry c payload at ≡ ok exp → at < exp
  unfolding expiry later_than
  expiry-later payload at h = elim (Option-cases (as_i64 (get_field (codes "exp") payload))) [
    | inl e ↦ absurd (ground arith)
    | inr (pos n, e) ↦ ground arith
    | inr (negsuc n, e) ↦ absurd (ground arith)
  ]

  check_claims-ok :
      (payload : Value) (issuer audience : Str) (at : ℕ) (v : VerifiedAccessToken)
      → check_claims c payload issuer audience at ≡ ok v
      → ((is_text (as_str (get_field (codes "iss") payload)) issuer
            && is_text (as_str (get_field (codes "typ") payload)) (codes "access"))
          ≡ true)
        × (audience_claim_contains (get_field (codes "aud") payload) audience ≡ true)
        × (at < v.exp)
        × (not_empty (as_str (get_field (codes "sub") payload)) ≡ some v.user_id)
        × (not_empty (as_str (get_field (codes "sid") payload)) ≡ some v.auth_session_id)
  unfolding check_claims
  check_claims-ok payload issuer audience at v h =
      let read : (expiry c payload at ≡ ok v.exp) = ground arith in
      (ground arith, ground arith, expiry-later payload at read, ground arith, ground arith)

  -- Only a token that is signed by a key of the set and comes from the issuer has its audience rejected,
  -- and only if its claim does not name the gateway: a forged or a damaged token never counts as
  -- rejected, which would revoke a session.
  pub verify_access_token-audience_rejected :
      (token : Str) (jwks : Jwks) (issuer audience : Str) (at : ℕ)
      → verify_access_token c token jwks issuer audience at ≡ err audience_rejected
      → (payload : Value) × IsSigned token jwks payload
        × HasClaims payload issuer
        × (ClaimNames (get_field (codes "aud") payload) audience → ⊥)
  unfolding verify_access_token
  verify_access_token-audience_rejected token jwks issuer audience at h =
      elim (Result-cases (signed_payload c token jwks)) [
        | inl (payload, e) ↦
            let (claims, aud) = check_claims-rejected payload issuer audience at (rw e at h) in
            (
              payload,
              signed_payload-IsSigned token jwks payload e,
              claims_of payload issuer claims,
              λ n. let yes = (audience_claim_contains_iff _ audience).1 n in ground arith,
            )
        | inr (x, e) ↦ absurd (
            signed_payload-OnlyInvalid token jwks (
              let same : x ≡ audience_rejected = (let k = rw e at h in ground arith) in
              rw same at e))
      ]
    where
      check_claims-rejected :
          (payload : Value) (issuer audience : Str) (at : ℕ)
          → check_claims c payload issuer audience at ≡ err audience_rejected
          → ((is_text (as_str (get_field (codes "iss") payload)) issuer
                && is_text (as_str (get_field (codes "typ") payload)) (codes "access"))
              ≡ true)
            × (audience_claim_contains (get_field (codes "aud") payload) audience ≡ false)
      check_claims-rejected payload issuer audience at h =
          unfold check_claims expiry methods in (ground arith, ground arith)

  -- A verified token is signed by a key of the set, comes from the issuer, is an access token that is
  -- not expired, names the gateway as its audience, and says whose session it is for.
  pub verify_access_token-ok :
      (token : Str) (jwks : Jwks) (issuer audience : Str) (at : ℕ) (v : VerifiedAccessToken)
      → verify_access_token c token jwks issuer audience at ≡ ok v
      → (payload : Value) × IsSigned token jwks payload
        × HasClaims payload issuer
        × ClaimNames (get_field (codes "aud") payload) audience
        × (at < v.exp)
        × (as_str (get_field (codes "sub") payload) ≡ some v.user_id)
        × (v.user_id ≢ [])
        × (as_str (get_field (codes "sid") payload) ≡ some v.auth_session_id)
        × (v.auth_session_id ≢ [])
  unfolding verify_access_token
  verify_access_token-ok token jwks issuer audience at v h =
      let (payload, s, rest) = >>=-eq-ok (signed_payload c token jwks) _ h in
      let (claims, aud, exp, sub, sid) = check_claims-ok payload issuer audience at v rest in
      (
        payload,
        signed_payload-IsSigned token jwks payload s,
        claims_of payload issuer claims,
        (audience_claim_contains_iff _ audience).0 aud,
        exp,
        (not_empty-some _ sub).0,
        (not_empty-some _ sub).1,
        (not_empty-some _ sid).0,
        (not_empty-some _ sid).1,
      )

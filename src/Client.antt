-- ===== src/Client.antt =====
-- src/auth_mini.rs: the client of auth-mini: the key cache, the calls, and how their answers are
-- classified. What reqwest makes of a request is a parameter: an answer, or an error of the transport.
pub mod Answers
use auth_mini_gateway.Prelude.{
  ℕ, suc, ◌+◌, ◌*◌, ◌-◌, ◌≡◌, Bool, true, false, ◌&&◌, ◌||◌, not, Option, none, some, List, [], ◌∷◌,
  leb, ltb, ◌==◌, if◌then◌else◌, is_empty, length, take,
}
use auth_mini_gateway.Prelude.Result.{Result, ok, err, ok_or, refuse_if, ◌>>=◌, ◌>>◌}
use auth_mini_gateway.Prelude.Text.{Str, codes, str_eq}
use auth_mini_gateway.Util.{seconds}
use auth_mini_gateway.AuthTypes.{
  TokenResponse, RefreshRejected, invalidated, superseded, TemporaryClass, timeout, transport,
  rate_limited, upstream, IndeterminateClass, unexpected_status, invalid_error_body,
  invalid_success_body, token_verification, contract_drift, InitialAccessError, RefreshError,
  VerifiedAccessToken, Jwks,
}
use auth_mini_gateway.Jwt.{Codecs, TokenError, audience_rejected, invalid, verify_access_token}

abbrev pub max_auth_mini_body : ℕ
max_auth_mini_body = 64 * 1024

-- reqwest's Response. `none` is an error in reading the body.
pub record Answer : Type 0 where
  pub status : ℕ
  pub content_length : Option ℕ
  pub body : Option Str

pub data Sent : Type 0 where
  answered : Answer → Sent
  failed : Bool → Sent

pub record TokenWire : Type 0 where
  pub session_id : Str
  pub access_token : Str
  pub token_type : Option Str
  pub refresh_token : Str

-- serde_json on the bodies: the `error` of an ErrorWire, which has no other field, a TokenWire, a Jwks.
pub record Wires : Type 0 where
  pub error_wire : Str → Option Str
  pub token_wire : Str → Option TokenWire
  pub jwks_wire : Str → Option Jwks

unfoldable pub classify_transport : Bool → RefreshError
classify_transport is_timeout = RefreshError.temporary (if is_timeout then timeout else transport)

abbrev over_limit : Option ℕ → Bool
over_limit none = false
over_limit (some n) = ltb max_auth_mini_body n

taken : Option Str → Option Str
taken none = none
taken (some body) =
    let read = take (suc max_auth_mini_body) body in
    if ltb max_auth_mini_body (length read) then none else some read

unfoldable pub bounded_body : Answer → Option Str
unfolding taken
bounded_body answer = if over_limit answer.content_length then none else taken answer.body

unfoldable pub is_server_error : ℕ → Bool
is_server_error status = leb 500 status && leb status 599

or_bearer : Option Str → Str
or_bearer none = codes "Bearer"
or_bearer (some token_type) = token_type

-- TryFrom<TokenWire> for TokenResponse
unfoldable pub try_from : TokenWire → Result RefreshError TokenResponse
unfolding or_bearer
try_from wire = do
  refuse_if
      (not (str_eq (or_bearer wire.token_type) (codes "Bearer"))
        || (is_empty wire.session_id
            || (is_empty wire.access_token || is_empty wire.refresh_token)))
      (RefreshError.indeterminate invalid_success_body)
  ok (record {
    session_id = wire.session_id;
    access_token = wire.access_token;
    refresh_token = wire.refresh_token;
  })

rejection : Str → RefreshError
rejection error =
    if str_eq error (codes "session_invalidated")
    then RefreshError.rejected invalidated
    else if str_eq error (codes "session_superseded")
    then RefreshError.rejected superseded
    else RefreshError.indeterminate invalid_error_body

module _ (w : Wires) where
  parsed {ℓ} : {A : Type ℓ} → (Str → Option A) → Option Str → Option A
  parsed parse none = none
  parsed parse (some body) = parse body

  unauthorized_error : Option Str → RefreshError
  unfolding rejection
  unauthorized_error none = RefreshError.indeterminate invalid_error_body
  unauthorized_error (some error) = rejection error

  tokens_of : Option TokenWire → Result RefreshError TokenResponse
  unfolding try_from
  tokens_of none = err (RefreshError.indeterminate invalid_success_body)
  tokens_of (some wire) = try_from wire

  unfoldable pub refresh_answer : Answer → Result RefreshError TokenResponse
  unfolding unauthorized_error tokens_of parsed
  refresh_answer a =
      if a.status == 408
      then err (RefreshError.temporary timeout)
      else if a.status == 429
      then err (RefreshError.temporary rate_limited)
      else if is_server_error a.status
      then err (RefreshError.temporary upstream)
      else if a.status == 401
      then err (unauthorized_error (parsed w.error_wire (bounded_body a)))
      else if not (a.status == 200)
      then err (RefreshError.indeterminate unexpected_status)
      else tokens_of (parsed w.token_wire (bounded_body a))

  unfoldable pub refresh : Sent → Result RefreshError TokenResponse
  refresh (failed is_timeout) = err (classify_transport is_timeout)
  refresh (answered a) = refresh_answer a

  fetched_keys : Option Jwks → Result RefreshError Jwks
  fetched_keys none = err (RefreshError.indeterminate contract_drift)
  fetched_keys (some jwks) = ok jwks

  unfoldable pub jwks_answer : Sent → Result RefreshError Jwks
  unfolding fetched_keys parsed
  jwks_answer (failed is_timeout) = err (classify_transport is_timeout)
  jwks_answer (answered a) =
      if a.status == 429
      then err (RefreshError.temporary rate_limited)
      else if is_server_error a.status
      then err (RefreshError.temporary upstream)
      else if not (a.status == 200)
      then err (RefreshError.indeterminate unexpected_status)
      else fetched_keys (parsed w.jwks_wire (bounded_body a))

  -- The cache, with the time at which its keys were stored.
  abbrev pub Cache : Type 0
  Cache = Option (ℕ × Jwks)

  stored : ℕ → Cache → Result RefreshError Jwks → Result RefreshError Jwks × Cache
  stored later cache (ok keys) = (ok keys, some (later, keys))
  stored later cache (err e) = (err e, cache)

  -- AuthMiniClient::jwks at a time `at`, with the answer of a request that is only made where the cache
  -- holds no keys of the last 300 seconds, and the time `later` behind it.
  unfoldable pub jwks : ℕ → ℕ → Sent → Cache → Result RefreshError Jwks × Cache
  unfolding stored
  jwks at later sent none = stored later none (jwks_answer sent)
  jwks at later sent (some (created, keys)) =
      if ltb at (created + seconds 300)
      then (ok keys, some (created, keys))
      else stored later (some (created, keys)) (jwks_answer sent)

initial_error :
    Result TokenError VerifiedAccessToken → Result InitialAccessError VerifiedAccessToken
initial_error (ok v) = ok v
initial_error (err audience_rejected) = err InitialAccessError.audience_rejected
initial_error (err invalid) = err InitialAccessError.invalid

refresh_error : Result TokenError VerifiedAccessToken → Result RefreshError VerifiedAccessToken
refresh_error (ok v) = ok v
refresh_error (err audience_rejected) = err RefreshError.audience_rejected
refresh_error (err invalid) = err (RefreshError.indeterminate token_verification)

module _ (c : Codecs) (issuer audience : Str) where
  unfoldable pub verify_initial_access :
      Str → Result RefreshError Jwks → ℕ → Result InitialAccessError VerifiedAccessToken
  unfolding initial_error
  verify_initial_access token (err e) at = err InitialAccessError.invalid
  verify_initial_access token (ok keys) at =
      initial_error (verify_access_token c token keys issuer audience at)

  unfoldable pub verify_refreshed_access : Str → Jwks → ℕ → Result RefreshError VerifiedAccessToken
  unfolding refresh_error
  verify_refreshed_access token keys at =
      refresh_error (verify_access_token c token keys issuer audience at)

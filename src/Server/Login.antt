-- ===== src/Server/Login.antt =====
-- src/server.rs: the login, its callback and the logout.
use auth_mini_gateway.Prelude.{
  ℕ, Bool, false, not, Option, none, some, [], ◌∷◌, ◌++◌, if◌then◌else◌,
}
use auth_mini_gateway.Prelude.Result.{Result, ok, err}
use auth_mini_gateway.Prelude.Text.{Str, codes, str_eq}
use auth_mini_gateway.Prelude.Text.Split.{contains}
use auth_mini_gateway.Util.{DateTime}
use auth_mini_gateway.Config.{Config}
use auth_mini_gateway.Config.Parse.{is_allowed_loopback}
use auth_mini_gateway.Policy.{PolicyDecision, allow, deny}
use auth_mini_gateway.ReturnTarget.{normalize_return_target, direct_login}
use auth_mini_gateway.Http.{Request, Response, header, get, text, json, redirect, with_cookie}
use auth_mini_gateway.Cookies.{
  session_cookie, login_state_cookie, read_signed_cookie, serialize_signed_cookie, clear_cookie,
}
use auth_mini_gateway.Db.{GatewaySession, LoginState, DbError}
use auth_mini_gateway.Db.Store.{
  create_login_state, consume_login_state, create_session, logout_access_snapshot, revoke_session,
}
use auth_mini_gateway.AuthTypes.{InitialAccessError, VerifiedAccessToken}
use auth_mini_gateway.Server.{Surroundings, CallbackBody, G, give, ◌>>=◌, ◌>>◌, ask, call}
use auth_mini_gateway.Server.Decision.{evaluate_session_policy, no_store}

pub record TokenInput : Type 0 where
  pub session_id : Str
  pub access_token : Str
  pub refresh_token : Str

-- Why no session was created.
pub data SessionError : Type 0 where
  verification_failed session_id_mismatch invalid_exp store_failed : SessionError

token_input : Option Str → Option Str → Option Str → Option TokenInput
token_input (some access_token) (some refresh_token) (some session_id) =
    some (record {
      session_id = session_id;
      access_token = access_token;
      refresh_token = refresh_token;
    })
token_input _ _ _ = none

bearer_tokens : CallbackBody → Option Str → Option TokenInput
unfolding token_input
bearer_tokens body none = none
bearer_tokens body (some token_type) =
    if not (str_eq token_type (codes "Bearer"))
    then none
    else token_input body.access_token body.refresh_token body.session_id

unfoldable pub into_tokens : CallbackBody → Option TokenInput
unfolding bearer_tokens
into_tokens body = bearer_tokens body body.token_type

or_else : Option Str → Option Str → Option Str
or_else none other = other
or_else (some value) other = some value

or_default : Option Str → Str → Str
or_default none value = value
or_default (some found) value = found

-- body.state.as_deref() == Some(&state_id)
state_is : Option Str → Str → Bool
state_is none id = false
state_is (some state) id = str_eq state id

module _ (s : Surroundings) (config : Config) where
  loopback_host : Option s.crates.Url → Bool
  loopback_host none = false
  loopback_host (some url) = elim (s.crates.host url) [
    | none ↦ false
    | some host ↦ is_allowed_loopback s.crates host
  ]

  unfoldable pub login_requires_explicit_audience : Bool
  unfolding loopback_host
  login_requires_explicit_audience = loopback_host (s.crates.parse config.public_base_url)

  -- The `expect` panics where the public base URL is no URL.
  callback_url : Option s.crates.Url → Option Str
  callback_url none = none
  callback_url (some base) = elim (s.crates.join base (codes "/auth/callback")) [
    | none ↦ none
    | some url ↦ some (s.crates.url_text url)
  ]

  -- form_urlencoded::Serializer
  unfoldable pub login_params : Str → Str → Str
  login_params redirect_uri state =
      codes "redirect_uri="
      ++ (s.crates.urlencode redirect_uri
          ++ (codes "&state="
              ++ (s.crates.urlencode state
                  ++ (if login_requires_explicit_audience
                      then codes "&aud=" ++ s.crates.urlencode config.auth_mini_audience
                      else []))))

  login_url : Option Str → Str → Str
  login_url none params = config.auth_mini_public_base_url ++ (codes "/web/#/login?" ++ params)
  login_url (some url) params = url ++ ((if contains b'?' url then b'&' else b'?') ∷ params)

  login_url_for : Str → Option Str → Option Str
  unfolding login_url
  login_url_for state none = none
  login_url_for state (some redirect_uri) =
      some (login_url config.auth_mini_login_url (login_params redirect_uri state))

  unfoldable pub build_auth_mini_login_url : Str → Option Str
  unfolding login_url_for callback_url
  build_auth_mini_login_url state =
      login_url_for state (callback_url (s.crates.parse config.public_base_url))

  unfoldable pub login_redirect : LoginState → Option Str → G (Result DbError Response)
  login_redirect state none g = (none, g)
  login_redirect state (some url) g = (
    some (
        ok (
          with_cookie (redirect url) (
            serialize_signed_cookie s.crates login_state_cookie state.id state.expires_at config))),
    g,
  )

  unfoldable pub login_created : Result DbError LoginState → G (Result DbError Response)
  unfolding login_redirect
  login_created (err e) = give (err e)
  login_created (ok state) = login_redirect state (build_auth_mini_login_url state.id)

  unfoldable pub create_login_response : Str → G (Result DbError Response)
  unfolding login_created
  create_login_response return_to = do
    state ← ask (create_login_state s.store return_to config.login_state_ttl_seconds)
    login_created state

  unfoldable pub normalize_return_to : Option Str → Option Str
  normalize_return_to input =
      normalize_return_target s.crates input config.public_base_url direct_login

  unfoldable pub login_to : Option Str → G (Result DbError Response)
  unfolding create_login_response
  login_to none = give (ok (no_store (text 400 (codes "Invalid return_to"))))
  login_to (some return_to) = create_login_response return_to

  unfoldable pub handle_login : Request → G (Result DbError Response)
  unfolding login_to or_else
  handle_login request = login_to (
      normalize_return_to
        (or_else (get (codes "return_to") request.query) (header request (codes "X-Original-URI"))))

  stored : Result DbError GatewaySession → Result SessionError GatewaySession
  stored (ok session) = ok session
  stored (err e) = err store_failed

  unfoldable pub create_with :
      TokenInput → VerifiedAccessToken → Option DateTime → G (Result SessionError GatewaySession)
  unfolding stored
  create_with tokens verified none = give (err invalid_exp)
  create_with tokens verified (some access_expires_at) = do
    session ← ask (
        create_session s.store (record {
          auth_session_id = tokens.session_id;
          access_token = tokens.access_token;
          refresh_token = tokens.refresh_token;
          user_id = verified.user_id;
          email = none;
          amr = verified.amr;
          access_expires_at = access_expires_at;
          idle_ttl_seconds = config.session_ttl_seconds;
          absolute_ttl_seconds = config.session_absolute_ttl_seconds;
        }))
    give (stored session)

  unfoldable pub session_verified :
      TokenInput
      → Result InitialAccessError VerifiedAccessToken
      → G (Result SessionError GatewaySession)
  unfolding create_with
  session_verified tokens (err e) = give (err verification_failed)
  session_verified tokens (ok verified) =
      if not (str_eq verified.auth_session_id tokens.session_id)
      then give (err session_id_mismatch)
      else create_with tokens verified (s.crates.timestamp verified.exp)

  unfoldable pub create_session_from_tokens : TokenInput → G (Result SessionError GatewaySession)
  unfolding session_verified
  create_session_from_tokens tokens = do
    verified ← call (λ n. s.auth_mini.verify_initial_access n tokens.access_token)
    session_verified tokens verified

  clear_state : Str
  clear_state = clear_cookie s.crates login_state_cookie config

  unfoldable pub refused : ℕ → Str → Response
  unfolding clear_state
  refused status message = with_cookie (no_store (text status message)) clear_state

  unfoldable pub session_response : Str → GatewaySession → PolicyDecision → Response
  unfolding clear_state
  session_response return_to session decision =
      with_cookie
        (with_cookie
          (no_store (elim decision [
            | allow ↦ json 200 (s.return_to_json return_to)
            | deny ↦ text 403 (codes "Forbidden")
          ]))
          clear_state)
        (serialize_signed_cookie s.crates session_cookie session.id session.idle_expires_at config)

  unfoldable pub callback_created : Str → Result SessionError GatewaySession → Response
  unfolding refused session_response
  callback_created return_to (err e) = refused 401 (codes "Invalid auth-mini session")
  callback_created return_to (ok session) =
      session_response return_to session (evaluate_session_policy session config)

  unfoldable pub callback_tokens : Str → Option TokenInput → G (Result DbError Response)
  unfolding callback_created
  callback_tokens return_to none = give (ok (refused 400 (codes "Invalid login callback")))
  callback_tokens return_to (some tokens) = do
    session ← create_session_from_tokens tokens
    give (ok (callback_created return_to session))

  unfoldable pub callback_consumed :
      Str → CallbackBody → Result DbError (Option LoginState) → G (Result DbError Response)
  unfolding callback_tokens state_is
  callback_consumed state_id body (err e) = give (err e)
  callback_consumed state_id body (ok none) = give (ok (refused 400 (codes "Invalid login state")))
  callback_consumed state_id body (ok (some consumed)) =
      if not (state_is body.state state_id)
      then give (ok (refused 400 (codes "Invalid login state")))
      else callback_tokens consumed.return_to (into_tokens body)

  unfoldable pub callback_body : Str → Option CallbackBody → G (Result DbError Response)
  unfolding callback_consumed
  callback_body state_id none = give (ok (refused 400 (codes "Invalid JSON")))
  callback_body state_id (some body) = do
    consumed ← ask (consume_login_state s.store state_id)
    callback_consumed state_id body consumed

  unfoldable pub callback_state : Request → Option Str → G (Result DbError Response)
  unfolding callback_body
  callback_state request none = give (ok (refused 400 (codes "Invalid login state")))
  callback_state request (some state_id) = callback_body state_id (s.parse_callback request.body)

  unfoldable pub handle_callback_session : Request → G (Result DbError Response)
  unfolding callback_state
  handle_callback_session request = callback_state request (
      read_signed_cookie s.crates (header request (codes "Cookie")) login_state_cookie
        config.cookie_secret)

  unfoldable pub logged_out : Request → Response
  unfolding or_default or_else
  logged_out request =
      with_cookie
        (redirect (
          or_default
            (normalize_return_to
              (or_else (get (codes "return_to") request.query) (some config.logout_redirect)))
            (codes "/")))
        (clear_cookie s.crates session_cookie config)

  -- .ok().flatten()
  unfoldable pub snapshot_of : Result DbError (Option Str) → Option Str
  snapshot_of (ok snapshot) = snapshot
  snapshot_of (err e) = none

  unfoldable pub remote_logout : Option Str → G (Unit {0})
  remote_logout none = give tt
  remote_logout (some access_token) = do _ ← call (λ n. s.auth_mini.logout n access_token); give tt

  unfoldable pub logout_revoked :
      Request → Option Str → Result DbError Bool → G (Result DbError Response)
  unfolding remote_logout logged_out
  logout_revoked request snapshot (err e) = give (err e)
  logout_revoked request snapshot (ok changed) = do
    remote_logout snapshot
    give (ok (logged_out request))

  unfoldable pub logout_session : Request → Option Str → G (Result DbError Response)
  unfolding logout_revoked snapshot_of
  logout_session request none = give (ok (logged_out request))
  logout_session request (some id) = do
    snapshot ← ask (logout_access_snapshot s.store id)
    revoked ← ask (revoke_session s.store id)
    logout_revoked request (snapshot_of snapshot) revoked

  unfoldable pub handle_logout : Request → G (Result DbError Response)
  unfolding logout_session
  handle_logout request = logout_session request (
      read_signed_cookie s.crates (header request (codes "Cookie")) session_cookie
        config.cookie_secret)

-- ===== src/Config/FromEnv.antt =====
-- src/config.rs: `Config::from_env` and `Config::validate`. The environment is a function from names.
use auth_mini_gateway.Prelude.{
  ℕ, ◌+◌, ◌*◌, ◌^◌, Bool, true, false, ◌&&◌, ◌||◌, not, Option, none, some, [], ltb, leb, length,
}
use auth_mini_gateway.Prelude.Result.{Result, ok, refuse_if, ◌>>=◌, ◌>>◌}
use auth_mini_gateway.Prelude.Text.{Str, codes, str_eq}
use auth_mini_gateway.Crates.{Crates}
use auth_mini_gateway.Config.{
  Config, ConfigError, UpstreamBase, UpstreamProtocol, auto, default_max_downstream_connections,
  default_max_active_upstreams, default_max_blocking_resolvers, max_blocking_resolvers,
  proxy_downstream_headroom,
}
use auth_mini_gateway.Config.Parse.{
  config_error, non_empty, value_or, validate_capacity, parse_capacity, parse_bounded_capacity,
  parse_u16, parse_i64, parse_bool, parse_same_site, parse_csv, reject_email_allowlist,
  parse_upstream_protocol, parse_trusted_proxy_cidrs, derive_gateway_audience, normalize_base_url,
  parse_upstream_url,
}

unfoldable pub validate_session_lifetimes : ℕ → ℕ → ℕ → Result ConfigError (Unit {0})
validate_session_lifetimes touch idle absolute = do
  refuse_if (leb touch 0 || (leb idle 0 || leb absolute 0)) (
      config_error "session_lifetime_invalid"
        "session lifecycle values must be positive and ordered")
  refuse_if (ltb idle touch || ltb absolute idle) (
      config_error "session_lifetime_invalid"
        "session lifecycle values must be positive and ordered")

unfoldable pub is_auto : UpstreamProtocol → Bool
is_auto auto = true
is_auto _ = false

unfoldable pub cleartext_auto : Option UpstreamBase → UpstreamProtocol → Bool
unfolding is_auto
cleartext_auto none protocol = false
cleartext_auto (some upstream) protocol = str_eq upstream.scheme (codes "http") && is_auto protocol

unfoldable pub validate_upstream_protocol :
    Option UpstreamBase → UpstreamProtocol → Result ConfigError (Unit {0})
unfolding cleartext_auto
validate_upstream_protocol upstream protocol = refuse_if (cleartext_auto upstream protocol) (
    config_error "upstream_protocol_cleartext_auto"
      "cleartext proxy mode requires UPSTREAM_PROTOCOL=http1 or http2")

unfoldable pub validate_resolvers : ℕ → Result ConfigError (Unit {0})
validate_resolvers resolvers =
    refuse_if (not (leb 1 resolvers && leb resolvers max_blocking_resolvers)) (
      config_error "blocking_resolver_limit_invalid"
        "GATEWAY_MAX_BLOCKING_RESOLVERS must be an integer from 1 through 32")

-- `checked_add` on usize, and the comparison.
unfoldable pub validate_headroom : Option UpstreamBase → ℕ → ℕ → Result ConfigError (Unit {0})
validate_headroom none active downstream = ok tt
validate_headroom (some upstream) active downstream = do
  refuse_if (leb (2 ^ 64) (active + proxy_downstream_headroom)) (
      config_error "proxy_capacity_headroom_invalid"
        "proxy mode requires downstream capacity headroom")
  refuse_if (ltb downstream (active + proxy_downstream_headroom)) (
      config_error "proxy_capacity_headroom_invalid"
        "proxy mode requires at least 16 downstream slots beyond active upstreams")

module _ (c : Crates) where
  unfoldable pub validate : Config → Result ConfigError (Unit {0})
  unfolding validate_session_lifetimes validate_upstream_protocol validate_headroom
      validate_resolvers
  validate config = do
    validate_session_lifetimes config.session_touch_interval_seconds config.session_ttl_seconds
        config.session_absolute_ttl_seconds
    validate_capacity c config.max_downstream_connections "downstream_connection_limit_invalid"
    validate_capacity c config.max_active_upstreams "active_upstream_limit_invalid"
    validate_resolvers config.max_blocking_resolvers
    validate_upstream_protocol config.upstream config.upstream_protocol
    validate_headroom config.upstream config.max_active_upstreams config.max_downstream_connections

  -- The settings that are read before the configuration is validated.
  unfoldable pub read_env : (Str → Option Str) → Result ConfigError Config
  read_env env = do
    auth_mini_issuer ←
        normalize_base_url c
          (value_or (env (codes "AUTH_MINI_ISSUER")) (codes "http://127.0.0.1:7777"))
          "auth_mini_issuer_invalid" "AUTH_MINI_ISSUER must be a valid HTTP(S) URL"
    public_base_url ←
        normalize_base_url c
          (value_or (env (codes "GATEWAY_PUBLIC_BASE_URL")) (codes "http://localhost:8080"))
          "public_base_url_invalid" "GATEWAY_PUBLIC_BASE_URL must be a valid HTTP(S) URL"
    auth_mini_audience ← derive_gateway_audience c public_base_url
    auth_mini_public_base_url ←
        normalize_base_url c (value_or (env (codes "AUTH_MINI_PUBLIC_BASE_URL")) auth_mini_issuer)
          "auth_mini_public_base_url_invalid"
          "AUTH_MINI_PUBLIC_BASE_URL must be a valid HTTP(S) URL"
    let cookie_secret = value_or (env (codes "GATEWAY_COOKIE_SECRET")) []
    refuse_if (ltb (length cookie_secret) 32) (
        config_error "cookie_secret_invalid" "GATEWAY_COOKIE_SECRET must be at least 32 characters")
    max_downstream_connections ←
        parse_capacity c (env (codes "GATEWAY_MAX_DOWNSTREAM_CONNECTIONS"))
          default_max_downstream_connections "downstream_connection_limit_invalid"
          "GATEWAY_MAX_DOWNSTREAM_CONNECTIONS must be a supported positive integer"
    max_active_upstreams ←
        parse_capacity c (env (codes "GATEWAY_MAX_ACTIVE_UPSTREAMS")) default_max_active_upstreams
          "active_upstream_limit_invalid"
          "GATEWAY_MAX_ACTIVE_UPSTREAMS must be a supported positive integer"
    resolvers ←
        parse_bounded_capacity (env (codes "GATEWAY_MAX_BLOCKING_RESOLVERS"))
          default_max_blocking_resolvers 1 max_blocking_resolvers "blocking_resolver_limit_invalid"
          "GATEWAY_MAX_BLOCKING_RESOLVERS must be an integer from 1 through 32"
    trusted_proxy_cidrs ← parse_trusted_proxy_cidrs c (env (codes "TRUSTED_PROXY_CIDRS"))
    upstream ← parse_upstream_url c (env (codes "UPSTREAM_URL"))
    upstream_protocol ← parse_upstream_protocol (env (codes "UPSTREAM_PROTOCOL"))
    reject_email_allowlist (env (codes "ALLOW_EMAILS"))
    port ← parse_u16 (env (codes "PORT")) 3000
    cookie_secure ← parse_bool (env (codes "COOKIE_SECURE")) true
    cookie_same_site ← parse_same_site (value_or (env (codes "COOKIE_SAME_SITE")) (codes "lax"))
    session_ttl_seconds ← parse_i64 (env (codes "SESSION_TTL_SECONDS")) (7 * 24 * 60 * 60)
    session_absolute_ttl_seconds ←
        parse_i64 (env (codes "SESSION_ABSOLUTE_TTL_SECONDS")) (30 * 24 * 60 * 60)
    session_touch_interval_seconds ←
        parse_i64 (env (codes "SESSION_TOUCH_INTERVAL_SECONDS")) (60 * 60)
    login_state_ttl_seconds ← parse_i64 (env (codes "LOGIN_STATE_TTL_SECONDS")) (10 * 60)
    refresh_skew_seconds ← parse_i64 (env (codes "REFRESH_SKEW_SECONDS")) 60
    ok (record {
      host = value_or (env (codes "HOST")) (codes "127.0.0.1");
      port = port;
      public_base_url = public_base_url;
      auth_mini_audience = auth_mini_audience;
      auth_mini_issuer = auth_mini_issuer;
      auth_mini_public_base_url = auth_mini_public_base_url;
      auth_mini_login_url = non_empty (env (codes "AUTH_MINI_LOGIN_URL"));
      database_path = value_or (env (codes "GATEWAY_DB")) (codes "./auth-mini-gateway.sqlite");
      cookie_secret = cookie_secret;
      cookie_secure = cookie_secure;
      cookie_same_site = cookie_same_site;
      session_ttl_seconds = session_ttl_seconds;
      session_absolute_ttl_seconds = session_absolute_ttl_seconds;
      session_touch_interval_seconds = session_touch_interval_seconds;
      login_state_ttl_seconds = login_state_ttl_seconds;
      refresh_skew_seconds = refresh_skew_seconds;
      allow_user_ids = parse_csv (env (codes "ALLOW_USER_IDS"));
      logout_redirect = value_or (env (codes "LOGOUT_REDIRECT")) (codes "/");
      upstream = upstream;
      upstream_protocol = upstream_protocol;
      max_downstream_connections = max_downstream_connections;
      max_active_upstreams = max_active_upstreams;
      max_blocking_resolvers = resolvers;
      trusted_proxy_cidrs = trusted_proxy_cidrs;
    })

  unfoldable pub from_env : (Str → Option Str) → Result ConfigError Config
  from_env env = do config ← read_env env; validate config; ok config

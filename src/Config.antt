-- ===== src/Config.antt =====
-- src/config.rs: the configuration and its parts. `Config::from_env` and `Config::validate` are in
-- the modules below. `HashSet<String>` is a list that is only asked for membership.
pub mod Parse
pub mod FromEnv
pub mod Validity
use auth_mini_gateway.Prelude.{ℕ, Bool, Option, List, String}
use auth_mini_gateway.Prelude.Text.{Str}
use auth_mini_gateway.Crates.{IpAddr, IpNet}

abbrev pub default_max_downstream_connections : ℕ
default_max_downstream_connections = 256

abbrev pub default_max_active_upstreams : ℕ
default_max_active_upstreams = 128

abbrev pub default_max_blocking_resolvers : ℕ
default_max_blocking_resolvers = 8

abbrev pub max_blocking_resolvers : ℕ
max_blocking_resolvers = 32

abbrev pub proxy_downstream_headroom : ℕ
proxy_downstream_headroom = 16

pub data UpstreamProtocol : Type 0 where
  auto http1 http2 : UpstreamProtocol

pub data DialHost : Type 0 where
  ip : IpAddr → DialHost
  domain : Str → DialHost

pub record DialTarget : Type 0 where
  pub host : DialHost
  pub port : ℕ

pub record UpstreamBase : Type 0 where
  pub scheme : Str
  pub authority : Str
  pub path_prefix : Str
  pub dial_target : DialTarget

pub data SameSite : Type 0 where
  lax strict none : SameSite

pub record ConfigError : Type 0 where
  pub class : String
  pub message : String

pub record Config : Type 0 where
  pub host : Str
  pub port : ℕ
  pub public_base_url : Str
  pub auth_mini_audience : Str
  pub auth_mini_issuer : Str
  pub auth_mini_public_base_url : Str
  pub auth_mini_login_url : Option Str
  pub database_path : Str
  pub cookie_secret : Str
  pub cookie_secure : Bool
  pub cookie_same_site : SameSite
  pub session_ttl_seconds : ℕ
  pub session_absolute_ttl_seconds : ℕ
  pub session_touch_interval_seconds : ℕ
  pub login_state_ttl_seconds : ℕ
  pub refresh_skew_seconds : ℕ
  pub allow_user_ids : List Str
  pub logout_redirect : Str
  pub upstream : Option UpstreamBase
  pub upstream_protocol : UpstreamProtocol
  pub max_downstream_connections : ℕ
  pub max_active_upstreams : ℕ
  pub max_blocking_resolvers : ℕ
  pub trusted_proxy_cidrs : List IpNet

-- ===== src/Config/Validity.antt =====
-- src/config.rs: what holds of every configuration with which the gateway starts.
use auth_mini_gateway.Prelude.{ℕ, ◌+◌, ◌≤◌, ◌<◌, ◌≡◌, true, Option, none, some, arith, String}
use auth_mini_gateway.Prelude.Result.{ok, >>=-eq-ok}
use auth_mini_gateway.Prelude.Text.{Str, codes, str_eq}
use auth_mini_gateway.Crates.{Crates}
use auth_mini_gateway.Config.{Config, UpstreamBase, UpstreamProtocol, auto}
use auth_mini_gateway.Config.Parse.{validate_capacity}
use auth_mini_gateway.Config.FromEnv.{
  validate, validate_session_lifetimes, validate_upstream_protocol, validate_headroom,
  validate_resolvers, cleartext_auto, is_auto, read_env, from_env,
}

-- In proxy mode 16 connections stay free beyond the active upstreams, and a cleartext upstream has an
-- explicit protocol.
abbrev pub HasProxyRoom : Option UpstreamBase → UpstreamProtocol → ℕ → ℕ → Type 0
HasProxyRoom none protocol active downstream = Unit
HasProxyRoom (some upstream) protocol active downstream =
    (active + 16 ≤ downstream)
    × (str_eq upstream.scheme (codes "http") ≡ true → protocol ≡ auto → ⊥)

pub record IsValidConfig (c : Crates) (config : Config) : Type 0 where
  pub touch :
      (0 < config.session_touch_interval_seconds)
      × (config.session_touch_interval_seconds ≤ config.session_ttl_seconds)
  pub lifetime : config.session_ttl_seconds ≤ config.session_absolute_ttl_seconds
  pub downstream :
      (0 < config.max_downstream_connections) × (config.max_downstream_connections ≤ c.max_permits)
  pub upstreams : (0 < config.max_active_upstreams) × (config.max_active_upstreams ≤ c.max_permits)
  pub resolvers : (1 ≤ config.max_blocking_resolvers) × (config.max_blocking_resolvers ≤ 32)
  pub proxy :
      HasProxyRoom config.upstream config.upstream_protocol config.max_active_upstreams
        config.max_downstream_connections

lifetimes :
    (touch idle absolute : ℕ) {u : Unit}
    → validate_session_lifetimes touch idle absolute ≡ ok u
    → (0 < touch) × (touch ≤ idle) × (idle ≤ absolute)
unfolding validate_session_lifetimes
lifetimes touch idle absolute h = ground arith

capacity :
    (c : Crates) (n : ℕ) (class : String) {u : Unit}
    → validate_capacity c n class ≡ ok u
    → (0 < n) × (n ≤ c.max_permits)
unfolding validate_capacity
capacity c n class h = ground arith

resolver_range : (n : ℕ) {u : Unit} → validate_resolvers n ≡ ok u → (1 ≤ n) × (n ≤ 32)
unfolding validate_resolvers
resolver_range n h = ground arith

proxy_room :
    (u : Option UpstreamBase) (protocol : UpstreamProtocol) (active downstream : ℕ) {x y : Unit}
    → validate_upstream_protocol u protocol ≡ ok x
    → validate_headroom u active downstream ≡ ok y
    → HasProxyRoom u protocol active downstream
unfolding validate_upstream_protocol validate_headroom cleartext_auto is_auto
proxy_room none protocol active downstream p h = tt
proxy_room (some u) protocol active downstream p h = (ground arith, λ s q. ground arith)

module _ (c : Crates) where
  validate-IsValidConfig :
      (config : Config) {u : Unit} → validate c config ≡ ok u → IsValidConfig c config
  unfolding validate
  validate-IsValidConfig config h =
      let (_, a, h1) = >>=-eq-ok _ _ h in
      let (_, b, h2) = >>=-eq-ok _ _ h1 in
      let (_, d, h3) = >>=-eq-ok _ _ h2 in
      let (_, r, h4) = >>=-eq-ok _ _ h3 in
      let (_, p, room) = >>=-eq-ok _ _ h4 in
      let (t, i, l) = lifetimes _ _ _ a in
      record {
        touch = (t, i);
        lifetime = l;
        downstream = capacity c _ _ b;
        upstreams = capacity c _ _ d;
        resolvers = resolver_range _ r;
        proxy = proxy_room _ _ _ _ p room;
      }

  -- A configuration that `from_env` returns is valid: the touch interval, the idle and the absolute
  -- lifetime are positive and ordered, every capacity lies in its range, and in proxy mode there is the
  -- room that the proxy needs and no automatic protocol in clear text.
  pub from_env-IsValidConfig :
      (env : Str → Option Str) (config : Config)
      → from_env c env ≡ ok config
      → IsValidConfig c config
  unfolding from_env
  from_env-IsValidConfig env config h =
      let (read, _, rest) = >>=-eq-ok (read_env c env) _ h in
      let (_, v, last) = >>=-eq-ok (validate c read) _ rest in
      let same : read ≡ config = ground arith in rw same at (validate-IsValidConfig read v)

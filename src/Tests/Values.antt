-- ===== src/Tests/Values.antt =====
-- Runs of the configuration, the return targets, the cookies and the policy.
use auth_mini_gateway.Prelude.{◌≤◌, arith}
use auth_mini_gateway.RuntimePlan.{preflight, finite}
use auth_mini_gateway.RuntimePlan.Preflight.{starts, descriptors, plan_of, preflight-starts}
use auth_mini_gateway.Prelude.{
  ◌≡◌, refl, true, false, some, none, [], ◌∷◌, ◌++◌, ◌↔◌, Option, arith, if◌then◌else◌,
}
use auth_mini_gateway.Prelude.Result.{ok}
use auth_mini_gateway.Prelude.Text.{Str, codes, str_eq}
use auth_mini_gateway.Prelude.Text.Split.{starts_with, contains, split, Free, split_once}
use auth_mini_gateway.Prelude.Text.Utf8.{valid_utf8}
use auth_mini_gateway.Prelude.Text.Trim.{trim}
use auth_mini_gateway.Util.{seconds}
use auth_mini_gateway.Util.TimingEq.{timing_eq, timing_eq_iff, IsBytes}
use auth_mini_gateway.Config.{Config}
use auth_mini_gateway.Config.FromEnv
use auth_mini_gateway.Config.Parse
use auth_mini_gateway.Prelude.Text
use auth_mini_gateway.Prelude.Text.Hex.{hex_pair}
use auth_mini_gateway.Config.FromEnv.{from_env}
use auth_mini_gateway.Config.Validity.{IsValidConfig, from_env-IsValidConfig}
use auth_mini_gateway.ReturnTarget.{normalize_return_target, proxy_fallback, has_unsafe_bytes}
use auth_mini_gateway.ReturnTarget.Safety.{IsHarmless, proxy_fallback_sound}
use auth_mini_gateway.Http.{text, with_cookie}
use auth_mini_gateway.Cookies.{
  sign_value, unsign_value, read_signed_cookie, serialize_signed_cookie, clear_cookie,
  session_cookie,
}
use auth_mini_gateway.Cookies.Signing.{MacIsBase64, unsign_value_iff}
use auth_mini_gateway.Cookies.Reading.{pair_text, read_signed_cookie-sign}
use auth_mini_gateway.Cookies.Writing.{cookies_reach_response}
use auth_mini_gateway.Tests.Fixtures.{crates, config, public_base}

timing_eq_iff_example : (timing_eq (codes "ab") (codes "ac") ≡ true) ↔ (codes "ab" ≡ codes "ac")
timing_eq_iff_example = timing_eq_iff (codes "ab") (codes "ac") (omega arith) (omega arith)

abbrev cookie_secret : Str
cookie_secret = codes "0123456789abcdef0123456789abcdef"

abbrev environment : Str → Option Str
environment name =
    if str_eq name (codes "AUTH_MINI_ISSUER")
    then some public_base
    else if str_eq name (codes "GATEWAY_PUBLIC_BASE_URL")
    then some public_base
    else if str_eq name (codes "GATEWAY_COOKIE_SECRET")
    then some cookie_secret
    else if str_eq name (codes "ALLOW_USER_IDS")
    then some (codes " u1 ,")
    else none

-- The configuration of that environment.
abbrev configured : Config
configured = record config {
  auth_mini_issuer = public_base;
  auth_mini_public_base_url = public_base;
  database_path = codes "./auth-mini-gateway.sqlite";
  cookie_secret = cookie_secret;
  session_ttl_seconds = 604800;
  session_absolute_ttl_seconds = 2592000;
  session_touch_interval_seconds = 3600;
}

read : from_env crates environment ≡ ok configured
unfolding from_env FromEnv.read_env Parse.normalize_base_url str_eq Parse.value_or
    Parse.derive_gateway_audience Parse.trim_end_matches Parse.parse_capacity
    Parse.parse_bounded_capacity Parse.parse_trusted_proxy_cidrs Parse.parse_upstream_url
    Parse.parse_upstream_protocol Parse.reject_email_allowlist Parse.parse_u16 Parse.parse_bool
    Parse.parse_same_site Text.lowercase Parse.parse_i64 FromEnv.cleartext_auto FromEnv.validate
    FromEnv.validate_headroom FromEnv.validate_resolvers FromEnv.validate_session_lifetimes
    FromEnv.validate_upstream_protocol Parse.is_allowed_loopback Parse.kept_entries Parse.non_empty
    Parse.normalize_host Parse.parse_csv Parse.refuses_base Parse.is_http Parse.validate_capacity
    split trim
read = refl

from_env-IsValidConfig_example : IsValidConfig crates configured
from_env-IsValidConfig_example = from_env-IsValidConfig crates environment configured read

preflight-starts_example :
    (preflight crates environment (ok (finite 1024))
      ≡ starts configured
          (descriptors configured.upstream configured.max_downstream_connections
            configured.max_active_upstreams)
          (ok (finite 1024)))
    × ((plan_of configured.max_blocking_resolvers).max_blocking_threads ≤ 112)
preflight-starts_example =
    preflight-starts crates environment configured (ok (finite 1024)) (omega arith) read

proxied :
    normalize_return_target crates (some (codes "/app?x=%41")) public_base proxy_fallback
    ≡ some (codes "/app?x=%41")
unfolding normalize_return_target has_unsafe_bytes hex_pair starts_with contains
proxied = refl

proxy_fallback_sound_example :
    let target = codes "/app?x=%41" in
    (some target ≡ some target)
    × (starts_with (codes "/") target ≡ true)
    × (starts_with (codes "//") target ≡ false)
    × (contains b'#' target ≡ false)
    × IsHarmless target
proxy_fallback_sound_example =
    proxy_fallback_sound crates (some (codes "/app?x=%41")) public_base (codes "/app?x=%41") proxied

laws : MacIsBase64 crates
laws value secret = refl

unsign_value_iff_example :
    (unsign_value crates (codes "s1.c2ln") (codes "secret") ≡ some (codes "s1"))
    ↔ (codes "s1.c2ln" ≡ sign_value crates (codes "s1") (codes "secret"))
unsign_value_iff_example =
    unsign_value_iff crates laws (codes "s1.c2ln") (codes "s1") (codes "secret") (omega arith)

signed_bytes : IsBytes (sign_value crates (codes "s1") (codes "secret"))
unfolding sign_value
signed_bytes = omega arith

signed_utf8 : valid_utf8 (sign_value crates (codes "s1") (codes "secret")) ≡ true
unfolding sign_value valid_utf8
signed_utf8 = refl

no_semicolon : Free b';' (codes "broken")
unfolding contains
no_semicolon = refl

no_pair : split_once b'=' (trim (codes "broken")) ≡ none
unfolding split_once trim
no_pair = refl

read_signed_cookie-sign_example :
    let cookie = sign_value crates (codes "s1") (codes "secret") in
    (read_signed_cookie crates
        (some (pair_text session_cookie cookie))
        session_cookie
        (codes "secret")
      ≡ some (codes "s1"))
    × (read_signed_cookie crates
          (some (pair_text session_cookie cookie ++ (b';' ∷ codes "a=b")))
          session_cookie
          (codes "secret")
        ≡ some (codes "s1"))
    × (read_signed_cookie crates
          (some (codes "broken" ++ (b';' ∷ pair_text session_cookie cookie)))
          session_cookie
          (codes "secret")
        ≡ some (codes "s1"))
read_signed_cookie-sign_example =
    read_signed_cookie-sign crates laws session_cookie (codes "s1") (codes "secret")
      (codes "broken") (codes "a=b") refl signed_bytes signed_utf8 no_semicolon no_pair

cookies_reach_response_example :
    let signed = serialize_signed_cookie crates session_cookie (codes "s1") (seconds 3000) config in
    ((with_cookie (text 200 []) signed).headers
      ≡ (text 200 []).headers ++ ((codes "Set-Cookie", signed) ∷ []))
    × ((with_cookie (text 200 []) (clear_cookie crates session_cookie config)).headers
        ≡ (text 200 []).headers
          ++ ((codes "Set-Cookie", clear_cookie crates session_cookie config) ∷ []))
cookies_reach_response_example =
    cookies_reach_response crates (text 200 []) session_cookie (codes "s1") (seconds 3000) config
      (λ t. refl) refl signed_bytes

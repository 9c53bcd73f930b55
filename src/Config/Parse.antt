-- ===== src/Config/Parse.antt =====
-- src/config.rs: the parsers of the single settings. A setting that is absent or not text is `none`.
use auth_mini_gateway.Prelude.{
  ℕ, zero, suc, ◌^◌, ◌-◌, Bool, true, false, ◌&&◌, ◌||◌, not, Option, none, some, List, [], ◌∷◌,
  ltb, leb, ◌==◌, if◌then◌else◌, is_empty, any, String,
}
use auth_mini_gateway.Prelude.Result.{Result, ok, err, ok_or, refuse_if, ◌>>=◌, ◌>>◌}
use auth_mini_gateway.Prelude.Number.{ℤ, pos, negsuc, parse_unsigned}
use auth_mini_gateway.Prelude.Number
use auth_mini_gateway.Prelude.Text.{Str, codes, str_eq, lowercase}
use auth_mini_gateway.Prelude.Text.Split.{split, contains}
use auth_mini_gateway.Prelude.Text.Trim.{trim}
use auth_mini_gateway.Crates.{Crates, v4, v6, Host, domain, ipv4, ipv6, IpNet}
use auth_mini_gateway.Config.{
  ConfigError, UpstreamProtocol, auto, http1, http2, UpstreamBase, DialHost, SameSite, lax, strict,
}

-- ConfigError::new
abbrev pub config_error : String → String → ConfigError
config_error class message = record { class = class; message = message }

-- filter(|value| !value.is_empty())
unfoldable pub non_empty : Option Str → Option Str
non_empty none = none
non_empty (some value) = if is_empty value then none else some value

-- unwrap_or
unfoldable pub value_or : Option Str → Str → Str
value_or none default = default
value_or (some value) default = value

-- trim_end_matches of one character
unfoldable pub trim_end_matches : ℕ → Str → Str
trim_end_matches c [] = []
trim_end_matches c (d ∷ s) =
    let rest = trim_end_matches c s in if is_empty rest && (d == c) then [] else d ∷ rest

abbrev usize_max : ℕ
usize_max = 2 ^ 64 - 1

parse_setting : ℕ → Option Str → ℕ → ConfigError → Result ConfigError ℕ
parse_setting limit none default e = ok default
parse_setting limit (some value) default e = ok_or (parse_unsigned limit value) e

unfoldable pub validate_capacity : Crates → ℕ → String → Result ConfigError (Unit {0})
validate_capacity c value class =
    refuse_if ((value == 0) || ltb c.max_permits value)
      (config_error class "configured capacity is out of range")

abbrev with_error : ConfigError → Result ConfigError (Unit {0}) → Result ConfigError (Unit {0})
with_error e (ok u) = ok u
with_error e (err _) = err e

unfoldable pub parse_capacity : Crates → Option Str → ℕ → String → String → Result ConfigError ℕ
unfolding non_empty parse_setting validate_capacity
parse_capacity c value default class message = do
  parsed ← parse_setting usize_max (non_empty value) default (config_error class message)
  with_error (config_error class message) (validate_capacity c parsed class)
  ok parsed

unfoldable pub parse_bounded_capacity :
    Option Str → ℕ → ℕ → ℕ → String → String → Result ConfigError ℕ
unfolding non_empty parse_setting
parse_bounded_capacity value default minimum maximum class message = do
  parsed ← parse_setting usize_max (non_empty value) default (config_error class message)
  refuse_if (not (leb minimum parsed && leb parsed maximum)) (config_error class message)
  ok parsed

unfoldable pub parse_u16 : Option Str → ℕ → Result ConfigError ℕ
unfolding non_empty parse_setting
parse_u16 value default =
    parse_setting (2 ^ 16 - 1) (non_empty value) default
      (config_error "port_invalid" "PORT must be a valid port")

positive : ℤ → Result ConfigError ℕ
positive (pos zero) =
    err (config_error "session_lifetime_invalid" "session lifecycle value must be positive")
positive (pos (suc n)) = ok (suc n)
positive (negsuc n) =
    err (config_error "session_lifetime_invalid" "session lifecycle value must be positive")

parse_signed : Option Str → ℕ → Result ConfigError ℤ
parse_signed none default = ok (pos default)
parse_signed (some value) default =
    ok_or (Number.parse_i64 value)
      (config_error "session_lifetime_invalid" "session lifecycle value is invalid")

unfoldable pub parse_i64 : Option Str → ℕ → Result ConfigError ℕ
unfolding non_empty parse_signed positive
parse_i64 value default = do parsed ← parse_signed (non_empty value) default; positive parsed

one_of : Str → List Str → Bool
one_of s texts = any (str_eq s) texts

bool_of : Str → Result ConfigError Bool
unfolding one_of
bool_of s =
    if one_of s (codes "1" ∷ codes "true" ∷ codes "yes" ∷ codes "on" ∷ [])
    then ok true
    else if one_of s (codes "0" ∷ codes "false" ∷ codes "no" ∷ codes "off" ∷ [])
    then ok false
    else err (config_error "boolean_invalid" "boolean configuration value is invalid")

bool_setting : Option Str → Bool → Result ConfigError Bool
unfolding bool_of
bool_setting none default = ok default
bool_setting (some value) default = bool_of (lowercase value)

unfoldable pub parse_bool : Option Str → Bool → Result ConfigError Bool
unfolding non_empty bool_setting
parse_bool value default = bool_setting (non_empty value) default

same_site_of : Str → Result ConfigError SameSite
same_site_of s =
    if str_eq s (codes "lax")
    then ok lax
    else if str_eq s (codes "strict")
    then ok strict
    else if str_eq s (codes "none")
    then ok SameSite.none
    else err
        (config_error "cookie_same_site_invalid" "COOKIE_SAME_SITE must be lax, strict, or none")

unfoldable pub parse_same_site : Str → Result ConfigError SameSite
unfolding same_site_of
parse_same_site value = same_site_of (lowercase value)

unfoldable pub kept_entries : List Str → List Str
kept_entries [] = []
kept_entries (entry ∷ entries) =
    let rest = kept_entries entries in
    let trimmed = trim entry in if is_empty trimmed then rest else trimmed ∷ rest

unfoldable pub parse_csv : Option Str → List Str
unfolding value_or kept_entries
parse_csv value = kept_entries (split b',' (value_or value []))

some_entry : Option Str → Bool
some_entry none = false
some_entry (some value) = any (λ entry. not (is_empty (trim entry))) (split b',' value)

unfoldable pub reject_email_allowlist : Option Str → Result ConfigError (Unit {0})
unfolding some_entry
reject_email_allowlist value = refuse_if (some_entry value) (
    config_error "allow_emails_unsupported"
      "ALLOW_EMAILS is unsupported; configure exact ALLOW_USER_IDS values")

protocol_of : Option Str → Result ConfigError UpstreamProtocol
protocol_of none = ok auto
protocol_of (some value) =
    if str_eq value (codes "auto")
    then ok auto
    else if str_eq value (codes "http1")
    then ok http1
    else if str_eq value (codes "http2")
    then ok http2
    else err (
        config_error "upstream_protocol_invalid"
          "UPSTREAM_PROTOCOL must be exactly auto, http1, or http2")

-- `None | Some("")` is the default.
unfoldable pub parse_upstream_protocol : Option Str → Result ConfigError UpstreamProtocol
unfolding non_empty protocol_of
parse_upstream_protocol value = protocol_of (non_empty value)

abbrev trusted_proxy_error : ConfigError
trusted_proxy_error =
    config_error "trusted_proxy_cidrs_invalid"
      "TRUSTED_PROXY_CIDRS must be a comma-separated explicit-prefix CIDR list"

abbrev upstream_error : ConfigError
upstream_error =
    config_error "upstream_url_invalid"
      "UPSTREAM_URL must be a fixed absolute HTTP(S) URL without credentials, query, or fragment"

abbrev public_base_error : ConfigError
public_base_error =
    config_error "public_base_url_invalid"
      "GATEWAY_PUBLIC_BASE_URL must use HTTPS or an exact loopback HTTP(S) host"

module _ (c : Crates) where
  networks_of : List Str → Result ConfigError (List IpNet)
  networks_of [] = ok []
  networks_of (entry ∷ entries) = do
    let trimmed = trim entry
    refuse_if (is_empty trimmed || not (contains b'/' trimmed)) trusted_proxy_error
    network ← ok_or (c.parse_network trimmed) trusted_proxy_error
    rest ← networks_of entries
    ok (network ∷ rest)

  cidrs_of : Option Str → Result ConfigError (List IpNet)
  unfolding networks_of
  cidrs_of none = ok []
  cidrs_of (some value) = networks_of (split b',' value)

  unfoldable pub parse_trusted_proxy_cidrs : Option Str → Result ConfigError (List IpNet)
  unfolding cidrs_of non_empty
  parse_trusted_proxy_cidrs value = cidrs_of (non_empty value)

  unfoldable pub is_allowed_loopback : Host → Bool
  is_allowed_loopback (domain name) = str_eq (trim_end_matches b'.' name) (codes "localhost")
  is_allowed_loopback (ipv4 address) = address == 0x7f000001
  is_allowed_loopback (ipv6 address) = address == 1

  unfoldable pub normalize_host : Host → Str
  normalize_host (domain name) = trim_end_matches b'.' name
  normalize_host (ipv4 address) = c.ip_text (v4 address)
  normalize_host (ipv6 address) = c.ip_text (v6 address)

  unfoldable pub derive_gateway_audience : Str → Result ConfigError Str
  unfolding is_allowed_loopback normalize_host
  derive_gateway_audience public_base_url = do
    parsed ← ok_or (c.parse public_base_url) public_base_error
    host ← ok_or (c.host parsed) public_base_error
    refuse_if (not (str_eq (c.scheme parsed) (codes "https")) && not (is_allowed_loopback host))
        public_base_error
    ok (normalize_host host)

  abbrev is_some {ℓ} : {A : Type ℓ} → Option A → Bool
  is_some none = false
  is_some (some a) = true

  unfoldable pub is_http : Str → Bool
  is_http scheme = str_eq scheme (codes "http") || str_eq scheme (codes "https")

  -- The base URL is normalized only after these checks.
  unfoldable pub refuses_base : c.Url → Bool
  unfolding is_http
  refuses_base parsed =
      not (is_http (c.scheme parsed))
      || (c.cannot_be_a_base parsed
          || (not (is_some (c.host parsed))
              || (not (is_empty (c.username parsed)) || is_some (c.password parsed))))

  unfoldable pub normalize_base_url : Str → String → String → Result ConfigError Str
  unfolding refuses_base
  normalize_base_url value class message = do
    parsed ← ok_or (c.parse value) (config_error class message)
    refuse_if (refuses_base parsed) (config_error class message)
    ok (trim_end_matches b'/' (c.base_text parsed (trim_end_matches b'/' (c.path parsed))))

  dial_host : Host → DialHost
  dial_host (ipv4 address) = DialHost.ip (v4 address)
  dial_host (ipv6 address) = DialHost.ip (v6 address)
  dial_host (domain name) = DialHost.domain name

  upstream_of : c.Url → Result ConfigError (Option UpstreamBase)
  unfolding dial_host refuses_base
  upstream_of parsed = do
    refuse_if (refuses_base parsed || (is_some (c.query parsed) || is_some (c.fragment parsed)))
        upstream_error
    host ← ok_or (c.host parsed) upstream_error
    port ← ok_or (c.port_or_known_default parsed) upstream_error
    ok (
        some (record {
          scheme = c.scheme parsed;
          authority = c.authority parsed;
          path_prefix = trim_end_matches b'/' (c.path parsed);
          dial_target = record { host = dial_host host; port = port };
        }))

  upstream_setting : Option Str → Result ConfigError (Option UpstreamBase)
  unfolding upstream_of
  upstream_setting none = ok none
  upstream_setting (some value) = do
    parsed ← ok_or (c.parse value) upstream_error
    upstream_of parsed

  unfoldable pub parse_upstream_url : Option Str → Result ConfigError (Option UpstreamBase)
  unfolding upstream_setting non_empty
  parse_upstream_url value = upstream_setting (non_empty value)

-- ===== src/Crates.antt =====
-- What the gateway takes from crates outside the repository, as parameters of the model: url, ipnet,
-- tokio's semaphore bound, the HMAC of hmac/sha2/base64, and chrono's HTTP date.
pub mod HeaderMap
use auth_mini_gateway.Prelude.{ℕ, Bool, Option}
use auth_mini_gateway.Prelude.Text.{Str}

-- std::net::IpAddr, by the number that the address spells.
pub data IpAddr : Type 0 where
  v4 : ℕ → IpAddr
  v6 : ℕ → IpAddr

-- url::Host
pub data Host : Type 0 where
  domain : Str → Host
  ipv4 : ℕ → Host
  ipv6 : ℕ → Host

-- ipnet::IpNet
pub record IpNet : Type 0 where
  pub address : IpAddr
  pub prefix : ℕ

pub record Crates : Type 1 where
  -- url::Url and its methods
  pub Url : Type 0
  pub parse : Str → Option Url
  pub join : Url → Str → Option Url
  -- Url::origin compared by ==
  pub same_origin : Url → Url → Bool
  pub scheme : Url → Str
  pub cannot_be_a_base : Url → Bool
  pub host : Url → Option Host
  pub username : Url → Str
  pub password : Url → Option Str
  pub path : Url → Str
  pub query : Url → Option Str
  pub fragment : Url → Option Str
  pub port_or_known_default : Url → Option ℕ
  -- the slice from Position::BeforeHost to Position::AfterPort
  pub authority : Url → Str
  -- set_query(None), set_fragment(None), set_path, then to_string
  pub base_text : Url → Str → Str
  -- Url::to_string
  pub url_text : Url → Str
  -- Utc.timestamp_opt
  pub timestamp : ℕ → Option ℕ
  -- the text of an address
  pub ip_text : IpAddr → Str
  -- form_urlencoded: the serialized list of pairs
  pub urlencode : Str → Str
  -- IpNet::from_str and IpNet::contains
  pub parse_network : Str → Option IpNet
  pub network_contains : IpNet → IpAddr → Bool
  -- tokio::sync::Semaphore::MAX_PERMITS
  pub max_permits : ℕ
  -- HMAC-SHA256 of a value under a secret, in URL-safe base64 without padding
  pub mac : Str → Str → Str
  -- DateTime::format with "%a, %d %b %Y %H:%M:%S GMT", of a time in nanoseconds
  pub http_date : ℕ → Str

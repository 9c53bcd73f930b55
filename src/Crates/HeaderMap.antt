-- ===== src/Crates/HeaderMap.antt =====
-- What the proxy takes from the crates http, base64, sha1 and rand, as parameters of the model: header
-- maps, the checks of header names and values, and the WebSocket handshake's encodings.
use auth_mini_gateway.Prelude.{◌≡◌, ◌≢◌, true, Option, List, [], ◌∷◌, ◌++◌, any, if◌then◌else◌}
use auth_mini_gateway.Prelude.Text.{Str, str_eq}
use auth_mini_gateway.Crates.{IpAddr}

pub record HttpCrate : Type 1 where
  -- http::HeaderMap, with names in lower case
  pub HeaderMap : Type 0
  pub get_all : HeaderMap → Str → List Str
  pub keys : HeaderMap → List Str
  pub remove : Str → HeaderMap → HeaderMap
  pub insert : Str → Str → HeaderMap → HeaderMap
  pub append : Str → Str → HeaderMap → HeaderMap
  -- HeaderName::from_bytes
  pub name_from_bytes : Str → Option Str
  -- HeaderValue::from_str and HeaderValue::from_bytes
  pub value_from_str : Str → Option Str
  -- HeaderValue::to_str
  pub to_str : Str → Option Str
  -- the text of an address, and str::parse::<IpAddr>
  pub ip_text : IpAddr → Str
  pub parse_ip : Str → Option IpAddr

-- The documented behaviour of a header map: `remove` takes all values of a name, `insert` replaces them,
-- `append` adds one behind them, and `keys` lists every name that has a value.
pub record IsHeaderMap (c : HttpCrate) : Type 0 where
  pub get_all-remove :
      (n m : Str) (h : c.HeaderMap)
      → c.get_all (c.remove n h) m ≡ (if str_eq n m then [] else c.get_all h m)
  pub get_all-insert :
      (n v m : Str) (h : c.HeaderMap)
      → c.get_all (c.insert n v h) m ≡ (if str_eq n m then v ∷ [] else c.get_all h m)
  pub get_all-append :
      (n v m : Str) (h : c.HeaderMap)
      → c.get_all (c.append n v h) m
        ≡ (if str_eq n m then c.get_all h m ++ v ∷ [] else c.get_all h m)
  pub keys_complete :
      (m : Str) (h : c.HeaderMap) → c.get_all h m ≢ [] → any (λ n. str_eq n m) (c.keys h) ≡ true
  -- HeaderValue::from_str keeps the bytes
  pub value_kept : (s v : Str) → c.value_from_str s ≡ Option.some v → v ≡ s

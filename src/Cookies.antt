-- ===== src/Cookies.antt =====
-- src/cookies.rs: signed cookies. The HMAC and the date format are parameters (Crates).
pub mod Percent
pub mod Signing
pub mod Reading
pub mod Writing
use auth_mini_gateway.Prelude.{
  ℕ, ◌/◌, ◌%◌, Bool, true, false, ◌||◌, ◌&&◌, Option, none, some, List, [], ◌∷◌, ◌++◌, ◌==◌,
  if◌then◌else◌,
}
use auth_mini_gateway.Prelude.Text.{Str, codes, str_eq, is_alphanumeric}
use auth_mini_gateway.Prelude.Text.Hex.{hex_pair, hex_upper}
use auth_mini_gateway.Prelude.Text.Split.{split, split_once, rsplit_once}
use auth_mini_gateway.Prelude.Text.Trim.{trim}
use auth_mini_gateway.Prelude.Text.Utf8.{from_utf8}
use auth_mini_gateway.Util.{DateTime}
use auth_mini_gateway.Util.TimingEq.{timing_eq}
use auth_mini_gateway.Crates.{Crates}
use auth_mini_gateway.Config.{Config, SameSite, lax, strict}

abbrev pub session_cookie : Str
session_cookie = codes "amg_session"

abbrev pub login_state_cookie : Str
login_state_cookie = codes "amg_login_state"

abbrev pub is_unreserved : ℕ → Bool
is_unreserved byte =
    is_alphanumeric byte
    || ((byte == b'-') || ((byte == b'_') || ((byte == b'.') || (byte == b'~'))))

unfoldable pub percent_encode : Str → Str
percent_encode [] = []
percent_encode (byte ∷ s) =
    let rest = percent_encode s in
    if is_unreserved byte
    then byte ∷ rest
    else b'%' ∷ hex_upper (byte / 16) ∷ hex_upper (byte % 16) ∷ rest

decode_cons : Option ℕ → Option Str → Option Str
decode_cons (some c) (some s) = some (c ∷ s)
decode_cons _ _ = none

-- The loop of `percent_decode`, over the bytes that are left: a `%` needs two bytes behind it.
unfoldable pub percent_bytes : Str → Option Str
unfolding decode_cons
percent_bytes [] = some []
percent_bytes (c ∷ []) = if c == b'%' then none else some (c ∷ [])
percent_bytes (c ∷ a ∷ []) =
    let rest = percent_bytes (a ∷ []) in if c == b'%' then none else decode_cons (some c) rest
percent_bytes (c ∷ a ∷ b ∷ s) =
    let rest = percent_bytes (a ∷ b ∷ s) in
    let after = percent_bytes s in
    if c == b'%' then decode_cons (hex_pair a b) after else decode_cons (some c) rest

utf8_text : Option Str → Option Str
utf8_text none = none
utf8_text (some out) = from_utf8 out

unfoldable pub percent_decode : Str → Option Str
unfolding percent_bytes utf8_text
percent_decode value = utf8_text (percent_bytes value)

cookie_value : Str → Option (Str × Str) → Option Str → Option Str
cookie_value name none rest = rest
cookie_value name (some (cookie_name, value)) rest =
    if str_eq cookie_name name then percent_decode value else rest

-- for part in header.split(';'), which returns at the first cookie of that name
find_cookie : Str → List Str → Option Str
unfolding cookie_value
find_cookie name [] = none
find_cookie name (part ∷ parts) =
    let rest = find_cookie name parts in cookie_value name (split_once b'=' (trim part)) rest

unfoldable pub parse_cookie : Str → Str → Option Str
unfolding find_cookie cookie_value
parse_cookie header name = find_cookie name (split b';' header)

module _ (c : Crates) where
  unfoldable pub sign_value : Str → Str → Str
  sign_value value secret = value ++ (b'.' ∷ c.mac value secret)

  checked : Str → Option (Str × Str) → Option Str
  checked secret none = none
  checked secret (some (raw, signature)) =
      if timing_eq signature (c.mac raw secret) then some raw else none

  unfoldable pub unsign_value : Str → Str → Option Str
  unfolding checked
  unsign_value value secret = checked secret (rsplit_once b'.' value)

  unsigned : Str → Option Str → Option Str
  unsigned secret none = none
  unsigned secret (some value) = unsign_value value secret

  unfoldable pub read_signed_cookie : Option Str → Str → Str → Option Str
  unfolding unsigned
  read_signed_cookie none name secret = none
  read_signed_cookie (some header) name secret = unsigned secret (parse_cookie header name)

  same_site_value : SameSite → Str
  same_site_value lax = codes "Lax"
  same_site_value strict = codes "Strict"
  same_site_value SameSite.none = codes "None"

  -- The parts before the expiry, joined by "; ".
  unfoldable pub cookie_prefix : Str → Str → Config → Str
  unfolding same_site_value
  cookie_prefix name value config =
      name
      ++ (b'='
          ∷ (percent_encode value
              ++ (codes "; Path=/; HttpOnly; SameSite="
                  ++ (same_site_value config.cookie_same_site
                      ++ (if config.cookie_secure then codes "; Secure" else [])))))

  unfoldable pub serialize_positive_cookie : Str → Str → DateTime → Config → Str
  unfolding cookie_prefix
  serialize_positive_cookie name value expires_at config =
      cookie_prefix name value config ++ (codes "; Expires=" ++ c.http_date expires_at)

  unfoldable pub serialize_signed_cookie : Str → Str → DateTime → Config → Str
  unfolding serialize_positive_cookie
  serialize_signed_cookie name value expires_at config =
      serialize_positive_cookie name (sign_value value config.cookie_secret) expires_at config

  unfoldable pub clear_cookie : Str → Config → Str
  unfolding cookie_prefix
  clear_cookie name config =
      cookie_prefix name [] config ++ codes "; Max-Age=0; Expires=Thu, 01 Jan 1970 00:00:00 GMT"

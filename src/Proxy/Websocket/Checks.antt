-- ===== src/Proxy/Websocket/Checks.antt =====
-- src/proxy.rs: the checks of a WebSocket request over HTTP/2, and of its Origin.
use auth_mini_gateway.Prelude.{
  ℕ, ◌+◌, ◌-◌, ◌*◌, ◌^◌, Bool, true, false, ◌||◌, not, Option, none, some, List, [], ◌∷◌, any, all,
  is_empty, ltb, ◌==◌, if◌then◌else◌,
}
use auth_mini_gateway.Prelude.Result.{Result, ok, err, refuse_if, ok_or, ◌>>=◌, ◌>>◌}
use auth_mini_gateway.Prelude.Text.{Str, codes, str_eq, eq_ignore_case, is_digit}
use auth_mini_gateway.Prelude.Text.Split.{starts_with, contains, split}
use auth_mini_gateway.Prelude.Text.Trim.{trim}
use auth_mini_gateway.Crates.HeaderMap.{HttpCrate}
use auth_mini_gateway.Proxy.{ProxyError, bad_request, bad_gateway}
use auth_mini_gateway.Proxy.Headers.{contains_key}
use auth_mini_gateway.Proxy.Tokens.{parse_protocols, parse_extensions, exactly_one}
use auth_mini_gateway.Proxy.Websocket.{Uri, HandshakeCrate, HttpRequest}

digits_value : ℕ → Str → Option ℕ
digits_value number [] = some number
digits_value number (b ∷ s) =
    let next = number * 10 + (b - b'0') in
    let rest = digits_value next s in if ltb next (2 ^ 64) then rest else none

same_or : Option ℕ → ℕ → Result ProxyError (Option ℕ)
same_or none value = ok (some value)
same_or (some existing) value = if existing == value then ok (some existing) else err bad_request

length_values : Option ℕ → List Str → Result ProxyError (Option ℕ)
unfolding digits_value same_or
length_values parsed [] = ok parsed
length_values parsed (value ∷ values) = do
  let value = trim value
  refuse_if (is_empty value || not (all is_digit value)) bad_request
  number ← ok_or (digits_value 0 value) bad_request
  parsed ← same_or parsed number
  length_values parsed values

is_positive : Option ℕ → Bool
is_positive none = false
is_positive (some value) = not (value == 0)

is_http_scheme : Option Str → Bool
is_http_scheme none = false
is_http_scheme (some scheme) = str_eq scheme (codes "http") || str_eq scheme (codes "https")

is_rooted : Option Str → Bool
is_rooted none = false
is_rooted (some path) = starts_with (codes "/") path

is_bare : Option Str → Bool
is_bare none = true
is_bare (some path) = is_empty path || str_eq path (codes "/")

abbrev pub is_absent : {A : Type 0} → Option A → Bool
is_absent none = true
is_absent (some a) = false

unfoldable pub gateway_error : {A : Type 0} → Result ProxyError A → Result ProxyError A
gateway_error (ok a) = ok a
gateway_error (err e) = err bad_gateway

unfoldable pub is_websocket : Option Str → Bool
is_websocket none = false
is_websocket (some value) = eq_ignore_case (trim value) (codes "websocket")

module _ (c : HttpCrate) (k : HandshakeCrate) where
  open c use {HeaderMap, get_all, to_str}
  open k use {decode, encode, sha1, parse_uri}

  length_lines : Option ℕ → List Str → Result ProxyError (Option ℕ)
  unfolding length_values
  length_lines parsed [] = ok parsed
  length_lines parsed (line ∷ lines) = do
    line ← ok_or (to_str line) bad_request
    parsed ← length_values parsed (split b',' line)
    length_lines parsed lines

  unfoldable pub validate_h2_websocket_content_length : HeaderMap → Result ProxyError (Unit {0})
  unfolding length_lines is_positive
  validate_h2_websocket_content_length headers = do
    parsed ← length_lines none (get_all headers (codes "content-length"))
    refuse_if (is_positive parsed) bad_request

  origin_uri : Uri → Result ProxyError (Unit {0})
  unfolding is_bare
  origin_uri uri = do
    authority ← ok_or uri.authority bad_request
    refuse_if
        (is_absent uri.scheme || (contains b'@' authority || not (is_bare uri.path_and_query)))
        bad_request

  origin_value : Str → Result ProxyError (Unit {0})
  unfolding origin_uri
  origin_value value =
      if str_eq value (codes "null")
      then ok tt
      else do uri ← ok_or (parse_uri value) bad_request; origin_uri uri

  origin_values : List Str → Result ProxyError (Unit {0})
  unfolding origin_value
  origin_values [] = ok tt
  origin_values (value ∷ []) = do value ← ok_or (to_str value) bad_request; origin_value value
  origin_values (value ∷ more ∷ values) = err bad_request

  unfoldable pub validate_websocket_origin : HeaderMap → Result ProxyError (Unit {0})
  unfolding origin_values
  validate_websocket_origin headers = origin_values (get_all headers (codes "origin"))

  -- for name in names { if headers.contains_key(name) { return Err(..) } }
  abbrev pub any_present : HeaderMap → List Str → Bool
  any_present headers names = any (λ name. contains_key c headers name) names

  unfoldable pub websocket_handshake_headers_present : HeaderMap → Bool
  websocket_handshake_headers_present headers = any_present headers (
      codes "sec-websocket-key"
      ∷ codes "sec-websocket-version"
      ∷ codes "sec-websocket-protocol"
      ∷ codes "sec-websocket-extensions"
      ∷ codes "sec-websocket-accept"
      ∷ [])

  unfoldable pub validate_h2_websocket_request :
      HttpRequest HeaderMap → Result ProxyError (Unit {0})
  unfolding is_http_scheme is_rooted
  validate_h2_websocket_request request = do
    refuse_if
        (not (is_http_scheme request.uri.scheme)
          || (is_absent request.uri.authority
              || (not (is_rooted request.uri.path_and_query) || not request.is_end)))
        bad_request
    validate_h2_websocket_content_length request.headers
    refuse_if
        (any_present request.headers (
          codes "host"
          ∷ codes "connection"
          ∷ codes "upgrade"
          ∷ codes "keep-alive"
          ∷ codes "proxy-connection"
          ∷ codes "transfer-encoding"
          ∷ codes "te"
          ∷ codes "trailer"
          ∷ codes "sec-websocket-key"
          ∷ codes "sec-websocket-accept"
          ∷ []))
        bad_request
    version ← exactly_one c request.headers (codes "sec-websocket-version")
    refuse_if (not (str_eq version (codes "13"))) bad_request
    validate_websocket_origin request.headers
    protocols ← parse_protocols c request.headers
    extensions ← parse_extensions c request.headers
    ok tt

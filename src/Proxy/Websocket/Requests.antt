-- ===== src/Proxy/Websocket/Requests.antt =====
-- src/proxy.rs: what a WebSocket request must have before it is taken.
use auth_mini_gateway.Prelude.{
  ◌&&◌, ◌||◌, not, Option, none, some, List, [], ◌∷◌, any, is_empty, length, ◌==◌, if◌then◌else◌,
}
use auth_mini_gateway.Prelude.Result.{Result, ok, err, refuse_if, ok_or, ◌>>=◌, ◌>>◌}
use auth_mini_gateway.Prelude.Text.{Str, codes, str_eq}
use auth_mini_gateway.Prelude.Text.Trim.{trim}
use auth_mini_gateway.Crates.HeaderMap.{HttpCrate}
use auth_mini_gateway.Proxy.{ProxyError, bad_request}
use auth_mini_gateway.Proxy.Headers.{contains_key, parse_connection_tokens}
use auth_mini_gateway.Proxy.Tokens.{is_member, parse_protocols, parse_extensions, exactly_one}
use auth_mini_gateway.Proxy.Websocket.{
  by_http1, by_http2, WebSocketRequest, WebSocketRequestError, bad_websocket, method_not_allowed,
  HandshakeCrate, HttpRequest, is_http_11, is_http_2,
}
use auth_mini_gateway.Proxy.Websocket.Checks.{
  is_absent, is_websocket, websocket_handshake_headers_present, validate_websocket_origin,
  validate_h2_websocket_request,
}

bad : {A : Type 0} → Result ProxyError A → Result WebSocketRequestError A
bad (ok a) = ok a
bad (err e) = err bad_websocket

abbrev first : List Str → Option Str
first [] = none
first (x ∷ xs) = some x

module _ (c : HttpCrate) (k : HandshakeCrate) where
  open c use {HeaderMap, get_all, to_str}
  open k use {decode, encode}

  extended :
      HttpRequest HeaderMap → Option Str → Result WebSocketRequestError (Option WebSocketRequest)
  unfolding bad
  extended request none = err method_not_allowed
  extended request (some protocol) = do
    refuse_if (not (str_eq protocol (codes "websocket"))) method_not_allowed
    bad (validate_h2_websocket_request c k request)
    protocols ← bad (parse_protocols c request.headers)
    extension_names ← bad (parse_extensions c request.headers)
    ok (
        some (record {
          downstream = by_http2;
          protocols = protocols;
          extension_names = extension_names;
        }))

  -- The checks of an HTTP/1.1 handshake, with the names that Connection nominates.
  handshake :
      HttpRequest HeaderMap
      → List Str
      → List Str
      → Result WebSocketRequestError (Option WebSocketRequest)
  unfolding bad is_websocket
  handshake request nominated upgrades = do
    let headers = request.headers
    refuse_if
        (any (λ name. contains_key c headers name && is_member name nominated)
          (codes "sec-websocket-key"
            ∷ codes "sec-websocket-version"
            ∷ codes "sec-websocket-protocol"
            ∷ codes "sec-websocket-extensions"
            ∷ codes "origin"
            ∷ []))
        bad_websocket
    refuse_if (contains_key c headers (codes "sec-websocket-accept")) bad_websocket
    upgrade ← bad (ok_or (first upgrades) bad_request)
    refuse_if (not (is_websocket (to_str upgrade))) bad_websocket
    refuse_if
        (not (str_eq request.method (codes "GET"))
          || (not (is_http_11 request.version) || not request.is_end))
        bad_websocket
    version ← bad (exactly_one c headers (codes "sec-websocket-version"))
    refuse_if (not (str_eq version (codes "13"))) bad_websocket
    key ← bad (exactly_one c headers (codes "sec-websocket-key"))
    key ← bad (ok_or (to_str key) bad_request)
    refuse_if (not (str_eq key (trim key))) bad_websocket
    decoded ← bad (ok_or (decode key) bad_request)
    refuse_if (not (length decoded == 16) || not (str_eq (encode decoded) key)) bad_websocket
    bad (validate_websocket_origin c k headers)
    protocols ← bad (parse_protocols c headers)
    extension_names ← bad (parse_extensions c headers)
    ok (
        some (record {
          downstream = by_http1 key;
          protocols = protocols;
          extension_names = extension_names;
        }))

  -- A request that is no CONNECT.
  plain : HttpRequest HeaderMap → Result WebSocketRequestError (Option WebSocketRequest)
  unfolding bad handshake
  plain request = do
    refuse_if (not (is_absent request.protocol)) method_not_allowed
    nominated ← bad (parse_connection_tokens c request.headers)
    let upgrades = get_all request.headers (codes "upgrade")
    let upgraded = is_member (codes "upgrade") nominated
    if not upgraded && is_empty upgrades
        then (do
          refuse_if (websocket_handshake_headers_present c k request.headers) bad_websocket
          ok none)
        else (do
          refuse_if (not upgraded || not (length upgrades == 1)) bad_websocket
          handshake request nominated upgrades)

  unfoldable pub parse_websocket_request :
      HttpRequest HeaderMap → Result WebSocketRequestError (Option WebSocketRequest)
  unfolding extended plain
  parse_websocket_request request =
      if str_eq request.method (codes "CONNECT")
      then (do
        refuse_if (not (is_http_2 request.version)) method_not_allowed
        extended request request.protocol)
      else plain request

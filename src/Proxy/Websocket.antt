-- ===== src/Proxy/Websocket.antt =====
-- src/proxy.rs: the state of a WebSocket request and of its bridge, and the requests and answers.
pub mod Checks
pub mod Requests
use auth_mini_gateway.Prelude.{
  ℕ, ◌+◌, ◌-◌, ◌*◌, ◌^◌, Bool, true, false, ◌&&◌, ◌||◌, not, Option, none, some, List, [], ◌∷◌,
  ◌++◌, any, all, is_empty, length, ltb, ◌==◌, if◌then◌else◌,
}
use auth_mini_gateway.Prelude.Result.{Result, ok, err, refuse_if, ok_or, ◌>>=◌, ◌>>◌}
use auth_mini_gateway.Prelude.Text.{Str, codes, str_eq, eq_ignore_case, is_digit}
use auth_mini_gateway.Prelude.Text.Split.{starts_with, contains, split}
use auth_mini_gateway.Prelude.Text.Trim.{trim}
use auth_mini_gateway.Http.{is_token_byte}
use auth_mini_gateway.Crates.HeaderMap.{HttpCrate}
use auth_mini_gateway.Proxy.{
  ProxyError, bad_request, bad_gateway, internal, ActualProtocol, http1, http2,
}
use auth_mini_gateway.Proxy.Headers.{
  contains_key, parse_connection_tokens, parse_response_connection_tokens, remove_names,
  remove_fixed_hop_headers, sanitize_response_head,
}
use auth_mini_gateway.Proxy.Tokens.{is_member, parse_protocols, parse_extensions, exactly_one}

pub data DownstreamWebSocket : Type 0 where
  by_http1 : Str → DownstreamWebSocket
  by_http2 : DownstreamWebSocket

pub record WebSocketRequest : Type 0 where
  pub downstream : DownstreamWebSocket
  pub protocols : List Str
  pub extension_names : List Str

pub data WebSocketRequestError : Type 0 where
  bad_websocket method_not_allowed : WebSocketRequestError

pub data WebSocketBridge : Type 0 where
  h1_to_h1 h1_to_h2 h2_to_h1 h2_to_h2 : WebSocketBridge

pub record PreparedWebSocket : Type 0 where
  pub bridge : WebSocketBridge
  pub upstream_key : Option Str

pub data Version : Type 0 where
  http_11 http_2 other_version : Version

abbrev pub downstream_protocol : DownstreamWebSocket → ActualProtocol
downstream_protocol (by_http1 key) = http1
downstream_protocol by_http2 = http2

abbrev pub downstream_key : DownstreamWebSocket → Option Str
downstream_key (by_http1 key) = some key
downstream_key by_http2 = none

abbrev pub new_bridge : ActualProtocol → ActualProtocol → WebSocketBridge
new_bridge http1 http1 = h1_to_h1
new_bridge http1 http2 = h1_to_h2
new_bridge http2 http1 = h2_to_h1
new_bridge http2 http2 = h2_to_h2

abbrev pub downstream_of : WebSocketBridge → ActualProtocol
downstream_of h1_to_h1 = http1
downstream_of h1_to_h2 = http1
downstream_of h2_to_h1 = http2
downstream_of h2_to_h2 = http2

abbrev pub upstream_of : WebSocketBridge → ActualProtocol
upstream_of h1_to_h1 = http1
upstream_of h2_to_h1 = http1
upstream_of h1_to_h2 = http2
upstream_of h2_to_h2 = http2

abbrev pub is_http_11 : Version → Bool
is_http_11 http_11 = true
is_http_11 _ = false

abbrev pub is_http_2 : Version → Bool
is_http_2 http_2 = true
is_http_2 _ = false

-- http::Uri: whether it has a scheme, its authority, its path and query.
pub record Uri : Type 0 where
  pub scheme : Option Str
  pub authority : Option Str
  pub path_and_query : Option Str

-- What the handshake takes from other crates: base64's STANDARD engine, SHA-1, and the parser of URIs.
pub record HandshakeCrate : Type 0 where
  pub decode : Str → Option Str
  pub encode : Str → Str
  pub sha1 : Str → Str
  pub parse_uri : Str → Option Uri

-- `is_end` tells that the body has no bytes, `protocol` is the pseudo-header of an extended CONNECT.
pub record HttpRequest (H : Type 0) : Type 0 where
  pub method : Str
  pub version : Version
  pub protocol : Option Str
  pub uri : Uri
  pub is_end : Bool
  pub headers : H

pub record HttpResponse (H : Type 0) : Type 0 where
  pub status : ℕ
  pub version : Version
  pub is_end : Bool
  pub headers : H

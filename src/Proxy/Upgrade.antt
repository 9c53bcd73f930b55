-- ===== src/Proxy/Upgrade.antt =====
-- src/proxy.rs: the WebSocket request that goes to the upstream, and the checks of its answer.
pub mod Negotiated
use auth_mini_gateway.Prelude.{
  ℕ, Bool, true, false, ◌&&◌, ◌||◌, not, Option, none, some, List, [], ◌∷◌, ◌++◌, any, all,
  is_empty, length, ◌==◌, if◌then◌else◌,
}
use auth_mini_gateway.Prelude.Result.{Result, ok, err, refuse_if, ok_or, ◌>>=◌, ◌>>◌}
use auth_mini_gateway.Prelude.Text.{Str, codes, str_eq, eq_ignore_case}
use auth_mini_gateway.Prelude.Text.Split.{starts_with}
use auth_mini_gateway.Prelude.Text.Trim.{trim}
use auth_mini_gateway.Http.{is_token_byte}
use auth_mini_gateway.Config.{UpstreamBase}
use auth_mini_gateway.Crates.HeaderMap.{HttpCrate}
use auth_mini_gateway.Proxy.{
  ProxyError, bad_request, bad_gateway, internal, ActualProtocol, http1, http2,
}
use auth_mini_gateway.Proxy.Headers.{
  contains_key, parse_response_connection_tokens, remove_names, remove_fixed_hop_headers,
  sanitize_response_head,
}
use auth_mini_gateway.Proxy.Tokens.{is_member, parse_extensions, exactly_one}
use auth_mini_gateway.Proxy.Websocket.{
  WebSocketRequest, WebSocketBridge, h1_to_h1, h1_to_h2, h2_to_h1, h2_to_h2, PreparedWebSocket,
  Version, http_11, http_2, is_http_11, is_http_2, downstream_protocol, downstream_key, new_bridge,
  downstream_of, upstream_of, HandshakeCrate, HttpRequest, HttpResponse,
}
use auth_mini_gateway.Proxy.Websocket.Checks.{gateway_error, any_present, is_websocket}

-- format!("{prefix}{path_and_query}")
unfoldable pub compose_path : Str → Str → Result ProxyError Str
compose_path prefix path_and_query =
    if not (starts_with (codes "/") path_and_query)
    then err bad_request
    else ok (prefix ++ path_and_query)

unfoldable pub is_subset : List Str → List Str → Bool
is_subset [] ys = true
is_subset (x ∷ xs) ys = is_member x ys && is_subset xs ys

module _ (c : HttpCrate) (k : HandshakeCrate) where
  open c use {HeaderMap, get_all, insert, remove, to_str, value_from_str}
  open k use {encode, sha1, parse_uri}

  -- `random` are the 16 bytes of the operating system's generator, if it answers.
  unfoldable pub generate_websocket_key : Option Str → Result ProxyError Str
  generate_websocket_key random = do bytes ← ok_or random internal; ok (encode bytes)

  unfoldable pub upstream_key :
      WebSocketBridge → WebSocketRequest → Option Str → Result ProxyError (Option Str)
  unfolding generate_websocket_key
  upstream_key h1_to_h1 request random = do
    key ← ok_or (downstream_key request.downstream) internal
    ok (some key)
  upstream_key h2_to_h1 request random = do key ← generate_websocket_key random; ok (some key)
  upstream_key h1_to_h2 request random = ok none
  upstream_key h2_to_h2 request random = ok none

  unfoldable pub prepare_websocket :
      WebSocketRequest → ActualProtocol → Option Str → Result ProxyError PreparedWebSocket
  unfolding upstream_key
  prepare_websocket request upstream random = do
    let bridge = new_bridge (downstream_protocol request.downstream) upstream
    key ← upstream_key bridge request random
    ok (record { bridge = bridge; upstream_key = key })

  unfoldable pub set_upstream_target :
      HttpRequest HeaderMap
      → UpstreamBase
      → Str
      → ActualProtocol
      → Result ProxyError (HttpRequest HeaderMap)
  set_upstream_target request upstream path_and_query http1 = do
    uri ← ok_or (parse_uri path_and_query) internal
    ok (record request { uri = uri; version = http_11 })
  set_upstream_target request upstream path_and_query http2 = do
    uri ←
        ok_or (parse_uri (upstream.scheme ++ codes "://" ++ upstream.authority ++ path_and_query))
          internal
    ok (record request { uri = uri; version = http_2 })

  with_method : ActualProtocol → HttpRequest HeaderMap → HttpRequest HeaderMap
  with_method http1 request = record request { method = codes "GET"; protocol = none }
  with_method http2 request = record request {
    method = codes "CONNECT";
    protocol = some (codes "websocket");
  }

  unfoldable pub set_websocket_upstream_target :
      HttpRequest HeaderMap
      → UpstreamBase
      → Str
      → PreparedWebSocket
      → Result ProxyError (HttpRequest HeaderMap)
  unfolding set_upstream_target with_method
  set_websocket_upstream_target request upstream path_and_query prepared = do
    request ← set_upstream_target request upstream path_and_query (upstream_of prepared.bridge)
    ok (with_method (upstream_of prepared.bridge) request)

  unfoldable pub websocket_accept : Str → Str
  websocket_accept key = encode (sha1 (key ++ codes "258EAFA5-E914-47DA-95CA-C5AB0DC85B11"))

  unfoldable pub selected_protocol : WebSocketRequest → List Str → Result ProxyError (Unit {0})
  selected_protocol request [] = ok tt
  selected_protocol request (selected ∷ []) = do
    selected ← ok_or (to_str selected) bad_gateway
    refuse_if
        (is_empty selected
          || (not (all is_token_byte selected)
              || not (any (λ offered. str_eq offered selected) request.protocols)))
        bad_gateway
  selected_protocol request (selected ∷ more ∷ others) = err bad_gateway

  unfoldable pub validate_websocket_response_selections :
      HeaderMap → WebSocketRequest → Result ProxyError (Unit {0})
  unfolding selected_protocol is_subset gateway_error
  validate_websocket_response_selections headers request = do
    selected_protocol request (get_all headers (codes "sec-websocket-protocol"))
    selected_extensions ← gateway_error (parse_extensions c headers)
    refuse_if (not (is_subset selected_extensions request.extension_names)) bad_gateway

  unfoldable pub upgrades_websocket : List Str → Bool
  upgrades_websocket (upgrade ∷ []) = is_websocket (to_str upgrade)
  upgrades_websocket _ = false

  unfoldable pub validate_h1_websocket_response :
      HttpResponse HeaderMap → WebSocketRequest → Str → Result ProxyError (Unit {0})
  unfolding upgrades_websocket is_websocket gateway_error
  validate_h1_websocket_response response request key = do
    let headers = response.headers
    refuse_if
        (not (response.status == 101)
          || (not (is_http_11 response.version)
              || (not response.is_end
                  || any_present c k headers (
                      codes "sec-websocket-key"
                      ∷ codes "sec-websocket-version"
                      ∷ codes "origin"
                      ∷ []))))
        bad_gateway
    connection ← parse_response_connection_tokens c headers
    refuse_if (not (is_member (codes "upgrade") connection)) bad_gateway
    refuse_if (is_member (codes "sec-websocket-accept") connection) bad_gateway
    refuse_if
        (any (λ selected. contains_key c headers selected && is_member selected connection)
          (codes "sec-websocket-protocol" ∷ codes "sec-websocket-extensions" ∷ []))
        bad_gateway
    refuse_if (not (upgrades_websocket (get_all headers (codes "upgrade")))) bad_gateway
    accept ← gateway_error (exactly_one c headers (codes "sec-websocket-accept"))
    refuse_if (not (str_eq accept (websocket_accept key))) bad_gateway
    validate_websocket_response_selections headers request

  unfoldable pub validate_h2_websocket_response :
      HttpResponse HeaderMap → WebSocketRequest → Result ProxyError (Unit {0})
  validate_h2_websocket_response response request = do
    refuse_if
        (not (response.status == 200) || (not (is_http_2 response.version) || not response.is_end))
        bad_gateway
    refuse_if
        (any_present c k response.headers (
          codes "connection"
          ∷ codes "upgrade"
          ∷ codes "content-length"
          ∷ codes "keep-alive"
          ∷ codes "proxy-connection"
          ∷ codes "transfer-encoding"
          ∷ codes "te"
          ∷ codes "trailer"
          ∷ codes "sec-websocket-key"
          ∷ codes "sec-websocket-accept"
          ∷ codes "sec-websocket-version"
          ∷ codes "origin"
          ∷ codes "host"
          ∷ []))
        bad_gateway
    validate_websocket_response_selections response.headers request

  unfoldable pub validated_by :
      ActualProtocol
      → HttpResponse HeaderMap
      → WebSocketRequest
      → Option Str
      → Result ProxyError (Unit {0})
  validated_by http1 response request upstream_key = do
    key ← ok_or upstream_key internal
    validate_h1_websocket_response response request key
  validated_by http2 response request upstream_key = validate_h2_websocket_response response request

  unfoldable pub validate_websocket_upstream_response :
      HttpResponse HeaderMap → WebSocketRequest → PreparedWebSocket → Result ProxyError (Unit {0})
  unfolding validated_by
  validate_websocket_upstream_response response request prepared =
      validated_by (upstream_of prepared.bridge) response request prepared.upstream_key

  answered_by :
      ActualProtocol → HeaderMap → WebSocketRequest → Result ProxyError (HttpResponse HeaderMap)
  unfolding websocket_accept
  answered_by http1 headers request = do
    let headers =
        insert (codes "upgrade") (codes "websocket")
          (insert (codes "connection") (codes "upgrade") headers)
    key ← ok_or (downstream_key request.downstream) internal
    accept ← ok_or (value_from_str (websocket_accept key)) internal
    ok (record {
      status = 101;
      version = http_11;
      is_end = true;
      headers = insert (codes "sec-websocket-accept") accept headers;
    })
  answered_by http2 headers request = ok (record {
    status = 200;
    version = http_2;
    is_end = true;
    headers = remove_fixed_hop_headers c headers;
  })

  unfoldable pub sanitize_websocket_response_head :
      HttpResponse HeaderMap
      → Option Str
      → WebSocketRequest
      → PreparedWebSocket
      → Result ProxyError (HttpResponse HeaderMap)
  unfolding answered_by
  sanitize_websocket_response_head response renewal request prepared = do
    headers ← sanitize_response_head c response.headers renewal false
    let headers = remove (codes "host") (
        remove (codes "origin") (
          remove (codes "sec-websocket-version")
            (remove (codes "sec-websocket-accept") (remove (codes "sec-websocket-key") headers))))
    answered_by (downstream_of prepared.bridge) headers request

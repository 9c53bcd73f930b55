-- ===== src/Tests/Handshakes.antt =====
-- Runs of the handshakes of the proxy, of the proof of SETTINGS, and of the end of an exchange.
use auth_mini_gateway.Prelude.{All, none, ◌≡◌, ◌∷◌, [], refl, true, some}
use auth_mini_gateway.Prelude.Result.{ok}
use auth_mini_gateway.Prelude.Text.{Str, codes, str_eq, lowercase, eq_ignore_case}
use auth_mini_gateway.Prelude.Text.Split.{split}
use auth_mini_gateway.Prelude.Text.Trim.{trim}
use auth_mini_gateway.Http.{is_token_byte}
use auth_mini_gateway.Proxy.{http1}
use auth_mini_gateway.Proxy.Headers.{parse_connection_tokens, parse_response_connection_tokens}
use auth_mini_gateway.Proxy.Tokens.{
  split_from, split_websocket_header, scan_byte, parse_extensions, extension_values, exactly_one,
  only_value,
}
use auth_mini_gateway.Proxy.Tokens.Quotes.{IsPiece}
use auth_mini_gateway.Proxy.Tokens.Pieces.{join, split_websocket_header-join}
use auth_mini_gateway.Proxy.Websocket.{
  HandshakeCrate, WebSocketRequest, PreparedWebSocket, HttpResponse, by_http1, h1_to_h1, http_11,
}
use auth_mini_gateway.Proxy.Websocket.Checks.{is_websocket, gateway_error}
use auth_mini_gateway.Proxy.Proof.{
  and_then, observe_outbound_vectored, observe_outbound, after_inbound, apply_observation,
  install_observed, publish_status, proof_status, after_outbound, observe_inbound,
}
use auth_mini_gateway.Proxy.Frames.{
  feed, turn, begin_frame, consume_pair, finish_frame, after_pair, be16, be24, be32, begun, byte_at,
  feed_loop, header_turn, if_finished, pair_turn, payload_turn, skip_turn,
}
use auth_mini_gateway.Proxy.Generation.{install_initial, revoke_if_enabled}
use auth_mini_gateway.Proxy.Acks.{
  feed_acks, frame_pass, header_pass, pass, passes, preface_pass, skip_pass,
}
use auth_mini_gateway.Prelude.{take, drop}
use auth_mini_gateway.Proxy.Acks.{h2_client_preface}
use auth_mini_gateway.Proxy.Generation.{new_control}
use auth_mini_gateway.Proxy.Proof.{H2ProofState, new_proof, proved}
use auth_mini_gateway.Proxy.Proof.Events.{ProofEvent, reads, writes, run, sent, received}
use auth_mini_gateway.Proxy.Proof.Proved.{Stands, run-Proved}
use auth_mini_gateway.Prelude.{List}
use auth_mini_gateway.Prelude.{ℕ, false}
use auth_mini_gateway.Proxy.Exchange.{new_latch, pool_full, response_body_drop}
use auth_mini_gateway.Proxy.Exchange.Ends.{
  Completion, response_ends, request_ends, finishes, first_request, first_response, end_of,
  finishes-once,
}
use auth_mini_gateway.Proxy.Upgrade.{
  prepare_websocket, upstream_key, websocket_accept, validated_by,
  validate_websocket_upstream_response, validate_h1_websocket_response,
  validate_websocket_response_selections, selected_protocol, upgrades_websocket, is_subset,
}
use auth_mini_gateway.Proxy.Upgrade.Negotiated.{
  Handshake, SelectsOffered, ExtendsOffered, validate_websocket_upstream_response-negotiated,
}
use auth_mini_gateway.Tests.HeaderLists.{Pairs, http, get_all}

-- A comma inside a quoted string.
abbrev offer : Str
offer = codes "a;b=\"1,2\",c"

offer_pieces : split_websocket_header offer b',' ≡ ok (codes "a;b=\"1,2\"" ∷ codes "c" ∷ [])
unfolding split_websocket_header split_from scan_byte
offer_pieces = refl

split_websocket_header-join_example :
    (join b',' (codes "a;b=\"1,2\"" ∷ codes "c" ∷ []) ≡ offer)
    × All (IsPiece b',') (codes "a;b=\"1,2\"" ∷ codes "c" ∷ [])
    × All (λ p. split_websocket_header p b',' ≡ ok (p ∷ [])) (codes "a;b=\"1,2\"" ∷ codes "c" ∷ [])
split_websocket_header-join_example = split_websocket_header-join offer b',' offer_pieces

abbrev engine : HandshakeCrate
engine = record { decode = λ s. some s; encode = λ s. s; sha1 = λ s. s; parse_uri = λ s. none }

abbrev chat : WebSocketRequest
chat = record {
  downstream = by_http1 (codes "key");
  protocols = codes "chat" ∷ [];
  extension_names = [];
}

abbrev chat_bridge : PreparedWebSocket
chat_bridge = record { bridge = h1_to_h1; upstream_key = some (codes "key") }

abbrev switching : HttpResponse Pairs
switching = record {
  status = 101;
  version = http_11;
  is_end = true;
  headers =
      (codes "connection", codes "Upgrade")
      ∷ (codes "upgrade", codes "websocket")
      ∷ (codes "sec-websocket-accept", codes "key258EAFA5-E914-47DA-95CA-C5AB0DC85B11")
      ∷ (codes "sec-websocket-protocol", codes "chat")
      ∷ [];
}

chat_preparation : prepare_websocket http engine chat http1 none ≡ ok chat_bridge
unfolding prepare_websocket upstream_key
chat_preparation = refl

switched : validate_websocket_upstream_response http engine switching chat chat_bridge ≡ ok tt
unfolding validate_websocket_upstream_response validated_by validate_h1_websocket_response
    is_websocket gateway_error validate_websocket_response_selections selected_protocol
    upgrades_websocket is_subset websocket_accept parse_extensions extension_values exactly_one
    only_value parse_response_connection_tokens parse_connection_tokens get_all str_eq
    eq_ignore_case lowercase split trim is_token_byte
switched = refl

validate_websocket_upstream_response-negotiated_example :
    Handshake http engine http1 switching chat none
    × SelectsOffered http engine switching.headers chat
    × ExtendsOffered http engine switching.headers chat
validate_websocket_upstream_response-negotiated_example =
    validate_websocket_upstream_response-negotiated http engine chat http1 none chat_bridge
      switching chat_preparation switched

-- The server allows extended CONNECT; the gateway sends its preface, empty SETTINGS and the
-- acknowledgement in two buffers.
abbrev exchange : List ProofEvent
exchange =
    reads (0 ∷ 0 ∷ 6 ∷ 4 ∷ 0 ∷ 0 ∷ 0 ∷ 0 ∷ 0 ∷ 0 ∷ 8 ∷ 0 ∷ 0 ∷ 0 ∷ 1 ∷ [])
    ∷ writes
        (h2_client_preface
          ∷ (0 ∷ 0 ∷ 0 ∷ 4 ∷ 0 ∷ 0 ∷ 0 ∷ 0 ∷ 0 ∷ 0 ∷ 0 ∷ 0 ∷ 4 ∷ 1 ∷ 0 ∷ 0 ∷ 0 ∷ 0 ∷ [])
          ∷ [])
        42
    ∷ []

run-Proved_example :
    (s : H2ProofState) × (run exchange (new_proof (new_control 1)) ≡ some s)
    × Stands s.status s.outbound s.inbound (sent exchange) (received exchange)
run-Proved_example = run-Proved (new_control 1) exchange

exchange_status :
    (s : H2ProofState) × (run exchange (new_proof (new_control 1)) ≡ some s)
    × (s.status ≡ proved (record { extended_connect = true; max_concurrent_streams = none }))
unfolding and_then observe_outbound_vectored observe_outbound after_inbound apply_observation
    install_observed publish_status proof_status after_outbound observe_inbound feed turn
    begin_frame consume_pair finish_frame after_pair be16 be24 be32 begun byte_at feed_loop
    header_turn if_finished pair_turn payload_turn skip_turn install_initial revoke_if_enabled
    feed_acks frame_pass header_pass pass passes preface_pass skip_pass take drop str_eq
exchange_status = (_, refl, refl)

-- The response is reported twice, and the request ends cleanly in between.
abbrev ends : List Completion
ends =
    response_ends true pool_full ∷ request_ends true ∷ response_ends false response_body_drop ∷ []

abbrev connection : ℕ
connection = 7

finishes-once_example :
    finishes ends (new_latch connection)
    ≡ end_of connection (first_request none ends) (first_response none ends)
finishes-once_example = finishes-once connection ends

-- ===== src/Proxy/Upgrade/Negotiated.antt =====
-- src/proxy.rs: an upstream's answer to a WebSocket request that passes the checks.
use auth_mini_gateway.Prelude.{
  ◌≡◌, refl, sym, subst, ap, ==_iff, ◌∙◌, ◌⊎◌, inl, inr, Bool, true, false, ◌||◌, not, Option, some,
  List, [], ◌∷◌, any, all, is_empty, ◌==◌, All, arith, and_parts,
}
use auth_mini_gateway.Prelude.Result.{
  Result, ok, err, ok_or, refuse_if-ok, refuse_if-then, ok_or-ok, ok_inj, >>=-eq-ok,
}
use auth_mini_gateway.Prelude.Text.{Str, codes, str_eq, eq_of_str_eq}
use auth_mini_gateway.Http.{is_token_byte}
use auth_mini_gateway.Crates.HeaderMap.{HttpCrate}
use auth_mini_gateway.Proxy.{ProxyError, bad_gateway, internal, ActualProtocol, http1, http2}
use auth_mini_gateway.Proxy.Headers.{parse_response_connection_tokens}
use auth_mini_gateway.Proxy.Tokens.{is_member, parse_extensions, exactly_one}
use auth_mini_gateway.Proxy.Websocket.{
  WebSocketRequest, DownstreamWebSocket, by_http1, by_http2, PreparedWebSocket, downstream_key,
  downstream_protocol, new_bridge, upstream_of, HandshakeCrate, HttpResponse,
}
use auth_mini_gateway.Proxy.Websocket.Checks.{gateway_error}
use auth_mini_gateway.Proxy.Upgrade.{
  is_subset, prepare_websocket, upstream_key, generate_websocket_key, websocket_accept,
  selected_protocol, upgrades_websocket, validate_websocket_response_selections,
  validate_h1_websocket_response, validate_h2_websocket_response, validated_by,
  validate_websocket_upstream_response,
}

gateway_error-ok :
    {A : Type 0} (r : Result ProxyError A) {a : A} → gateway_error r ≡ ok a → r ≡ ok a
unfolding gateway_error
gateway_error-ok (ok a) q = q
gateway_error-ok (err e) q = ground arith

is_true : {b : Bool} → not b ≡ false → b ≡ true
is_true {b} h = ground arith

first_of_or : (a b : Bool) → not a || b ≡ false → a ≡ true
first_of_or true b h = refl
first_of_or false b h = sym h

some_inj : {A : Type 0} {a b : A} → some a ≡ some b → a ≡ b
some_inj q = cc

module _ (c : HttpCrate) (k : HandshakeCrate) where
  -- No protocol is selected, or one that the client offered.
  abbrev pub SelectsOffered : c.HeaderMap → WebSocketRequest → Type 0
  SelectsOffered h request =
      (c.get_all h (codes "sec-websocket-protocol") ≡ [])
      ⊎ ((value : Str) × (s : Str) × (c.get_all h (codes "sec-websocket-protocol") ≡ value ∷ [])
          × (c.to_str value ≡ some s)
          × (is_member s request.protocols ≡ true))

  abbrev pub ExtendsOffered : c.HeaderMap → WebSocketRequest → Type 0
  ExtendsOffered h request =
      (names : List Str) × (parse_extensions c h ≡ ok names)
      × All (λ n. is_member n request.extension_names ≡ true) names

  -- Over HTTP/1.1 the answer proves that the upstream read the key that it was sent, which is the
  -- client's own key where the client speaks HTTP/1.1.
  abbrev pub Handshake :
      ActualProtocol → HttpResponse c.HeaderMap → WebSocketRequest → Option Str → Type 0
  Handshake http1 response request random =
      (response.status ≡ 101)
      × ((key : Str) × (exactly_one c response.headers (codes "sec-websocket-accept")
            ≡ ok (websocket_accept c k key))
          × ((downstream_key request.downstream ≡ some key)
              ⊎ ((bytes : Str) × (random ≡ some bytes) × (key ≡ k.encode bytes))))
  Handshake http2 response request random = response.status ≡ 200

  is_subset-All : (xs ys : List Str) → is_subset xs ys ≡ true → All (λ n. is_member n ys ≡ true) xs
  unfolding is_subset
  is_subset-All [] ys h = tt
  is_subset-All (x ∷ xs) ys h =
      let (m, rest) = and_parts (is_member x ys) (is_subset xs ys) h in
      (m, is_subset-All xs ys rest)

  selected_protocol-ok :
      (h : c.HeaderMap) (request : WebSocketRequest) (values : List Str) {u : Unit}
      → c.get_all h (codes "sec-websocket-protocol") ≡ values
      → selected_protocol c k request values ≡ ok u
      → SelectsOffered h request
  unfolding selected_protocol
  selected_protocol-ok h request [] e q = inl e
  selected_protocol-ok h request (v ∷ []) e q =
      let (s, read, q1) = >>=-eq-ok (ok_or (c.to_str v) bad_gateway) _ q in
      let refused =
        refuse_if-ok
          (is_empty s
            || (not (all is_token_byte s)
                || not (any (λ offered. str_eq offered s) request.protocols)))
          bad_gateway q1 in
      inr (v, s, e, ok_or-ok (c.to_str v) _ read, ground arith)
  selected_protocol-ok h request (v ∷ w ∷ vs) e q = absurd (ground arith)

  selections-ok :
      (h : c.HeaderMap) (request : WebSocketRequest) {u : Unit}
      → validate_websocket_response_selections c k h request ≡ ok u
      → SelectsOffered h request × ExtendsOffered h request
  unfolding validate_websocket_response_selections
  selections-ok h request q =
      let (u1, selected, q1) =
        >>=-eq-ok (selected_protocol c k request (c.get_all h (codes "sec-websocket-protocol"))) _
          q in
      let (names, parsed, q2) = >>=-eq-ok (gateway_error (parse_extensions c h)) _ q1 in
      (
        selected_protocol-ok h request (c.get_all h (codes "sec-websocket-protocol")) refl selected,
        (
          names,
          gateway_error-ok (parse_extensions c h) parsed,
          is_subset-All names request.extension_names (is_true (refuse_if-ok _ _ q2)),
        ),
      )

  h1-ok :
      (response : HttpResponse c.HeaderMap) (request : WebSocketRequest) (key : Str) {u : Unit}
      → validate_h1_websocket_response c k response request key ≡ ok u
      → (response.status ≡ 101)
        × (exactly_one c response.headers (codes "sec-websocket-accept")
            ≡ ok (websocket_accept c k key))
        × SelectsOffered response.headers request
        × ExtendsOffered response.headers request
  unfolding validate_h1_websocket_response
  h1-ok response request key q =
      let h = response.headers in
      let (head, q1) = refuse_if-then _ bad_gateway _ q in
      let (connection, parsed, q2) = >>=-eq-ok (parse_response_connection_tokens c h) _ q1 in
      let (upgrade, q3) =
        refuse_if-then (not (is_member (codes "upgrade") connection)) bad_gateway _ q2 in
      let (accept, q4) =
        refuse_if-then (is_member (codes "sec-websocket-accept") connection) bad_gateway _ q3 in
      let (selected, q5) = refuse_if-then _ bad_gateway _ q4 in
      let (websocket, q6) =
        refuse_if-then (not (upgrades_websocket c k (c.get_all h (codes "upgrade")))) bad_gateway _
          q5 in
      let (value, one, q7) =
        >>=-eq-ok (gateway_error (exactly_one c h (codes "sec-websocket-accept"))) _ q6 in
      let (same, q8) =
        refuse_if-then (not (str_eq value (websocket_accept c k key))) bad_gateway _ q7 in
      let (selects, extends) = selections-ok h request q8 in
      (
        (==_iff response.status 101).0 (first_of_or (response.status == 101) _ head),
        gateway_error-ok (exactly_one c h (codes "sec-websocket-accept")) one
            ∙ ap ok (eq_of_str_eq value (websocket_accept c k key) (is_true same)),
        selects,
        extends,
      )

  h2-ok :
      (response : HttpResponse c.HeaderMap) (request : WebSocketRequest) {u : Unit}
      → validate_h2_websocket_response c k response request ≡ ok u
      → (response.status ≡ 200)
        × SelectsOffered response.headers request
        × ExtendsOffered response.headers request
  unfolding validate_h2_websocket_response
  h2-ok response request q =
      let (head, q1) = refuse_if-then _ bad_gateway _ q in
      let (absent, q2) = refuse_if-then _ bad_gateway _ q1 in
      let (selects, extends) = selections-ok response.headers request q2 in
      (
        (==_iff response.status 200).0 (first_of_or (response.status == 200) _ head),
        selects,
        extends,
      )

  -- The key of an HTTP/1.1 upstream is the client's, or the encoding of random bytes.
  abbrev IsKey : WebSocketRequest → Option Str → Str → Type 0
  IsKey request random key =
      (downstream_key request.downstream ≡ some key)
      ⊎ ((bytes : Str) × (random ≡ some bytes) × (key ≡ k.encode bytes))

  upstream_key-http1 :
      (d : DownstreamWebSocket) (request : WebSocketRequest) (random key : Option Str)
      → upstream_key c k (new_bridge (downstream_protocol d) http1) request random ≡ ok key
      → (s : Str) × (key ≡ some s) × IsKey request random s
  unfolding upstream_key generate_websocket_key
  upstream_key-http1 (by_http1 own) request random key q =
      let (s, found, q1) = >>=-eq-ok (ok_or (downstream_key request.downstream) internal) _ q in
      (s, sym (ok_inj q1), inl (ok_or-ok (downstream_key request.downstream) internal found))
  upstream_key-http1 by_http2 request random key q =
      let (s, made, q1) = >>=-eq-ok (generate_websocket_key c k random) _ q in
      let (bytes, given, q2) = >>=-eq-ok (ok_or random internal) _ made in
      (s, sym (ok_inj q1), inr (bytes, ok_or-ok random internal given, sym (ok_inj q2)))

  upstream_of-new_bridge : (d u : ActualProtocol) → upstream_of (new_bridge d u) ≡ u
  upstream_of-new_bridge http1 http1 = refl
  upstream_of-new_bridge http1 http2 = refl
  upstream_of-new_bridge http2 http1 = refl
  upstream_of-new_bridge http2 http2 = refl

  validated_by-negotiated :
      (upstream : ActualProtocol) (request : WebSocketRequest) (random key : Option Str)
      (response : HttpResponse c.HeaderMap) {u : Unit}
      → upstream_key c k
          (new_bridge (downstream_protocol request.downstream) upstream)
          request
          random
        ≡ ok key
      → validated_by c k upstream response request key ≡ ok u
      → Handshake upstream response request random
        × SelectsOffered response.headers request
        × ExtendsOffered response.headers request
  unfolding validated_by
  validated_by-negotiated http1 request random key response made q =
      let (s, is_some, of) = upstream_key-http1 request.downstream request random key made in
      let (t, found, q1) = >>=-eq-ok (ok_or key internal) _ q in
      let (status, accept, selects, extends) = h1-ok response request t q1 in
      (
        (
          status,
          (
            t,
            accept,
            subst (IsKey request random) (some_inj (sym is_some ∙ ok_or-ok key internal found)) of,
          ),
        ),
        selects,
        extends,
      )
  validated_by-negotiated http2 request random key response made q = h2-ok response request q

  -- An answer that passes the checks has agreed to the request that was sent: over HTTP/1.1 it has
  -- status 101 and its single Sec-WebSocket-Accept is computed from the key that went upstream, which is
  -- the client's own key or, behind an HTTP/2 client, made of fresh random bytes; over HTTP/2 it has
  -- status 200. In both it selects no protocol or one that the client offered, and no extension that
  -- the client did not offer.
  pub validate_websocket_upstream_response-negotiated :
      (request : WebSocketRequest) (upstream : ActualProtocol) (random : Option Str)
      (prepared : PreparedWebSocket) (response : HttpResponse c.HeaderMap) {u : Unit}
      → prepare_websocket c k request upstream random ≡ ok prepared
      → validate_websocket_upstream_response c k response request prepared ≡ ok u
      → Handshake upstream response request random
        × SelectsOffered response.headers request
        × ExtendsOffered response.headers request
  unfolding prepare_websocket validate_websocket_upstream_response
  validate_websocket_upstream_response-negotiated request upstream random prepared response {u} p
        q =
      let bridge = new_bridge (downstream_protocol request.downstream) upstream in
      let (key, made, q1) = >>=-eq-ok (upstream_key c k bridge request random) _ p in
      let same = sym (ok_inj q1) in
      validated_by-negotiated upstream request random key response made (
        subst (λ v. validated_by c k v response request key ≡ ok u)
          (upstream_of-new_bridge (downstream_protocol request.downstream) upstream)
          (subst
            (λ (v : PreparedWebSocket).
              validated_by c k (upstream_of v.bridge) response request v.upstream_key ≡ ok u)
            same q))

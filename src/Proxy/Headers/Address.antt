-- ===== src/Proxy/Headers/Address.antt =====
-- src/proxy.rs: the client's address that the upstream is told.
use auth_mini_gateway.Prelude.{
  ◌≡◌, refl, ◌⊎◌, inl, inr, Bool, true, false, ◌||◌, some, List, [], ◌∷◌, any, is_empty, arith,
  Bool-cases,
}
use auth_mini_gateway.Prelude.Result.{ok, ok_or, ok_or-ok, refuse_if, refuse_if-ok, >>=-eq-ok}
use auth_mini_gateway.Prelude.Text.{Str, codes, str_eq}
use auth_mini_gateway.Prelude.Text.Split.{Free, contains}
use auth_mini_gateway.Http.{get}
use auth_mini_gateway.Crates.{IpAddr}
use auth_mini_gateway.Crates.HeaderMap.{HttpCrate, IsHeaderMap}
use auth_mini_gateway.Proxy.{bad_request, ActualProtocol, http1, http2}
use auth_mini_gateway.Proxy.Headers.{
  is_ascii_whitespace, forwarded_ip, only_forwarded, derive_client_ip, sanitize_request_headers,
}
use auth_mini_gateway.Proxy.Headers.Sanitized.{gateway_headers, sanitize_request_headers-view}

-- The peer sent one address, and nothing else, under X-Forwarded-For.
abbrev pub Forwards : (c : HttpCrate) → c.HeaderMap → IpAddr → Type 0
Forwards c h ip =
    (value : Str) × (s : Str) × (c.get_all h (codes "x-forwarded-for") ≡ value ∷ [])
    × (c.to_str value ≡ some s)
    × Free b',' s
    × (c.parse_ip s ≡ some ip)

told :
    (authority ip proto user : Str) (websocket : Bool) (protocol : ActualProtocol)
    → get (codes "x-forwarded-for") (gateway_headers authority ip proto user websocket protocol)
      ≡ some ip
unfolding get str_eq
told authority ip proto user true http1 = refl
told authority ip proto user false http1 = refl
told authority ip proto user true http2 = refl
told authority ip proto user false http2 = refl

module _ (c : HttpCrate) where
  forwarded_ip-ok :
      (value : Str) {ip : IpAddr}
      → forwarded_ip c value ≡ ok ip
      → (s : Str) × (c.to_str value ≡ some s) × Free b',' s × (c.parse_ip s ≡ some ip)
  unfolding forwarded_ip
  forwarded_ip-ok value q =
      let (s, read, q1) = >>=-eq-ok (ok_or (c.to_str value) bad_request) _ q in
      let (u, clean, q2) =
        >>=-eq-ok
          (refuse_if (is_empty s || (contains b',' s || any is_ascii_whitespace s)) bad_request) _
          q1 in
      let dirty =
        refuse_if-ok (is_empty s || (contains b',' s || any is_ascii_whitespace s)) _ clean in
      (s, ok_or-ok (c.to_str value) _ read, ground arith, ok_or-ok (c.parse_ip s) _ q2)

  only_forwarded-ok :
      (peer : IpAddr) (h : c.HeaderMap) (values : List Str) {ip : IpAddr}
      → c.get_all h (codes "x-forwarded-for") ≡ values
      → only_forwarded c peer values ≡ ok ip
      → (ip ≡ peer) ⊎ Forwards c h ip
  unfolding only_forwarded
  only_forwarded-ok peer h [] e q = inl (cc)
  only_forwarded-ok peer h (v ∷ []) e q =
      let (s, read, free, parsed) = forwarded_ip-ok v q in inr (v, s, e, read, free, parsed)
  only_forwarded-ok peer h (v ∷ w ∷ vs) e q = absurd (ground arith)

  derive_client_ip-ok :
      (peer : IpAddr) (h : c.HeaderMap) (trusted : IpAddr → Bool) {ip : IpAddr}
      → derive_client_ip c peer h trusted ≡ ok ip
      → (ip ≡ peer) ⊎ ((trusted peer ≡ true) × Forwards c h ip)
  unfolding derive_client_ip
  derive_client_ip-ok peer h trusted {ip} q = elim (Bool-cases (trusted peer)) [
    | inl t ↦
        elim (only_forwarded-ok peer h (c.get_all h (codes "x-forwarded-for")) {ip = ip} refl
          (ground arith)) [ inl own ↦ inl own | inr sent ↦ inr (t, sent) ]
    | inr f ↦ inl (ground arith)
  ]

  -- The upstream is told exactly one address of the client. It is that of the peer itself, unless the
  -- peer is a trusted proxy and sent exactly one value, with no comma in it, that is read as the address.
  pub client_address_is_honest :
      (l : IsHeaderMap c) (peer : IpAddr) (trusted : IpAddr → Bool) (h : c.HeaderMap)
      (authority proto user : Str) (websocket : Bool) (protocol : ActualProtocol) {ip : IpAddr}
      {out : c.HeaderMap}
      → derive_client_ip c peer h trusted ≡ ok ip
      → sanitize_request_headers c h authority ip proto user websocket protocol ≡ ok out
      → (c.get_all out (codes "x-forwarded-for") ≡ c.ip_text ip ∷ [])
        × ((ip ≡ peer) ⊎ ((trusted peer ≡ true) × Forwards c h ip))
  client_address_is_honest l peer trusted h authority proto user websocket protocol {ip} derived q =
      let (nominated, parsed, view) =
        sanitize_request_headers-view c l h authority ip proto user websocket protocol
          (codes "x-forwarded-for") q in
      (
        rw view (rw (told authority (c.ip_text ip) proto user websocket protocol) refl),
        derive_client_ip-ok peer h trusted derived,
      )

-- ===== src/Proxy/Headers.antt =====
-- src/proxy.rs: the client's address, and the headers that pass to the upstream and back.
pub mod Sanitized
pub mod Replies
pub mod Address
pub mod CookieNames
use auth_mini_gateway.Prelude.{
  ℕ, Bool, true, false, ◌&&◌, ◌||◌, not, Option, none, some, List, [], ◌∷◌, ◌++◌, any, all,
  is_empty, ◌==◌, if◌then◌else◌,
}
use auth_mini_gateway.Prelude.Result.{Result, ok, err, refuse_if, ok_or, ◌>>=◌, ◌>>◌}
use auth_mini_gateway.Prelude.Text.{Str, codes, str_eq}
use auth_mini_gateway.Prelude.Text.Split.{starts_with, contains, split, split_once}
use auth_mini_gateway.Prelude.Text.Trim.{trim}
use auth_mini_gateway.Http.{is_safe_header_value, is_token_byte}
use auth_mini_gateway.Crates.{IpAddr}
use auth_mini_gateway.Crates.HeaderMap.{HttpCrate}
use auth_mini_gateway.Proxy.{
  ProxyError, bad_request, bad_gateway, internal, ActualProtocol, is_http1,
}

-- char::is_ascii_whitespace
abbrev is_ascii_whitespace : ℕ → Bool
is_ascii_whitespace b = (b == 32) || ((b == 9) || ((b == 10) || ((b == 12) || (b == 13))))

abbrev pub fixed_hop_names : List Str
fixed_hop_names =
    codes "connection"
    ∷ codes "keep-alive"
    ∷ codes "proxy-connection"
    ∷ codes "proxy-authenticate"
    ∷ codes "proxy-authorization"
    ∷ codes "te"
    ∷ codes "trailer"
    ∷ codes "transfer-encoding"
    ∷ codes "upgrade"
    ∷ []

trim_blanks : Str → Str
trim_blanks [] = []
trim_blanks (b ∷ s) = let rest = trim_blanks s in if (b == b' ') || (b == 9) then rest else b ∷ s

first_piece : List Str → Str
first_piece [] = []
first_piece (p ∷ ps) = p

allowed_name : Option (Str × Str) → Bool
allowed_name none = false
allowed_name (some (name, value)) =
    not (is_empty name)
    && all is_token_byte name
    && (not (str_eq name (codes "amg_session")) && not (str_eq name (codes "amg_login_state")))

unfoldable pub is_allowed_application_cookie : Str → Bool
unfolding trim_blanks first_piece allowed_name
is_allowed_application_cookie value =
    allowed_name (split_once b'=' (first_piece (split b';' (trim_blanks value))))

with_prefix : Str → List Str → List Str
with_prefix prefix [] = []
with_prefix prefix (name ∷ names) =
    let rest = with_prefix prefix names in if starts_with prefix name then name ∷ rest else rest

module _ (c : HttpCrate) where
  open c use {
    HeaderMap, get_all, keys, remove, insert, append, name_from_bytes, value_from_str, to_str,
    ip_text, parse_ip,
  }

  -- HeaderMap::contains_key
  abbrev pub contains_key : HeaderMap → Str → Bool
  contains_key headers name = not (is_empty (get_all headers name))

  forwarded_ip : Str → Result ProxyError IpAddr
  forwarded_ip value = do
    value ← ok_or (to_str value) bad_request
    refuse_if (is_empty value || (contains b',' value || any is_ascii_whitespace value)) bad_request
    ok_or (parse_ip value) bad_request

  only_forwarded : IpAddr → List Str → Result ProxyError IpAddr
  unfolding forwarded_ip
  only_forwarded direct_peer [] = ok direct_peer
  only_forwarded direct_peer (value ∷ []) = forwarded_ip value
  only_forwarded direct_peer (value ∷ more ∷ values) = err bad_request

  -- `trusted` is TrustedProxySet::contains.
  unfoldable pub derive_client_ip : IpAddr → HeaderMap → (IpAddr → Bool) → Result ProxyError IpAddr
  unfolding only_forwarded
  derive_client_ip direct_peer headers trusted =
      if not (trusted direct_peer)
      then ok direct_peer
      else only_forwarded direct_peer (get_all headers (codes "x-forwarded-for"))

  connection_names : List Str → Result ProxyError (List Str)
  connection_names [] = ok []
  connection_names (token ∷ tokens) = do
    refuse_if (is_empty (trim token)) bad_request
    name ← ok_or (name_from_bytes (trim token)) bad_request
    names ← connection_names tokens
    ok (name ∷ names)

  connection_values : List Str → Result ProxyError (List Str)
  unfolding connection_names
  connection_values [] = ok []
  connection_values (value ∷ values) = do
    value ← ok_or (to_str value) bad_request
    names ← connection_names (split b',' value)
    rest ← connection_values values
    ok (names ++ rest)

  -- The set of names, as a list.
  unfoldable pub parse_connection_tokens : HeaderMap → Result ProxyError (List Str)
  unfolding connection_values
  parse_connection_tokens headers = connection_values (get_all headers (codes "connection"))

  -- for name in names { headers.remove(name) }
  unfoldable pub remove_names : List Str → HeaderMap → HeaderMap
  remove_names [] headers = headers
  remove_names (name ∷ names) headers = remove_names names (remove name headers)

  unfoldable pub remove_fixed_hop_headers : HeaderMap → HeaderMap
  remove_fixed_hop_headers headers = remove_names fixed_hop_names headers

  unfoldable pub remove_prefixed : Str → HeaderMap → HeaderMap
  unfolding with_prefix
  remove_prefixed prefix headers = remove_names (with_prefix prefix (keys headers)) headers

  identity_header_value : Str → Result ProxyError Str
  identity_header_value value = do
    refuse_if (not (is_safe_header_value value)) internal
    ok_or (value_from_str value) internal

  upgrade_headers : HeaderMap → HeaderMap
  upgrade_headers headers =
      insert (codes "upgrade") (codes "websocket")
        (insert (codes "connection") (codes "upgrade") headers)

  -- What is removed before the gateway's own headers are set.
  unfoldable pub stripped : List Str → HeaderMap → HeaderMap
  stripped nominated headers = remove_prefixed (codes "x-forwarded-") (
      remove_prefixed (codes "x-auth-mini-") (
        remove (codes "expect") (
          remove (codes "x-real-ip") (
            remove (codes "forwarded") (
              remove (codes "proxy-authorization") (
                remove (codes "authorization") (
                  remove (codes "cookie") (
                    remove (codes "content-length")
                      (remove_fixed_hop_headers (remove_names nominated headers))))))))))

  -- The headers that the gateway sets, behind those that it passes on.
  with_gateway : Str → Str → Str → Str → Bool → ActualProtocol → HeaderMap → HeaderMap
  unfolding upgrade_headers
  with_gateway public_authority for_value proto_value identity websocket protocol headers =
      let headers =
        if is_http1 protocol
        then insert (codes "host") public_authority headers
        else remove (codes "host") headers in
      let headers = insert (codes "x-auth-mini-user-id") identity (
        insert (codes "x-forwarded-host") public_authority (
          insert (codes "x-forwarded-proto") proto_value
            (insert (codes "x-forwarded-for") for_value headers))) in
      if websocket && is_http1 protocol
      then upgrade_headers headers
      else if websocket
      then remove (codes "sec-websocket-accept") (remove (codes "sec-websocket-key") headers)
      else headers

  unfoldable pub sanitize_request_headers :
      HeaderMap → Str → IpAddr → Str → Str → Bool → ActualProtocol → Result ProxyError HeaderMap
  unfolding identity_header_value with_gateway
  sanitize_request_headers headers public_authority client_ip public_proto user_id websocket
        protocol =
      do
        nominated ← parse_connection_tokens headers
        for_value ← ok_or (value_from_str (ip_text client_ip)) internal
        proto_value ← ok_or (value_from_str public_proto) internal
        identity ← identity_header_value user_id
        ok (
            with_gateway public_authority for_value proto_value identity websocket protocol
              (stripped nominated headers))

  append_allowed : List Str → HeaderMap → HeaderMap
  append_allowed [] headers = headers
  append_allowed (value ∷ values) headers = append_allowed values (
      if is_allowed_application_cookie value
      then append (codes "set-cookie") value headers
      else headers)

  unfoldable pub filter_application_cookies : HeaderMap → HeaderMap
  unfolding append_allowed
  filter_application_cookies headers =
      append_allowed (get_all headers (codes "set-cookie")) (remove (codes "set-cookie") headers)

  unfoldable pub parse_response_connection_tokens : HeaderMap → Result ProxyError (List Str)
  parse_response_connection_tokens headers = elim (parse_connection_tokens headers) [
    | ok names ↦ ok names
    | err e ↦ err bad_gateway
  ]

  append_renewal : Option Str → HeaderMap → Result ProxyError HeaderMap
  append_renewal none headers = ok headers
  append_renewal (some cookie) headers = do
    cookie ← ok_or (value_from_str cookie) internal
    ok (append (codes "set-cookie") cookie headers)

  -- The headers of the response; its status, version and body stay.
  unfoldable pub sanitize_response_head :
      HeaderMap → Option Str → Bool → Result ProxyError HeaderMap
  unfolding append_renewal upgrade_headers
  sanitize_response_head headers renewal websocket = do
    nominated ← parse_response_connection_tokens headers
    let headers = filter_application_cookies (
        remove_prefixed (codes "x-auth-mini-") (
          remove (codes "content-length")
            (remove_fixed_hop_headers (remove_names nominated headers))))
    append_renewal renewal (if websocket then upgrade_headers headers else headers)

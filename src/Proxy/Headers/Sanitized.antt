-- ===== src/Proxy/Headers/Sanitized.antt =====
-- src/proxy.rs: what an upstream and a client find in the headers that the proxy passes on.
use auth_mini_gateway.Prelude.{
  ◌≡◌, ◌≢◌, refl, Bool, true, false, ◌&&◌, ◌||◌, not, Option, none, some, List, [], ◌∷◌, ◌++◌, any,
  if◌then◌else◌, arith, Option-cases, ap, inl, inr, ◌⊎◌,
}
use auth_mini_gateway.Prelude.Result.{ok, ok_or, refuse_if, >>=-eq-ok}
use auth_mini_gateway.Prelude.Text.{Str, codes, str_eq, eq_of_str_eq}
use auth_mini_gateway.Prelude.Text.Split.{starts_with}
use auth_mini_gateway.Http.{get, is_safe_header_value}
use auth_mini_gateway.Crates.{IpAddr}
use auth_mini_gateway.Crates.HeaderMap.{HttpCrate, IsHeaderMap}
use auth_mini_gateway.Proxy.{ProxyError, ActualProtocol, http1, http2, is_http1, internal}
use auth_mini_gateway.Proxy.Headers.{
  fixed_hop_names, remove_names, with_prefix, remove_prefixed, remove_fixed_hop_headers, stripped,
  parse_connection_tokens, with_gateway, identity_header_value, sanitize_request_headers,
}

abbrev pub is_listed : Str → List Str → Bool
is_listed m names = any (λ n. str_eq n m) names

is_listed-with_prefix :
    (p m : Str) (names : List Str)
    → is_listed m (with_prefix p names) ≡ (starts_with p m && is_listed m names)
unfolding with_prefix
is_listed-with_prefix p m [] = ground arith
is_listed-with_prefix p m (n ∷ names) =
    ground (arith, is_listed-with_prefix p m names, eq_of_str_eq n m)

nil_or : (xs : List Str) → (xs ≡ []) ⊎ (xs ≢ [])
nil_or [] = inl refl
nil_or (x ∷ xs) = inr (λ e. ground arith)

abbrev credentials : List Str
credentials =
    codes "content-length"
    ∷ codes "cookie"
    ∷ codes "authorization"
    ∷ codes "proxy-authorization"
    ∷ codes "forwarded"
    ∷ codes "x-real-ip"
    ∷ codes "expect"
    ∷ []

-- The names whose headers no client can pass to the upstream.
abbrev pub is_stripped : List Str → Str → Bool
is_stripped nominated m =
    is_listed m nominated
    || is_listed m fixed_hop_names
    || is_listed m credentials
    || starts_with (codes "x-auth-mini-") m
    || starts_with (codes "x-forwarded-") m

-- What the gateway sets, the latest first.
abbrev pub gateway_headers : Str → Str → Str → Str → Bool → ActualProtocol → List (Str × Str)
gateway_headers authority ip proto user websocket protocol =
    (if websocket && is_http1 protocol
      then (codes "upgrade", codes "websocket") ∷ (codes "connection", codes "upgrade") ∷ []
      else [])
    ++ ((codes "x-auth-mini-user-id", user)
        ∷ (codes "x-forwarded-host", authority)
        ∷ (codes "x-forwarded-proto", proto)
        ∷ (codes "x-forwarded-for", ip)
        ∷ (if is_http1 protocol then (codes "host", authority) ∷ [] else []))

-- The names that HTTP/2 does not carry.
abbrev pub is_dropped : Bool → ActualProtocol → Str → Bool
is_dropped websocket http1 m = false
is_dropped websocket http2 m =
    str_eq (codes "host") m
    || (websocket
        && (str_eq (codes "sec-websocket-accept") m || str_eq (codes "sec-websocket-key") m))

abbrev pub set_or : Option Str → List Str → List Str
set_or none passed = passed
set_or (some value) passed = value ∷ []

clears :
    (n h c a f : Bool) (x : List Str)
    → (if f then [] else if a then [] else if c then [] else if h then [] else if n then [] else x)
      ≡ (if n || h || c || a || f then [] else x)
clears n h c a f x = ground arith

-- No name of the gateway's.
abbrev IsForeign : Str → Type 0
IsForeign m =
    (str_eq (codes "x-auth-mini-user-id") m ≡ false)
    × (str_eq (codes "x-forwarded-host") m ≡ false)
    × (str_eq (codes "x-forwarded-proto") m ≡ false)
    × (str_eq (codes "x-forwarded-for") m ≡ false)

accept_apart : (m : Str) → str_eq (codes "sec-websocket-accept") m ≡ true → IsForeign m
unfolding str_eq
accept_apart m t = rw (← eq_of_str_eq (codes "sec-websocket-accept") m t) (refl, refl, refl, refl)

key_apart : (m : Str) → str_eq (codes "sec-websocket-key") m ≡ true → IsForeign m
unfolding str_eq
key_apart m t = rw (← eq_of_str_eq (codes "sec-websocket-key") m t) (refl, refl, refl, refl)

two_steps :
    (a b : Bool) (x : List Str)
    → (if a then [] else if b then [] else x) ≡ (if a || b then [] else x)
two_steps a b x = ground arith

module _ (c : HttpCrate) (l : IsHeaderMap c) where
  pub get_all-remove_names :
      (names : List Str) (h : c.HeaderMap) (m : Str)
      → c.get_all (remove_names c names h) m ≡ (if is_listed m names then [] else c.get_all h m)
  unfolding remove_names
  get_all-remove_names [] h m = refl
  get_all-remove_names (n ∷ names) h m =
      ground (arith, get_all-remove_names names (c.remove n h) m, l.get_all-remove n m h)

  unlisted : (h : c.HeaderMap) (m : Str) → is_listed m (c.keys h) ≡ false → c.get_all h m ≡ []
  unlisted h m f = elim (nil_or (c.get_all h m)) [
    | inl e ↦ e
    | inr ne ↦ absurd (ground (arith, l.keys_complete m h ne))
  ]

  pub get_all-remove_prefixed :
      (p : Str) (h : c.HeaderMap) (m : Str)
      → c.get_all (remove_prefixed c p h) m ≡ (if starts_with p m then [] else c.get_all h m)
  unfolding remove_prefixed
  get_all-remove_prefixed p h m = ground (
    arith,
    get_all-remove_names (with_prefix p (c.keys h)) h m,
    is_listed-with_prefix p m (c.keys h),
    unlisted h m,
  )

  get_all-stripped :
      (nominated : List Str) (h : c.HeaderMap) (m : Str)
      → c.get_all (stripped c nominated h) m
        ≡ (if is_stripped nominated m then [] else c.get_all h m)
  unfolding stripped remove_fixed_hop_headers remove_names
  get_all-stripped nominated h m =
      let named = remove_names c nominated h in
      let hop = remove_names c fixed_hop_names named in
      let bare = remove_names c credentials hop in
      let private = remove_prefixed c (codes "x-auth-mini-") bare in
      rw
        (
          get_all-remove_prefixed (codes "x-forwarded-") private m,
          get_all-remove_prefixed (codes "x-auth-mini-") bare m,
          get_all-remove_names credentials hop m,
          get_all-remove_names fixed_hop_names named m,
          get_all-remove_names nominated h m,
        )
        (clears (is_listed m nominated) (is_listed m fixed_hop_names) (is_listed m credentials)
          (starts_with (codes "x-auth-mini-") m) (starts_with (codes "x-forwarded-") m)
          (c.get_all h m))

  sets :
      (authority ip proto user : Str) (websocket : Bool) (protocol : ActualProtocol)
      (h : c.HeaderMap) (m : Str)
      → c.get_all (with_gateway c authority ip proto user websocket protocol h) m
        ≡ set_or
            (get m (gateway_headers authority ip proto user websocket protocol))
            (if is_dropped websocket protocol m then [] else c.get_all h m)
  unfolding with_gateway get
  sets authority ip proto user true http1 h m = simp (l.get_all-insert) (ground arith)
  sets authority ip proto user false http1 h m = simp (l.get_all-insert) (ground arith)
  sets authority ip proto user true http2 h m =
      simp (l.get_all-insert, l.get_all-remove) (ground (arith, accept_apart m, key_apart m))
  sets authority ip proto user false http2 h m =
      simp (l.get_all-insert, l.get_all-remove) (ground arith)

  pub kept : (s : Str) (e : ProxyError) {v : Str} → ok_or (c.value_from_str s) e ≡ ok v → v ≡ s
  kept s e {v} q = elim (Option-cases (c.value_from_str s)) [
    | inl f ↦ ground arith
    | inr (w, f) ↦ ground (arith, l.value_kept s w f)
  ]

  identity_kept : (s : Str) {v : Str} → identity_header_value c s ≡ ok v → v ≡ s
  unfolding identity_header_value
  identity_kept s q =
      let (u, safe, rest) = >>=-eq-ok (refuse_if (not (is_safe_header_value s)) internal) _ q in
      kept s internal rest

  sanitized :
      (nominated : List Str) (h : c.HeaderMap) (authority ip proto user : Str) (websocket : Bool)
      (protocol : ActualProtocol) (m : Str)
      → c.get_all
          (with_gateway c authority ip proto user websocket protocol (stripped c nominated h))
          m
        ≡ set_or (get m (gateway_headers authority ip proto user websocket protocol)) (
            if is_dropped websocket protocol m || is_stripped nominated m
            then []
            else c.get_all h m)
  sanitized nominated h authority ip proto user websocket protocol m =
      rw
        (
          sets authority ip proto user websocket protocol (stripped c nominated h) m,
          get_all-stripped nominated h m,
        )
        (ap (set_or (get m (gateway_headers authority ip proto user websocket protocol)))
          (two_steps (is_dropped websocket protocol m) (is_stripped nominated m) (c.get_all h m)))

  -- Under each name the upstream finds what the gateway sets there, and else what the client sent,
  -- unless the name is stripped: the names that Connection nominates, the hop-by-hop names, cookies,
  -- credentials, client addresses, lengths and expectations, and all names of the gateway's and of the
  -- forwarding families. HTTP/2 carries no host and no handshake key.
  pub sanitize_request_headers-view :
      (h : c.HeaderMap) (authority : Str) (ip : IpAddr) (proto user : Str) (websocket : Bool)
      (protocol : ActualProtocol) (m : Str) {out : c.HeaderMap}
      → sanitize_request_headers c h authority ip proto user websocket protocol ≡ ok out
      → (nominated : List Str) × (parse_connection_tokens c h ≡ ok nominated)
        × (c.get_all out m
            ≡ set_or
                (get m (gateway_headers authority (c.ip_text ip) proto user websocket protocol))
                (if is_dropped websocket protocol m || is_stripped nominated m
                  then []
                  else c.get_all h m))
  unfolding sanitize_request_headers
  sanitize_request_headers-view h authority ip proto user websocket protocol m {out} q =
      let (nominated, parsed, q1) = >>=-eq-ok (parse_connection_tokens c h) _ q in
      let (for_value, for_ok, q2) =
        >>=-eq-ok (ok_or (c.value_from_str (c.ip_text ip)) internal) _ q1 in
      let (proto_value, proto_ok, q3) = >>=-eq-ok (ok_or (c.value_from_str proto) internal) _ q2 in
      let (identity, identity_ok, q4) = >>=-eq-ok (identity_header_value c user) _ q3 in
      let out_eq : with_gateway c authority (c.ip_text ip) proto user websocket protocol
            (stripped c nominated h)
          ≡ out =
        cc (
          q4,
          kept (c.ip_text ip) internal for_ok,
          kept proto internal proto_ok,
          identity_kept user identity_ok,
        ) in
      (
        nominated,
        parsed,
        rw (← out_eq)
            (sanitized nominated h authority (c.ip_text ip) proto user websocket protocol m),
      )

-- ===== src/Proxy/Headers/Replies.antt =====
-- src/proxy.rs: what a client finds in the headers of an upstream's response, and which cookies pass.
use auth_mini_gateway.Prelude.{
  ◌≡◌, refl, Bool, true, false, ◌||◌, Option, none, some, List, [], ◌∷◌, ◌++◌, append_assoc,
  append-nil, if◌then◌else◌, arith, Bool-cases, inl, inr,
}
use auth_mini_gateway.Prelude.Result.{ok, ok_or, >>=-eq-ok}
use auth_mini_gateway.Prelude.Text.{Str, codes, str_eq, eq_of_str_eq}
use auth_mini_gateway.Prelude.Text.Split.{starts_with}
use auth_mini_gateway.Http.{get}
use auth_mini_gateway.Crates.HeaderMap.{HttpCrate, IsHeaderMap}
use auth_mini_gateway.Proxy.{internal}
use auth_mini_gateway.Proxy.Headers.{
  fixed_hop_names, remove_names, remove_prefixed, remove_fixed_hop_headers,
  parse_response_connection_tokens, is_allowed_application_cookie, append_allowed,
  filter_application_cookies, upgrade_headers, append_renewal, sanitize_response_head,
}
use auth_mini_gateway.Proxy.Headers.Sanitized.{
  is_listed, set_or, get_all-remove_names, get_all-remove_prefixed, kept,
}

abbrev pub kept_cookies : List Str → List Str
kept_cookies [] = []
kept_cookies (value ∷ values) =
    let rest = kept_cookies values in
    if is_allowed_application_cookie value then value ∷ rest else rest

-- The names whose headers no upstream can pass to the client.
abbrev pub is_hidden : List Str → Str → Bool
is_hidden nominated m =
    is_listed m nominated
    || is_listed m fixed_hop_names
    || str_eq (codes "content-length") m
    || starts_with (codes "x-auth-mini-") m

abbrev pub renewals : Option Str → List Str
renewals none = []
renewals (some cookie) = cookie ∷ []

abbrev pub upgrade_pairs : Bool → List (Str × Str)
upgrade_pairs true =
    (codes "upgrade", codes "websocket") ∷ (codes "connection", codes "upgrade") ∷ []
upgrade_pairs false = []

-- What the client finds under a name, where `passed` is what the upstream sent there.
abbrev pub client_values : List Str → Option Str → Bool → (Str → List Str) → Str → List Str
client_values nominated renewal websocket sent m =
    let passed = λ (n : Str). if is_hidden nominated n then [] else sent n in
    if str_eq (codes "set-cookie") m
    then kept_cookies (passed (codes "set-cookie")) ++ renewals renewal
    else set_or (get m (upgrade_pairs websocket)) (passed m)

no_upgrade :
    (websocket : Bool) (m : Str)
    → str_eq (codes "set-cookie") m ≡ true
    → get m (upgrade_pairs websocket) ≡ none
unfolding get str_eq
no_upgrade true m t = rw (← eq_of_str_eq (codes "set-cookie") m t) refl
no_upgrade false m t = refl

hides :
    (n h l a : Bool) (x : List Str)
    → (if a then [] else if l then [] else if h then [] else if n then [] else x)
      ≡ (if n || h || l || a then [] else x)
hides n h l a x = ground arith

module _ (c : HttpCrate) (l : IsHeaderMap c) where
  get_all-append_allowed :
      (values : List Str) (h : c.HeaderMap) (m : Str)
      → c.get_all (append_allowed c values h) m ≡ (
          if str_eq (codes "set-cookie") m
          then c.get_all h m ++ kept_cookies values
          else c.get_all h m)
  unfolding append_allowed
  get_all-append_allowed [] h m = ground (arith, append-nil (c.get_all h m))
  get_all-append_allowed (v ∷ vs) h m = ground (
    arith,
    get_all-append_allowed vs h m,
    get_all-append_allowed vs (c.append (codes "set-cookie") v h) m,
    l.get_all-append (codes "set-cookie") v m h,
    append_assoc (c.get_all h m) (v ∷ []) (kept_cookies vs),
  )

  get_all-filter :
      (h : c.HeaderMap) (m : Str)
      → c.get_all (filter_application_cookies c h) m ≡ (
          if str_eq (codes "set-cookie") m
          then kept_cookies (c.get_all h (codes "set-cookie"))
          else c.get_all h m)
  unfolding filter_application_cookies
  get_all-filter h m = ground (
    arith,
    get_all-append_allowed (c.get_all h (codes "set-cookie")) (c.remove (codes "set-cookie") h) m,
    l.get_all-remove (codes "set-cookie") m h,
  )

  abbrev bare : List Str → c.HeaderMap → c.HeaderMap
  bare nominated h =
      remove_prefixed c (codes "x-auth-mini-") (
        c.remove (codes "content-length") (remove_fixed_hop_headers c (remove_names c nominated h)))

  get_all-bare :
      (nominated : List Str) (h : c.HeaderMap) (m : Str)
      → c.get_all (bare nominated h) m ≡ (if is_hidden nominated m then [] else c.get_all h m)
  unfolding remove_fixed_hop_headers
  get_all-bare nominated h m =
      let named = remove_names c nominated h in
      let hop = remove_names c fixed_hop_names named in
      rw
        (
          get_all-remove_prefixed c l (codes "x-auth-mini-") (c.remove (codes "content-length") hop)
              m,
          l.get_all-remove (codes "content-length") m hop,
          get_all-remove_names c l fixed_hop_names named m,
          get_all-remove_names c l nominated h m,
        )
        (hides (is_listed m nominated) (is_listed m fixed_hop_names)
          (str_eq (codes "content-length") m) (starts_with (codes "x-auth-mini-") m)
          (c.get_all h m))

  get_all-upgrade :
      (websocket : Bool) (h : c.HeaderMap) (m : Str)
      → c.get_all (if websocket then upgrade_headers c h else h) m
        ≡ set_or (get m (upgrade_pairs websocket)) (c.get_all h m)
  unfolding upgrade_headers get
  get_all-upgrade true h m = simp (l.get_all-insert) (ground arith)
  get_all-upgrade false h m = refl

  get_all-append_renewal :
      (renewal : Option Str) (h : c.HeaderMap) (m : Str) {out : c.HeaderMap}
      → append_renewal c renewal h ≡ ok out
      → c.get_all out m ≡ (
          if str_eq (codes "set-cookie") m
          then c.get_all h m ++ renewals renewal
          else c.get_all h m)
  unfolding append_renewal
  get_all-append_renewal none h m q = ground (arith, append-nil (c.get_all h m))
  get_all-append_renewal (some cookie) h m {out} q =
      let (value, valid, q1) = >>=-eq-ok (ok_or (c.value_from_str cookie) internal) _ q in
      let out_eq : c.append (codes "set-cookie") cookie h ≡ out =
        cc (q1, kept c l cookie internal valid) in
      rw (← out_eq) (l.get_all-append (codes "set-cookie") cookie m h)

  replied :
      (nominated : List Str) (h : c.HeaderMap) (renewal : Option Str) (websocket : Bool) (m : Str)
      {out : c.HeaderMap}
      → append_renewal c renewal (
          if websocket
          then upgrade_headers c (filter_application_cookies c (bare nominated h))
          else filter_application_cookies c (bare nominated h))
        ≡ ok out
      → c.get_all out m ≡ client_values nominated renewal websocket (c.get_all h) m
  replied nominated h renewal websocket m {out} q =
      let filtered = filter_application_cookies c (bare nominated h) in
      rw
        (
          get_all-append_renewal renewal
              (if websocket then upgrade_headers c filtered else filtered) m q,
          get_all-upgrade websocket filtered m,
          get_all-filter (bare nominated h) m,
          get_all-bare nominated h m,
          get_all-bare nominated h (codes "set-cookie"),
        )
        (elim (Bool-cases (str_eq (codes "set-cookie") m)) [
          | inl t ↦ rw (t, no_upgrade websocket m t) refl
          | inr f ↦ rw f refl
        ])

  -- The client finds the upstream's headers, without the names that Connection nominates, the
  -- hop-by-hop names, the length and all names of the gateway's family. Of the upstream's cookies
  -- those that are allowed come through in their order, with the renewed session cookie behind them.
  pub sanitize_response_head-view :
      (h : c.HeaderMap) (renewal : Option Str) (websocket : Bool) (m : Str) {out : c.HeaderMap}
      → sanitize_response_head c h renewal websocket ≡ ok out
      → (nominated : List Str) × (parse_response_connection_tokens c h ≡ ok nominated)
        × (c.get_all out m ≡ client_values nominated renewal websocket (c.get_all h) m)
  unfolding sanitize_response_head
  sanitize_response_head-view h renewal websocket m {out} q =
      let (nominated, parsed, q1) = >>=-eq-ok (parse_response_connection_tokens c h) _ q in
      (nominated, parsed, replied nominated h renewal websocket m q1)

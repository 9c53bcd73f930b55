-- ===== src/Tests/Proxying.antt =====
-- Runs of the proxy's rules on headers and of its scanners.
use auth_mini_gateway.Prelude.{
  ◌≡◌, ◌≢◌, ◌↔◌, ◌⊎◌, ◌∷◌, [], refl, true, false, some, List, if◌then◌else◌, ◌||◌, Bool,
}
use auth_mini_gateway.Prelude.Result.{ok}
use auth_mini_gateway.Prelude.Text.{Str, codes, str_eq, lowercase}
use auth_mini_gateway.Prelude.Text.Split.{starts_with, split, split_once}
use auth_mini_gateway.Prelude.Text.Trim.{trim}
use auth_mini_gateway.Http.{get, is_safe_header_value, is_token_byte}
use auth_mini_gateway.Crates.{v4}
use auth_mini_gateway.Proxy.{http1}
use auth_mini_gateway.Proxy.Headers.{
  sanitize_request_headers, derive_client_ip, sanitize_response_head, parse_connection_tokens,
  parse_response_connection_tokens, remove_names, remove_prefixed, remove_fixed_hop_headers,
  stripped, filter_application_cookies, is_allowed_application_cookie,
}
use auth_mini_gateway.Proxy.Headers.Sanitized.{
  gateway_headers, is_dropped, is_stripped, set_or, sanitize_request_headers-view,
}
use auth_mini_gateway.Proxy.Headers.Address.{Forwards, client_address_is_honest}
use auth_mini_gateway.Proxy.Headers.Replies.{client_values, sanitize_response_head-view}
use auth_mini_gateway.Proxy.Headers.CookieNames.{browser_name, is_allowed_application_cookie-safe}
use auth_mini_gateway.Proxy.Frames.{Fed, new_scanner, feed}
use auth_mini_gateway.Proxy.Generation.{ordinary, extended_connect, linearize_dispatch}
use auth_mini_gateway.Proxy.Generation.History.{
  Event, install, dispatch, control_after, IsLiveAs, Suits, linearize_dispatch_iff,
}
use auth_mini_gateway.Proxy.Frames.Ready.{new_scanner-IsReady}
use auth_mini_gateway.Proxy.Frames.Reads.{feed_all, concat, LeavesReady, feed_all-concat}
use auth_mini_gateway.Tests.HeaderLists.{Pairs, http, http-IsHeaderMap, get_all, remove, names}

-- The client spoofs a user and an address, and nominates a header of its own.
abbrev client : Pairs
client =
    (codes "connection", codes "x-own")
    ∷ (codes "x-own", codes "1")
    ∷ (codes "x-auth-mini-user-id", codes "root")
    ∷ (codes "x-forwarded-for", codes "9.9.9.9")
    ∷ (codes "cookie", codes "a=b")
    ∷ (codes "accept", codes "text/html")
    ∷ []

abbrev passed : Pairs
passed =
    (codes "x-auth-mini-user-id", codes "user")
    ∷ (codes "x-forwarded-host", codes "app")
    ∷ (codes "x-forwarded-proto", codes "https")
    ∷ (codes "x-forwarded-for", codes "10.1.2.3")
    ∷ (codes "host", codes "app")
    ∷ (codes "accept", codes "text/html")
    ∷ []

sanitized_client :
    sanitize_request_headers http client
      (codes "app")
      (v4 5)
      (codes "https")
      (codes "user")
      false
      http1
    ≡ ok passed
unfolding sanitize_request_headers parse_connection_tokens split trim lowercase get_all remove
    stripped remove_names remove_prefixed remove_fixed_hop_headers names starts_with str_eq
    is_safe_header_value
sanitized_client = refl

sanitize_request_headers-view_example :
    (nominated : List Str) × (parse_connection_tokens http client ≡ ok nominated)
    × (get_all passed (codes "accept")
        ≡ set_or
            (get (codes "accept") (
              gateway_headers
                (codes "app")
                (codes "10.1.2.3")
                (codes "https")
                (codes "user")
                false
                http1))
            (if is_dropped false http1 (codes "accept") || is_stripped nominated (codes "accept")
              then []
              else get_all client (codes "accept")))
sanitize_request_headers-view_example =
    sanitize_request_headers-view http http-IsHeaderMap client (codes "app") (v4 5) (codes "https")
      (codes "user") false http1 (codes "accept") sanitized_client

untrusted : derive_client_ip http (v4 5) client (λ ip. false) ≡ ok (v4 5)
unfolding derive_client_ip
untrusted = refl

client_address_is_honest_example :
    (get_all passed (codes "x-forwarded-for") ≡ codes "10.1.2.3" ∷ [])
    × ((v4 5 ≡ v4 5) ⊎ ((◌≡◌ {A = Bool} false true) × Forwards http client (v4 5)))
client_address_is_honest_example =
    client_address_is_honest http http-IsHeaderMap (v4 5) (λ ip. false) client (codes "app")
      (codes "https") (codes "user") false http1 untrusted sanitized_client

-- The upstream tries to set the gateway's cookie.
abbrev upstream : Pairs
upstream =
    (codes "set-cookie", codes "amg_session=x")
    ∷ (codes "set-cookie", codes "theme=dark")
    ∷ (codes "content-length", codes "3")
    ∷ []

abbrev answered : Pairs
answered =
    (codes "set-cookie", codes "theme=dark") ∷ (codes "set-cookie", codes "amg_session=new") ∷ []

sanitized_upstream :
    sanitize_response_head http upstream (some (codes "amg_session=new")) false ≡ ok answered
unfolding sanitize_response_head parse_response_connection_tokens parse_connection_tokens get_all
    remove remove_names remove_prefixed remove_fixed_hop_headers names starts_with str_eq
    filter_application_cookies is_allowed_application_cookie split_once split is_token_byte
sanitized_upstream = refl

sanitize_response_head-view_example :
    (nominated : List Str) × (parse_response_connection_tokens http upstream ≡ ok nominated)
    × (get_all answered (codes "set-cookie")
        ≡ client_values nominated
            (some (codes "amg_session=new"))
            false
            (get_all upstream)
            (codes "set-cookie"))
sanitize_response_head-view_example =
    sanitize_response_head-view http http-IsHeaderMap upstream (some (codes "amg_session=new"))
      false (codes "set-cookie") sanitized_upstream

theme : is_allowed_application_cookie (codes " theme=dark; Path=/") ≡ true
unfolding is_allowed_application_cookie split_once split is_token_byte str_eq
theme = refl

is_allowed_application_cookie-safe_example :
    (name : Str) × (browser_name (codes " theme=dark; Path=/") ≡ some name)
    × (name ≢ codes "amg_session")
    × (name ≢ codes "amg_login_state")
is_allowed_application_cookie-safe_example =
    is_allowed_application_cookie-safe (codes " theme=dark; Path=/") theme

-- An empty SETTINGS frame, cut in its header.
abbrev reads : List Str
reads = (0 ∷ 0 ∷ 0 ∷ 4 ∷ []) ∷ (0 ∷ 0 ∷ 0 ∷ 0 ∷ 0 ∷ []) ∷ []

feed_all-concat_example :
    (feed_all new_scanner reads ≡ feed new_scanner (concat reads))
    × ((fed : Fed) × (feed new_scanner (concat reads) ≡ some fed) × LeavesReady fed)
feed_all-concat_example = feed_all-concat new_scanner reads new_scanner-IsReady

-- The generation was installed with extended CONNECT, and has passed a request on.
abbrev history : List Event
history = dispatch ordinary ∷ install true ∷ []

linearize_dispatch_iff_example :
    ((linearize_dispatch {R = Unit} extended_connect (some tt) (control_after 1 history)).0
      ≡ some (ok tt))
    ↔ ((enabled : Bool) × IsLiveAs enabled history × Suits extended_connect enabled)
linearize_dispatch_iff_example = linearize_dispatch_iff 1 history extended_connect

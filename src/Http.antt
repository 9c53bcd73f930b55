-- ===== src/Http.antt =====
-- src/http.rs: requests, responses and header safety. The body of a response is its text.
pub mod Laws
use auth_mini_gateway.Prelude.{
  ℕ, ◌+◌, Bool, true, false, ◌&&◌, ◌||◌, not, Option, none, some, List, [], ◌∷◌, ◌++◌, leb, ◌==◌,
  if◌then◌else◌, is_empty, all,
}
use auth_mini_gateway.Prelude.Text.{Str, codes, str_eq, eq_ignore_case, is_alphanumeric}
use auth_mini_gateway.Prelude.Text.Hex.{hex_pair}
use auth_mini_gateway.Prelude.Text.Split.{split, split_once}
use auth_mini_gateway.Prelude.Text.Utf8.{from_utf8}

-- A HashMap<String, String>: insert replaces.
abbrev pub Params : Type 0
Params = List (Str × Str)

unfoldable pub get : Str → Params → Option Str
get k [] = none
get k ((j, v) ∷ m) = if str_eq j k then some v else get k m

unfoldable pub insert : Str → Str → Params → Params
insert k v [] = (k, v) ∷ []
insert k v ((j, w) ∷ m) = if str_eq j k then (k, v) ∷ m else (j, w) ∷ insert k v m

pub record Request : Type 0 where
  pub method : Str
  pub target : Str
  pub path : Str
  pub query : Params
  pub headers : List (Str × Str)
  pub body : Str

pub record Response : Type 0 where
  pub status : ℕ
  pub content_type : Str
  pub headers : List (Str × Str)
  pub body : Str

url_cons : Option ℕ → Option Str → Option Str
url_cons (some c) (some s) = some (c ∷ s)
url_cons _ _ = none

-- The loop of `url_decode`, over the bytes that are left. A `%` needs two bytes behind it.
url_bytes : Str → Option Str
unfolding url_cons
url_bytes [] = some []
url_bytes (c ∷ []) =
    if c == b'+' then some (b' ' ∷ []) else if c == b'%' then none else some (c ∷ [])
url_bytes (c ∷ a ∷ []) =
    let rest = url_bytes (a ∷ []) in
    if c == b'+'
    then url_cons (some b' ') rest
    else if c == b'%'
    then none
    else url_cons (some c) rest
url_bytes (c ∷ a ∷ b ∷ s) =
    let rest = url_bytes (a ∷ b ∷ s) in
    let after = url_bytes s in
    if c == b'+'
    then url_cons (some b' ') rest
    else if c == b'%'
    then url_cons (hex_pair a b) after
    else url_cons (some c) rest

decoded : Option Str → Option Str
decoded none = none
decoded (some out) = from_utf8 out

unfoldable pub url_decode : Str → Option Str
unfolding url_bytes decoded
url_decode value = decoded (url_bytes value)

pair_or_empty : Str → Option (Str × Str) → Str × Str
pair_or_empty whole none = (whole, [])
pair_or_empty whole (some p) = p

insert_pair : Option Str → Option Str → Params → Params
insert_pair (some key) (some value) params = insert key value params
insert_pair _ _ params = params

-- for pair in query.split('&').filter(|part| !part.is_empty())
params_from : Params → List Str → Params
unfolding pair_or_empty insert_pair
params_from params [] = params
params_from params (pair ∷ pairs) =
    let (key, value) = pair_or_empty pair (split_once b'=' pair) in
    params_from
      (if is_empty pair then params else insert_pair (url_decode key) (url_decode value) params)
      pairs

unfoldable pub parse_target : Str → Str × Params
unfolding params_from pair_or_empty
parse_target target =
    let (path, query) = pair_or_empty target (split_once b'?' target) in
    (path, params_from [] (split b'&' query))

unfoldable pub new_request : Str → Str → List (Str × Str) → Str → Request
new_request method target headers body =
    let parsed = parse_target target in
    record {
      method = method;
      target = target;
      path = parsed.0;
      query = parsed.1;
      headers = headers;
      body = body;
    }

unfoldable pub find_header : Str → List (Str × Str) → Option Str
find_header name [] = none
find_header name ((candidate, value) ∷ hs) =
    if eq_ignore_case candidate name then some value else find_header name hs

-- Request::header
unfoldable pub header : Request → Str → Option Str
unfolding find_header
header r name = find_header name r.headers

abbrev pub is_safe_byte : ℕ → Bool
is_safe_byte byte = leb 0x20 byte && not (byte == 0x7f)

unfoldable pub is_safe_header_value : Str → Bool
is_safe_header_value value = all is_safe_byte value

one_of : ℕ → Str → Bool
one_of byte [] = false
one_of byte (c ∷ cs) = (byte == c) || one_of byte cs

unfoldable pub is_token_byte : ℕ → Bool
unfolding one_of
is_token_byte byte = is_alphanumeric byte || one_of byte (codes "!#$%&'*+-.^_`|~")

unfoldable pub is_safe_header_name : Str → Bool
unfolding is_token_byte
is_safe_header_name name = not (is_empty name) && all is_token_byte name

unfoldable pub new_response : ℕ → Str → Str → Response
new_response status content_type body = record {
  status = status;
  content_type = content_type;
  headers = [];
  body = body;
}

unfoldable pub with_header : Response → Str → Str → Response
with_header r name value =
    if is_safe_header_name name && is_safe_header_value value
    then record r { headers = r.headers ++ ((name, value) ∷ []) }
    else r

unfoldable pub with_cookie : Response → Str → Response
unfolding with_header
with_cookie r cookie = with_header r (codes "Set-Cookie") cookie

unfoldable pub prepend_cookie : Response → Str → Response
prepend_cookie r cookie =
    if is_safe_header_value cookie
    then record r { headers = (codes "Set-Cookie", cookie) ∷ r.headers }
    else r

unfoldable pub text : ℕ → Str → Response
unfolding new_response
text status body = new_response status (codes "text/plain; charset=utf-8") body

unfoldable pub empty : ℕ → Response
unfolding new_response
empty status = new_response status (codes "text/plain; charset=utf-8") []

-- The JSON text is that of serde_json.
unfoldable pub json : ℕ → Str → Response
unfolding new_response
json status value = new_response status (codes "application/json; charset=utf-8") value

unfoldable pub html : Str → Response
unfolding new_response with_header
html body =
    with_header
      (with_header (new_response 200 (codes "text/html; charset=utf-8") body)
        (codes "Cache-Control") (codes "no-store"))
      (codes "Content-Security-Policy")
      (codes
        "default-src 'none'; script-src 'unsafe-inline'; connect-src 'self'; base-uri 'none'; frame-ancestors 'none'")

unfoldable pub redirect : Str → Response
unfolding empty with_header
redirect location =
    with_header (with_header (empty 302) (codes "Location") location) (codes "Cache-Control")
      (codes "no-store")

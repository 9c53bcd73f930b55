-- ===== src/Http/Laws.antt =====
-- src/http.rs: no response that the gateway builds can be split by a header.
use auth_mini_gateway.Prelude.{
  ℕ, Bool, true, ◌&&◌, ◌≡◌, refl, [], ◌∷◌, arith, all, all-append, Bool-cases, inl, inr,
  if◌then◌else◌, some,
}
use auth_mini_gateway.Prelude.Text.{Str, codes, str_eq, str_eq_iff}
use auth_mini_gateway.Http.{
  Response, Params, get, insert, is_safe_header_value, is_safe_header_name, with_header,
  with_cookie, prepend_cookie, new_response, text, empty, json, redirect,
}

abbrev pub is_safe_header : Str × Str → Bool
is_safe_header h = is_safe_header_name h.0 && is_safe_header_value h.1

-- Every header has a token for its name and a value without control bytes.
abbrev pub IsSafe : Response → Type 0
IsSafe r = all is_safe_header r.headers ≡ true

pub with_header-IsSafe :
    (r : Response) (name value : Str) → IsSafe r → IsSafe (with_header r name value)
unfolding with_header
with_header-IsSafe r name value h =
    ground (arith, all-append is_safe_header r.headers ((name, value) ∷ []))

pub with_cookie-IsSafe : (r : Response) (cookie : Str) → IsSafe r → IsSafe (with_cookie r cookie)
unfolding with_cookie
with_cookie-IsSafe r cookie h = with_header-IsSafe r (codes "Set-Cookie") cookie h

set_cookie_name : is_safe_header_name (codes "Set-Cookie") ≡ true
unfolding is_safe_header_name
set_cookie_name = refl

pub prepend_cookie-IsSafe :
    (r : Response) (cookie : Str) → IsSafe r → IsSafe (prepend_cookie r cookie)
unfolding prepend_cookie
prepend_cookie-IsSafe r cookie h = elim (Bool-cases (is_safe_header_value cookie)) [
  | inl e ↦ rw e (rw (set_cookie_name, e) h)
  | inr e ↦ rw e h
]

pub new_response-IsSafe :
    (status : ℕ) (content_type body : Str) → IsSafe (new_response status content_type body)
unfolding new_response
new_response-IsSafe status content_type body = refl

pub text-IsSafe : (status : ℕ) (body : Str) → IsSafe (text status body)
unfolding text
text-IsSafe status body = refl

pub empty-IsSafe : (status : ℕ) → IsSafe (empty status)
unfolding empty
empty-IsSafe status = refl

pub json-IsSafe : (status : ℕ) (value : Str) → IsSafe (json status value)
unfolding json
json-IsSafe status value = refl

-- Whatever the location is, control bytes in it put no header into the response.
pub redirect-IsSafe : (location : Str) → IsSafe (redirect location)
unfolding redirect
redirect-IsSafe location =
    with_header-IsSafe (with_header (empty 302) (codes "Location") location) (codes "Cache-Control")
      (codes "no-store")
      (with_header-IsSafe (empty 302) (codes "Location") location (empty-IsSafe 302))

pub get-insert :
    (k j v : Str) (m : Params) → get j (insert k v m) ≡ (if str_eq k j then some v else get j m)
unfolding get insert
get-insert k j v [] = refl
get-insert k j v ((i, w) ∷ m) =
    ground (arith, str_eq_iff k j, str_eq_iff i k, str_eq_iff i j, get-insert k j v m)

-- ===== src/Cookies/Writing.antt =====
-- src/cookies.rs: the Set-Cookie values that the gateway writes are safe header values, so that
-- `with_cookie`, which drops an unsafe value in silence, keeps every one of them.
use auth_mini_gateway.Prelude.{
  ◌≡◌, refl, Bool, true, false, [], ◌∷◌, ◌++◌, all, all-append_intro, all_imp, if◌then◌else◌,
}
use auth_mini_gateway.Prelude.Text.{Str, codes}
use auth_mini_gateway.Util.{DateTime}
use auth_mini_gateway.Util.TimingEq.{IsBytes}
use auth_mini_gateway.Crates.{Crates}
use auth_mini_gateway.Config.{Config, SameSite, lax, strict}
use auth_mini_gateway.Http.{
  Response, is_safe_byte, is_safe_header_value, is_safe_header_name, with_cookie,
}
use auth_mini_gateway.Cookies.{
  percent_encode, same_site_value, cookie_prefix, serialize_signed_cookie, sign_value, clear_cookie,
}
use auth_mini_gateway.Cookies.Percent.{is_encoded, percent_encode-encoded, encoded-safe}
use auth_mini_gateway.Cookies.Reading.{IsCookieName}

-- A formatted date holds no control byte.
abbrev pub DatesAreSafe : Crates → Type 0
DatesAreSafe c = (t : DateTime) → all is_safe_byte (c.http_date t) ≡ true

append_safe :
    (s t : Str)
    → all is_safe_byte s ≡ true
    → all is_safe_byte t ≡ true
    → all is_safe_byte (s ++ t) ≡ true
append_safe s t = all-append_intro is_safe_byte s t

encoded_text_safe : (s : Str) → all is_encoded s ≡ true → all is_safe_byte s ≡ true
encoded_text_safe s = all_imp is_encoded is_safe_byte encoded-safe s

module _ (c : Crates) where
  same_site_safe : (s : SameSite) → all is_safe_byte (same_site_value c s) ≡ true
  unfolding same_site_value
  same_site_safe lax = refl
  same_site_safe strict = refl
  same_site_safe SameSite.none = refl

  secure_safe : (b : Bool) → all is_safe_byte (if b then codes "; Secure" else []) ≡ true
  secure_safe true = refl
  secure_safe false = refl

  cookie_prefix-safe :
      (name value : Str) (config : Config)
      → IsCookieName name
      → IsBytes value
      → all is_safe_byte (cookie_prefix c name value config) ≡ true
  unfolding cookie_prefix
  cookie_prefix-safe name value config named bytes =
      append_safe name _ (encoded_text_safe name named) (
        append_safe (b'=' ∷ percent_encode value) _
          (encoded_text_safe (percent_encode value) (percent_encode-encoded value bytes))
          (append_safe (codes "; Path=/; HttpOnly; SameSite=")
            (same_site_value c config.cookie_same_site
              ++ (if config.cookie_secure then codes "; Secure" else []))
            refl
            (append_safe (same_site_value c config.cookie_same_site)
              (if config.cookie_secure then codes "; Secure" else [])
              (same_site_safe config.cookie_same_site) (secure_safe config.cookie_secure))))

  clear_cookie-safe :
      (name : Str) (config : Config)
      → IsCookieName name
      → is_safe_header_value (clear_cookie c name config) ≡ true
  unfolding clear_cookie is_safe_header_value
  clear_cookie-safe name config named =
      append_safe (cookie_prefix c name [] config) _ (cookie_prefix-safe name [] config named tt)
        refl

  serialize_signed_cookie-safe :
      (name value : Str) (expires_at : DateTime) (config : Config)
      → DatesAreSafe c
      → IsCookieName name
      → IsBytes (sign_value c value config.cookie_secret)
      → is_safe_header_value (serialize_signed_cookie c name value expires_at config) ≡ true
  unfolding serialize_signed_cookie is_safe_header_value
  serialize_signed_cookie-safe name value expires_at config dates named bytes =
      append_safe (cookie_prefix c name (sign_value c value config.cookie_secret) config) _
        (cookie_prefix-safe name (sign_value c value config.cookie_secret) config named bytes)
        (append_safe (codes "; Expires=") (c.http_date expires_at) refl (dates expires_at))

  with_cookie-kept :
      (r : Response) (cookie : Str)
      → is_safe_header_value cookie ≡ true
      → (with_cookie r cookie).headers ≡ r.headers ++ ((codes "Set-Cookie", cookie) ∷ [])
  unfolding with_cookie is_safe_header_name
  with_cookie-kept r cookie h = rw h

  -- A signed cookie and a cleared one reach the response, for every name without separators and every
  -- value: neither is dropped as an unsafe header.
  pub cookies_reach_response :
      (r : Response) (name value : Str) (expires_at : DateTime) (config : Config)
      → DatesAreSafe c
      → IsCookieName name
      → IsBytes (sign_value c value config.cookie_secret)
      → ((with_cookie r (serialize_signed_cookie c name value expires_at config)).headers
          ≡ r.headers
            ++ ((codes "Set-Cookie", serialize_signed_cookie c name value expires_at config) ∷ []))
        × ((with_cookie r (clear_cookie c name config)).headers
            ≡ r.headers ++ ((codes "Set-Cookie", clear_cookie c name config) ∷ []))
  cookies_reach_response r name value expires_at config dates named bytes = (
    with_cookie-kept r _
        (serialize_signed_cookie-safe name value expires_at config dates named bytes),
    with_cookie-kept r _ (clear_cookie-safe name config named),
  )

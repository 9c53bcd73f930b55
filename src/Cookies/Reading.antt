-- ===== src/Cookies/Reading.antt =====
-- src/cookies.rs: `read_signed_cookie` on the header that a browser sends.
use auth_mini_gateway.Prelude.{
  ℕ, ◌≡◌, refl, Bool, true, some, none, [], ◌∷◌, ◌++◌, arith, ◌==◌, all, List, all-append_intro,
  all_imp, not,
}
use auth_mini_gateway.Prelude.Text.{Str, str_eq_refl}
use auth_mini_gateway.Prelude.Text.Split.{
  Free, Free_of_all, split, split_once, split-Free, split-append, split_once-append,
}
use auth_mini_gateway.Prelude.Text.Trim.{trim, trim-visible, is_visible}
use auth_mini_gateway.Prelude.Text.Utf8.{valid_utf8}
use auth_mini_gateway.Util.TimingEq.{IsBytes}
use auth_mini_gateway.Crates.{Crates}
use auth_mini_gateway.Cookies.{
  percent_encode, percent_decode, find_cookie, cookie_value, parse_cookie, sign_value, unsigned,
  read_signed_cookie,
}
use auth_mini_gateway.Cookies.Percent.{
  is_encoded, percent_encode-encoded, percent_decode-percent_encode,
}
use auth_mini_gateway.Cookies.Signing.{MacIsBase64, unsign_value-sign_value}

-- `name=value` as a browser sends it back.
abbrev pub pair_text : Str → Str → Str
pair_text name value = name ++ (b'=' ∷ percent_encode value)

abbrev pub IsCookieName : Str → Type 0
IsCookieName name = all is_encoded name ≡ true

encoded_visible : (c : ℕ) → is_encoded c ≡ true → is_visible c ≡ true
encoded_visible c h = ground arith

module _ (name value : Str) (named : IsCookieName name) (bytes : IsBytes value) where
  encoded : all is_encoded (percent_encode value) ≡ true
  encoded = percent_encode-encoded value bytes

  pair_visible : all is_visible (pair_text name value) ≡ true
  pair_visible =
      all-append_intro is_visible name (b'=' ∷ percent_encode value)
        (all_imp is_encoded is_visible encoded_visible name named)
        (all_imp is_encoded is_visible encoded_visible (percent_encode value) encoded)

  no_semicolon : ℕ → Bool
  no_semicolon c = not (c == b';')

  pair_Free : Free b';' (pair_text name value)
  unfolding no_semicolon
  pair_Free = Free_of_all b';' no_semicolon (pair_text name value) refl (
      all-append_intro no_semicolon name (b'=' ∷ percent_encode value)
        (all_imp is_encoded no_semicolon (λ c h. ground arith) name named)
        (all_imp is_encoded no_semicolon (λ c h. ground arith) (percent_encode value) encoded))

  name_Free : Free b'=' name
  name_Free = Free_of_all b'=' is_encoded name refl named

  -- The part is found, whatever parts follow it.
  find_cookie-here :
      (parts : List Str)
      → find_cookie name (pair_text name value ∷ parts) ≡ percent_decode (percent_encode value)
  unfolding find_cookie cookie_value
  find_cookie-here parts =
      rw (trim-visible _ pair_visible)
        (rw (split_once-append b'=' name (percent_encode value) name_Free) (rw (str_eq_refl name)))

-- A first segment that is no `name=value` pair is skipped.
find_cookie-skip :
    (name : Str) (part : Str) (parts : List Str)
    → split_once b'=' (trim part) ≡ none
    → find_cookie name (part ∷ parts) ≡ find_cookie name parts
unfolding find_cookie cookie_value
find_cookie-skip name part parts h = rw h

module _ (c : Crates) (laws : MacIsBase64 c) where
  -- A cookie that the gateway signed is read back from the header in which the browser returns it,
  -- with other cookies behind it or none, and behind a segment that is no pair or at the start: for
  -- every session id that is text and every cookie name without separators.
  pub read_signed_cookie-sign :
      (name value secret malformed : Str) (others : Str)
      → IsCookieName name
      → IsBytes (sign_value c value secret)
      → valid_utf8 (sign_value c value secret) ≡ true
      → Free b';' malformed
      → split_once b'=' (trim malformed) ≡ none
      → let signed = sign_value c value secret in
        (read_signed_cookie c (some (pair_text name signed)) name secret ≡ some value)
        × (read_signed_cookie c (some (pair_text name signed ++ (b';' ∷ others))) name secret
            ≡ some value)
        × (read_signed_cookie c (some (malformed ++ (b';' ∷ pair_text name signed))) name secret
            ≡ some value)
  unfolding read_signed_cookie unsigned parse_cookie
  read_signed_cookie-sign name value secret malformed others named bytes utf8 free no_pair =
      let signed = sign_value c value secret in
      let decode = percent_decode-percent_encode signed bytes utf8 in
      let back = unsign_value-sign_value c laws value secret in
      let alone = split-Free b';' (pair_text name signed) (pair_Free name signed named bytes) in
      (
        rw alone (rw (find_cookie-here name signed named bytes [], decode) back),
        rw (split-append b';' (pair_text name signed) others (pair_Free name signed named bytes))
            (rw (find_cookie-here name signed named bytes (split b';' others), decode) back),
        rw (split-append b';' malformed (pair_text name signed) free, alone)
            (rw
              (
                find_cookie-skip name malformed (pair_text name signed ∷ []) no_pair,
                find_cookie-here name signed named bytes [],
                decode,
              )
              back),
      )

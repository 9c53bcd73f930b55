-- ===== src/Cookies/Signing.antt =====
-- src/cookies.rs: `sign_value` and `unsign_value`.
use auth_mini_gateway.Prelude.{
  ℕ, ◌≡◌, refl, ◌↔◌, Bool, true, ◌||◌, some, [], ◌∷◌, ◌++◌, arith, ◌==◌, all, Option-cases, inl,
  inr,
}
use auth_mini_gateway.Prelude.Text.{Str, is_alphanumeric}
use auth_mini_gateway.Prelude.Text.Split.{
  rsplit_once, rsplit_once-append, rsplit_once_sound, Free_of_all,
}
use auth_mini_gateway.Util.TimingEq.{IsBytes, timing_eq_iff}
use auth_mini_gateway.Crates.{Crates}
use auth_mini_gateway.Cookies.{sign_value, unsign_value, checked}

-- The alphabet of URL-safe base64 without padding.
abbrev pub is_base64url : ℕ → Bool
is_base64url c = is_alphanumeric c || ((c == b'-') || (c == b'_'))

-- A signature is base64url text.
abbrev pub MacIsBase64 : Crates → Type 0
MacIsBase64 c = (value secret : Str) → all is_base64url (c.mac value secret) ≡ true

pub IsBytes_of_base64url : (s : Str) → all is_base64url s ≡ true → IsBytes s
IsBytes_of_base64url [] h = tt
IsBytes_of_base64url (c ∷ s) h = (ground arith, IsBytes_of_base64url s (ground arith))

pub IsBytes-append_right : (s t : Str) → IsBytes (s ++ t) → IsBytes t
IsBytes-append_right [] t h = h
IsBytes-append_right (c ∷ s) t h = IsBytes-append_right s t h.1

module _ (c : Crates) (laws : MacIsBase64 c) where
  signature_bytes : (raw secret : Str) → IsBytes (c.mac raw secret)
  signature_bytes raw secret = IsBytes_of_base64url _ (laws raw secret)

  checked_self : (raw secret : Str) → checked c secret (some (raw, c.mac raw secret)) ≡ some raw
  unfolding checked
  checked_self raw secret =
      rw ((timing_eq_iff _ _ (signature_bytes raw secret) (signature_bytes raw secret)).1 refl)

  -- A signed value is accepted, and gives back what was signed.
  pub unsign_value-sign_value :
      (raw secret : Str) → unsign_value c (sign_value c raw secret) secret ≡ some raw
  unfolding unsign_value sign_value
  unsign_value-sign_value raw secret =
      rw
        (rsplit_once-append b'.' raw (c.mac raw secret)
          (Free_of_all b'.' is_base64url _ refl (laws raw secret)))
        (checked_self raw secret)

  unsign_value_sound :
      (value raw secret : Str)
      → IsBytes value
      → unsign_value c value secret ≡ some raw
      → value ≡ sign_value c raw secret
  unfolding unsign_value sign_value checked
  unsign_value_sound value raw secret bytes h = elim (Option-cases (rsplit_once b'.' value)) [
    | inl e ↦ ground arith
    | inr ((l, signature), e) ↦
        let whole = rsplit_once_sound b'.' value e in
        let tail = IsBytes-append_right l (b'.' ∷ signature) (rw whole at bytes) in
        let same = timing_eq_iff signature (c.mac l secret) tail.1 (signature_bytes l secret) in
        ground (arith, same)
  ]

  -- Exactly the texts that `sign_value` makes of a value under the secret are accepted, for that
  -- value. The MAC is any function into base64.
  pub unsign_value_iff :
      (value raw secret : Str)
      → IsBytes value
      → (unsign_value c value secret ≡ some raw) ↔ (value ≡ sign_value c raw secret)
  unsign_value_iff value raw secret bytes =
      (unsign_value_sound value raw secret bytes, λ e. rw e (unsign_value-sign_value raw secret))

-- ===== src/Cookies/Percent.antt =====
-- src/cookies.rs: percent-encoding and its inverse.
use auth_mini_gateway.Prelude.{
  ℕ, ◌/◌, ◌%◌, ◌<◌, ◌≡◌, refl, Bool, true, false, some, [], ◌∷◌, arith, ◌==◌, all, not, ◌&&◌, ltb,
}
use auth_mini_gateway.Prelude.Text.{Str}
use auth_mini_gateway.Prelude.Text.Hex.{hex_pair, hex_upper, hex_pair-hex_upper}
use auth_mini_gateway.Prelude.Text.Utf8.{valid_utf8, from_utf8}
use auth_mini_gateway.Util.TimingEq.{IsBytes}
use auth_mini_gateway.Http.{is_safe_byte}
use auth_mini_gateway.Cookies.{
  is_unreserved, percent_encode, percent_bytes, percent_decode, decode_cons, utf8_text,
}

percent_bytes-plain :
    (c : ℕ) (s : Str)
    → (c == b'%') ≡ false
    → percent_bytes (c ∷ s) ≡ decode_cons (some c) (percent_bytes s)
unfolding percent_bytes
percent_bytes-plain c [] h = rw h
percent_bytes-plain c (a ∷ []) h = rw h
percent_bytes-plain c (a ∷ b ∷ s) h = rw h

percent_bytes-escape :
    (a b : ℕ) (s : Str)
    → percent_bytes (b'%' ∷ a ∷ b ∷ s) ≡ decode_cons (hex_pair a b) (percent_bytes s)
unfolding percent_bytes
percent_bytes-escape a b s = refl

unreserved-ne-percent : (c : ℕ) → is_unreserved c ≡ true → (c == b'%') ≡ false
unreserved-ne-percent c h = ground arith

percent_bytes-percent_encode : (s : Str) → IsBytes s → percent_bytes (percent_encode s) ≡ some s
unfolding percent_encode decode_cons
percent_bytes-percent_encode [] h = unfold percent_bytes in refl
percent_bytes-percent_encode (c ∷ s) (hc, h) = ground (
  arith,
  unreserved-ne-percent c,
  percent_bytes-plain c (percent_encode s),
  percent_bytes-escape (hex_upper (c / 16)) (hex_upper (c % 16)) (percent_encode s),
  hex_pair-hex_upper c hc,
  percent_bytes-percent_encode s h,
)

-- Any text that a cookie holds is read back as it was.
pub percent_decode-percent_encode :
    (s : Str) → IsBytes s → valid_utf8 s ≡ true → percent_decode (percent_encode s) ≡ some s
unfolding percent_decode utf8_text from_utf8
percent_decode-percent_encode s h v = rw (percent_bytes-percent_encode s h) (rw v)

-- The bytes that `percent_encode` writes: none of them ends a cookie or a header.
abbrev pub is_encoded : ℕ → Bool
is_encoded c = (ltb 0x20 c && ltb c 0x7f) && (not (c == b';') && not (c == b'='))

unreserved-encoded : (c : ℕ) → is_unreserved c ≡ true → is_encoded c ≡ true
unreserved-encoded c h = ground arith

hex_upper-encoded : (n : ℕ) → n < 16 → is_encoded (hex_upper n) ≡ true
unfolding hex_upper
hex_upper-encoded n h = ground arith

pub percent_encode-encoded : (s : Str) → IsBytes s → all is_encoded (percent_encode s) ≡ true
unfolding percent_encode
percent_encode-encoded [] h = refl
percent_encode-encoded (c ∷ s) (hc, h) = ground (
  arith,
  unreserved-encoded c,
  hex_upper-encoded (c / 16),
  hex_upper-encoded (c % 16),
  percent_encode-encoded s h,
)

pub encoded-safe : (c : ℕ) → is_encoded c ≡ true → is_safe_byte c ≡ true
encoded-safe c h = ground arith

-- ===== src/ReturnTarget/Safety.antt =====
-- src/return_target.rs: what an accepted target cannot do.
use auth_mini_gateway.Prelude.{
  ℕ, ◌≡◌, refl, Bool, true, false, not, Option, none, some, [], ◌∷◌, arith, ◌==◌, all, Bool-cases,
  Option-cases, inl, inr,
}
use auth_mini_gateway.Prelude.Text.{Str, codes}
use auth_mini_gateway.Prelude.Text.Hex.{hex_pair}
use auth_mini_gateway.Prelude.Text.Split.{starts_with, contains}
use auth_mini_gateway.Crates.{Crates}
use auth_mini_gateway.Cookies.{percent_bytes}
use auth_mini_gateway.ReturnTarget.{
  proxy_fallback, is_unsafe_byte, has_unsafe_bytes, proxy_target, normalize_return_target,
}

abbrev pub is_harmless : ℕ → Bool
is_harmless c = not (is_unsafe_byte c)

-- The target as it stands, and the bytes that its escapes stand for, hold no backslash and no control
-- byte, and every escape is a pair of digits.
abbrev pub IsHarmless : Str → Type 0
IsHarmless raw =
    (all is_harmless raw ≡ true)
    × ((decoded : Str) × (percent_bytes raw ≡ some decoded) × (all is_harmless decoded ≡ true))

hex_pair_harmless :
    (a b : ℕ) {d : ℕ} → hex_pair a b ≡ some d → (is_harmless a ≡ true) × (is_harmless b ≡ true)
unfolding hex_pair
hex_pair_harmless a b h = ground arith

has_unsafe_bytes-IsHarmless : (raw : Str) → has_unsafe_bytes raw ≡ false → IsHarmless raw
unfolding has_unsafe_bytes percent_bytes
has_unsafe_bytes-IsHarmless [] h = (refl, ([], refl, refl))
has_unsafe_bytes-IsHarmless (c ∷ []) h = (ground arith, (c ∷ [], ground arith, ground arith))
has_unsafe_bytes-IsHarmless (c ∷ a ∷ []) h =
    let (plain, (decoded, e, clean)) = has_unsafe_bytes-IsHarmless (a ∷ []) (ground arith) in
    (ground arith, (c ∷ decoded, ground arith, ground arith))
has_unsafe_bytes-IsHarmless (c ∷ a ∷ b ∷ s) h = elim (Bool-cases (c == b'%')) [
  | inr plain ↦
      let (q, (decoded, e, clean)) = has_unsafe_bytes-IsHarmless (a ∷ b ∷ s) (ground arith) in
      (ground arith, (c ∷ decoded, ground arith, ground arith))
  | inl escape ↦ elim (Option-cases (hex_pair a b)) [
    | inl e ↦ absurd (ground arith)
    | inr (d, e) ↦
        let (q, (decoded, f, clean)) = has_unsafe_bytes-IsHarmless s (ground arith) in
        let pair = hex_pair_harmless a b e in
        (ground arith, (d ∷ decoded, ground arith, ground arith))
  ]
]

module _ (c : Crates) where
  -- The fallback of the proxy returns its input byte for byte, and only a rooted path that is no
  -- network path, has no fragment and is harmless.
  pub proxy_fallback_sound :
      (input : Option Str) (public target : Str)
      → normalize_return_target c input public proxy_fallback ≡ some target
      → (input ≡ some target)
        × (starts_with (codes "/") target ≡ true)
        × (starts_with (codes "//") target ≡ false)
        × (contains b'#' target ≡ false)
        × IsHarmless target
  unfolding normalize_return_target proxy_target
  proxy_fallback_sound none public target h = absurd (ground arith)
  proxy_fallback_sound (some raw) public target h =
      let safe = has_unsafe_bytes-IsHarmless raw (ground arith) in
      let same : raw ≡ target = ground arith in
      (ground arith, ground arith, ground arith, ground arith, rw same at safe)

  -- What the WHATWG URL algorithm promises of a rooted path without backslashes and control bytes that
  -- is no network path: it is resolved on the base's own origin.
  abbrev pub JoinKeepsOrigin : Type 0
  JoinKeepsOrigin =
      (base url : c.Url) (path : Str)
      → starts_with (codes "/") path ≡ true
      → starts_with (codes "//") path ≡ false
      → all is_harmless path ≡ true
      → c.join base path ≡ some url
      → c.same_origin url base ≡ true

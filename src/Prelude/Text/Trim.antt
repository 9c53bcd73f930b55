-- ===== src/Prelude/Text/Trim.antt =====
-- str::trim: the characters with Unicode's White_Space property, in UTF-8.
use Prim.Native.Nat.{ℕ}
use mathlib.Core.Path.{◌≡◌, refl}
use mathlib.Core.Bool.{Bool, true, ◌&&◌, ◌||◌}
use mathlib.Core.List.{[], ◌∷◌, reverse, reverse-cons, reverse-reverse}
use native.Mathlib.Omega.{arith}
use auth_mini_gateway.Prelude.Lists.{all, all-append_intro}
use auth_mini_gateway.Prelude.Tests.{leb, ltb, ◌==◌, if◌then◌else◌}
use auth_mini_gateway.Prelude.Text.{Str, codes}

abbrev pub is_ascii_white : ℕ → Bool
is_ascii_white c = (leb 9 c && leb c 13) || (c == 32)

-- U+0085 and U+00A0
white2 : ℕ → ℕ → Bool
white2 a b = (a == 0xc2) && ((b == 0x85) || (b == 0xa0))

-- U+1680, U+2000 to U+200A, U+2028, U+2029, U+202F, U+205F, U+3000
white3 : ℕ → ℕ → ℕ → Bool
white3 a b c =
    ((a == 0xe1) && ((b == 0x9a) && (c == 0x80)))
    || (((a == 0xe2)
          && (((b == 0x80)
                && ((leb 0x80 c && leb c 0x8a) || ((c == 0xa8) || ((c == 0xa9) || (c == 0xaf)))))
              || ((b == 0x81) && (c == 0x9f))))
        || ((a == 0xe3) && ((b == 0x80) && (c == 0x80))))

unfoldable pub trim_start : Str → Str
unfolding white2 white3
trim_start [] = []
trim_start (a ∷ []) = if is_ascii_white a then [] else a ∷ []
trim_start (a ∷ b ∷ []) =
    let one = trim_start (b ∷ []) in
    if is_ascii_white a then one else if white2 a b then [] else a ∷ b ∷ []
trim_start (a ∷ b ∷ c ∷ s) =
    let one = trim_start (b ∷ c ∷ s) in
    let two = trim_start (c ∷ s) in
    let three = trim_start s in
    if is_ascii_white a
    then one
    else if white2 a b
    then two
    else if white3 a b c
    then three
    else a ∷ b ∷ c ∷ s

-- The same on the reversed text, whose characters stand backwards.
trim_back : Str → Str
unfolding white2 white3
trim_back [] = []
trim_back (a ∷ []) = if is_ascii_white a then [] else a ∷ []
trim_back (a ∷ b ∷ []) =
    let one = trim_back (b ∷ []) in
    if is_ascii_white a then one else if white2 b a then [] else a ∷ b ∷ []
trim_back (a ∷ b ∷ c ∷ s) =
    let one = trim_back (b ∷ c ∷ s) in
    let two = trim_back (c ∷ s) in
    let three = trim_back s in
    if is_ascii_white a
    then one
    else if white2 b a
    then two
    else if white3 c b a
    then three
    else a ∷ b ∷ c ∷ s

unfoldable pub trim : Str → Str
unfolding trim_start trim_back
trim s = reverse (trim_back (reverse (trim_start s)))

trim_test : trim (codes "  a b ") ≡ codes "a b"
unfolding trim
trim_test = refl

-- Text of visible ASCII has nothing to trim.
abbrev pub is_visible : ℕ → Bool
is_visible c = ltb 0x20 c && ltb c 0x7f

trim_start-visible : (s : Str) → all is_visible s ≡ true → trim_start s ≡ s
unfolding trim_start
trim_start-visible [] h = refl
trim_start-visible (a ∷ []) h = ground arith
trim_start-visible (a ∷ b ∷ []) h = ground arith
trim_start-visible (a ∷ b ∷ c ∷ s) h = ground arith

trim_back-visible : (s : Str) → all is_visible s ≡ true → trim_back s ≡ s
unfolding trim_back
trim_back-visible [] h = refl
trim_back-visible (a ∷ []) h = ground arith
trim_back-visible (a ∷ b ∷ []) h = ground arith
trim_back-visible (a ∷ b ∷ c ∷ s) h = ground arith

pub all-reverse : (p : ℕ → Bool) (s : Str) → all p s ≡ true → all p (reverse s) ≡ true
all-reverse p [] h = refl
all-reverse p (a ∷ s) h =
    rw (reverse-cons a s)
      (all-append_intro p (reverse s) (a ∷ []) (all-reverse p s (ground arith)) (ground arith))

pub trim-visible : (s : Str) → all is_visible s ≡ true → trim s ≡ s
unfolding trim
trim-visible s h =
    rw (trim_start-visible s h, trim_back-visible (reverse s) (all-reverse is_visible s h))
      (reverse-reverse s)

-- ===== src/Prelude/Text/Utf8.antt =====
-- String::from_utf8: exactly the well-formed byte sequences of Unicode's table 3-7.
use Prim.Native.Nat.{ℕ}
use mathlib.Core.Path.{◌≡◌, refl}
use mathlib.Core.Bool.{Bool, true, false, ◌&&◌}
use mathlib.Core.Option.{Option, none, some}
use mathlib.Core.List.{[], ◌∷◌}
use native.Mathlib.Omega.{arith}
use auth_mini_gateway.Prelude.Tests.{ltb, leb, ◌==◌, if◌then◌else◌}
use auth_mini_gateway.Prelude.Lists.{all}
use auth_mini_gateway.Prelude.Text.{Str}

-- What the next byte must be: the start of a character, or one of the continuation ranges.
pub data Expect : Type 0 where
  start : Expect
  last : Expect
  two_more : ℕ → ℕ → Expect
  three_more : ℕ → ℕ → Expect

lead : ℕ → Option Expect
lead c =
    if ltb c 0x80
    then some start
    else if leb 0xc2 c && leb c 0xdf
    then some last
    else if c == 0xe0
    then some (two_more 0xa0 0xbf)
    else if c == 0xed
    then some (two_more 0x80 0x9f)
    else if leb 0xe1 c && leb c 0xef
    then some (two_more 0x80 0xbf)
    else if c == 0xf0
    then some (three_more 0x90 0xbf)
    else if leb 0xf1 c && leb c 0xf3
    then some (three_more 0x80 0xbf)
    else if c == 0xf4
    then some (three_more 0x80 0x8f)
    else none

next : Expect → ℕ → Option Expect
unfolding lead
next start c = lead c
next last c = if leb 0x80 c && leb c 0xbf then some start else none
next (two_more lo hi) c = if leb lo c && leb c hi then some last else none
next (three_more lo hi) c = if leb lo c && leb c hi then some (two_more 0x80 0xbf) else none

ends : Expect → Bool
ends start = true
ends _ = false

well_formed : Expect → Str → Bool
unfolding next ends
well_formed e [] = ends e
well_formed e (c ∷ s) = elim (next e c) [ none ↦ false | some e' ↦ well_formed e' s ]

unfoldable pub valid_utf8 : Str → Bool
unfolding well_formed
valid_utf8 s = well_formed start s

unfoldable pub from_utf8 : Str → Option Str
unfolding valid_utf8
from_utf8 s = if valid_utf8 s then some s else none

well_formed-ascii : (s : Str) → all (λ c. ltb c 0x80) s ≡ true → well_formed start s ≡ true
unfolding well_formed
well_formed-ascii [] h = refl
well_formed-ascii (c ∷ s) h = ground (arith, well_formed-ascii s)

-- ASCII text is well formed.
pub valid_utf8-ascii : (s : Str) → all (λ c. ltb c 0x80) s ≡ true → valid_utf8 s ≡ true
unfolding valid_utf8
valid_utf8-ascii s h = well_formed-ascii s h

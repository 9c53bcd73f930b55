-- ===== src/Prelude/Text/Hex.antt =====
-- Hexadecimal digits: `u8::from_str_radix(pair, 16)` and the format `{:02X}`.
use Prim.Native.Nat.{ℕ, ◌+◌, ◌-◌, ◌*◌, ◌/◌, ◌%◌, ◌<◌}
use mathlib.Core.Path.{◌≡◌, refl}
use mathlib.Core.Bool.{Bool, true, false, ◌&&◌}
use mathlib.Core.Option.{Option, none, some}
use native.Mathlib.Omega.{arith}
use auth_mini_gateway.Prelude.Tests.{holds_below, holds_below_sound, ltb, leb, ◌==◌, if◌then◌else◌}
use auth_mini_gateway.Prelude.Text.{is_digit}

unfoldable pub hex_digit : ℕ → Option ℕ
hex_digit c =
    if is_digit c
    then some (c - b'0')
    else if leb b'A' c && leb c b'F'
    then some (c - 55)
    else if leb b'a' c && leb c b'f'
    then some (c - 87)
    else none

combine : Option ℕ → Option ℕ → Option ℕ
combine (some h) (some l) = some (16 * h + l)
combine _ _ = none

-- A leading `+` is accepted, as the standard library does.
unfoldable pub hex_pair : ℕ → ℕ → Option ℕ
unfolding hex_digit combine
hex_pair a b = if a == b'+' then hex_digit b else combine (hex_digit a) (hex_digit b)

unfoldable pub hex_upper : ℕ → ℕ
hex_upper n = if ltb n 10 then b'0' + n else 55 + n

is_some_of : Option ℕ → ℕ → Bool
is_some_of none n = false
is_some_of (some m) n = m == n

eq_of_is_some_of : (o : Option ℕ) (n : ℕ) → is_some_of o n ≡ true → o ≡ some n
unfolding is_some_of
eq_of_is_some_of none n h = ground arith
eq_of_is_some_of (some m) n h = ground arith

table :
    holds_below (λ n. is_some_of (hex_pair (hex_upper (n / 16)) (hex_upper (n % 16))) n) 256 ≡ true
unfolding holds_below is_some_of hex_pair hex_upper
table = refl

-- Two upper case digits of a byte read back as the byte.
pub hex_pair-hex_upper :
    (n : ℕ) → n < 256 → hex_pair (hex_upper (n / 16)) (hex_upper (n % 16)) ≡ some n
hex_pair-hex_upper n h = eq_of_is_some_of _ n (holds_below_sound _ 256 n h table)

-- ===== src/Prelude/Number.antt =====
-- str::parse for the integer types: an optional sign, then at least one decimal digit, within range.
use Prim.Native.Nat.{ℕ, zero, suc, ◌+◌, ◌-◌, ◌*◌, ◌^◌, ◌≤◌}
use mathlib.Core.Path.{◌≡◌, refl}
use mathlib.Core.Option.{Option, none, some}
use mathlib.Core.List.{[], ◌∷◌}
use native.Mathlib.Omega.{arith}
use auth_mini_gateway.Prelude.Tests.{leb, ◌==◌, if◌then◌else◌}
use auth_mini_gateway.Prelude.Text.{Str, codes, is_digit}

-- `negsuc n` is -(n + 1).
pub data ℤ : Type 0 where
  pos : ℕ → ℤ
  negsuc : ℕ → ℤ

digits_from : ℕ → Str → Option ℕ
digits_from acc [] = some acc
digits_from acc (c ∷ s) =
    let rest = digits_from (acc * 10 + (c - b'0')) s in if is_digit c then rest else none

digits : Str → Option ℕ
unfolding digits_from
digits [] = none
digits (c ∷ s) = digits_from 0 (c ∷ s)

at_most : ℕ → Option ℕ → Option ℕ
at_most limit none = none
at_most limit (some n) = if leb n limit then some n else none

-- u16, usize: at most `limit`.
unfoldable pub parse_unsigned : ℕ → Str → Option ℕ
unfolding digits at_most
parse_unsigned limit [] = none
parse_unsigned limit (c ∷ s) =
    if c == b'+' then at_most limit (digits s) else at_most limit (digits (c ∷ s))

negate : ℕ → ℤ
negate zero = pos 0
negate (suc n) = negsuc n

as_positive : Option ℕ → Option ℤ
as_positive none = none
as_positive (some n) = some (pos n)

as_negative : Option ℕ → Option ℤ
as_negative none = none
as_negative (some n) = some (negate n)

-- i64
unfoldable pub parse_i64 : Str → Option ℤ
unfolding digits at_most negate as_positive as_negative parse_unsigned
parse_i64 [] = none
parse_i64 (c ∷ s) =
    if c == b'-'
    then as_negative (at_most (2 ^ 63) (digits s))
    else as_positive (parse_unsigned (2 ^ 63 - 1) (c ∷ s))

pub parse_unsigned-le : (limit : ℕ) (s : Str) {n : ℕ} → parse_unsigned limit s ≡ some n → n ≤ limit
unfolding parse_unsigned at_most
parse_unsigned-le limit [] h = ground arith
parse_unsigned-le limit (c ∷ s) h = ground arith

parse_test : parse_i64 (codes "-12") ≡ some (negsuc 11)
unfolding parse_i64
parse_test = refl

-- ===== src/Util/TimingEq.antt =====
-- src/util.rs: `timing_eq`, which compares two texts without an early exit.
use Prim.Native.Nat.{bit_or, bit_xor}
use auth_mini_gateway.Prelude.{
  holds_below, holds_below_sound, ℕ, ◌<◌, ◌≡◌, refl, ◌↔◌, Bool, true, false, ◌&&◌, [], ◌∷◌, length,
  arith, ltb, ◌==◌, if◌then◌else◌, All, ap,
}
use auth_mini_gateway.Prelude.Text.{Str}

-- for (a, b) in left.iter().zip(right.iter()) { diff |= a ^ b; }
difference : ℕ → Str → Str → ℕ
difference diff [] right = diff
difference diff (a ∷ left) [] = diff
difference diff (a ∷ left) (b ∷ right) = difference (bit_or diff (bit_xor a b)) left right

unfoldable pub timing_eq : Str → Str → Bool
unfolding difference
timing_eq left right = if length left == length right then difference 0 left right == 0 else false

abbrev pub IsBytes : Str → Type 0
IsBytes = All (λ c. c < 256)

same_test : Bool → Bool → Bool
same_test true b = b
same_test false true = false
same_test false false = true

pair_test : ℕ → ℕ → Bool
pair_test a b =
    (same_test (bit_xor a b == 0) (a == b) && ltb (bit_xor a b) 256)
    && (same_test (bit_or a b == 0) ((a == 0) && (b == 0)) && ltb (bit_or a b) 256)

pair_table : holds_below (λ a. holds_below (pair_test a) 256) 256 ≡ true
unfolding holds_below pair_test same_test
pair_table = refl

pair_test_all : (a b : ℕ) → a < 256 → b < 256 → pair_test a b ≡ true
pair_test_all a b ha hb =
    holds_below_sound (pair_test a) 256 b hb
      (holds_below_sound (λ a. holds_below (pair_test a) 256) 256 a ha pair_table)

xor_zero : (a b : ℕ) → a < 256 → b < 256 → bit_xor a b ≡ 0 → a ≡ b
unfolding pair_test same_test
xor_zero a b ha hb h = ground (arith, pair_test_all a b ha hb)

xor_self : (a : ℕ) → a < 256 → bit_xor a a ≡ 0
unfolding pair_test same_test
xor_self a ha = ground (arith, pair_test_all a a ha ha)

xor_lt : (a b : ℕ) → a < 256 → b < 256 → bit_xor a b < 256
unfolding pair_test same_test
xor_lt a b ha hb = ground (arith, pair_test_all a b ha hb)

or_zero : (a b : ℕ) → a < 256 → b < 256 → bit_or a b ≡ 0 → (a ≡ 0) × (b ≡ 0)
unfolding pair_test same_test
or_zero a b ha hb h = ground (arith, pair_test_all a b ha hb)

or_lt : (a b : ℕ) → a < 256 → b < 256 → bit_or a b < 256
unfolding pair_test same_test
or_lt a b ha hb = ground (arith, pair_test_all a b ha hb)

-- No difference is left over exactly if there was none before and the texts agree.
difference_zero :
    (diff : ℕ) (left right : Str)
    → diff < 256
    → IsBytes left
    → IsBytes right
    → length left ≡ length right
    → difference diff left right ≡ 0
    → (diff ≡ 0) × (left ≡ right)
unfolding difference
difference_zero diff [] [] hd hl hr n h = (h, refl)
difference_zero diff [] (b ∷ right) hd hl hr n h = absurd (omega arith)
difference_zero diff (a ∷ left) [] hd hl hr n h = absurd (omega arith)
difference_zero diff (a ∷ left) (b ∷ right) hd (ha, hl) (hb, hr) n h =
    let (z, same) =
      difference_zero (bit_or diff (bit_xor a b)) left right
        (or_lt diff (bit_xor a b) hd (xor_lt a b ha hb)) hl hr (omega arith) h in
    let (d, x) = or_zero diff (bit_xor a b) hd (xor_lt a b ha hb) z in
    let eq = xor_zero a b ha hb x in (d, cc)

difference_self : (left : Str) → IsBytes left → difference 0 left left ≡ 0
unfolding difference
difference_self [] h = refl
difference_self (a ∷ left) (ha, h) = ground (arith, xor_self a ha, difference_self left h)

-- The comparison without an early exit decides equality of texts.
pub timing_eq_iff :
    (left right : Str)
    → IsBytes left
    → IsBytes right
    → (timing_eq left right ≡ true) ↔ (left ≡ right)
unfolding timing_eq
timing_eq_iff left right hl hr = (
  λ h. (difference_zero 0 left right (omega arith) hl hr (ground arith) (ground arith)).1,
  λ e.
      let len = ap (λ (s : Str). length s) e in
      let self = difference_self left hl in rw (← e) (ground (arith, self)),
)

-- ===== src/Prelude/Text/Split.antt =====
-- str::starts_with, contains, find, rfind, split and split_once at one byte.
use Prim.Native.Nat.{ℕ}
use mathlib.Core.Path.{◌≡◌, refl}
use mathlib.Core.Bool.{Bool, true, false, ◌&&◌, ◌||◌}
use mathlib.Core.Logic.{inl, inr}
use mathlib.Core.Option.{Option, none, some}
use mathlib.Core.List.{List, [], ◌∷◌, ◌++◌}
use native.Mathlib.Omega.{arith}
use auth_mini_gateway.Prelude.Tests.{◌==◌, if◌then◌else◌, Option-cases}
use auth_mini_gateway.Prelude.Lists.{all}
use auth_mini_gateway.Prelude.Text.{Str}

unfoldable pub starts_with : Str → Str → Bool
starts_with [] s = true
starts_with (p ∷ ps) [] = false
starts_with (p ∷ ps) (c ∷ s) = (p == c) && starts_with ps s

unfoldable pub contains : ℕ → Str → Bool
contains b [] = false
contains b (c ∷ s) = (c == b) || contains b s

unfoldable pub cons_first : ℕ → Option (Str × Str) → Option (Str × Str)
cons_first c none = none
cons_first c (some (l, r)) = some (c ∷ l, r)

-- The parts before and after the first `b`.
unfoldable pub split_once : ℕ → Str → Option (Str × Str)
unfolding cons_first
split_once b [] = none
split_once b (c ∷ s) = if c == b then some ([], s) else cons_first c (split_once b s)

first_or : ℕ → ℕ → Str → Option (Str × Str) → Option (Str × Str)
first_or b c s (some (l, r)) = some (c ∷ l, r)
first_or b c s none = if c == b then some ([], s) else none

-- The parts before and after the last `b`: `rfind` and the two slices.
unfoldable pub rsplit_once : ℕ → Str → Option (Str × Str)
unfolding first_or
rsplit_once b [] = none
rsplit_once b (c ∷ s) = first_or b c s (rsplit_once b s)

unfoldable pub cons_piece : ℕ → List Str → List Str
cons_piece c [] = (c ∷ []) ∷ []
cons_piece c (p ∷ ps) = (c ∷ p) ∷ ps

unfoldable pub split : ℕ → Str → List Str
unfolding cons_piece
split b [] = [] ∷ []
split b (c ∷ s) = let rest = split b s in if c == b then [] ∷ rest else cons_piece c rest

-- No byte of the text is `b`.
abbrev pub Free : ℕ → Str → Type 0
Free b s = contains b s ≡ false

pub split_once-append : (b : ℕ) (l r : Str) → Free b l → split_once b (l ++ b ∷ r) ≡ some (l, r)
unfolding split_once contains
split_once-append b [] r h = ground arith
split_once-append b (c ∷ l) r h = ground (arith, split_once-append b l r)

pub rsplit_once-Free : (b : ℕ) (s : Str) → Free b s → rsplit_once b s ≡ none
unfolding rsplit_once contains
rsplit_once-Free b [] h = refl
rsplit_once-Free b (c ∷ s) h = ground (arith, rsplit_once-Free b s)

pub rsplit_once-append : (b : ℕ) (l r : Str) → Free b r → rsplit_once b (l ++ b ∷ r) ≡ some (l, r)
unfolding rsplit_once
rsplit_once-append b [] r h = ground (arith, rsplit_once-Free b r)
rsplit_once-append b (c ∷ l) r h = ground (arith, rsplit_once-append b l r)

-- What `rsplit_once` returns is the text, cut at the byte.
pub rsplit_once_sound :
    (b : ℕ) (s : Str) {l r : Str} → rsplit_once b s ≡ some (l, r) → s ≡ l ++ b ∷ r
unfolding rsplit_once
rsplit_once_sound b [] e = ground arith
rsplit_once_sound b (c ∷ s) {l} {r} e = elim (Option-cases (rsplit_once b s)) [
  | inl f ↦ ground arith
  | inr ((l', r'), f) ↦ ground (arith, rsplit_once_sound b s {l = l'} {r = r'} f)
]

pub contains-append : (b : ℕ) (s t : Str) → contains b (s ++ t) ≡ (contains b s || contains b t)
unfolding contains
contains-append b [] t = refl
contains-append b (c ∷ s) t = ground (arith, contains-append b s t)

pub Free_of_all : (b : ℕ) (p : ℕ → Bool) (s : Str) → p b ≡ false → all p s ≡ true → Free b s
unfolding contains
Free_of_all b p [] h k = refl
Free_of_all b p (c ∷ s) h k = ground (arith, Free_of_all b p s)

pub split-Free : (b : ℕ) (s : Str) → Free b s → split b s ≡ s ∷ []
unfolding split contains
split-Free b [] h = refl
split-Free b (c ∷ s) h = ground (arith, split-Free b s)

pub split-append : (b : ℕ) (s t : Str) → Free b s → split b (s ++ b ∷ t) ≡ s ∷ split b t
unfolding split contains
split-append b [] t h = ground arith
split-append b (c ∷ s) t h = ground (arith, split-append b s t)

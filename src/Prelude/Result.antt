-- ===== src/Prelude/Result.antt =====
-- Rust's `Result` with `?`: do blocks over `ok` and `err`.
use mathlib.Core.Path.{◌≡◌, refl, ap}
use mathlib.Core.Logic.{◌⊎◌, inl, inr}
use mathlib.Core.Bool.{Bool, true, false}
use mathlib.Core.Option.{Option, none, some}
use native.Mathlib.Omega.{arith}

pub data Result (E A : Type 0) : Type 0 where
  ok : A → Result E A
  err : E → Result E A

-- `if refused { return Err(e) }`
abbrev pub refuse_if : {E : Type 0} → Bool → E → Result E (Unit {0})
refuse_if false error = ok tt
refuse_if true error = err error

infixl 5 ◌>>=◌ ◌>>◌
-- `?`, which returns early with the error
abbrev pub ◌>>=◌ : {E A B : Type 0} → Result E A → (A → Result E B) → Result E B
err error >>= next = err error
ok value >>= next = next value

abbrev pub ◌>>◌ : {E B : Type 0} → Result E (Unit {0}) → Result E B → Result E B
first >> second = first >>= λ _. second

-- Option::ok_or
abbrev pub ok_or : {E A : Type 0} → Option A → E → Result E A
ok_or none e = err e
ok_or (some a) e = ok a

pub >>=-eq-ok :
    {E A B : Type 0} (first : Result E A) (next : A → Result E B) {result : B}
    → (first >>= next) ≡ ok result
    → (value : A) × (first ≡ ok value) × (next value ≡ ok result)
>>=-eq-ok (err error) next returned = absurd (ground arith)
>>=-eq-ok (ok value) next returned = (value, refl, returned)

pub ok_or-ok : {E A : Type 0} (o : Option A) (e : E) {a : A} → ok_or o e ≡ ok a → o ≡ some a
ok_or-ok none e q = ground arith
ok_or-ok (some a) e q = cc

pub refuse_if-then :
    {E A : Type 0} (b : Bool) (e : E) (next : Result E A) {a : A}
    → (refuse_if b e >> next) ≡ ok a
    → (b ≡ false) × (next ≡ ok a)
refuse_if-then true e next q = absurd (ground arith)
refuse_if-then false e next q = (refl, q)

pub Result-cases :
    {E A : Type 0} (r : Result E A) → ((e : E) × (r ≡ err e)) ⊎ ((a : A) × (r ≡ ok a))
Result-cases (err e) = inl (e, refl)
Result-cases (ok a) = inr (a, refl)

pub refuse_if-ok : {E : Type 0} (b : Bool) (e : E) {u : Unit} → refuse_if b e ≡ ok u → b ≡ false
refuse_if-ok true e h = ground arith
refuse_if-ok false e h = refl

ok_value : {E A : Type 0} → A → Result E A → A
ok_value a (ok b) = b
ok_value a (err e) = a

pub ok_inj : {E A : Type 0} {a b : A} → ◌≡◌ {A = Result E A} (ok a) (ok b) → a ≡ b
unfolding ok_value
ok_inj {a = a} q = ap (ok_value a) q

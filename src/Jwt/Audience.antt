-- ===== src/Jwt/Audience.antt =====
-- src/jwt.rs: the audience claim, independent of the loop that reads it.
use auth_mini_gateway.Prelude.{
  ◌≡◌, Bool, true, false, ◌||◌, Option, none, some, [], ◌∷◌, arith, ◌↔◌, ◌⊎◌, inl, inr,
}
use auth_mini_gateway.Prelude.Text.{Str, str_eq, str_eq_iff}
use auth_mini_gateway.Jwt.{
  Value, Values, null, boolean, number, string, array, object, empty, item, audiences_contain,
  audience_claim_contains,
}

-- A text that is not empty.
abbrev pub IsAudience : Value → Type 0
IsAudience (string (c ∷ s)) = Unit
IsAudience _ = ⊥

abbrev pub AllAudiences : Values → Type 0
AllAudiences empty = Unit
AllAudiences (item v vs) = IsAudience v × AllAudiences vs

abbrev pub Names : Str → Values → Type 0
Names expected empty = ⊥
Names expected (item v vs) = (v ≡ string expected) ⊎ Names expected vs

-- A claim that names the audience: the text itself, or an array of texts, none of them empty, with it
-- among them.
abbrev pub ClaimNames : Option Value → Str → Type 0
ClaimNames (some (string s)) expected = s ≡ expected
ClaimNames (some (array vs)) expected = AllAudiences vs × Names expected vs
ClaimNames _ expected = ⊥

loop_sound :
    (found : Bool) (vs : Values) (expected : Str)
    → audiences_contain found vs expected ≡ true
    → AllAudiences vs × ((found ≡ true) ⊎ Names expected vs)
unfolding audiences_contain
loop_sound found empty expected h = (tt, inl h)
loop_sound found (item (string []) vs) expected h = absurd (ground arith)
loop_sound found (item (string (c ∷ s)) vs) expected h =
    let (a, n) = loop_sound (found || str_eq (c ∷ s) expected) vs expected h in
    ((tt, a), ground (arith, str_eq_iff (c ∷ s) expected))
loop_sound found (item null vs) expected h = absurd (ground arith)
loop_sound found (item (boolean b) vs) expected h = absurd (ground arith)
loop_sound found (item (number n) vs) expected h = absurd (ground arith)
loop_sound found (item (array ws) vs) expected h = absurd (ground arith)
loop_sound found (item (object fs) vs) expected h = absurd (ground arith)

loop_complete :
    (found : Bool) (vs : Values) (expected : Str)
    → AllAudiences vs
    → ((found ≡ true) ⊎ Names expected vs)
    → audiences_contain found vs expected ≡ true
unfolding audiences_contain
loop_complete found empty expected a n = ground arith
loop_complete found (item (string []) vs) expected a n = absurd a.0
loop_complete found (item (string (c ∷ s)) vs) expected a n =
    loop_complete (found || str_eq (c ∷ s) expected) vs expected a.1
      (ground (arith, str_eq_iff (c ∷ s) expected))
loop_complete found (item null vs) expected a n = absurd a.0
loop_complete found (item (boolean b) vs) expected a n = absurd a.0
loop_complete found (item (number x) vs) expected a n = absurd a.0
loop_complete found (item (array ws) vs) expected a n = absurd a.0
loop_complete found (item (object fs) vs) expected a n = absurd a.0

no_claim : (found : Bool) {A : Type 0} → (false ≡ true) → A
no_claim found h = absurd (ground arith)

-- The loop over the audience claim accepts exactly the claims that name the expected audience: as the
-- text itself, or in an array whose entries all are texts that are not empty.
pub audience_claim_contains_iff :
    (claim : Option Value) (expected : Str)
    → (audience_claim_contains claim expected ≡ true) ↔ ClaimNames claim expected
unfolding audience_claim_contains
audience_claim_contains_iff (some (string s)) expected = str_eq_iff s expected
audience_claim_contains_iff (some (array vs)) expected = (
  λ h. let (a, n) = loop_sound false vs expected h in (a, ground arith),
  λ h. loop_complete false vs expected h.0 (inr h.1),
)
audience_claim_contains_iff none expected = (λ h. no_claim true h, λ h. absurd h)
audience_claim_contains_iff (some null) expected = (λ h. no_claim true h, λ h. absurd h)
audience_claim_contains_iff (some (boolean b)) expected = (λ h. no_claim true h, λ h. absurd h)
audience_claim_contains_iff (some (number n)) expected = (λ h. no_claim true h, λ h. absurd h)
audience_claim_contains_iff (some (object fs)) expected = (λ h. no_claim true h, λ h. absurd h)

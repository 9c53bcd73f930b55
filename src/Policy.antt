-- ===== src/Policy.antt =====
-- src/policy.rs: the allowlist of auth-mini user ids.
use auth_mini_gateway.Prelude.{
  Bool, true, false, ◌||◌, ◌≡◌, ◌↔◌, ◌⊎◌, List, [], ◌∷◌, arith, if◌then◌else◌,
}
use auth_mini_gateway.Prelude.Text.{Str, str_eq, str_eq_iff}
use auth_mini_gateway.Config.{Config}

pub data PolicyDecision : Type 0 where
  allow deny : PolicyDecision

-- HashSet::contains
unfoldable pub member : Str → List Str → Bool
member s [] = false
member s (t ∷ ts) = str_eq s t || member s ts

unfoldable pub evaluate : Str → Config → PolicyDecision
evaluate user_id config = if member user_id config.allow_user_ids then allow else deny

-- A text of the list, byte for byte.
abbrev pub IsListed : Str → List Str → Type 0
IsListed s [] = ⊥
IsListed s (t ∷ ts) = (s ≡ t) ⊎ IsListed s ts

IsListed-member : (s : Str) (ts : List Str) → member s ts ≡ true → IsListed s ts
unfolding member
IsListed-member s [] h = ground arith
IsListed-member s (t ∷ ts) h = ground (arith, str_eq_iff s t, IsListed-member s ts)

member_of_IsListed : (s : Str) (ts : List Str) → IsListed s ts → member s ts ≡ true
unfolding member
member_of_IsListed s [] h = absurd h
member_of_IsListed s (t ∷ ts) h = ground (arith, str_eq_iff s t, member_of_IsListed s ts)

-- The decision is `allow` exactly for the user ids that the allowlist holds, so an empty allowlist
-- denies every user.
pub evaluate_iff :
    (user_id : Str) (config : Config)
    → (evaluate user_id config ≡ allow) ↔ IsListed user_id config.allow_user_ids
unfolding evaluate
evaluate_iff user_id config = (
  λ h. IsListed-member user_id _ (ground arith),
  λ h. let m = member_of_IsListed user_id _ h in ground arith,
)

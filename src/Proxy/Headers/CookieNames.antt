-- ===== src/Proxy/Headers/CookieNames.antt =====
-- src/proxy.rs: the cookies of an upstream that pass, against the way a browser reads their names.
use auth_mini_gateway.Prelude.{
  ℕ, ◌≡◌, ◌≢◌, refl, ap, true, ◌||◌, Option, none, some, List, [], ◌∷◌, if◌then◌else◌, arith, all,
  ◌==◌,
}
use mathlib.Core.List.{reverse, reverse-reverse}
use auth_mini_gateway.Prelude.Text.Trim.{all-reverse}
use auth_mini_gateway.Prelude.Text.{Str, codes, str_eq, str_eq_refl}
use auth_mini_gateway.Prelude.Text.Split.{split, split_once, cons_piece, cons_first}
use auth_mini_gateway.Http.{is_token_byte}
use auth_mini_gateway.Proxy.Headers.{
  trim_blanks, first_piece, allowed_name, is_allowed_application_cookie,
}

-- RFC 6265, 5.2: the text before the first `;`, cut at its first `=`, with the blanks around the name
-- removed. A text without `=` names no cookie.
unfoldable pub before : ℕ → Str → Str
before b [] = []
before b (a ∷ s) = if a == b then [] else a ∷ before b s

trimmed : Str → Str
unfolding trim_blanks
trimmed s = reverse (trim_blanks (reverse (trim_blanks s)))

before_equal : Option (Str × Str) → Option Str
before_equal none = none
before_equal (some (name, value)) = some (trimmed name)

unfoldable pub browser_name : Str → Option Str
unfolding before before_equal trimmed
browser_name value = before_equal (split_once b'=' (before b';' value))

first_piece-cons : (a : ℕ) (r : List Str) → first_piece (cons_piece a r) ≡ a ∷ first_piece r
unfolding first_piece cons_piece
first_piece-cons a [] = refl
first_piece-cons a (p ∷ ps) = refl

first_piece-split : (b : ℕ) (s : Str) → first_piece (split b s) ≡ before b s
unfolding split before first_piece
first_piece-split b [] = refl
first_piece-split b (a ∷ s) = ground (arith, first_piece-split b s, first_piece-cons a (split b s))

before-trim_blanks : (s : Str) → before b';' (trim_blanks s) ≡ trim_blanks (before b';' s)
unfolding before trim_blanks
before-trim_blanks [] = refl
before-trim_blanks (b ∷ s) = ground (arith, before-trim_blanks s)

trim_name : Option (Str × Str) → Option (Str × Str)
trim_name none = none
trim_name (some (name, value)) = some (trim_blanks name, value)

trim_name-cons_first :
    (b : ℕ) (o : Option (Str × Str))
    → trim_name (cons_first b o) ≡ (if (b == b' ') || (b == 9) then trim_name o else cons_first b o)
unfolding trim_name cons_first trim_blanks
trim_name-cons_first b none = ground arith
trim_name-cons_first b (some (name, value)) = ground arith

split_once-trim_blanks : (s : Str) → split_once b'=' (trim_blanks s) ≡ trim_name (split_once b'=' s)
unfolding split_once trim_blanks trim_name
split_once-trim_blanks [] = refl
split_once-trim_blanks (b ∷ s) =
    ground (arith, split_once-trim_blanks s, trim_name-cons_first b (split_once b'=' s))

trim_blanks-token : (s : Str) → all is_token_byte s ≡ true → trim_blanks s ≡ s
unfolding trim_blanks is_token_byte
trim_blanks-token [] h = refl
trim_blanks-token (b ∷ s) h = ground arith

trimmed-token : (s : Str) → all is_token_byte (trim_blanks s) ≡ true → trimmed s ≡ trim_blanks s
unfolding trimmed
trimmed-token s h =
    rw (trim_blanks-token (reverse (trim_blanks s)) (all-reverse is_token_byte (trim_blanks s) h))
      (reverse-reverse (trim_blanks s))

read_name :
    (o : Option (Str × Str))
    → allowed_name (trim_name o) ≡ true
    → (name : Str) × (before_equal o ≡ some name)
      × (name ≢ codes "amg_session")
      × (name ≢ codes "amg_login_state")
unfolding allowed_name trim_name before_equal
read_name none h = absurd (ground arith)
read_name (some (name, value)) h =
    let bare = trim_blanks name in
    (
      bare,
      ap some (trimmed-token name (ground arith)),
      λ e.
          ground
            (arith, ap (λ t. str_eq t (codes "amg_session")) e, str_eq_refl (codes "amg_session")),
      λ e. ground (
        arith,
        ap (λ t. str_eq t (codes "amg_login_state")) e,
        str_eq_refl (codes "amg_login_state"),
      ),
    )

-- An allowed cookie is read by a browser, and under a name that is not one of the gateway's.
pub is_allowed_application_cookie-safe :
    (value : Str)
    → is_allowed_application_cookie value ≡ true
    → (name : Str) × (browser_name value ≡ some name)
      × (name ≢ codes "amg_session")
      × (name ≢ codes "amg_login_state")
unfolding is_allowed_application_cookie browser_name
is_allowed_application_cookie-safe value h = read_name (split_once b'=' (before b';' value)) (
    rw
      (
        ← split_once-trim_blanks (before b';' value),
        ← before-trim_blanks value,
        ← first_piece-split b';' (trim_blanks value),
      )
      h)

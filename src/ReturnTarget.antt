-- ===== src/ReturnTarget.antt =====
-- src/return_target.rs: the security boundary for browser return targets.
pub mod Safety
use auth_mini_gateway.Prelude.{
  ℕ, Bool, true, false, ◌||◌, ◌&&◌, not, Option, none, some, [], ◌∷◌, ◌++◌, ltb, ◌==◌,
  if◌then◌else◌, is_empty,
}
use auth_mini_gateway.Prelude.Text.{Str, codes}
use auth_mini_gateway.Prelude.Text.Hex.{hex_pair}
use auth_mini_gateway.Prelude.Text.Split.{starts_with, contains}
use auth_mini_gateway.Prelude.Text.Trim.{trim}
use auth_mini_gateway.Crates.{Crates}

pub data ReturnTargetMode : Type 0 where
  direct_login proxy_fallback : ReturnTargetMode

abbrev pub is_unsafe_byte : ℕ → Bool
is_unsafe_byte byte = (byte == 0x5c) || (ltb byte 0x20 || (byte == 0x7f))

-- The loop over the bytes that are left: a `%` needs two bytes behind it, which are skipped.
unfoldable pub has_unsafe_bytes : Str → Bool
has_unsafe_bytes [] = false
has_unsafe_bytes (c ∷ []) = is_unsafe_byte c || (c == b'%')
has_unsafe_bytes (c ∷ a ∷ []) =
    let rest = has_unsafe_bytes (a ∷ []) in
    if is_unsafe_byte c then true else if c == b'%' then true else rest
has_unsafe_bytes (c ∷ a ∷ b ∷ s) =
    let rest = has_unsafe_bytes (a ∷ b ∷ s) in
    let after = has_unsafe_bytes s in
    if is_unsafe_byte c
    then true
    else if c == b'%'
    then elim (hex_pair a b) [
      | none ↦ true
      | some decoded ↦ if is_unsafe_byte decoded then true else after
    ]
    else rest

-- input.map(str::trim).filter(|value| !value.is_empty()).unwrap_or("/")
or_root : Str → Str
or_root value = if is_empty value then codes "/" else value

direct_input : Option Str → Str
unfolding or_root
direct_input none = codes "/"
direct_input (some input) = or_root (trim input)

proxy_target : Str → Option Str
proxy_target raw =
    if not (starts_with (codes "/") raw) || (starts_with (codes "//") raw || contains b'#' raw)
    then none
    else some raw

module _ (c : Crates) where
  suffix : ℕ → Option Str → Str
  suffix mark none = []
  suffix mark (some s) = mark ∷ s

  unfoldable pub format_path : c.Url → Str
  unfolding suffix
  format_path url = c.path url ++ (suffix b'?' (c.query url) ++ suffix b'#' (c.fragment url))

  map_path : Option c.Url → Option Str
  map_path none = none
  map_path (some url) = some (format_path url)

  same_origin_path : c.Url → Option c.Url → Option Str
  same_origin_path public none = none
  same_origin_path public (some parsed) =
      if c.same_origin parsed public then some (format_path parsed) else none

  direct_target : Option c.Url → Str → Option Str
  unfolding map_path same_origin_path
  direct_target none raw = none
  direct_target (some public) raw =
      if starts_with (codes "/") raw && not (starts_with (codes "//") raw)
      then map_path (c.join public raw)
      else same_origin_path public (c.parse raw)

  target_of : ReturnTargetMode → Str → Str → Option Str
  unfolding direct_target proxy_target
  target_of proxy_fallback public_base_url raw = proxy_target raw
  target_of direct_login public_base_url raw = direct_target (c.parse public_base_url) raw

  guarded : ReturnTargetMode → Str → Str → Option Str
  unfolding target_of
  guarded mode public_base_url raw =
      if has_unsafe_bytes raw then none else target_of mode public_base_url raw

  unfoldable pub normalize_return_target : Option Str → Str → ReturnTargetMode → Option Str
  unfolding guarded direct_input
  normalize_return_target none public_base_url proxy_fallback = none
  normalize_return_target (some raw) public_base_url proxy_fallback =
      guarded proxy_fallback public_base_url raw
  normalize_return_target input public_base_url direct_login =
      guarded direct_login public_base_url (direct_input input)

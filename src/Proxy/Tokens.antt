-- ===== src/Proxy/Tokens.antt =====
-- src/proxy.rs: the lists of tokens in WebSocket headers, with their quoted strings.
pub mod Quotes
pub mod Pieces
use auth_mini_gateway.Prelude.{
  ℕ, Bool, true, false, ◌&&◌, ◌||◌, not, Option, none, some, List, [], ◌∷◌, ◌++◌, any, all,
  is_empty, leb, ◌==◌, if◌then◌else◌,
}
use auth_mini_gateway.Prelude.Result.{Result, ok, err, refuse_if, ok_or, ◌>>=◌, ◌>>◌}
use auth_mini_gateway.Prelude.Text.{Str, codes, str_eq, lowercase}
use auth_mini_gateway.Prelude.Text.Split.{split, split_once}
use auth_mini_gateway.Prelude.Text.Trim.{trim}
use auth_mini_gateway.Http.{is_token_byte}
use auth_mini_gateway.Crates.HeaderMap.{HttpCrate}
use auth_mini_gateway.Proxy.{ProxyError, bad_request}

-- HashSet::contains
abbrev pub is_member : Str → List Str → Bool
is_member s xs = any (λ x. str_eq x s) xs

-- A byte that may follow a backslash, and one that may stand for itself in a quoted string.
abbrev pub is_escapable : ℕ → Bool
is_escapable b = (b == 9) || (leb 0x20 b && leb b 0x7e)

abbrev pub is_quotable : ℕ → Bool
is_quotable b =
    (b == 9)
    || ((leb 0x20 b && leb b 0x21) || ((leb 0x23 b && leb b 0x5b) || (leb 0x5d b && leb b 0x7e)))

-- `quoted` and `escaped` behind a byte
unfoldable pub scan_byte : Bool → Bool → ℕ → Result ProxyError (Bool × Bool)
scan_byte true true b = if is_escapable b then ok (true, false) else err bad_request
scan_byte true false b =
    if b == b'\\'
    then ok (true, true)
    else if b == b'"'
    then ok (false, false)
    else if is_quotable b
    then ok (true, false)
    else err bad_request
scan_byte false escaped b = ok (b == b'"', escaped)

-- The delimiter outside a quoted string
abbrev pub is_cut : ℕ → Bool → ℕ → Bool
is_cut delimiter quoted b = not quoted && (not (b == b'"') && (b == delimiter))

-- `piece` is the text from `start` to the byte.
unfoldable pub split_from : ℕ → Bool → Bool → Str → Str → Result ProxyError (List Str)
unfolding scan_byte
split_from delimiter quoted escaped piece [] = do
  refuse_if (quoted || escaped) bad_request
  ok (piece ∷ [])
split_from delimiter quoted escaped piece (b ∷ s) = do
  state ← scan_byte quoted escaped b
  let cut = is_cut delimiter quoted b
  pieces ← split_from delimiter state.0 state.1 (if cut then [] else piece ++ b ∷ []) s
  ok (if cut then piece ∷ pieces else pieces)

unfoldable pub split_websocket_header : Str → ℕ → Result ProxyError (List Str)
unfolding split_from
split_websocket_header value delimiter = split_from delimiter false false [] value

-- The loop over the bytes between the quotes, and the quote at the end.
quoted_rest : Bool → Str → Bool
quoted_rest escaped [] = false
quoted_rest escaped (b ∷ []) = (b == b'"') && not escaped
quoted_rest true (b ∷ c ∷ s) = is_escapable b && quoted_rest false (c ∷ s)
quoted_rest false (b ∷ c ∷ s) =
    let escaped = quoted_rest true (c ∷ s) in
    let plain = quoted_rest false (c ∷ s) in
    if b == b'\\' then escaped else not (b == b'"') && (is_quotable b && plain)

unfoldable pub valid_websocket_quoted_string : Str → Bool
unfolding quoted_rest
valid_websocket_quoted_string [] = false
valid_websocket_quoted_string (b ∷ s) = (b == b'"') && quoted_rest false s

unfoldable pub first_or_empty : List Str → Str
first_or_empty [] = []
first_or_empty (x ∷ xs) = x

unfoldable pub rest_of : List Str → List Str
rest_of [] = []
rest_of (x ∷ xs) = xs

unfoldable pub param_parts : Str → Option (Str × Str) → Str × Option Str
param_parts whole none = (whole, none)
param_parts whole (some (name, value)) = (trim name, some (trim value))

unfoldable pub valid_param_value : Option Str → Bool
valid_param_value none = true
valid_param_value (some value) =
    not (is_empty value) && (all is_token_byte value || valid_websocket_quoted_string value)

-- The parameters of an extension; `seen` are the names behind which they stand.
unfoldable pub parse_parameters : List Str → List Str → Result ProxyError (Unit {0})
unfolding param_parts valid_param_value
parse_parameters seen [] = ok tt
parse_parameters seen (parameter ∷ parameters) = do
  let parameter = trim parameter
  refuse_if (is_empty parameter) bad_request
  let parts = param_parts parameter (split_once b'=' parameter)
  refuse_if (is_empty parts.0 || not (all is_token_byte parts.0)) bad_request
  refuse_if (is_member (lowercase parts.0) seen) bad_request
  refuse_if (not (valid_param_value parts.1)) bad_request
  parse_parameters (lowercase parts.0 ∷ seen) parameters

-- The names of the extensions of one value, behind those that were seen, the latest first.
unfoldable pub parse_extension_list : List Str → List Str → Result ProxyError (List Str)
unfolding first_or_empty rest_of parse_parameters
parse_extension_list seen [] = ok seen
parse_extension_list seen (extension ∷ extensions) = do
  pieces ← split_websocket_header extension b';'
  let name = trim (first_or_empty pieces)
  refuse_if (is_empty name || not (all is_token_byte name)) bad_request
  refuse_if (is_member (lowercase name) seen) bad_request
  parse_parameters [] (rest_of pieces)
  parse_extension_list (lowercase name ∷ seen) extensions

parse_protocol_list : List Str → List Str → Result ProxyError (List Str)
parse_protocol_list seen [] = ok seen
parse_protocol_list seen (protocol ∷ protocols) = do
  let protocol = trim protocol
  refuse_if (is_empty protocol || (not (all is_token_byte protocol) || is_member protocol seen))
      bad_request
  parse_protocol_list (seen ++ protocol ∷ []) protocols

module _ (c : HttpCrate) where
  protocol_values : List Str → List Str → Result ProxyError (List Str)
  unfolding parse_protocol_list
  protocol_values seen [] = ok seen
  protocol_values seen (value ∷ values) = do
    value ← ok_or (c.to_str value) bad_request
    seen ← parse_protocol_list seen (split b',' value)
    protocol_values seen values

  unfoldable pub parse_protocols : c.HeaderMap → Result ProxyError (List Str)
  unfolding protocol_values
  parse_protocols headers = protocol_values [] (c.get_all headers (codes "sec-websocket-protocol"))

  unfoldable pub extension_values : List Str → List Str → Result ProxyError (List Str)
  unfolding parse_extension_list
  extension_values seen [] = ok seen
  extension_values seen (value ∷ values) = do
    value ← ok_or (c.to_str value) bad_request
    extensions ← split_websocket_header value b','
    seen ← parse_extension_list seen extensions
    extension_values seen values

  -- The set of the extensions' names, as a list.
  unfoldable pub parse_extensions : c.HeaderMap → Result ProxyError (List Str)
  unfolding extension_values
  parse_extensions headers =
      extension_values [] (c.get_all headers (codes "sec-websocket-extensions"))

  unfoldable pub only_value : List Str → Result ProxyError Str
  only_value (value ∷ []) = ok value
  only_value _ = err bad_request

  unfoldable pub exactly_one : c.HeaderMap → Str → Result ProxyError Str
  unfolding only_value
  exactly_one headers name = only_value (c.get_all headers name)

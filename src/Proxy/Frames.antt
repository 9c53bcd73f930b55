-- ===== src/Proxy/Frames.antt =====
-- src/proxy.rs: the scanner of the frames that an HTTP/2 server sends. A buffer with its length is the
-- list of the bytes that it holds, and a failed step returns the scanner as it leaves it. On the 64-bit
-- targets a `u32` converts to `usize` unchanged.
pub mod Bytes
pub mod Ready
pub mod Passes
pub mod Chunks
pub mod Feeds
pub mod Reads
pub mod Settings
pub mod Announced
pub mod Known
use auth_mini_gateway.Prelude.{
  ℕ, zero, suc, ◌+◌, ◌-◌, ◌*◌, ◌%◌, ◌^◌, min, Bool, true, false, ◌&&◌, ◌||◌, not, Option, none,
  some, List, [], ◌∷◌, ◌++◌, length, take, drop, ltb, leb, ◌==◌, if◌then◌else◌,
}
use auth_mini_gateway.Prelude.Result.{Result, ok, err, ◌>>=◌}
use auth_mini_gateway.Prelude.Text.{Str}

abbrev pub h2_initial_settings_max : ℕ
h2_initial_settings_max = 16384

pub record InitialH2Settings : Type 0 where
  pub extended_connect : Bool
  pub max_concurrent_streams : Option ℕ

pub record InboundObservation : Type 0 where
  pub initial : Option InitialH2Settings
  pub revoke : Bool

pub data ScannedPayload : Type 0 where
  skip initial_settings later_settings : ScannedPayload

pub record ServerFrameScanner : Type 0 where
  pub header : Str
  pub payload_remaining : ℕ
  pub payload : ScannedPayload
  pub pair : Str
  pub frame_extended_connect : Option Bool
  pub building_initial : InitialH2Settings
  pub settings : Option InitialH2Settings

-- Default
abbrev pub no_settings : InitialH2Settings
no_settings = record { extended_connect = false; max_concurrent_streams = none }

abbrev pub no_observation : InboundObservation
no_observation = record { initial = none; revoke = false }

abbrev pub new_scanner : ServerFrameScanner
new_scanner = record {
  header = [];
  payload_remaining = 0;
  payload = skip;
  pair = [];
  frame_extended_connect = none;
  building_initial = no_settings;
  settings = none;
}

unfoldable pub byte_at : ℕ → Str → ℕ
byte_at n [] = 0
byte_at zero (b ∷ bs) = b
byte_at (suc n) (b ∷ bs) = byte_at n bs

-- from_be_bytes of the bytes from a position on
unfoldable pub be16 : ℕ → Str → ℕ
unfolding byte_at
be16 n bytes = byte_at n bytes * 256 + byte_at (n + 1) bytes

unfoldable pub be24 : ℕ → Str → ℕ
unfolding byte_at be16
be24 n bytes = be16 n bytes * 256 + byte_at (n + 2) bytes

unfoldable pub be32 : ℕ → Str → ℕ
unfolding be16
be32 n bytes = be16 n bytes * 2 ^ 16 + be16 (n + 2) bytes

-- flags & 0x1 != 0
abbrev pub has_ack : ℕ → Bool
has_ack flags = flags % 2 == 1

begin_payload :
    ServerFrameScanner
    → ℕ
    → ℕ
    → ℕ
    → ℕ
    → Option InitialH2Settings
    → Result ServerFrameScanner ServerFrameScanner
begin_payload s length frame_type flags stream none =
    if not (frame_type == 0x4)
      || (has_ack flags
          || (not (stream == 0) || (ltb h2_initial_settings_max length || not (length % 6 == 0))))
    then err s
    else ok (record s { building_initial = no_settings; payload = initial_settings })
begin_payload s length frame_type flags stream (some settings) =
    if (frame_type == 0x4) && (not (has_ack flags) && ((stream == 0) && (length % 6 == 0)))
    then ok (record s { payload = later_settings })
    else ok (record s { payload = skip })

-- The scanner at the start of a payload of the length that its header states.
abbrev pub opened : ServerFrameScanner → ServerFrameScanner
opened s = record s {
  header = [];
  payload_remaining = be24 0 s.header;
  pair = [];
  frame_extended_connect = none;
}

unfoldable pub begin_frame : ServerFrameScanner → Result ServerFrameScanner ServerFrameScanner
unfolding begin_payload be24 be32 byte_at
begin_frame s =
    begin_payload (opened s) (be24 0 s.header) (byte_at 3 s.header) (byte_at 4 s.header)
      (be32 5 s.header % 2 ^ 31) s.settings

pub initial_pair : ServerFrameScanner → ℕ → ℕ → Result ServerFrameScanner ServerFrameScanner
initial_pair s id value =
    let building = s.building_initial in
    if id == 0x2
    then err s
    else if id == 0x3
    then ok
        (record s { building_initial = record building { max_concurrent_streams = some value } })
    else if (id == 0x4) && ltb 0x7fffffff value
    then err s
    else if (id == 0x5) && not (leb 16384 value && leb value 16777215)
    then err s
    else if (id == 0x8) && ltb 1 value
    then err s
    else if id == 0x8
    then ok (record s { building_initial = record building { extended_connect = value == 1 } })
    else ok s

pair_of : ScannedPayload → ServerFrameScanner → ℕ → ℕ → Result ServerFrameScanner ServerFrameScanner
unfolding initial_pair
pair_of initial_settings s id value = initial_pair s id value
pair_of later_settings s id value =
    if (id == 0x8) && leb value 1
    then ok (record s { frame_extended_connect = some (value == 1) })
    else ok s
pair_of skip s id value = ok s

unfoldable pub consume_pair : ServerFrameScanner → Result ServerFrameScanner ServerFrameScanner
unfolding pair_of be16 be32
consume_pair s = pair_of s.payload s (be16 0 s.pair) (be32 2 s.pair)

is_disabled : Option Bool → Bool
is_disabled (some false) = true
is_disabled _ = false

observed : ScannedPayload → ServerFrameScanner → InboundObservation → InboundObservation
unfolding is_disabled
observed initial_settings s o = record o { initial = some s.building_initial }
observed later_settings s o =
    if is_disabled s.frame_extended_connect then record o { revoke = true } else o
observed skip s o = o

settings_of : ScannedPayload → ServerFrameScanner → Option InitialH2Settings
settings_of initial_settings s = some s.building_initial
settings_of _ s = s.settings

unfoldable pub finish_frame :
    ServerFrameScanner → InboundObservation → InboundObservation × ServerFrameScanner
unfolding observed settings_of
finish_frame s o = (
  observed s.payload s o,
  record s {
    settings = settings_of s.payload s;
    payload = skip;
    pair = [];
    frame_extended_connect = none;
  },
)

-- The result of a feed.
abbrev pub Fed : Type 0
Fed = Result ServerFrameScanner (InboundObservation × ServerFrameScanner)

-- One pass of the loop: it returns or breaks, or goes on with the bytes that are left.
pub data Turn : Type 0 where
  done : Fed → Turn
  again : ServerFrameScanner → InboundObservation → Str → Turn

unfoldable pub if_finished : ServerFrameScanner → InboundObservation → Str → Turn
if_finished s o rest =
    if s.payload_remaining == 0
    then (let (o', s') = finish_frame s o in again s' o' rest)
    else again s o rest

unfoldable pub after_pair :
    InboundObservation → Str → Result ServerFrameScanner ServerFrameScanner → Turn
unfolding if_finished
after_pair o rest (err s) = done (err s)
after_pair o rest (ok s) = if_finished (record s { pair = [] }) o rest

unfoldable pub pair_turn : ServerFrameScanner → InboundObservation → Str → Turn
unfolding if_finished after_pair
pair_turn s o bytes =
    let copied = min (min (6 - length s.pair) s.payload_remaining) (length bytes) in
    let s' = record s {
      pair = s.pair ++ take copied bytes;
      payload_remaining = s.payload_remaining - copied;
    } in
    let rest = drop copied bytes in
    if length s'.pair == 6 then after_pair o rest (consume_pair s') else if_finished s' o rest

unfoldable pub skip_turn : ServerFrameScanner → InboundObservation → Str → Turn
unfolding if_finished
skip_turn s o bytes =
    let skipped = min s.payload_remaining (length bytes) in
    if_finished (record s { payload_remaining = s.payload_remaining - skipped }) o
      (drop skipped bytes)

unfoldable pub payload_turn : ScannedPayload → ServerFrameScanner → InboundObservation → Str → Turn
unfolding skip_turn pair_turn
payload_turn skip s o bytes = skip_turn s o bytes
payload_turn initial_settings s o bytes = pair_turn s o bytes
payload_turn later_settings s o bytes = pair_turn s o bytes

unfoldable pub begun :
    InboundObservation → Str → Result ServerFrameScanner ServerFrameScanner → Turn
unfolding payload_turn
begun o rest (err s) = done (err s)
begun o rest (ok s) =
    if s.payload_remaining == 0
    then (let (o', s') = finish_frame s o in again s' o' rest)
    else payload_turn s.payload s o rest

unfoldable pub header_turn : ServerFrameScanner → InboundObservation → Str → Turn
unfolding begun
header_turn s o bytes =
    let copied = min (9 - length s.header) (length bytes) in
    let s' = record s { header = s.header ++ take copied bytes } in
    if ltb (length s'.header) 9
    then done (ok (o, s'))
    else begun o (drop copied bytes) (begin_frame s')

unfoldable pub turn : ServerFrameScanner → InboundObservation → Str → Turn
unfolding header_turn payload_turn
turn s o bytes =
    if s.payload_remaining == 0 then header_turn s o bytes else payload_turn s.payload s o bytes

-- The loop, with fuel for its passes; `none` means that the fuel ran out.
unfoldable pub feed_loop : ℕ → ServerFrameScanner → InboundObservation → Str → Option Fed
feed_loop fuel s o [] = some (ok (o, s))
feed_loop zero s o (b ∷ bs) = none
feed_loop (suc fuel) s o (b ∷ bs) = elim (turn s o (b ∷ bs)) [
  | done fed ↦ some fed
  | again s' o' rest ↦ feed_loop fuel s' o' rest
]

-- A pass takes at least one byte, so the length is enough fuel.
unfoldable pub feed : ServerFrameScanner → Str → Option Fed
unfolding feed_loop
feed s bytes = feed_loop (length bytes) s no_observation bytes

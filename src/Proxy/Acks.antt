-- ===== src/Proxy/Acks.antt =====
-- src/proxy.rs: the parser of what the gateway sends to an HTTP/2 server, up to the acknowledgement of
-- the server's SETTINGS. The buffer of a header with its length is the list of the bytes that it holds.
pub mod Returns
pub mod Sent
use auth_mini_gateway.Prelude.{
  ℕ, zero, suc, ◌+◌, ◌-◌, ◌%◌, ◌^◌, min, Bool, true, false, ◌&&◌, ◌||◌, not, Option, none, some,
  List, [], ◌∷◌, ◌++◌, length, take, drop, ltb, ◌==◌, if◌then◌else◌,
}
use auth_mini_gateway.Prelude.Result.{Result, ok, err}
use auth_mini_gateway.Prelude.Text.{Str, codes, str_eq}
use auth_mini_gateway.Proxy.Frames.{byte_at, be24, be32, has_ack}

abbrev pub h2_client_preface : Str
h2_client_preface = codes "PRI * HTTP/2.0\r\n\r\nSM\r\n\r\n"

pub record ClientAckParser : Type 0 where
  pub preface_len : ℕ
  pub header : Str
  pub payload_remaining : ℕ
  pub ack_seen : Bool

abbrev pub new_acks : ClientAckParser
new_acks = record { preface_len = 0; header = []; payload_remaining = 0; ack_seen = false }

-- One pass of the loop: it returns, or goes on with the bytes that are left.
pub data Pass : Type 0 where
  returns : Result ClientAckParser ClientAckParser → Pass
  goes_on : ClientAckParser → Str → Pass

unfoldable pub preface_pass : ClientAckParser → Str → Pass
preface_pass p bytes =
    let copied = min (24 - p.preface_len) (length bytes) in
    if not (str_eq (take copied bytes) (take copied (drop p.preface_len h2_client_preface)))
    then returns (err p)
    else goes_on (record p { preface_len = p.preface_len + copied }) (drop copied bytes)

unfoldable pub skip_pass : ClientAckParser → Str → Pass
skip_pass p bytes =
    let skipped = min p.payload_remaining (length bytes) in
    goes_on (record p { payload_remaining = p.payload_remaining - skipped }) (drop skipped bytes)

-- A header that is complete.
unfoldable pub frame_pass : ClientAckParser → Str → Pass
frame_pass p rest =
    if (byte_at 3 p.header == 0x4) && has_ack (byte_at 4 p.header)
    then (if not (be24 0 p.header == 0) || not (be32 5 p.header % 2 ^ 31 == 0)
        then returns (err p)
        else returns (ok (record p { ack_seen = true })))
    else goes_on (record p { payload_remaining = be24 0 p.header; header = [] }) rest

unfoldable pub header_pass : ClientAckParser → Str → Pass
header_pass p bytes =
    let copied = min (9 - length p.header) (length bytes) in
    let p' = record p { header = p.header ++ take copied bytes } in
    let rest = drop copied bytes in
    if ltb (length p'.header) 9 then goes_on p' rest else frame_pass p' rest

unfoldable pub pass : ClientAckParser → Str → Pass
pass p bytes =
    if ltb p.preface_len 24
    then preface_pass p bytes
    else if not (p.payload_remaining == 0)
    then skip_pass p bytes
    else header_pass p bytes

-- The loop, with fuel for its passes; `none` means that the fuel ran out.
unfoldable pub passes : ℕ → ClientAckParser → Str → Option (Result ClientAckParser ClientAckParser)
passes fuel p [] = some (ok p)
passes zero p (b ∷ bs) = none
passes (suc fuel) p (b ∷ bs) = elim (pass p (b ∷ bs)) [
  | returns fed ↦ some fed
  | goes_on p' rest ↦ passes fuel p' rest
]

unfoldable pub feed_acks : ClientAckParser → Str → Option (Result ClientAckParser ClientAckParser)
feed_acks p bytes = if p.ack_seen then some (ok p) else passes (suc (length bytes)) p bytes

-- ===== src/Proxy/Proof.antt =====
-- src/proxy.rs: the proof that both sides of an HTTP/2 connection have exchanged their SETTINGS. The
-- connection's task reads and writes, so each observation is one step, and the values of the watch
-- channels are fields; other tasks change the generation's control between the steps.
pub mod Events
pub mod Proved
use auth_mini_gateway.Prelude.{
  ℕ, ◌-◌, min, Bool, true, false, not, Option, none, some, List, [], ◌∷◌, length, take, ◌==◌,
  if◌then◌else◌,
}
use auth_mini_gateway.Prelude.Result.{Result, ok, err}
use auth_mini_gateway.Prelude.Text.{Str}
use auth_mini_gateway.Proxy.Frames.{
  InitialH2Settings, InboundObservation, ServerFrameScanner, new_scanner, Fed, feed,
}
use auth_mini_gateway.Proxy.Acks.{ClientAckParser, new_acks, feed_acks}
use auth_mini_gateway.Proxy.Generation.{GenerationControl, install_initial, revoke_if_enabled}

pub data H2ProofStatus : Type 0 where
  pending : H2ProofStatus
  proved : InitialH2Settings → H2ProofStatus
  failed : H2ProofStatus

-- `inbound` and `outbound` are the parser behind the mutex `parser_poisoned` speaks of.
pub record H2ProofState : Type 0 where
  pub inbound : ServerFrameScanner
  pub outbound : ClientAckParser
  pub parser_poisoned : Bool
  pub status : H2ProofStatus
  pub transport_dropped : Bool
  pub control : GenerationControl

abbrev pub new_proof : GenerationControl → H2ProofState
new_proof control = record {
  inbound = new_scanner;
  outbound = new_acks;
  parser_poisoned = false;
  status = pending;
  transport_dropped = false;
  control = control;
}

abbrev pub is_pending : H2ProofStatus → Bool
is_pending pending = true
is_pending _ = false

abbrev pub ready_with : Option InitialH2Settings → H2ProofStatus
ready_with none = pending
ready_with (some settings) = proved settings

unfoldable pub proof_status : ServerFrameScanner → ClientAckParser → H2ProofStatus
proof_status inbound outbound = if outbound.ack_seen then ready_with inbound.settings else pending

unfoldable pub publish_status : H2ProofStatus → H2ProofState → H2ProofState
publish_status status s =
    if is_pending status
    then s
    else (if is_pending s.status then record s { status = status } else s)

-- The observed SETTINGS reach the control; `err` means that it had left the proving state.
unfoldable pub install_observed :
    Option InitialH2Settings → GenerationControl → Result (Unit {0}) (Unit {0}) × GenerationControl
install_observed none control = (ok tt, control)
install_observed (some initial) control = install_initial initial.extended_connect control

revoke_observed : Bool → H2ProofState → H2ProofState
revoke_observed revoke s = if revoke then record s { control = revoke_if_enabled s.control } else s

apply_installed : Result (Unit {0}) (Unit {0}) → H2ProofStatus → Bool → H2ProofState → H2ProofState
unfolding revoke_observed
apply_installed (err tt) status revoke s = record s { status = failed }
apply_installed (ok tt) status revoke s = publish_status status (revoke_observed revoke s)

-- What follows the feed, when the parser's lock is released.
unfoldable pub apply_observation :
    H2ProofStatus → Option InitialH2Settings → Bool → H2ProofState → H2ProofState
unfolding apply_installed
apply_observation status initial revoke s =
    let (result, control) = install_observed initial s.control in
    apply_installed result status revoke (record s { control = control })

unfoldable pub after_inbound : Fed → H2ProofState → H2ProofState
after_inbound (ok (o, inbound)) s =
    apply_observation (proof_status inbound s.outbound) o.initial o.revoke
      (record s { inbound = inbound })
after_inbound (err inbound) s = apply_observation failed none false (record s { inbound = inbound })

fed_inbound : Option Fed → H2ProofState → Option H2ProofState
fed_inbound none s = none
fed_inbound (some fed) s = some (after_inbound fed s)

-- `none` means that the loop of the scanner does not return.
unfoldable pub observe_inbound : Str → H2ProofState → Option H2ProofState
unfolding fed_inbound
observe_inbound bytes s =
    if s.parser_poisoned
    then some (apply_observation failed none true s)
    else fed_inbound (feed s.inbound bytes) s

unfoldable pub after_outbound : Result ClientAckParser ClientAckParser → H2ProofState → H2ProofState
after_outbound (ok outbound) s =
    publish_status (proof_status s.inbound outbound) (record s { outbound = outbound })
after_outbound (err outbound) s = publish_status failed (record s { outbound = outbound })

fed_outbound : Option (Result ClientAckParser ClientAckParser) → H2ProofState → Option H2ProofState
fed_outbound none s = none
fed_outbound (some fed) s = some (after_outbound fed s)

-- observe_outbound, with the body of `update`.
unfoldable pub observe_outbound : Str → H2ProofState → Option H2ProofState
unfolding fed_outbound
observe_outbound bytes s =
    if not (is_pending s.status)
    then some s
    else if s.parser_poisoned
    then some (publish_status failed s)
    else fed_outbound (feed_acks s.outbound bytes) s

unfoldable pub and_then :
    Option H2ProofState → (H2ProofState → Option H2ProofState) → Option H2ProofState
and_then none next = none
and_then (some s) next = next s

unfoldable pub observe_outbound_vectored : List Str → ℕ → H2ProofState → Option H2ProofState
unfolding and_then
observe_outbound_vectored [] accepted s = some s
observe_outbound_vectored (buf ∷ bufs) accepted s =
    if accepted == 0
    then some s
    else (let consumed = min accepted (length buf) in
        and_then (observe_outbound (take consumed buf) s)
          (λ s'. observe_outbound_vectored bufs (accepted - consumed) s'))

unfoldable pub io_failed : H2ProofState → H2ProofState
io_failed s = record s { status = failed }

unfoldable pub mark_transport_dropped : H2ProofState → H2ProofState
mark_transport_dropped s =
    if is_pending s.status
    then record s { transport_dropped = true; status = failed }
    else record s { transport_dropped = true }

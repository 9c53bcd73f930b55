-- ===== src/Server/Refresh.antt =====
-- src/server.rs: what the leader of a flight does, from `execute_flight` down.
use auth_mini_gateway.Prelude.{
  ℕ, zero, suc, ◌+◌, Bool, true, false, ◌||◌, ◌&&◌, not, Option, none, some, leb, ◌==◌,
  if◌then◌else◌,
}
use auth_mini_gateway.Prelude.Result.{Result, ok, err}
use auth_mini_gateway.Prelude.Text.{str_eq}
use auth_mini_gateway.Util.{DateTime, seconds}
use auth_mini_gateway.Config.{Config}
use auth_mini_gateway.Db.{
  GatewaySession, observed_version, same_version, same_state, ready, pending, SessionLookup, active,
  CasResult, updated, current, DbError,
}
use auth_mini_gateway.Db.Store.{
  lookup_session, conditional_revoke, finalize_pending, persist_pending,
}
use auth_mini_gateway.AuthTypes.{
  TokenResponse, RefreshRejected, RefreshError, VerifiedAccessToken, Jwks, contract_drift,
  identity_mismatch, persistence, token_verification,
}
use auth_mini_gateway.Flight.{
  FlightLeader, FlightOutcome, RejectedReason, remote, audience_rejected, local_inactive, add_alias,
}
use auth_mini_gateway.Server.{Surroundings, G, give, ◌>>=◌, ◌>>◌, ask, call, on_flights, time}

unfoldable pub session_needs_refresh : GatewaySession → Config → DateTime → Bool
session_needs_refresh session config at =
    leb session.access_expires_at (at + seconds config.refresh_skew_seconds)

unfoldable pub refresh_error_outcome : RefreshError → FlightOutcome
refresh_error_outcome (RefreshError.rejected reason) = FlightOutcome.rejected (remote reason)
refresh_error_outcome RefreshError.audience_rejected = FlightOutcome.indeterminate contract_drift
refresh_error_outcome (RefreshError.temporary class) = FlightOutcome.temporary class
refresh_error_outcome (RefreshError.indeterminate class) = FlightOutcome.indeterminate class

-- current.observed_version() != expected.observed_version() || current.refresh_token != expected.refresh_token
unfoldable pub differs : GatewaySession → GatewaySession → Bool
differs found expected =
    not (same_version (observed_version found) (observed_version expected))
    || not (str_eq found.refresh_token expected.refresh_token)

abbrev pub ready_at : GatewaySession → FlightOutcome
ready_at session = FlightOutcome.ready session.refresh_generation

-- The results of `finalize_pending`, for the session that was pending.
unfoldable pub finalized : GatewaySession → Result DbError CasResult → FlightOutcome
finalized session (ok (updated s)) =
    if same_state s.identity_state ready
    then ready_at s
    else FlightOutcome.indeterminate persistence
finalized session (ok (current s)) =
    if same_state s.identity_state ready && (s.refresh_generation == session.refresh_generation)
    then ready_at s
    else FlightOutcome.indeterminate persistence
finalized session (ok CasResult.inactive) = FlightOutcome.rejected local_inactive
finalized session (err e) = FlightOutcome.indeterminate persistence

-- Running out of fuel, as a handler that does not return.
abbrev pub exhausted : {A : Type 0} → G A
exhausted g = (none, g)

module _ (s : Surroundings) where
  -- `recover_pending_identity`, `revoke_expected_generation` and `use_current_session_without_refresh`
  -- call each other: where an audience is rejected, a newer version of the session is looked for, and a
  -- pending one is recovered in turn. The first of them is passed to the others as `recover`.
  unfoldable pub use_current_session_without_refresh :
      (GatewaySession → G FlightOutcome) → GatewaySession → G FlightOutcome
  use_current_session_without_refresh recover found =
      if same_state found.identity_state pending then recover found else give (ready_at found)

  -- The lookup behind a revocation that changed no row.
  unfoldable pub not_revoked :
      (GatewaySession → G FlightOutcome)
      → GatewaySession
      → Result DbError SessionLookup
      → G FlightOutcome
  unfolding use_current_session_without_refresh
  not_revoked recover expected (ok (active found)) =
      if differs found expected
      then use_current_session_without_refresh recover found
      else give (FlightOutcome.indeterminate persistence)
  not_revoked recover expected (ok SessionLookup.inactive) =
      give (FlightOutcome.rejected local_inactive)
  not_revoked recover expected (err e) = give (FlightOutcome.indeterminate persistence)

  unfoldable pub revoked :
      (GatewaySession → G FlightOutcome)
      → GatewaySession
      → RejectedReason
      → Result DbError Bool
      → G FlightOutcome
  unfolding not_revoked
  revoked recover expected reason (ok true) = give (FlightOutcome.rejected reason)
  revoked recover expected reason (ok false) = do
    found ← ask (lookup_session s.store expected.id)
    not_revoked recover expected found
  revoked recover expected reason (err e) = give (FlightOutcome.indeterminate persistence)

  unfoldable pub revoke_found :
      (GatewaySession → G FlightOutcome)
      → GatewaySession
      → RejectedReason
      → Result DbError SessionLookup
      → G FlightOutcome
  unfolding revoked
  revoke_found recover expected reason (ok (active found)) =
      if differs found expected then use_current_session_without_refresh recover found else (do
        result ← ask (conditional_revoke s.store expected)
        revoked recover expected reason result)
  revoke_found recover expected reason (ok SessionLookup.inactive) =
      give (FlightOutcome.rejected local_inactive)
  revoke_found recover expected reason (err e) = give (FlightOutcome.indeterminate persistence)

  unfoldable pub revoke_expected_generation :
      (GatewaySession → G FlightOutcome) → GatewaySession → RejectedReason → G FlightOutcome
  unfolding revoke_found
  revoke_expected_generation recover expected reason = do
    found ← ask (lookup_session s.store expected.id)
    revoke_found recover expected reason found

  unfoldable pub recover_verified :
      (GatewaySession → G FlightOutcome)
      → GatewaySession
      → Result RefreshError VerifiedAccessToken
      → G FlightOutcome
  unfolding revoke_expected_generation
  recover_verified recover session (ok verified) =
      if not (str_eq verified.auth_session_id session.auth_session_id)
        || not (str_eq verified.user_id session.user_id)
      then give (FlightOutcome.indeterminate identity_mismatch)
      else (do
        result ← ask (finalize_pending s.store session none)
        give (finalized session result))
  recover_verified recover session (err RefreshError.audience_rejected) =
      revoke_expected_generation recover session audience_rejected
  recover_verified recover session (err e) = give (refresh_error_outcome e)

  unfoldable pub recover_prepared :
      (GatewaySession → G FlightOutcome)
      → GatewaySession
      → Result RefreshError Jwks
      → G FlightOutcome
  unfolding recover_verified
  recover_prepared recover session (err e) = give (refresh_error_outcome e)
  recover_prepared recover session (ok jwks) = do
    verified ← call (λ n. s.auth_mini.verify_refreshed_access n session.access_token jwks)
    recover_verified recover session verified

  -- The fuel bounds the recoveries that are nested. Each but the first follows a lookup that found a
  -- version of the session which another connection stored in between.
  unfoldable pub recover_pending_identity : ℕ → GatewaySession → G FlightOutcome
  unfolding recover_prepared
  recover_pending_identity zero session = exhausted
  recover_pending_identity (suc fuel) session = do
    prepared ← call s.auth_mini.prepare_refresh_verifier
    recover_prepared (recover_pending_identity fuel) session prepared

  module _ (config : Config) (fuel : ℕ) where
    abbrev pub recovery : GatewaySession → G FlightOutcome
    recovery = recover_pending_identity fuel

    unfoldable pub use_pending : GatewaySession → DateTime → G FlightOutcome
    use_pending found at =
        if session_needs_refresh found config at
        then give (FlightOutcome.indeterminate contract_drift)
        else recovery found

    unfoldable pub use_current_session : GatewaySession → G FlightOutcome
    unfolding use_pending
    use_current_session found =
        if same_state found.identity_state pending
        then (do at ← time s.store; use_pending found at)
        else give (ready_at found)

    unfoldable pub persisted : GatewaySession → Result DbError CasResult → G FlightOutcome
    unfolding use_current_session
    persisted session (ok (updated next)) = recovery next
    persisted session (ok (current found)) =
        if differs found session
        then use_current_session found
        else give (FlightOutcome.indeterminate persistence)
    persisted session (ok CasResult.inactive) = give (FlightOutcome.rejected local_inactive)
    persisted session (err e) = give (FlightOutcome.indeterminate persistence)

    unfoldable pub store_tokens :
        FlightLeader
        → GatewaySession
        → TokenResponse
        → VerifiedAccessToken
        → Option DateTime
        → G FlightOutcome
    unfolding persisted
    store_tokens leader session refreshed verified none =
        give (FlightOutcome.indeterminate token_verification)
    store_tokens leader session refreshed verified (some access_expires_at) = do
      on_flights (λ c.
          add_alias c leader
            (record { generation = session.refresh_generation + 1; identity_state = pending }))
      result ← ask (
          persist_pending s.store session (record {
            access_token = refreshed.access_token;
            refresh_token = refreshed.refresh_token;
            user_id = verified.user_id;
            amr = verified.amr;
            access_expires_at = access_expires_at;
          }))
      persisted session result

    unfoldable pub refresh_verified :
        FlightLeader
        → GatewaySession
        → TokenResponse
        → Result RefreshError VerifiedAccessToken
        → G FlightOutcome
    unfolding store_tokens
    refresh_verified leader session refreshed (ok verified) =
        if not (str_eq verified.auth_session_id session.auth_session_id)
          || not (str_eq verified.user_id session.user_id)
        then give (FlightOutcome.indeterminate identity_mismatch)
        else store_tokens leader session refreshed verified (s.crates.timestamp verified.exp)
    refresh_verified leader session refreshed (err RefreshError.audience_rejected) =
        revoke_expected_generation recovery session audience_rejected
    refresh_verified leader session refreshed (err e) = give (refresh_error_outcome e)

    unfoldable pub handle_refresh_rejection : GatewaySession → RefreshRejected → G FlightOutcome
    handle_refresh_rejection expected reason =
        revoke_expected_generation recovery expected (remote reason)

    unfoldable pub refreshed_with :
        FlightLeader → GatewaySession → Jwks → Result RefreshError TokenResponse → G FlightOutcome
    unfolding refresh_verified handle_refresh_rejection
    refreshed_with leader session jwks (ok refreshed) =
        if not (str_eq refreshed.session_id session.auth_session_id)
        then give (FlightOutcome.indeterminate contract_drift)
        else (do
          verified ← call (λ n. s.auth_mini.verify_refreshed_access n refreshed.access_token jwks)
          refresh_verified leader session refreshed verified)
    refreshed_with leader session jwks (err (RefreshError.rejected reason)) =
        handle_refresh_rejection session reason
    refreshed_with leader session jwks (err e) = give (refresh_error_outcome e)

    unfoldable pub refresh_prepared :
        FlightLeader → GatewaySession → Result RefreshError Jwks → G FlightOutcome
    unfolding refreshed_with
    refresh_prepared leader session (err e) = give (refresh_error_outcome e)
    refresh_prepared leader session (ok jwks) = do
      refreshed ← call (λ n. s.auth_mini.refresh n session.auth_session_id session.refresh_token)
      refreshed_with leader session jwks refreshed

    unfoldable pub refresh_gateway_session : FlightLeader → GatewaySession → G FlightOutcome
    unfolding refresh_prepared
    refresh_gateway_session leader session = do
      prepared ← call s.auth_mini.prepare_refresh_verifier
      refresh_prepared leader session prepared

    unfoldable pub execute_at : FlightLeader → GatewaySession → DateTime → G FlightOutcome
    unfolding refresh_gateway_session
    execute_at leader session at =
        if session_needs_refresh session config at
        then refresh_gateway_session leader session
        else if same_state session.identity_state pending
        then recovery session
        else give (ready_at session)

    unfoldable pub execute_flight : FlightLeader → GatewaySession → G FlightOutcome
    unfolding execute_at
    execute_flight leader session = do at ← time s.store; execute_at leader session at

-- ===== src/Server/Decision.antt =====
-- src/server.rs: the decision that the check endpoint and the proxy share, and the check's response.
use auth_mini_gateway.Prelude.{
  ℕ, zero, suc, Bool, true, false, not, Option, none, some, if◌then◌else◌,
}
use auth_mini_gateway.Prelude.Result.{Result, ok, err}
use auth_mini_gateway.Prelude.Text.{Str, codes}
use auth_mini_gateway.Util.{DateTime}
use auth_mini_gateway.Config.{Config}
use auth_mini_gateway.Policy.{PolicyDecision, allow, deny, evaluate}
use auth_mini_gateway.Http.{
  Request, Response, header, is_safe_header_value, text, empty, with_header, with_cookie,
}
use auth_mini_gateway.Cookies.{
  session_cookie, read_signed_cookie, serialize_signed_cookie, clear_cookie,
}
use auth_mini_gateway.Db.{
  GatewaySession, observed_version, same_state, pending, SessionLookup, active, TouchResult,
  not_due, advanced, lost, DbError,
}
use auth_mini_gateway.Db.Store.{lookup_session, touch_ready}
use auth_mini_gateway.AuthTypes.{leader_aborted}
use auth_mini_gateway.Flight.{
  FlightLeader, FlightOutcome, ready, rejected, temporary, indeterminate, Acquire, leader, joined,
  wait_for_close, acquire, complete_leader,
}
use auth_mini_gateway.Server.{
  Surroundings, G, give, ◌>>=◌, ◌>>◌, ask, time, catch_unwind, next_step,
}
use auth_mini_gateway.Server.Refresh.{execute_flight, session_needs_refresh}

-- The field of VerifiedIdentity, and the cookie of a renewed session.
pub data AuthDecision : Type 0 where
  allowed : Str → Option Str → AuthDecision
  unauthenticated : Str → AuthDecision
  forbidden unavailable : AuthDecision

unfoldable pub evaluate_session_policy : GatewaySession → Config → PolicyDecision
evaluate_session_policy session config = evaluate session.user_id config

unfoldable pub identity_headers_are_safe : GatewaySession → Bool
identity_headers_are_safe session = is_safe_header_value session.user_id

-- unwrap_or
unfoldable pub or_aborted : Option FlightOutcome → FlightOutcome
or_aborted none = indeterminate leader_aborted
or_aborted (some outcome) = outcome

unfoldable pub no_store : Response → Response
no_store r = with_header r (codes "Cache-Control") (codes "no-store")

unfoldable pub auth_unavailable : Response
unfolding no_store
auth_unavailable =
    with_header (no_store (text 503 (codes "Authentication service temporarily unavailable")))
      (codes "Retry-After") (codes "5")

module _ (s : Surroundings) (config : Config) where
  unfoldable pub sign_out : AuthDecision
  sign_out = unauthenticated (clear_cookie s.crates session_cookie config)

  -- Acquire runs behind what the other requests did to the coordinator.
  unfoldable pub acquire_flight : GatewaySession → G Acquire
  acquire_flight session g =
      let seen = s.other_flights g.world.step g.flights in
      let (acquired, flights) = acquire seen session.id (observed_version session) in
      (some acquired, record (next_step g) { flights = flights })

  unfoldable pub complete_flight : FlightLeader → FlightOutcome → G FlightOutcome
  complete_flight l outcome g =
      let seen = s.other_flights g.world.step g.flights in
      let (shared, flights) = complete_leader seen l outcome in
      (some shared, record (next_step g) { flights = flights })

  unfoldable pub wait_outcome : ℕ → G FlightOutcome
  wait_outcome flight g = (some (s.waits g.world.step flight), next_step g)

  unfoldable pub wait_closed : ℕ → G (Unit {0})
  wait_closed flight g = (some tt, next_step g)

  unfoldable pub renewal : Bool → GatewaySession → Option Str
  renewal true session =
      some
        (serialize_signed_cookie s.crates session_cookie session.id session.idle_expires_at config)
  renewal false session = none

  module _ (fuel : ℕ) (again : G AuthDecision) where
    unfoldable pub touched : Result DbError TouchResult → G AuthDecision
    unfolding renewal
    touched (ok (not_due session)) = give (allowed session.user_id (renewal false session))
    touched (ok (advanced session)) = give (allowed session.user_id (renewal true session))
    touched (ok lost) = again
    touched (err e) = give unavailable

    -- match *outcome
    unfoldable pub after_flight : FlightOutcome → G AuthDecision
    unfolding sign_out
    after_flight (ready generation) = again
    after_flight (rejected reason) = give sign_out
    after_flight (temporary class) = give unavailable
    after_flight (indeterminate class) = give unavailable

    unfoldable pub with_flight : GatewaySession → Acquire → G AuthDecision
    unfolding after_flight or_aborted
    with_flight session (leader l) = do
      ran ← catch_unwind (execute_flight s config fuel l session)
      outcome ← complete_flight l (or_aborted ran)
      after_flight outcome
    with_flight session (joined flight) = do outcome ← wait_outcome flight; after_flight outcome
    with_flight session (wait_for_close flight) = do wait_closed flight; again

    unfoldable pub admit_decided : GatewaySession → PolicyDecision → G AuthDecision
    unfolding touched identity_headers_are_safe
    admit_decided session deny = give forbidden
    admit_decided session allow =
        if not (identity_headers_are_safe session) then give forbidden else (do
          result ← ask (
              touch_ready s.store session config.session_ttl_seconds
                config.session_touch_interval_seconds)
          touched result)

    unfoldable pub admit : GatewaySession → G AuthDecision
    unfolding admit_decided
    admit session = admit_decided session (evaluate_session_policy session config)

    unfoldable pub decide_at : GatewaySession → DateTime → G AuthDecision
    unfolding with_flight admit
    decide_at session at =
        if session_needs_refresh session config at
        then (do acquired ← acquire_flight session; with_flight session acquired)
        else admit session

    unfoldable pub decide_found : Result DbError SessionLookup → G AuthDecision
    unfolding decide_at sign_out
    decide_found (ok (active session)) =
        if same_state session.identity_state pending
        then (do acquired ← acquire_flight session; with_flight session acquired)
        else (do at ← time s.store; decide_at session at)
    decide_found (ok SessionLookup.inactive) = give sign_out
    decide_found (err e) = give unavailable

  -- The loop, with the rounds that are left.
  unfoldable pub decision_loop : ℕ → ℕ → Str → G AuthDecision
  unfolding decide_found
  decision_loop fuel zero session_id = give unavailable
  decision_loop fuel (suc rounds) session_id = do
    found ← ask (lookup_session s.store session_id)
    decide_found fuel (decision_loop fuel rounds session_id) found

  unfoldable pub decide_cookie : ℕ → Option Str → G AuthDecision
  unfolding sign_out
  decide_cookie fuel none = give sign_out
  decide_cookie fuel (some session_id) = decision_loop fuel 8 session_id

  unfoldable pub auth_decision : ℕ → Option Str → G AuthDecision
  unfolding decide_cookie
  auth_decision fuel cookie_header =
      decide_cookie fuel
        (read_signed_cookie s.crates cookie_header session_cookie config.cookie_secret)

  unfoldable pub renewed : Response → Option Str → Response
  renewed r none = r
  renewed r (some cookie) = with_cookie r cookie

  unfoldable pub check_response : AuthDecision → Response
  unfolding renewed no_store auth_unavailable
  check_response (allowed user_id session_renewal) =
      no_store
        (renewed (with_header (empty 204) (codes "X-Auth-Mini-User-Id") user_id) session_renewal)
  check_response (unauthenticated clear_session) =
      with_cookie (no_store (text 401 (codes "Unauthenticated"))) clear_session
  check_response forbidden = no_store (text 403 (codes "Forbidden"))
  check_response unavailable = auth_unavailable

  unfoldable pub handle_auth_check : ℕ → Request → G Response
  unfolding check_response
  handle_auth_check fuel request = do
    decision ← auth_decision fuel (header request (codes "Cookie"))
    give (check_response decision)

-- ===== src/Tests/Requests.antt =====
-- Runs of the check, the logout, the recovery and the failure log.
use auth_mini_gateway.Flight.{FlightOutcome}
use auth_mini_gateway.Server.Fuel.{recover_pending_identity-returns}
use auth_mini_gateway.Server.Accept.{quiet_log, reset, resource_fd, next_delay}
use auth_mini_gateway.Server.Accept.Delays.{shortest, longest, next_delay-rises}
use auth_mini_gateway.Server.Accept.Accounting.{failures_at, failures_at-accounted}
use auth_mini_gateway.Prelude.{◌+◌, ◌∷◌, [], arith, ◌≡◌, ◌≢◌, ◌≤◌, refl, true, false, none, some}
use auth_mini_gateway.Prelude.Result.{ok}
use auth_mini_gateway.Prelude.Text.{Str, codes, eq_ignore_case, str_eq}
use auth_mini_gateway.Prelude.Text.Split.{split, split_once, rsplit_once}
use auth_mini_gateway.Prelude.Text.Trim.{trim}
use auth_mini_gateway.Prelude.Text.Utf8.{from_utf8}
use auth_mini_gateway.Util.{parse_time, format_time, seconds}
use auth_mini_gateway.Util.TimingEq.{timing_eq}
use auth_mini_gateway.Policy.{IsListed, evaluate, member}
use auth_mini_gateway.Http.{
  is_safe_header_value, header, find_header, with_header, empty, new_response, is_safe_header_name,
}
use auth_mini_gateway.Cookies.{
  read_signed_cookie, session_cookie, parse_cookie, percent_decode, unsign_value,
}
use auth_mini_gateway.Db.{active, row_to_session, validate_session_invariants, is_active}
use auth_mini_gateway.Db.Sql.{select_where, update_where, count_where}
use auth_mini_gateway.Db.Monad
use auth_mini_gateway.Db.Monad.{
  World, now, connection, query, statement, pure, lift, execute_sessions,
}
use auth_mini_gateway.Db.Store.{
  lookup_session, lookup_session_at, decode_row, if_active, touch_ready, revoke_session,
  logout_access_snapshot,
}
use auth_mini_gateway.Server
use auth_mini_gateway.Server.{Gateway, ask, time, give, call}
use auth_mini_gateway.Server.Refresh.{recover_pending_identity, session_needs_refresh}
use auth_mini_gateway.Server.Decision.{
  allowed, auth_decision, check_response, handle_auth_check, decision_loop, decide_cookie,
  decide_found, decide_at, admit, admit_decided, evaluate_session_policy, identity_headers_are_safe,
  touched, renewal, renewed, no_store,
}
use auth_mini_gateway.Server.Login.{
  handle_logout, logged_out, logout_session, logout_revoked, remote_logout, snapshot_of,
}
use auth_mini_gateway.Server.Refresh.{execute_flight}
use auth_mini_gateway.Server.Revocation.{IsOpen, execute_flight-IsOpen}
use auth_mini_gateway.Db.Rows.{AllSessions}
use auth_mini_gateway.Flight.{FlightLeader}
use auth_mini_gateway.Server.Admission.{auth_decision-admits}
use auth_mini_gateway.Server.Endpoints.{handle_auth_check-admits, handle_logout-final}
use auth_mini_gateway.Tests.Fixtures.{
  surroundings, config, session_id, user, request, gateway, crates, tables, env, session, world,
}

signed :
    read_signed_cookie crates (header request (codes "Cookie")) session_cookie config.cookie_secret
    ≡ some session_id
unfolding read_signed_cookie header eq_ignore_case parse_cookie split split_once trim percent_decode
    from_utf8 unsign_value rsplit_once timing_eq
signed = refl

-- The lookup takes three steps of the world, behind the clock's.
abbrev looked_up : World
looked_up = record { step = 4; db = tables }

looked : lookup_session env session_id world ≡ (ok (active session), looked_up)
unfolding lookup_session lookup_session_at decode_row if_active Monad.◌>>=◌ now connection query
    statement pure lift row_to_session validate_session_invariants is_active select_where parse_time
    format_time str_eq
looked = refl

decided :
    (auth_decision surroundings config 2 (header request (codes "Cookie")) gateway).0
    ≡ some (allowed user none)
unfolding auth_decision decide_cookie decision_loop Server.◌>>=◌ ask decide_found decide_at admit
    admit_decided time session_needs_refresh evaluate_session_policy evaluate member str_eq
    identity_headers_are_safe is_safe_header_value touch_ready Monad.◌>>=◌ now pure is_active
    touched renewal give
decided = rw (signed, looked) refl

auth_decision-admits_example :
    (id : Str) × (read_signed_cookie surroundings.crates
        (header request (codes "Cookie"))
        session_cookie
        config.cookie_secret
      ≡ some id)
    × (user ≡ user)
    × IsListed user config.allow_user_ids
    × (is_safe_header_value user ≡ true)
auth_decision-admits_example =
    auth_decision-admits surroundings config (λ id. user) 2 (header request (codes "Cookie"))
      gateway user none (λ id n t h. h) (λ id. ((λ q. refl), tt)) decided

checked :
    (handle_auth_check surroundings config 2 request gateway).0
    ≡ some (check_response surroundings config (allowed user none))
unfolding handle_auth_check Server.◌>>=◌ give
checked = rw decided refl

no_content : (check_response surroundings config (allowed user none)).status ≡ 204
unfolding check_response no_store with_header empty new_response is_safe_header_name
    is_safe_header_value renewed
no_content = refl

handle_auth_check-admits_example :
    (id : Str) × (read_signed_cookie surroundings.crates
        (header request (codes "Cookie"))
        session_cookie
        config.cookie_secret
      ≡ some id)
    × IsListed user config.allow_user_ids
    × (find_header
          (codes "X-Auth-Mini-User-Id")
          (check_response surroundings config (allowed user none)).headers
        ≡ some user)
handle_auth_check-admits_example =
    handle_auth_check-admits surroundings config (λ id. user) 2 request gateway
      (check_response surroundings config (allowed user none)) (λ id n t h. h)
      (λ id. ((λ q. refl), tt)) checked no_content

logged :
    (handle_logout surroundings config request gateway).0
    ≡ some (ok (logged_out surroundings config request))
unfolding handle_logout logout_session logout_revoked remote_logout snapshot_of Server.◌>>=◌ ask
    give call logout_access_snapshot revoke_session Monad.◌>>=◌ now connection query statement pure
    execute_sessions select_where update_where count_where str_eq
logged = rw signed refl

handle_logout-final_example :
    (lookup_session_at env session_id
      (seconds 1001)
      (handle_logout surroundings config request gateway).1.world).0
    ≢ ok (active session)
handle_logout-final_example =
    handle_logout-final surroundings config request session_id gateway
      (logged_out surroundings config request)
      (handle_logout surroundings config request gateway).1.world (λ n t h. h) signed logged refl
      (seconds 1001) session

recover_pending_identity-returns_example :
    (o : FlightOutcome) × ((recover_pending_identity surroundings 1 session gateway).0 ≡ some o)
recover_pending_identity-returns_example =
    recover_pending_identity-returns surroundings session (λ n t h. h)
      (record { prepares = λ n. (_, refl); verifies = λ n token jwks. (_, refl) }) 0 gateway
      ((λ q. (refl, refl, refl)), tt)

failures_at-accounted_example :
    ((failures_at quiet_log (1 ∷ 2 ∷ 3 ∷ [])).1.failures ≡ 3)
    × ((failures_at quiet_log (1 ∷ 2 ∷ 3 ∷ [])).0
          + (failures_at quiet_log (1 ∷ 2 ∷ 3 ∷ [])).1.suppressed_since_last
        ≡ 3)
failures_at-accounted_example = failures_at-accounted (1 ∷ 2 ∷ 3 ∷ []) (omega arith)

abbrev leader : FlightLeader
leader = record { session_id = session_id; flight = 0; completed = false }

execute_flight-IsOpen_example :
    AllSessions
      (IsOpen session_id)
      (execute_flight surroundings config 2 leader session gateway).1.world.db
execute_flight-IsOpen_example =
    execute_flight-IsOpen surroundings config 2 leader session session_id gateway
      (record {
        audience = λ n token jwks q. ground arith;
        rejection = λ n id token reason q. ground arith;
      })
      (λ n t h. h) ((λ q. refl), tt)

next_delay-rises_example :
    ((next_delay reset resource_fd).0 ≤ (next_delay (next_delay reset resource_fd).1 resource_fd).0)
    × (shortest resource_fd ≤ (next_delay reset resource_fd).0)
    × ((next_delay (next_delay reset resource_fd).1 resource_fd).0 ≤ longest resource_fd)
next_delay-rises_example = next_delay-rises reset resource_fd

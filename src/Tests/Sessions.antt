-- ===== src/Tests/Sessions.antt =====
-- Runs of the store.
use auth_mini_gateway.Prelude.{◌≡◌, ◌≢◌, refl, true, some, none, [], ◌↔◌, arith}
use auth_mini_gateway.Prelude.Result.{ok}
use auth_mini_gateway.Prelude.Text.{codes, str_eq}
use auth_mini_gateway.Util.{parse_time, format_time, seconds}
use auth_mini_gateway.Db.{
  GatewaySession, LoginState, active, updated, pending, row_to_session, validate_session_invariants,
  is_active,
}
use auth_mini_gateway.Db.Sql.{select_where, update_where, count_where}
use auth_mini_gateway.Db.Monad.{
  ◌>>=◌, now, connection, query, statement, pure, lift, execute_sessions,
}
use auth_mini_gateway.Db.Monad.Keeps.{Keeps}
use auth_mini_gateway.Db.Rows.{AllSessions}
use auth_mini_gateway.Db.Store.{
  prune, create_login_state, consume_login_state, consume_in, consume_found, lookup_session,
  lookup_session_at, decode_row, if_active, create_session, logout_access_snapshot, revoke_session,
  conditional_revoke, persist_pending, resolve_cas, cas_of, finalize_pending, touch_ready,
}
use auth_mini_gateway.Db.Validity.{
  IsValid, IsTouchable, store-IsValid, touch_ready-IsTouchable, row_to_session_iff,
}
use auth_mini_gateway.Db.Fence.{IsFenced, revoke_session-final, store-IsFenced}
use auth_mini_gateway.Db.Cas.{persist_pending-once}
use auth_mini_gateway.Db.Sessions.{consume_login_state-once}
use auth_mini_gateway.Tests.Fixtures.{
  env, row, session, session_id, login_id, world, input, next_tokens,
}

-- The session behind the rotation.
abbrev rotated : GatewaySession
rotated = record session {
  access_token = codes "access3";
  refresh_token = codes "refresh3";
  access_expires_at = seconds 4000;
  session_expires_at = 0;
  identity_state = pending;
  identity_pending_since = some (seconds 1000);
  refresh_generation = 1;
}

rotation : (persist_pending env session next_tokens world).0 ≡ ok (updated rotated)
unfolding persist_pending resolve_cas cas_of lookup_session_at decode_row if_active ◌>>=◌ now
    connection query statement pure lift execute_sessions row_to_session validate_session_invariants
    is_active select_where update_where count_where parse_time format_time str_eq
rotation = refl

persist_pending-once_example :
    ((conditional_revoke env session (persist_pending env session next_tokens world).1).0 ≢ ok true)
    × ((t : GatewaySession)
        → (persist_pending env session next_tokens
            (persist_pending env session next_tokens world).1).0
          ≢ ok (updated t))
persist_pending-once_example =
    persist_pending-once env session next_tokens next_tokens world
      (persist_pending env session next_tokens world).1 (λ n d u. u) (λ n t h. h) (tt, tt) rotation
      refl

revocation : (revoke_session env session_id world).0 ≡ ok true
unfolding revoke_session ◌>>=◌ now connection query statement pure execute_sessions update_where
    count_where str_eq
revocation = refl

revoke_session-final_example :
    (lookup_session_at env session_id (seconds 1001) (revoke_session env session_id world).1).0
    ≢ ok (active session)
revoke_session-final_example =
    revoke_session-final env session_id world (revoke_session env session_id world).1 (λ n t h. h)
      revocation refl (seconds 1001) session

IsValid-row : IsValid row
IsValid-row = record { deadlines = omega arith; gate = refl }

store-IsValid_example :
    Keeps (AllSessions IsValid) (prune env)
    × Keeps (AllSessions IsValid) (create_login_state env (codes "/") 600)
    × Keeps (AllSessions IsValid) (consume_login_state env session_id)
    × Keeps (AllSessions IsValid) (create_session env input)
    × Keeps (AllSessions IsValid) (lookup_session env session_id)
    × Keeps (AllSessions IsValid) (logout_access_snapshot env session_id)
    × Keeps (AllSessions IsValid) (revoke_session env session_id)
    × Keeps (AllSessions IsValid) (conditional_revoke env session)
    × Keeps (AllSessions IsValid) (persist_pending env session next_tokens)
    × Keeps (AllSessions IsValid) (finalize_pending env session none)
store-IsValid_example =
    store-IsValid env (λ n t h. h) session_id (codes "/") 600 input session next_tokens none

store-IsFenced_example :
    let P = AllSessions (IsFenced session_id) in
    Keeps P (prune env)
    × Keeps P (create_login_state env (codes "/") 600)
    × Keeps P (consume_login_state env login_id)
    × Keeps P (create_session env input)
    × Keeps P (revoke_session env login_id)
    × Keeps P (conditional_revoke env session)
    × Keeps P (persist_pending env session next_tokens)
    × Keeps P (finalize_pending env session none)
    × Keeps P (touch_ready env session 2000 60)
store-IsFenced_example =
    store-IsFenced env session_id (λ n t h. h) (λ n q. ground arith) (codes "/") login_id 600 2000
      60 input session next_tokens none

touch_ready-IsTouchable_example :
    Keeps
      (AllSessions (IsTouchable session_id (format_time (seconds 5000))))
      (touch_ready env session 2000 60)
touch_ready-IsTouchable_example = touch_ready-IsTouchable env session 2000 60 (λ n t h. h)

row_to_session_iff_example :
    ((s : GatewaySession) × (row_to_session env.decode_amr row ≡ ok s)) ↔ IsValid row
row_to_session_iff_example = row_to_session_iff env.decode_amr row {amr = []} refl

abbrev login_state : LoginState
login_state = record { id = login_id; return_to = codes "/app"; expires_at = seconds 1600 }

consumption : (consume_login_state env login_id world).0 ≡ ok (some login_state)
unfolding consume_login_state consume_in consume_found ◌>>=◌ now connection query statement
    select_where parse_time format_time str_eq
consumption = refl

consume_login_state-once_example :
    (consume_login_state env login_id (consume_login_state env login_id world).1).0
    ≢ ok (some login_state)
consume_login_state-once_example =
    consume_login_state-once env login_id world (consume_login_state env login_id world).1
      login_state (λ n t h. h) consumption refl login_state

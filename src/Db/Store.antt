-- ===== src/Db/Store.antt =====
-- src/db.rs: the operations of `Store`.
use auth_mini_gateway.Prelude.{
  ℕ, ◌+◌, min, Bool, ◌||◌, not, Option, none, some, ltb, leb, ◌==◌, if◌then◌else◌,
}
use auth_mini_gateway.Prelude.Result.{Result, ok}
use auth_mini_gateway.Prelude.Text.{Str}
use auth_mini_gateway.Util.{DateTime, Stamp, seconds, format_time, parse_time}
use auth_mini_gateway.Db.{
  SessionRow, LoginRow, Tables, LoginState, GatewaySession, NewSession, PendingTokens,
  SessionLookup, active, CasResult, updated, current, TouchResult, not_due, advanced, lost, DbError,
  no_rows, ready, ready_text, same_state, row_to_session, is_active,
}
use auth_mini_gateway.Db.Sql.{
  delete_where, select_where, has_session_id, has_login_id, login_usable, consume_login,
  revoke_test, revoke_set, version_test, pending_set, finalize_test, finalize_set, touch_test,
  touch_set, login_dead, session_dead, insert_session, insert_login, update_logins,
}
use auth_mini_gateway.Db.Monad.{
  Env, M, pure, throw, lift, ◌>>=◌, ◌>>◌, now, token, statement, query, connection,
  execute_sessions, execute_insert,
}

abbrev pub select_session : Str → Tables → Option SessionRow
select_session id t = select_where (has_session_id id) t.sessions

unfoldable pub new_row : Env → Str → DateTime → NewSession → SessionRow
new_row e id at input =
    let absolute = at + seconds input.absolute_ttl_seconds in
    let idle = min (at + seconds input.idle_ttl_seconds) absolute in
    record {
      id = id;
      auth_session_id = input.auth_session_id;
      access_token = input.access_token;
      refresh_token = input.refresh_token;
      user_id = input.user_id;
      email = input.email;
      amr_json = e.encode_amr input.amr;
      access_expires_at = format_time input.access_expires_at;
      session_expires_at = format_time idle;
      revoked_at = none;
      refresh_generation = 0;
      created_at = format_time at;
      updated_at = format_time at;
      idle_expires_at = format_time idle;
      absolute_expires_at = format_time absolute;
      last_touched_at = format_time at;
      identity_state = ready_text;
      identity_pending_since = none;
    }

unfoldable pub if_active : GatewaySession → DateTime → SessionLookup
if_active session at = if is_active session at then active session else SessionLookup.inactive

unfoldable pub decode_row : Env → Option SessionRow → DateTime → M SessionLookup
unfolding if_active
decode_row e none at = pure SessionLookup.inactive
decode_row e (some row) at = do
  session ← lift (row_to_session e.decode_amr row)
  pure (if_active session at)

unfoldable pub cas_of : ℕ → SessionLookup → CasResult
cas_of changed (active session) = if changed == 1 then updated session else current session
cas_of changed SessionLookup.inactive = CasResult.inactive

unfoldable pub consume_found :
    Str → Stamp → Tables → Option LoginRow → Result DbError (Option LoginState) × Tables
consume_found id at t none = (ok none, t)
consume_found id at t (some row) = (
  ok (
      some (record {
        id = row.id;
        return_to = row.return_to;
        expires_at = parse_time row.expires_at;
      })),
  update_logins (has_login_id id) (consume_login at) t,
)

unfoldable pub consume_in : Str → Stamp → Tables → Result DbError (Option LoginState) × Tables
unfolding consume_found
consume_in id at t = consume_found id at t (select_where (login_usable id at) t.login_states)

module _ (e : Env) where
  unfoldable pub prune : M (Unit {0})
  prune = do
    connection e
    at ← now e
    statement e (λ t. (
      ok tt,
      record t { login_states = delete_where (login_dead (format_time at)) t.login_states },
    ))
    statement e (λ t.
        (ok tt, record t { sessions = delete_where (session_dead (format_time at)) t.sessions }))

  unfoldable pub create_login_state : Str → ℕ → M LoginState
  unfolding prune
  create_login_state return_to ttl_seconds = do
    prune
    connection e
    id ← token e
    at ← now e
    execute_insert e (
        insert_login (record {
          id = id;
          return_to = return_to;
          expires_at = format_time (at + seconds ttl_seconds);
          consumed_at = none;
          created_at = format_time at;
        }))
    pure (record { id = id; return_to = return_to; expires_at = at + seconds ttl_seconds })

  -- The SELECT and the UPDATE are one transaction.
  unfoldable pub consume_login_state : Str → M (Option LoginState)
  unfolding consume_in
  consume_login_state id = do connection e; at ← now e; statement e (consume_in id (format_time at))

  unfoldable pub lookup_session_at : Str → DateTime → M SessionLookup
  unfolding decode_row
  lookup_session_at id at = do connection e; row ← query e (select_session id); decode_row e row at

  unfoldable pub lookup_session : Str → M SessionLookup
  lookup_session id = do at ← now e; lookup_session_at id at

  unfoldable pub created : SessionLookup → M GatewaySession
  created (active session) = pure session
  created SessionLookup.inactive = throw no_rows

  unfoldable pub create_session : NewSession → M GatewaySession
  unfolding prune new_row created
  create_session input = do
    prune
    connection e
    id ← token e
    at ← now e
    execute_insert e (insert_session (new_row e id at input))
    found ← lookup_session_at id at
    created found

  unfoldable pub access_token_of : Option SessionRow → Option Str
  access_token_of none = none
  access_token_of (some row) = some row.access_token

  unfoldable pub logout_access_snapshot : Str → M (Option Str)
  unfolding access_token_of
  logout_access_snapshot id = do
    connection e
    query e (λ t. access_token_of (select_where (revoke_test id) t.sessions))

  unfoldable pub revoke_session : Str → M Bool
  revoke_session id = do
    connection e
    at ← now e
    changed ← execute_sessions e (revoke_test id) (revoke_set (format_time at))
    pure (changed == 1)

  unfoldable pub conditional_revoke : GatewaySession → M Bool
  conditional_revoke expected = do
    connection e
    at ← now e
    changed ←
        execute_sessions e
          (version_test expected.id expected.refresh_generation expected.refresh_token
            expected.identity_state (format_time at))
          (revoke_set (format_time at))
    pure (changed == 1)

  unfoldable pub resolve_cas : Str → DateTime → ℕ → M CasResult
  unfolding cas_of
  resolve_cas id at changed = do found ← lookup_session_at id at; pure (cas_of changed found)

  unfoldable pub persist_pending : GatewaySession → PendingTokens → M CasResult
  persist_pending original next = do
    connection e
    at ← now e
    changed ←
        execute_sessions e
          (version_test original.id original.refresh_generation original.refresh_token
            original.identity_state (format_time at))
          (pending_set next.access_token next.refresh_token next.user_id (e.encode_amr next.amr)
            (format_time next.access_expires_at) (format_time at))
    resolve_cas original.id at changed

  unfoldable pub finalize_pending : GatewaySession → Option Str → M CasResult
  finalize_pending pending email = do
    connection e
    at ← now e
    changed ←
        execute_sessions e
          (finalize_test pending.id pending.refresh_generation pending.user_id (format_time at))
          (finalize_set email (format_time at))
    resolve_cas pending.id at changed

  unfoldable pub touched : SessionLookup → TouchResult
  touched (active session) = advanced session
  touched SessionLookup.inactive = lost

  unfoldable pub touch_row : GatewaySession → DateTime → DateTime → M TouchResult
  unfolding touched
  touch_row original candidate at = do
    connection e
    changed ←
        execute_sessions e
          (touch_test original.id original.refresh_generation (format_time original.idle_expires_at)
            (format_time at))
          (touch_set (format_time candidate) (format_time at))
    if changed == 1
        then (do found ← lookup_session_at original.id at; pure (touched found))
        else pure lost

  -- `now - last_touched_at < interval` on signed durations is `now < last_touched_at + interval`.
  unfoldable pub touch_ready : GatewaySession → ℕ → ℕ → M TouchResult
  touch_ready original idle_ttl_seconds touch_interval_seconds = do
    at ← now e
    let candidate = min (at + seconds idle_ttl_seconds) original.absolute_expires_at
    if not (same_state original.identity_state ready) || not (is_active original at)
        then pure lost
        else if ltb at (original.last_touched_at + seconds touch_interval_seconds)
        then pure (not_due original)
        else if leb candidate original.idle_expires_at
        then pure (not_due original)
        else touch_row original candidate at

-- ===== src/Db/Invariant.antt =====
-- src/db.rs: what the operations of `Store` keep of the session rows, for any property of a row that
-- the statements keep.
use auth_mini_gateway.Prelude.{
  ℕ, ◌≡◌, Bool, true, ◌||◌, not, Option, none, some, min, ◌+◌, arith, ltb, leb, ◌==◌,
}
use auth_mini_gateway.Prelude.Text.{Str}
use auth_mini_gateway.Util.{DateTime, Stamp, seconds, format_time}
use auth_mini_gateway.Db.{
  SessionRow, Tables, GatewaySession, NewSession, PendingTokens, SessionLookup, active, LoginState,
  DbError, no_rows, is_active, same_state, ready, lost, not_due,
}
use auth_mini_gateway.Db
use auth_mini_gateway.Db.Sql.{
  revoke_set, pending_set, finalize_set, touch_set, touch_test, version_test, insert_login,
  login_usable, select_where,
}
use auth_mini_gateway.Db.Monad.{Env, pure, execute_sessions}
use auth_mini_gateway.Db.Monad.Keeps.{
  Keeps, OthersKeep, Keeps-pure, Keeps-throw, Keeps-if, Keeps-bind, Keeps-bind-token, Keeps-now,
  Keeps-token, Keeps-statement, Keeps-query, Keeps-connection, Keeps-execute_sessions,
  Keeps-execute_insert, keeps_rules,
}
use auth_mini_gateway.Db.Rows.{AllSessions, update_where-All, delete_where-All, insert_session-All}
use auth_mini_gateway.Db.Store.{
  prune, create_login_state, consume_login_state, consume_in, consume_found, lookup_session_at,
  lookup_session, decode_row, create_session, created, new_row, logout_access_snapshot,
  revoke_session, conditional_revoke, resolve_cas, persist_pending, finalize_pending, touched,
  touch_row, touch_ready,
}

-- A property of a row that every UPDATE but the touch keeps.
pub record Stable (R : SessionRow → Type 0) : Type 0 where
  pub revoke : (at : Stamp) (r : SessionRow) → R r → R (revoke_set at r)
  pub persist :
      (access_token refresh_token user_id amr_json : Str) (access_expires_at at : Stamp)
      (r : SessionRow)
      → R r
      → R (pending_set access_token refresh_token user_id amr_json access_expires_at at r)
  pub finalize :
      (email : Option Str) (at : Stamp) (r : SessionRow) → R r → R (finalize_set email at r)

insert_login-All :
    (R : SessionRow → Type 0) (row : Db.LoginRow) (t t' : Tables)
    → AllSessions R t
    → insert_login row t ≡ some t'
    → AllSessions R t'
unfolding insert_login
insert_login-All R row t t' h q = let s : t.sessions ≡ t'.sessions = ground arith in rw s at h

consume_found-All :
    (R : SessionRow → Type 0) (id : Str) (at : Stamp) (t : Tables) (o : Option Db.LoginRow)
    → AllSessions R t
    → AllSessions R (consume_found id at t o).1
unfolding consume_found
consume_found-All R id at t none h = h
consume_found-All R id at t (some row) h = h

consume_in-All :
    (R : SessionRow → Type 0) (id : Str) (at : Stamp) (t : Tables)
    → AllSessions R t
    → AllSessions R (consume_in id at t).1
unfolding consume_in
consume_in-All R id at t h =
    consume_found-All R id at t (select_where (login_usable id at) t.login_states) h

module _ (e : Env) (R : SessionRow → Type 0) (others : OthersKeep e (AllSessions R)) where
  pub prune-Keeps : Keeps (AllSessions R) (prune e)
  unfolding prune
  prune-Keeps = Keeps-bind _ _ (Keeps-connection e others) (λ _. Keeps-bind _ _ (Keeps-now e) (λ at.
      Keeps-bind _ _ (Keeps-statement e _ others (λ t h. h))
        (λ _. Keeps-statement e _ others (λ t h. delete_where-All R _ t.sessions h))))

  pub create_login_state-Keeps :
      (return_to : Str) (ttl : ℕ) → Keeps (AllSessions R) (create_login_state e return_to ttl)
  unfolding create_login_state
  create_login_state-Keeps return_to ttl = Keeps-bind _ _ prune-Keeps (λ _.
      Keeps-bind _ _ (Keeps-connection e others) (λ _. Keeps-bind _ _ (Keeps-token e) (λ id.
        Keeps-bind _ _ (Keeps-now e) (λ at.
          Keeps-bind _ _
            (Keeps-execute_insert e _ others (λ t t' h q. insert_login-All R _ t t' h q))
            (λ _. Keeps-pure _)))))

  pub consume_login_state-Keeps : (id : Str) → Keeps (AllSessions R) (consume_login_state e id)
  unfolding consume_login_state
  consume_login_state-Keeps id = Keeps-bind _ _ (Keeps-connection e others) (λ _.
      Keeps-bind _ _ (Keeps-now e)
        (λ at. Keeps-statement e _ others (λ t h. consume_in-All R id (format_time at) t h)))

  decode_row-Keeps :
      (o : Option SessionRow) (at : DateTime) → Keeps (AllSessions R) (decode_row e o at)
  unfolding decode_row
  decode_row-Keeps none at = Keeps-pure _
  decode_row-Keeps (some row) at = search keeps_rules

  pub lookup_session_at-Keeps :
      (id : Str) (at : DateTime) → Keeps (AllSessions R) (lookup_session_at e id at)
  unfolding lookup_session_at
  lookup_session_at-Keeps id at =
      Keeps-bind _ _ (Keeps-connection e others)
        (λ _. Keeps-bind _ _ (Keeps-query e _ others) (λ row. decode_row-Keeps row at))

  pub lookup_session-Keeps : (id : Str) → Keeps (AllSessions R) (lookup_session e id)
  unfolding lookup_session
  lookup_session-Keeps id = Keeps-bind _ _ (Keeps-now e) (λ at. lookup_session_at-Keeps id at)

  created-Keeps : (l : SessionLookup) → Keeps (AllSessions R) (created e l)
  unfolding created
  created-Keeps (active s) = Keeps-pure s
  created-Keeps SessionLookup.inactive = Keeps-throw no_rows

  pub create_session-Keeps :
      (input : NewSession)
      → ((n : ℕ) (at : DateTime) → R (new_row e (e.random_token n) at input))
      → Keeps (AllSessions R) (create_session e input)
  unfolding create_session
  create_session-Keeps input fresh = Keeps-bind _ _ prune-Keeps (λ _.
      Keeps-bind _ _ (Keeps-connection e others) (λ _. Keeps-bind-token e _ (λ n.
        Keeps-bind _ _ (Keeps-now e) (λ at.
          Keeps-bind _ _
            (Keeps-execute_insert e _ others (λ t t' h q.
              insert_session-All R (new_row e (e.random_token n) at input) t t' (fresh n at) h q))
            (λ _. Keeps-bind _ _ (lookup_session_at-Keeps (e.random_token n) at) created-Keeps)))))

  pub logout_access_snapshot-Keeps :
      (id : Str) → Keeps (AllSessions R) (logout_access_snapshot e id)
  unfolding logout_access_snapshot
  logout_access_snapshot-Keeps id =
      Keeps-bind _ _ (Keeps-connection e others) (λ _. Keeps-query e _ others)

  pub resolve_cas-Keeps :
      (id : Str) (at : DateTime) (changed : ℕ) → Keeps (AllSessions R) (resolve_cas e id at changed)
  unfolding resolve_cas
  resolve_cas-Keeps id at changed =
      Keeps-bind _ _ (lookup_session_at-Keeps id at) (λ found. Keeps-pure _)

  update-Keeps :
      (test : SessionRow → Bool) (set : SessionRow → SessionRow)
      → ((r : SessionRow) → test r ≡ true → R r → R (set r))
      → Keeps (AllSessions R) (execute_sessions e test set)
  update-Keeps test set keep =
      Keeps-execute_sessions e test set others
        (λ t h. update_where-All R test set t.sessions keep h)

  touched-Keeps : (l : SessionLookup) → Keeps (AllSessions R) (pure (touched e l))
  touched-Keeps l = Keeps-pure _

  touch_row-Keeps :
      (original : GatewaySession) (candidate at : DateTime)
      → ((r : SessionRow)
          → touch_test original.id original.refresh_generation
              (format_time original.idle_expires_at)
              (format_time at)
              r
            ≡ true
          → R r
          → R (touch_set (format_time candidate) (format_time at) r))
      → Keeps (AllSessions R) (touch_row e original candidate at)
  unfolding touch_row
  touch_row-Keeps original candidate at keep = Keeps-bind _ _ (Keeps-connection e others) (λ _.
      Keeps-bind _ _ (update-Keeps _ _ keep) (λ changed.
        Keeps-if (changed == 1) _ (pure lost)
          (Keeps-bind _ _ (lookup_session_at-Keeps original.id at) (λ found. touched-Keeps found))
          (Keeps-pure lost)))

  -- The touch keeps what its own UPDATE keeps.
  pub touch_ready-Keeps :
      (original : GatewaySession) (idle_ttl touch_interval : ℕ)
      → ((at : DateTime) (r : SessionRow)
          → touch_test original.id original.refresh_generation
              (format_time original.idle_expires_at)
              (format_time at)
              r
            ≡ true
          → R r
          → R (
              touch_set
                (format_time (min (at + seconds idle_ttl) original.absolute_expires_at))
                (format_time at)
                r))
      → Keeps (AllSessions R) (touch_ready e original idle_ttl touch_interval)
  unfolding touch_ready
  touch_ready-Keeps original idle_ttl touch_interval keep = Keeps-bind _ _ (Keeps-now e) (λ at.
      Keeps-if (not (same_state original.identity_state ready) || not (is_active original at))
        (pure lost) _ (Keeps-pure lost)
        (Keeps-if (ltb at (original.last_touched_at + seconds touch_interval))
          (pure (not_due original)) _ (Keeps-pure (not_due original))
          (Keeps-if
            (leb (min (at + seconds idle_ttl) original.absolute_expires_at)
              original.idle_expires_at)
            (pure (not_due original)) _ (Keeps-pure (not_due original))
            (touch_row-Keeps original _ at (keep at)))))

  -- The same of an UPDATE that keeps the property only on the rows that it changes.
  pub persist_pending-Keeps_on :
      (original : GatewaySession) (next : PendingTokens)
      → ((at : Stamp) (r : SessionRow)
          → version_test original.id original.refresh_generation original.refresh_token
              original.identity_state at r
            ≡ true
          → R r
          → R (
              pending_set next.access_token next.refresh_token next.user_id
                (e.encode_amr next.amr)
                (format_time next.access_expires_at)
                at
                r))
      → Keeps (AllSessions R) (persist_pending e original next)
  unfolding persist_pending
  persist_pending-Keeps_on original next keep = Keeps-bind _ _ (Keeps-connection e others) (λ _.
      Keeps-bind _ _ (Keeps-now e) (λ at.
        Keeps-bind _ _ (update-Keeps _ _ (λ r t h. keep (format_time at) r t h))
          (λ n. resolve_cas-Keeps original.id at n)))

  pub conditional_revoke-Keeps_on :
      (expected : GatewaySession)
      → ((at : Stamp) (r : SessionRow) → R r → R (revoke_set at r))
      → Keeps (AllSessions R) (conditional_revoke e expected)
  unfolding conditional_revoke
  conditional_revoke-Keeps_on expected keep = Keeps-bind _ _ (Keeps-connection e others) (λ _.
      Keeps-bind _ _ (Keeps-now e) (λ at.
        Keeps-bind _ _ (update-Keeps _ _ (λ r _ h. keep (format_time at) r h)) (λ n. Keeps-pure _)))

  pub finalize_pending-Keeps_on :
      (pending : GatewaySession) (email : Option Str)
      → ((at : Stamp) (r : SessionRow) → R r → R (finalize_set email at r))
      → Keeps (AllSessions R) (finalize_pending e pending email)
  unfolding finalize_pending
  finalize_pending-Keeps_on pending email keep = Keeps-bind _ _ (Keeps-connection e others) (λ _.
      Keeps-bind _ _ (Keeps-now e) (λ at.
        Keeps-bind _ _ (update-Keeps _ _ (λ r _ h. keep (format_time at) r h))
          (λ n. resolve_cas-Keeps pending.id at n)))

  module _ (stable : Stable R) where
    pub revoke_session-Keeps : (id : Str) → Keeps (AllSessions R) (revoke_session e id)
    unfolding revoke_session
    revoke_session-Keeps id = Keeps-bind _ _ (Keeps-connection e others) (λ _.
        Keeps-bind _ _ (Keeps-now e) (λ at.
          Keeps-bind _ _ (update-Keeps _ _ (λ r _ h. stable.revoke (format_time at) r h))
            (λ n. Keeps-pure _)))

    pub conditional_revoke-Keeps :
        (expected : GatewaySession) → Keeps (AllSessions R) (conditional_revoke e expected)
    conditional_revoke-Keeps expected = conditional_revoke-Keeps_on expected stable.revoke

    pub persist_pending-Keeps :
        (original : GatewaySession) (next : PendingTokens)
        → Keeps (AllSessions R) (persist_pending e original next)
    persist_pending-Keeps original next =
        persist_pending-Keeps_on original next (λ at r _ h. stable.persist _ _ _ _ _ at r h)

    pub finalize_pending-Keeps :
        (pending : GatewaySession) (email : Option Str)
        → Keeps (AllSessions R) (finalize_pending e pending email)
    finalize_pending-Keeps pending email =
        finalize_pending-Keeps_on pending email (λ at r h. stable.finalize email at r h)

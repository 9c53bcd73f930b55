-- ===== src/Db/Fence.antt =====
-- src/db.rs: a revoked session stays revoked, and no lookup returns it.
use auth_mini_gateway.Prelude.{
  ℕ, ◌≡◌, ◌≢◌, refl, Bool, true, false, Option, none, some, List, [], ◌∷◌, arith, Bool-cases, inl,
  inr, All, ◌∙◌,
}
use auth_mini_gateway.Prelude.Result.{ok}
use auth_mini_gateway.Prelude.Text.{Str, str_eq, eq_of_str_eq, str_eq_refl}
use auth_mini_gateway.Util.{DateTime, Stamp, format_time}
use auth_mini_gateway.Db.{
  SessionRow, GatewaySession, NewSession, PendingTokens, active, row_to_session, is_active,
}
use auth_mini_gateway.Db.Sql.{is_null, revoke_test, revoke_set, update_where, has_session_id}
use auth_mini_gateway.Db.Monad.{Env, World, pure, lift, now, query, connection, execute_sessions}
use auth_mini_gateway.Db.Monad.Keeps.{Keeps, OthersKeep, Keeps-connection}
use auth_mini_gateway.Db.Monad.Runs.{bind-ok, query-ok, execute_sessions-ok}
use auth_mini_gateway.Db.Rows.{AllSessions, select_where_sound}
use auth_mini_gateway.Db.Store.{
  prune, create_login_state, consume_login_state, lookup_session_at, create_session, new_row,
  revoke_session, conditional_revoke, persist_pending, finalize_pending, touch_ready, decode_row,
  if_active, select_session,
}
use auth_mini_gateway.Db.Invariant.{
  Stable, prune-Keeps, create_login_state-Keeps, consume_login_state-Keeps, create_session-Keeps,
  revoke_session-Keeps, conditional_revoke-Keeps, persist_pending-Keeps, finalize_pending-Keeps,
  touch_ready-Keeps,
}

module _ (e : Env) (R : SessionRow → Type 0) (others : OthersKeep e (AllSessions R)) where
  decode_row-active :
      (o : Option SessionRow) (at : DateTime) (w : World) {s : GatewaySession}
      → (decode_row e o at w).0 ≡ ok (active s)
      → (row : SessionRow) × (o ≡ some row)
        × (row_to_session e.decode_amr row ≡ ok s)
        × (is_active s at ≡ true)
  unfolding decode_row if_active pure
  decode_row-active none at w h = absurd (ground arith)
  decode_row-active (some row) at w {s} h =
      let (t, read, rest, _) = bind-ok (lift (row_to_session e.decode_amr row)) _ w h in
      elim (Bool-cases (is_active t at)) [
        | inl live ↦
            let same : t ≡ s = ground arith in
            (row, refl, unfold lift in rw (← same) read, rw (← same) live)
        | inr dead ↦ absurd (ground arith)
      ]

  -- An active session that a lookup returns was read from a row of that id, with the row's property,
  -- and was live at the time of the lookup.
  pub lookup_session_at-active :
      (id : Str) (at : DateTime) (w : World) {s : GatewaySession}
      → AllSessions R w.db
      → (lookup_session_at e id at w).0 ≡ ok (active s)
      → (row : SessionRow) × R row
        × (row.id ≡ id)
        × (row_to_session e.decode_amr row ≡ ok s)
        × (is_active s at ≡ true)
  unfolding lookup_session_at
  lookup_session_at-active id at w h run =
      let (_, _, rest, _) = bind-ok (connection e) _ w run in
      let opened = (Keeps-connection e others).at w h in
      let (o, found, decoded, _) =
        bind-ok (query e (select_session id)) _ (connection e w).1 rest in
      let (row, eq, read, live) = decode_row-active o at _ decoded in
      let selected = query-ok e (select_session id) (connection e w).1 found in
      let sound =
        select_where_sound R (has_session_id id)
          (e.others (connection e w).1.step (connection e w).1.db).sessions
          (others (connection e w).1.step (connection e w).1.db opened) (selected ∙ eq) in
      (row, sound.0, eq_of_str_eq row.id id sound.1, read, live)

-- Every row of the id is revoked.
abbrev pub IsFenced : Str → SessionRow → Type 0
IsFenced id r = r.id ≡ id → is_null r.revoked_at ≡ false

pub IsFenced-Stable : (id : Str) → Stable (IsFenced id)
IsFenced-Stable id = record {
  revoke = λ at r h q. refl;
  persist = λ a b c d x at r h q. h q;
  finalize = λ email at r h q. h q;
}

revoke_all :
    (id : Str) (at : Stamp) (rows : List SessionRow)
    → All (IsFenced id) (update_where (revoke_test id) (revoke_set at) rows)
unfolding update_where
revoke_all id at [] = tt
revoke_all id at (r ∷ rows) = elim (Bool-cases (revoke_test id r)) [
  | inl t ↦ rw t (λ q. refl, revoke_all id at rows)
  | inr f ↦ rw f (
    λ q. let s : str_eq r.id id ≡ true = rw q (str_eq_refl id) in ground arith,
    revoke_all id at rows,
  )
]

pub revoke_session-fences :
    (e : Env) (id : Str) (w : World) {b : Bool}
    → (revoke_session e id w).0 ≡ ok b
    → AllSessions (IsFenced id) (revoke_session e id w).1.db
unfolding revoke_session pure
revoke_session-fences e id w run =
    let (_, _, timed, p) = bind-ok (connection e) _ w run in
    let (at, _, changed, q) = bind-ok (now e) _ (connection e w).1 timed in
    let (n, updated, _, r) =
      bind-ok (execute_sessions e (revoke_test id) (revoke_set (format_time at))) _
        (now e (connection e w).1).1 changed in
    let rows =
      (execute_sessions-ok e (revoke_test id) (revoke_set (format_time at))
        (now e (connection e w).1).1 updated).1 in
    rw (p, q, r) (rw rows (revoke_all id (format_time at) _))

fenced_inactive :
    (decode : Str → Option (List Str)) (id : Str) (at : DateTime) (row : SessionRow)
    {s : GatewaySession}
    → IsFenced id row
    → row.id ≡ id
    → row_to_session decode row ≡ ok s
    → is_active s at ≡ false
unfolding row_to_session is_active
fenced_inactive decode id at row fenced same read = let dead = fenced same in ground arith

-- Once `revoke_session` has returned, for whatever id and whether or not it changed a row, no later
-- lookup returns that session as active, as long as the other connections do not undo a revocation.
pub revoke_session-final :
    (e : Env) (id : Str) (w later : World) {b : Bool}
    → OthersKeep e (AllSessions (IsFenced id))
    → (revoke_session e id w).0 ≡ ok b
    → later.db ≡ (revoke_session e id w).1.db
    → (at : DateTime) (s : GatewaySession) → (lookup_session_at e id at later).0 ≢ ok (active s)
revoke_session-final e id w later others run same at s found =
    let fenced = rw (← same) at (revoke_session-fences e id w run) in
    let (row, f, own, read, live) =
      lookup_session_at-active e (IsFenced id) others id at later fenced found in
    let dead = fenced_inactive e.decode_amr id at row f own read in cc

-- No operation of the store undoes a revocation, also when it works on a snapshot of the session that
-- it read before: the id is not issued again.
pub store-IsFenced :
    (e : Env) (id : Str)
    → OthersKeep e (AllSessions (IsFenced id))
    → ((n : ℕ) → e.random_token n ≢ id)
    → (return_to other : Str) (ttl idle_ttl touch_interval : ℕ) (input : NewSession)
      (session : GatewaySession) (next : PendingTokens) (email : Option Str)
    → Keeps (AllSessions (IsFenced id)) (prune e)
      × Keeps (AllSessions (IsFenced id)) (create_login_state e return_to ttl)
      × Keeps (AllSessions (IsFenced id)) (consume_login_state e other)
      × Keeps (AllSessions (IsFenced id)) (create_session e input)
      × Keeps (AllSessions (IsFenced id)) (revoke_session e other)
      × Keeps (AllSessions (IsFenced id)) (conditional_revoke e session)
      × Keeps (AllSessions (IsFenced id)) (persist_pending e session next)
      × Keeps (AllSessions (IsFenced id)) (finalize_pending e session email)
      × Keeps (AllSessions (IsFenced id)) (touch_ready e session idle_ttl touch_interval)
store-IsFenced e id others fresh return_to other ttl idle_ttl touch_interval input session next
      email =
    (
      prune-Keeps e R others,
      create_login_state-Keeps e R others return_to ttl,
      consume_login_state-Keeps e R others other,
      create_session-Keeps e R others input (unfold new_row in λ n at q. absurd (fresh n q)),
      revoke_session-Keeps e R others (IsFenced-Stable id) other,
      conditional_revoke-Keeps e R others (IsFenced-Stable id) session,
      persist_pending-Keeps e R others (IsFenced-Stable id) session next,
      finalize_pending-Keeps e R others (IsFenced-Stable id) session email,
      touch_ready-Keeps e R others session idle_ttl touch_interval (λ at r t h q. h q),
    )
  where
    R : SessionRow → Type 0
    R = IsFenced id

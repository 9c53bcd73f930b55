-- ===== src/Db/Sessions.antt =====
-- src/db.rs: login states are used once.
use auth_mini_gateway.Prelude.{
  ◌≡◌, ◌≢◌, refl, true, false, ◌&&◌, Option, none, some, List, [], ◌∷◌, arith, ltb, Bool-cases, inl,
  inr, and_parts, All,
}
use auth_mini_gateway.Prelude.Result.{ok}
use auth_mini_gateway.Prelude.Text.{Str, str_eq, eq_of_str_eq, str_eq_refl}
use auth_mini_gateway.Util.{Stamp, format_time}
use auth_mini_gateway.Db.{LoginRow, LoginState, Tables}
use auth_mini_gateway.Db.Sql.{
  is_null, login_usable, consume_login, has_login_id, update_where, select_where,
}
use auth_mini_gateway.Db.Monad.{Env, World, now, connection}
use auth_mini_gateway.Db.Monad.Keeps.{OthersKeep, Keeps-connection}
use auth_mini_gateway.Db.Monad.Runs.{bind-ok, statement-ok}
use auth_mini_gateway.Db.Rows.{select_where_sound}
use auth_mini_gateway.Db.Store.{consume_login_state, consume_in, consume_found}

abbrev pub AllLogins : (LoginRow → Type 0) → Tables → Type 0
AllLogins R t = All R t.login_states

-- Every login state of the id is consumed.
abbrev pub IsConsumed : Str → LoginRow → Type 0
IsConsumed id r = r.id ≡ id → is_null r.consumed_at ≡ false

consume_all :
    (id : Str) (at : Stamp) (rows : List LoginRow)
    → All (IsConsumed id) (update_where (has_login_id id) (consume_login at) rows)
unfolding update_where
consume_all id at [] = tt
consume_all id at (r ∷ rows) = elim (Bool-cases (has_login_id id r)) [
  | inl t ↦ rw t ((λ q. refl), consume_all id at rows)
  | inr f ↦ rw f (
    (λ q. let s : str_eq r.id id ≡ true = rw q (str_eq_refl id) in ground arith),
    consume_all id at rows,
  )
]

consume_found-some :
    (id : Str) (at : Stamp) (t : Tables) (o : Option LoginRow) {st : LoginState}
    → (consume_found id at t o).0 ≡ ok (some st)
    → (row : LoginRow) × (o ≡ some row)
      × (st.return_to ≡ row.return_to)
      × AllLogins (IsConsumed id) (consume_found id at t o).1
unfolding consume_found
consume_found-some id at t none h = absurd (ground arith)
consume_found-some id at t (some row) h =
    (row, refl, ground arith, consume_all id at t.login_states)

-- What a transaction that returns a login state saw and left.
consume_in-some :
    (id : Str) (at : Stamp) (t : Tables) {st : LoginState}
    → (consume_in id at t).0 ≡ ok (some st)
    → (row : LoginRow) × (select_where (login_usable id at) t.login_states ≡ some row)
      × (st.return_to ≡ row.return_to)
      × AllLogins (IsConsumed id) (consume_in id at t).1
unfolding consume_in
consume_in-some id at t h =
    consume_found-some id at t (select_where (login_usable id at) t.login_states) h

module _ (e : Env) (id : Str) where
  consume-ran :
      (w : World) {o : Option LoginState}
      → (consume_login_state e id w).0 ≡ ok o
      → (at : Stamp) × (t : Tables) × ((consume_in id at t).0 ≡ ok o)
        × ((consume_login_state e id w).1.db ≡ (consume_in id at t).1)
        × (t ≡ e.others (now e (connection e w).1).1.step (connection e w).1.db)
  unfolding consume_login_state now
  consume-ran w run =
      let (_, _, timed, p) = bind-ok (connection e) _ w run in
      let (at, _, rest, q) = bind-ok (now e) _ (connection e w).1 timed in
      let (r, d) =
        statement-ok e (consume_in id (format_time at)) (now e (connection e w).1).1 rest in
      (format_time at, _, r, rw (p, q) d, refl)

  -- A login state is consumed at most once: after `consume_login_state` has returned it, no later call
  -- for the same id returns a login state, as long as the other connections do not take a consumption
  -- back.
  pub consume_login_state-once :
      (w later : World) (st : LoginState)
      → OthersKeep e (AllLogins (IsConsumed id))
      → (consume_login_state e id w).0 ≡ ok (some st)
      → later.db ≡ (consume_login_state e id w).1.db
      → (st' : LoginState) → (consume_login_state e id later).0 ≢ ok (some st')
  consume_login_state-once w later st others run same st' again =
      let (at, t, r, d, _) = consume-ran w run in
      let (_, _, _, consumed) = consume_in-some id at t r in
      let start : AllLogins (IsConsumed id) later.db = rw (same, d) consumed in
      let (at', t', r', _, s) = consume-ran later again in
      let (row, chosen, _, _) = consume_in-some id at' t' r' in
      let seen : AllLogins (IsConsumed id) t' =
        rw s (others _ _ ((Keeps-connection e others).at later start)) in
      let (fenced, usable) =
        select_where_sound (IsConsumed id) (login_usable id at') t'.login_states seen chosen in
      let own = eq_of_str_eq row.id id (and_parts (str_eq row.id id) _ usable).0 in
      let gone = fenced own in
      let open_row : (is_null row.consumed_at && ltb at' row.expires_at) ≡ true =
        (and_parts (str_eq row.id id) _ usable).1 in
      ground arith

-- ===== src/Db/Sql.antt =====
-- src/db.rs: the SQL statements, as functions of the tables. A statement is atomic.
use auth_mini_gateway.Prelude.{
  ℕ, suc, ◌+◌, Bool, true, false, ◌&&◌, ◌||◌, not, Option, none, some, List, [], ◌∷◌, ltb, leb,
  ◌==◌, if◌then◌else◌,
}
use auth_mini_gateway.Prelude.Text.{Str, str_eq}
use auth_mini_gateway.Util.{Stamp}
use auth_mini_gateway.Db.{
  SessionRow, LoginRow, Tables, IdentityState, ready, pending, ready_text, pending_text, text_is,
  compat_deny_at,
}

-- UPDATE … WHERE: the rows that pass the test are set, and counted.
unfoldable pub update_where {ℓ} : {A : Type ℓ} → (A → Bool) → (A → A) → List A → List A
update_where test set [] = []
update_where test set (r ∷ rs) = (if test r then set r else r) ∷ update_where test set rs

unfoldable pub count_where {ℓ} : {A : Type ℓ} → (A → Bool) → List A → ℕ
count_where test [] = 0
count_where test (r ∷ rs) = if test r then suc (count_where test rs) else count_where test rs

-- DELETE … WHERE
unfoldable pub delete_where {ℓ} : {A : Type ℓ} → (A → Bool) → List A → List A
delete_where test [] = []
delete_where test (r ∷ rs) = let rest = delete_where test rs in if test r then rest else r ∷ rest

-- SELECT … LIMIT 1
unfoldable pub select_where {ℓ} : {A : Type ℓ} → (A → Bool) → List A → Option A
select_where test [] = none
select_where test (r ∷ rs) = if test r then some r else select_where test rs

abbrev pub is_null : Option Stamp → Bool
is_null none = true
is_null (some t) = false

abbrev pub has_session_id : Str → SessionRow → Bool
has_session_id id r = str_eq r.id id

abbrev pub has_login_id : Str → LoginRow → Bool
has_login_id id r = str_eq r.id id

-- id = ?, consumed_at IS NULL, expires_at > now
abbrev pub login_usable : Str → Stamp → LoginRow → Bool
login_usable id now r = str_eq r.id id && (is_null r.consumed_at && ltb now r.expires_at)

abbrev pub consume_login : Stamp → LoginRow → LoginRow
consume_login now r = record r { consumed_at = some now }

-- revoked_at IS NULL and both deadlines ahead
abbrev pub row_live : Stamp → SessionRow → Bool
row_live now r =
    is_null r.revoked_at && (ltb now r.idle_expires_at && ltb now r.absolute_expires_at)

abbrev pub revoke_test : Str → SessionRow → Bool
revoke_test id r = str_eq r.id id && is_null r.revoked_at

abbrev pub revoke_set : Stamp → SessionRow → SessionRow
revoke_set now r = record r { revoked_at = some now; updated_at = now }

-- The compare-and-set test on generation, refresh token and identity state.
abbrev pub version_test : Str → ℕ → Str → IdentityState → Stamp → SessionRow → Bool
version_test id generation refresh_token state now r =
    str_eq r.id id
    && ((r.refresh_generation == generation)
        && (str_eq r.refresh_token refresh_token
            && (text_is r.identity_state state && row_live now r)))

abbrev pub pending_set : Str → Str → Str → Str → Stamp → Stamp → SessionRow → SessionRow
pending_set access_token refresh_token user_id amr_json access_expires_at now r = record r {
  access_token = access_token;
  refresh_token = refresh_token;
  user_id = user_id;
  amr_json = amr_json;
  access_expires_at = access_expires_at;
  refresh_generation = r.refresh_generation + 1;
  identity_state = pending_text;
  identity_pending_since = some now;
  session_expires_at = compat_deny_at;
  updated_at = now;
}

abbrev pub finalize_test : Str → ℕ → Str → Stamp → SessionRow → Bool
finalize_test id generation user_id now r =
    str_eq r.id id
    && ((r.refresh_generation == generation)
        && (text_is r.identity_state pending && (str_eq r.user_id user_id && row_live now r)))

abbrev pub finalize_set : Option Str → Stamp → SessionRow → SessionRow
finalize_set email now r = record r {
  email = email;
  identity_state = ready_text;
  identity_pending_since = none;
  session_expires_at = r.idle_expires_at;
  updated_at = now;
}

abbrev pub touch_test : Str → ℕ → Stamp → Stamp → SessionRow → Bool
touch_test id generation idle now r =
    str_eq r.id id
    && ((r.refresh_generation == generation)
        && (text_is r.identity_state ready && ((r.idle_expires_at == idle) && row_live now r)))

abbrev pub touch_set : Stamp → Stamp → SessionRow → SessionRow
touch_set candidate now r = record r {
  idle_expires_at = candidate;
  session_expires_at = candidate;
  last_touched_at = now;
  updated_at = now;
}

-- expires_at <= now OR consumed_at IS NOT NULL
abbrev pub login_dead : Stamp → LoginRow → Bool
login_dead now r = leb r.expires_at now || not (is_null r.consumed_at)

-- revoked_at IS NOT NULL OR idle_expires_at <= now OR absolute_expires_at <= now
abbrev pub session_dead : Stamp → SessionRow → Bool
session_dead now r =
    not (is_null r.revoked_at) || (leb r.idle_expires_at now || leb r.absolute_expires_at now)

abbrev pub update_sessions : (SessionRow → Bool) → (SessionRow → SessionRow) → Tables → Tables
update_sessions test set t = record t { sessions = update_where test set t.sessions }

abbrev pub update_logins : (LoginRow → Bool) → (LoginRow → LoginRow) → Tables → Tables
update_logins test set t = record t { login_states = update_where test set t.login_states }

-- INSERT, which the primary key refuses for an id that is there: `none`.
unfoldable pub insert_session : SessionRow → Tables → Option Tables
insert_session row t = elim (select_where (has_session_id row.id) t.sessions) [
  | none ↦ some (record t { sessions = row ∷ t.sessions })
  | some _ ↦ none
]

unfoldable pub insert_login : LoginRow → Tables → Option Tables
insert_login row t = elim (select_where (has_login_id row.id) t.login_states) [
  | none ↦ some (record t { login_states = row ∷ t.login_states })
  | some _ ↦ none
]

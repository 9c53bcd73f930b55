-- ===== src/Db.antt =====
-- src/db.rs: the session store. The tables of the version 2 schema, the rows that the program reads
-- from them, and the results of the operations.
pub mod Sql
pub mod Monad
pub mod Store
pub mod Rows
pub mod Invariant
pub mod Validity
pub mod Fence
pub mod Cas
pub mod Sessions
use auth_mini_gateway.Prelude.{
  ℕ, Bool, true, false, ◌&&◌, not, Option, none, some, List, ltb, ◌==◌, if◌then◌else◌,
}
use auth_mini_gateway.Prelude.Result.{Result, ok, err, ok_or, refuse_if, ◌>>=◌, ◌>>◌}
use auth_mini_gateway.Prelude.Text.{Str, codes}
use auth_mini_gateway.Util.{DateTime, Stamp, format_time, parse_time}

pub data IdentityState : Type 0 where
  ready pending : IdentityState

-- The text of the column identity_state.
pub data StateText : Type 0 where
  ready_text pending_text : StateText
  other_text : Str → StateText

-- IdentityState::as_str
abbrev pub as_str : IdentityState → StateText
as_str ready = ready_text
as_str pending = pending_text

abbrev pub same_state : IdentityState → IdentityState → Bool
same_state ready ready = true
same_state pending pending = true
same_state _ _ = false

-- The comparison of the column with a bound text.
abbrev pub text_is : StateText → IdentityState → Bool
text_is ready_text ready = true
text_is pending_text pending = true
text_is _ _ = false

-- A row of gateway_sessions. Times are stored texts (Util.Stamp).
pub record SessionRow : Type 0 where
  pub id : Str
  pub auth_session_id : Str
  pub access_token : Str
  pub refresh_token : Str
  pub user_id : Str
  pub email : Option Str
  pub amr_json : Str
  pub access_expires_at : Stamp
  pub session_expires_at : Stamp
  pub revoked_at : Option Stamp
  pub refresh_generation : ℕ
  pub created_at : Stamp
  pub updated_at : Stamp
  pub idle_expires_at : Stamp
  pub absolute_expires_at : Stamp
  pub last_touched_at : Stamp
  pub identity_state : StateText
  pub identity_pending_since : Option Stamp

-- A row of login_states.
pub record LoginRow : Type 0 where
  pub id : Str
  pub return_to : Str
  pub expires_at : Stamp
  pub consumed_at : Option Stamp
  pub created_at : Stamp

pub record Tables : Type 0 where
  pub login_states : List LoginRow
  pub sessions : List SessionRow

pub record LoginState : Type 0 where
  pub id : Str
  pub return_to : Str
  pub expires_at : DateTime

pub record ObservedVersion : Type 0 where
  pub generation : ℕ
  pub identity_state : IdentityState

pub record GatewaySession : Type 0 where
  pub id : Str
  pub auth_session_id : Str
  pub access_token : Str
  pub refresh_token : Str
  pub user_id : Str
  pub email : Option Str
  pub amr : List Str
  pub access_expires_at : DateTime
  pub session_expires_at : DateTime
  pub idle_expires_at : DateTime
  pub absolute_expires_at : DateTime
  pub last_touched_at : DateTime
  pub identity_state : IdentityState
  pub identity_pending_since : Option DateTime
  pub refresh_generation : ℕ
  pub revoked_at : Option DateTime

abbrev pub observed_version : GatewaySession → ObservedVersion
observed_version s = record { generation = s.refresh_generation; identity_state = s.identity_state }

-- The derived equality.
abbrev pub same_version : ObservedVersion → ObservedVersion → Bool
same_version v w = (v.generation == w.generation) && same_state v.identity_state w.identity_state

pub record NewSession : Type 0 where
  pub auth_session_id : Str
  pub access_token : Str
  pub refresh_token : Str
  pub user_id : Str
  pub email : Option Str
  pub amr : List Str
  pub access_expires_at : DateTime
  pub idle_ttl_seconds : ℕ
  pub absolute_ttl_seconds : ℕ

pub record PendingTokens : Type 0 where
  pub access_token : Str
  pub refresh_token : Str
  pub user_id : Str
  pub amr : List Str
  pub access_expires_at : DateTime

pub data SessionLookup : Type 0 where
  active : GatewaySession → SessionLookup
  inactive : SessionLookup

pub data CasResult : Type 0 where
  updated current : GatewaySession → CasResult
  inactive : CasResult

pub data TouchResult : Type 0 where
  not_due advanced : GatewaySession → TouchResult
  lost : TouchResult

-- rusqlite::Error, by its cause.
pub data DbError : Type 0 where
  sqlite constraint no_rows invalid_data : DbError

-- COMPAT_DENY_AT, the text of the epoch.
abbrev pub compat_deny_at : Stamp
compat_deny_at = 0

is_some : Option DateTime → Bool
is_some none = false
is_some (some t) = true

deadline_gate : GatewaySession → Bool
deadline_gate s = ltb s.absolute_expires_at s.idle_expires_at

compat_gate : IdentityState → GatewaySession → Bool
unfolding is_some
compat_gate ready s =
    not (is_some s.identity_pending_since) && (s.session_expires_at == s.idle_expires_at)
compat_gate pending s =
    is_some s.identity_pending_since && (format_time s.session_expires_at == compat_deny_at)

-- The generation is a natural number here, since the program only starts it at 0 and adds 1.
unfoldable pub validate_session_invariants : GatewaySession → Result DbError (Unit {0})
unfolding deadline_gate compat_gate
validate_session_invariants s = do
  refuse_if (deadline_gate s) invalid_data
  refuse_if (not (compat_gate s.identity_state s)) invalid_data

unfoldable pub is_active : GatewaySession → DateTime → Bool
unfolding is_some
is_active s now =
    not (is_some s.revoked_at) && (ltb now s.idle_expires_at && ltb now s.absolute_expires_at)

read_state : StateText → Result DbError IdentityState
read_state ready_text = ok ready
read_state pending_text = ok pending
read_state (other_text s) = err invalid_data

read_time : Option Stamp → Option DateTime
read_time none = none
read_time (some t) = some (parse_time t)

abbrev session_of : SessionRow → List Str → IdentityState → GatewaySession
session_of row amr state = record {
  id = row.id;
  auth_session_id = row.auth_session_id;
  access_token = row.access_token;
  refresh_token = row.refresh_token;
  user_id = row.user_id;
  email = row.email;
  amr = amr;
  access_expires_at = parse_time row.access_expires_at;
  session_expires_at = parse_time row.session_expires_at;
  idle_expires_at = parse_time row.idle_expires_at;
  absolute_expires_at = parse_time row.absolute_expires_at;
  last_touched_at = parse_time row.last_touched_at;
  identity_state = state;
  identity_pending_since = read_time row.identity_pending_since;
  refresh_generation = row.refresh_generation;
  revoked_at = read_time row.revoked_at;
}

-- `decode` is serde_json's reading of a list of texts.
unfoldable pub row_to_session :
    (Str → Option (List Str)) → SessionRow → Result DbError GatewaySession
unfolding read_state read_time
row_to_session decode row = do
  amr ← ok_or (decode row.amr_json) invalid_data
  state ← read_state row.identity_state
  validate_session_invariants (session_of row amr state)
  ok (session_of row amr state)

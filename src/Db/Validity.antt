-- ===== src/Db/Validity.antt =====
-- src/db.rs: the rows that the operations write pass the check with which rows are read.
use auth_mini_gateway.Prelude.{
  ℕ, ◌+◌, ◌≤◌, ◌≡◌, refl, true, Option, none, some, List, min, arith, ◌↔◌, and_parts,
}
use auth_mini_gateway.Prelude.Result.{ok}
use auth_mini_gateway.Prelude.Text.{Str, eq_of_str_eq}
use auth_mini_gateway.Util.{Stamp, DateTime, seconds, format_time, parse_time, format_time_mono}
use auth_mini_gateway.Db.{
  SessionRow, StateText, ready_text, pending_text, other_text, GatewaySession, NewSession,
  PendingTokens, row_to_session, session_of, validate_session_invariants, ready, pending,
  IdentityState, text_is,
}
use auth_mini_gateway.Db.Sql.{touch_set, touch_test}
use auth_mini_gateway.Db.Monad.{Env}
use auth_mini_gateway.Db.Monad.Keeps.{Keeps, OthersKeep}
use auth_mini_gateway.Db.Rows.{AllSessions}
use auth_mini_gateway.Db.Store.{
  prune, create_login_state, consume_login_state, lookup_session, create_session, new_row,
  revoke_session, conditional_revoke, persist_pending, finalize_pending, touch_ready,
  logout_access_snapshot,
}
use auth_mini_gateway.Db.Invariant.{
  Stable, prune-Keeps, create_login_state-Keeps, consume_login_state-Keeps, create_session-Keeps,
  revoke_session-Keeps, conditional_revoke-Keeps, persist_pending-Keeps, finalize_pending-Keeps,
  touch_ready-Keeps, lookup_session-Keeps, logout_access_snapshot-Keeps,
}

-- A ready row mirrors its idle deadline in the column that an older binary reads, and a pending row
-- shows it the epoch, so that it denies the session.
abbrev pub Gate : StateText → Option Stamp → Stamp → Stamp → Type 0
Gate ready_text none session idle = session ≡ idle
Gate pending_text (some since) session idle = session ≡ 0
Gate _ _ session idle = ⊥

pub record IsValid (r : SessionRow) : Type 0 where
  pub deadlines : r.idle_expires_at ≤ r.absolute_expires_at
  pub gate : Gate r.identity_state r.identity_pending_since r.session_expires_at r.idle_expires_at

pub IsValid-Stable : Stable IsValid
IsValid-Stable = record {
  revoke = λ at r h. record { deadlines = h.deadlines; gate = h.gate };
  persist = λ a b c d x at r h. record { deadlines = h.deadlines; gate = refl };
  finalize = λ email at r h. record { deadlines = h.deadlines; gate = refl };
}

pub new_row-IsValid :
    (e : Env) (id : Str) (at : DateTime) (input : NewSession) → IsValid (new_row e id at input)
unfolding new_row format_time
new_row-IsValid e id at input = record { deadlines = omega arith; gate = refl }

-- The row's absolute deadline is `a`, if its id is `id`.
abbrev pub AbsoluteIs : Str → Stamp → SessionRow → Type 0
AbsoluteIs id a r = r.id ≡ id → r.absolute_expires_at ≡ a

abbrev pub IsTouchable : Str → Stamp → SessionRow → Type 0
IsTouchable id a r = IsValid r × AbsoluteIs id a r

touch-Gate :
    (st : StateText) (since : Option Stamp) (s i c : Stamp)
    → text_is st ready ≡ true
    → Gate st since s i
    → Gate st since c c
touch-Gate ready_text none s i c t g = refl
touch-Gate ready_text (some x) s i c t g = g
touch-Gate pending_text since s i c t g = absurd (ground arith)
touch-Gate (other_text x) since s i c t g = absurd (ground arith)

touch_IsTouchable :
    (original : GatewaySession) (idle_ttl : ℕ) (at : DateTime) (r : SessionRow)
    → touch_test original.id original.refresh_generation
        (format_time original.idle_expires_at)
        (format_time at)
        r
      ≡ true
    → IsTouchable original.id (format_time original.absolute_expires_at) r
    → IsTouchable original.id (format_time original.absolute_expires_at) (
        touch_set
          (format_time (min (at + seconds idle_ttl) original.absolute_expires_at))
          (format_time at)
          r)
touch_IsTouchable original idle_ttl at r t (v, fixed) =
    let same = eq_of_str_eq r.id original.id (and_parts _ _ t).0 in
    let le =
      format_time_mono (min (at + seconds idle_ttl) original.absolute_expires_at)
        original.absolute_expires_at (omega arith) in
    let state : text_is r.identity_state ready ≡ true =
      (and_parts _ _ (and_parts _ _ (and_parts _ _ t).1).1).0 in
    (
      record {
        deadlines = rw (fixed same) le;
        gate =
            touch-Gate r.identity_state r.identity_pending_since r.session_expires_at
              r.idle_expires_at _ state v.gate;
      },
      λ q. fixed q,
    )

-- Whatever the other connections do to the tables in between, as long as they write valid rows, and
-- whichever statements fail, every operation of the store but the touch leaves valid rows only.
pub store-IsValid :
    (e : Env)
    → OthersKeep e (AllSessions IsValid)
    → (id return_to : Str) (ttl : ℕ) (input : NewSession) (session : GatewaySession)
      (next : PendingTokens) (email : Option Str)
    → Keeps (AllSessions IsValid) (prune e)
      × Keeps (AllSessions IsValid) (create_login_state e return_to ttl)
      × Keeps (AllSessions IsValid) (consume_login_state e id)
      × Keeps (AllSessions IsValid) (create_session e input)
      × Keeps (AllSessions IsValid) (lookup_session e id)
      × Keeps (AllSessions IsValid) (logout_access_snapshot e id)
      × Keeps (AllSessions IsValid) (revoke_session e id)
      × Keeps (AllSessions IsValid) (conditional_revoke e session)
      × Keeps (AllSessions IsValid) (persist_pending e session next)
      × Keeps (AllSessions IsValid) (finalize_pending e session email)
store-IsValid e others id return_to ttl input session next email = (
  prune-Keeps e IsValid others,
  create_login_state-Keeps e IsValid others return_to ttl,
  consume_login_state-Keeps e IsValid others id,
  create_session-Keeps e IsValid others input
      (λ n at. new_row-IsValid e (e.random_token n) at input),
  lookup_session-Keeps e IsValid others id,
  logout_access_snapshot-Keeps e IsValid others id,
  revoke_session-Keeps e IsValid others IsValid-Stable id,
  conditional_revoke-Keeps e IsValid others IsValid-Stable session,
  persist_pending-Keeps e IsValid others IsValid-Stable session next,
  finalize_pending-Keeps e IsValid others IsValid-Stable session email,
)

-- A touch leaves valid rows, and the absolute deadline of the touched session as it was: it never
-- slides. The rows of that id have the absolute deadline that the session was read with, which the
-- other connections keep too.
pub touch_ready-IsTouchable :
    (e : Env) (original : GatewaySession) (idle_ttl touch_interval : ℕ)
    → OthersKeep e
        (AllSessions (IsTouchable original.id (format_time original.absolute_expires_at)))
    → Keeps
        (AllSessions (IsTouchable original.id (format_time original.absolute_expires_at)))
        (touch_ready e original idle_ttl touch_interval)
touch_ready-IsTouchable e original idle_ttl touch_interval others =
    touch_ready-Keeps e (IsTouchable original.id (format_time original.absolute_expires_at)) others
      original idle_ttl touch_interval (λ at r t h. touch_IsTouchable original idle_ttl at r t h)

module _ (decode : Str → Option (List Str)) (row : SessionRow) {amr : List Str}
    (decoded : decode row.amr_json ≡ some amr) where
  read-Gate :
      {s : GatewaySession}
      → row_to_session decode row ≡ ok s
      → (st : StateText) (since : Option Stamp) → row.identity_state ≡ st
      → row.identity_pending_since ≡ since
      → Gate st since row.session_expires_at row.idle_expires_at
  unfolding row_to_session validate_session_invariants parse_time format_time
  read-Gate h ready_text none p q = ground arith
  read-Gate h ready_text (some x) p q = ground arith
  read-Gate h pending_text none p q = ground arith
  read-Gate h pending_text (some x) p q = ground arith
  read-Gate h (other_text x) since p q = ground arith

  read_deadlines :
      {s : GatewaySession}
      → row_to_session decode row ≡ ok s
      → row.idle_expires_at ≤ row.absolute_expires_at
  unfolding row_to_session validate_session_invariants parse_time
  read_deadlines h = ground arith

  write_read :
      (st : StateText) (since : Option Stamp)
      → row.identity_state ≡ st
      → row.identity_pending_since ≡ since
      → row.idle_expires_at ≤ row.absolute_expires_at
      → Gate st since row.session_expires_at row.idle_expires_at
      → (state : IdentityState) × (row_to_session decode row ≡ ok (session_of row amr state))
  unfolding row_to_session validate_session_invariants parse_time format_time
  write_read ready_text none p q d g = (ready, ground arith)
  write_read ready_text (some x) p q d g = absurd g
  write_read pending_text none p q d g = absurd g
  write_read pending_text (some x) p q d g = (pending, ground arith)
  write_read (other_text x) since p q d g = absurd g

  -- A row whose amr text is a list of texts is read exactly if it is valid: the check of
  -- `row_to_session` refuses nothing that the operations write, and lets nothing else pass.
  pub row_to_session_iff : ((s : GatewaySession) × (row_to_session decode row ≡ ok s)) ↔ IsValid row
  row_to_session_iff = (
    λ (s, h). record {
      deadlines = read_deadlines h;
      gate = read-Gate h row.identity_state row.identity_pending_since refl refl;
    },
    λ v.
        let (state, h) =
          write_read row.identity_state row.identity_pending_since refl refl v.deadlines v.gate in
        (session_of row amr state, h),
  )

-- ===== src/Db/Monad.antt =====
-- The world in which a store operation runs. SQLite, the clock, the random source and the other users
-- of the database are asked one after another, and answer by the number of the question: a statement
-- may fail, and the other connections may have changed the tables before it in any way.
pub mod Keeps
pub mod Runs
use auth_mini_gateway.Prelude.{ℕ, suc, Bool, true, false, Option, none, some, List, if◌then◌else◌}
use auth_mini_gateway.Prelude.Result.{Result, ok, err}
use auth_mini_gateway.Prelude.Text.{Str}
use auth_mini_gateway.Util.{DateTime}
use auth_mini_gateway.Db.{Tables, DbError, sqlite, constraint, SessionRow, LoginRow}
use auth_mini_gateway.Db.Sql.{update_where, count_where}

pub record Env : Type 0 where
  pub clock : ℕ → DateTime
  pub fails : ℕ → Bool
  pub random_token : ℕ → Str
  pub others : ℕ → Tables → Tables
  -- serde_json on lists of texts
  pub encode_amr : List Str → Str
  pub decode_amr : Str → Option (List Str)

pub record World : Type 0 where
  pub step : ℕ
  pub db : Tables

abbrev pub M : Type 0 → Type 0
M A = World → Result DbError A × World

unfoldable pub pure : {A : Type 0} → A → M A
pure a w = (ok a, w)

unfoldable pub throw : {A : Type 0} → DbError → M A
throw e w = (err e, w)

abbrev pub bind_result :
    {A B : Type 0} → Result DbError A → World → (A → M B) → Result DbError B × World
bind_result (ok a) w f = f a w
bind_result (err e) w f = (err e, w)

infixl 5 ◌>>=◌ ◌>>◌
unfoldable pub ◌>>=◌ : {A B : Type 0} → M A → (A → M B) → M B
◌>>=◌ m f w = bind_result (m w).0 (m w).1 f

abbrev pub ◌>>◌ : {B : Type 0} → M (Unit {0}) → M B → M B
m >> k = m >>= λ _. k

unfoldable pub lift : {A : Type 0} → Result DbError A → M A
lift r w = (r, w)

module _ (e : Env) where
  unfoldable pub now : M DateTime
  now w = (ok (e.clock w.step), record w { step = suc w.step })

  unfoldable pub token : M Str
  token w = (ok (e.random_token w.step), record w { step = suc w.step })

  -- The others' changes, then the statement, which may fail and then changes nothing.
  unfoldable pub statement : {A : Type 0} → (Tables → Result DbError A × Tables) → M A
  statement run w =
      let seen = e.others w.step w.db in
      let done = if e.fails w.step then (err sqlite, seen) else run seen in
      (done.0, record { step = suc w.step; db = done.1 })

  unfoldable pub query : {A : Type 0} → (Tables → A) → M A
  query read = statement (λ t. (ok (read t), t))

  -- Connection::open, then the foreign_keys pragma.
  unfoldable pub connection : M (Unit {0})
  connection = query (λ _. tt) >> query (λ _. tt)

  -- Connection::execute of an UPDATE returns the number of changed rows.
  unfoldable pub execute_sessions : (SessionRow → Bool) → (SessionRow → SessionRow) → M ℕ
  execute_sessions test set = statement λ t.
      (ok (count_where test t.sessions), record t { sessions = update_where test set t.sessions })

  unfoldable pub execute_insert : (Tables → Option Tables) → M (Unit {0})
  execute_insert insert =
      statement λ t. elim (insert t) [ none ↦ (err constraint, t) | some t' ↦ (ok tt, t') ]

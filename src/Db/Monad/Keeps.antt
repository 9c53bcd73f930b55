-- ===== src/Db/Monad/Keeps.antt =====
-- Invariants of store actions under interference, one rule for each way to build an action.
use auth_mini_gateway.Prelude.{
  ℕ, ◌≡◌, refl, Bool, true, false, Option, none, some, if◌then◌else◌, Bool-cases, inl, inr,
}
use auth_mini_gateway.Prelude.Text.{Str}
use auth_mini_gateway.Prelude.Result.{Result, ok, err}
use auth_mini_gateway.Db.{Tables, DbError, SessionRow}
use auth_mini_gateway.Db.Sql.{update_where}
use auth_mini_gateway.Db.Monad.{
  Env, World, M, pure, throw, lift, bind_result, ◌>>=◌, now, token, statement, query, connection,
  execute_sessions, execute_insert,
}

-- Whether the action returns or fails, `P` holds of the tables behind it if it held before it.
pub record Keeps {A : Type 0} (P : Tables → Type 0) (m : M A) : Type 0 where
  pub at : (w : World) → P w.db → P (m w).1.db

-- The other connections keep `P`.
abbrev pub OthersKeep : Env → (Tables → Type 0) → Type 0
OthersKeep e P = (n : ℕ) (t : Tables) → P t → P (e.others n t)

module _ {A : Type 0} {P : Tables → Type 0} where
  pub Keeps-pure : (a : A) → Keeps P (pure a)
  unfolding pure
  Keeps-pure a = record { at = λ w h. h }

  pub Keeps-throw : (x : DbError) → Keeps {A = A} P (throw x)
  unfolding throw
  Keeps-throw x = record { at = λ w h. h }

  pub Keeps-lift : (r : Result DbError A) → Keeps P (lift r)
  unfolding lift
  Keeps-lift r = record { at = λ w h. h }

  pub Keeps-if : (b : Bool) (m n : M A) → Keeps P m → Keeps P n → Keeps P (if b then m else n)
  Keeps-if true m n km kn = km
  Keeps-if false m n km kn = kn

module _ {A B : Type 0} {P : Tables → Type 0} where
  Keeps-bind_result :
      (r : Result DbError A) (w : World) (f : A → M B)
      → P w.db
      → ((a : A) → Keeps P (f a))
      → P (bind_result r w f).1.db
  Keeps-bind_result (ok a) w f h kf = (kf a).at w h
  Keeps-bind_result (err x) w f h kf = h

  pub Keeps-bind :
      (m : M A) (f : A → M B) → Keeps P m → ((a : A) → Keeps P (f a)) → Keeps P (m >>= f)
  unfolding ◌>>=◌
  Keeps-bind m f km kf = record { at = λ w h. Keeps-bind_result (m w).0 (m w).1 f (km.at w h) kf }

module _ (e : Env) {P : Tables → Type 0} where
  pub Keeps-now : Keeps P (now e)
  unfolding now
  Keeps-now = record { at = λ w h. h }

  pub Keeps-token : Keeps P (token e)
  unfolding token
  Keeps-token = record { at = λ w h. h }

  pub Keeps-bind-token :
      {B : Type 0} (f : Str → M B)
      → ((n : ℕ) → Keeps P (f (e.random_token n)))
      → Keeps P (token e >>= f)
  unfolding ◌>>=◌ token
  Keeps-bind-token f kf = record { at = λ w h. (kf w.step).at _ h }

  pub Keeps-statement :
      {A : Type 0} (run : Tables → Result DbError A × Tables)
      → OthersKeep e P
      → ((t : Tables) → P t → P (run t).1)
      → Keeps P (statement e run)
  unfolding statement
  Keeps-statement run others keep = record {
    at = λ w h. elim (Bool-cases (e.fails w.step)) [
      | inl failed ↦ rw failed (others w.step w.db h)
      | inr fine ↦ rw fine (keep (e.others w.step w.db) (others w.step w.db h))
    ];
  }

  pub Keeps-query : {A : Type 0} (read : Tables → A) → OthersKeep e P → Keeps P (query e read)
  unfolding query
  Keeps-query read others = Keeps-statement _ others (λ t h. h)

  pub Keeps-connection : OthersKeep e P → Keeps P (connection e)
  unfolding connection
  Keeps-connection others =
      Keeps-bind _ _ (Keeps-query _ others) (λ _. Keeps-query (λ _. tt) others)

  pub Keeps-execute_sessions :
      (test : SessionRow → Bool) (set : SessionRow → SessionRow)
      → OthersKeep e P
      → ((t : Tables) → P t → P (record t { sessions = update_where test set t.sessions }))
      → Keeps P (execute_sessions e test set)
  unfolding execute_sessions
  Keeps-execute_sessions test set others keep = Keeps-statement _ others keep

  insert_step :
      (o : Option Tables) (t : Tables)
      → P t
      → ((t' : Tables) → o ≡ some t' → P t')
      → P (
          let r : Result DbError (Unit {0}) × Tables = (elim o [
            | none ↦ (err DbError.constraint, t)
            | some t' ↦ (ok tt, t')
          ]) in
          r.1)
  insert_step none t h keep = h
  insert_step (some t') t h keep = keep t' refl

  pub Keeps-execute_insert :
      (insert : Tables → Option Tables)
      → OthersKeep e P
      → ((t t' : Tables) → P t → insert t ≡ some t' → P t')
      → Keeps P (execute_insert e insert)
  unfolding execute_insert
  Keeps-execute_insert insert others keep =
      Keeps-statement _ others (λ t h. insert_step (insert t) t h (λ t' q. keep t t' h q))

pub ruleset keeps_rules = (
  Keeps-pure, Keeps-throw, Keeps-lift, Keeps-if, Keeps-bind, Keeps-now, Keeps-token, Keeps-query,
  Keeps-connection,
)

-- ===== src/Db/Monad/Runs.antt =====
-- Inversion of store actions that return: what each of their parts returned.
use auth_mini_gateway.Prelude.{ℕ, ◌≡◌, refl, Bool, Bool-cases, inl, inr, arith}
use auth_mini_gateway.Prelude.Result.{Result, ok, err}
use auth_mini_gateway.Db.{Tables, DbError, SessionRow}
use auth_mini_gateway.Db.Sql.{update_where, count_where}
use auth_mini_gateway.Db.Monad.{
  Env, World, M, bind_result, ◌>>=◌, now, statement, query, execute_sessions,
}

module _ {A B : Type 0} where
  bind_result-ok :
      (r : Result DbError A) (w : World) (f : A → M B) {b : B}
      → (bind_result r w f).0 ≡ ok b
      → (a : A) × (r ≡ ok a) × ((f a w).0 ≡ ok b) × (bind_result r w f ≡ f a w)
  bind_result-ok (ok a) w f h = (a, refl, h, refl)
  bind_result-ok (err x) w f h = absurd (ground arith)

  -- A block that returns: its first action returned, and the rest ran behind it.
  pub bind-ok :
      (m : M A) (f : A → M B) (w : World) {b : B}
      → ((m >>= f) w).0 ≡ ok b
      → (a : A) × ((m w).0 ≡ ok a) × ((f a (m w).1).0 ≡ ok b) × ((m >>= f) w ≡ f a (m w).1)
  unfolding ◌>>=◌
  bind-ok m f w h = bind_result-ok (m w).0 (m w).1 f h

module _ (e : Env) {A : Type 0} where
  -- A statement that returns ran on what the others left.
  pub statement-ok :
      (run : Tables → Result DbError A × Tables) (w : World) {a : A}
      → (statement e run w).0 ≡ ok a
      → ((run (e.others w.step w.db)).0 ≡ ok a)
        × ((statement e run w).1.db ≡ (run (e.others w.step w.db)).1)
  unfolding statement
  statement-ok run w h = elim (Bool-cases (e.fails w.step)) [
    | inl failed ↦ absurd (ground arith)
    | inr fine ↦ (rw fine at h, rw fine)
  ]

  pub query-ok :
      (read : Tables → A) (w : World) {a : A}
      → (query e read w).0 ≡ ok a
      → read (e.others w.step w.db) ≡ a
  unfolding query
  query-ok read w {a} h = let r = (statement-ok _ w h).0 in ground arith

pub execute_sessions-ok :
    (e : Env) (test : SessionRow → Bool) (set : SessionRow → SessionRow) (w : World) {n : ℕ}
    → (execute_sessions e test set w).0 ≡ ok n
    → (count_where test (e.others w.step w.db).sessions ≡ n)
      × ((execute_sessions e test set w).1.db.sessions
          ≡ update_where test set (e.others w.step w.db).sessions)
unfolding execute_sessions
execute_sessions-ok e test set w h = let (r, d) = statement-ok e _ w h in (ground arith, rw d)

pub now-runs : (e : Env) (w : World) → ((now e w).0 ≡ ok (e.clock w.step)) × ((now e w).1.db ≡ w.db)
unfolding now
now-runs e w = (refl, refl)

pub ok-injective : {A : Type 0} (a b : A) → ◌≡◌ {A = Result DbError A} (ok a) (ok b) → a ≡ b
ok-injective a b h = ground arith

-- ===== src/Db/Cas.antt =====
-- src/db.rs: the compare-and-set on generation, refresh token and identity state spends a version of a
-- session at most once.
use auth_mini_gateway.Prelude.{
  ℕ, suc, ◌+◌, ◌<◌, ◌≡◌, ◌≢◌, refl, Bool, true, ◌&&◌, List, [], ◌∷◌, arith, ◌==◌, Bool-cases, inl,
  inr, and_parts, All, All_map, ◌∙◌, sym,
}
use auth_mini_gateway.Prelude.Result.{Result, ok}
use auth_mini_gateway.Prelude.Text.{Str, str_eq, eq_of_str_eq}
use auth_mini_gateway.Util.{DateTime, Stamp, format_time}
use auth_mini_gateway.Db
use auth_mini_gateway.Db.{
  SessionRow, Tables, GatewaySession, PendingTokens, SessionLookup, active, CasResult, updated,
  current, text_is,
}
use auth_mini_gateway.Db.Sql.{version_test, row_live, update_where, count_where}
use auth_mini_gateway.Db.Monad.{Env, World, pure, now, connection, execute_sessions}
use auth_mini_gateway.Db.Monad.Keeps.{OthersKeep, Keeps-connection}
use auth_mini_gateway.Db.Monad.Runs.{bind-ok, execute_sessions-ok}
use auth_mini_gateway.Db.Rows.{AllSessions}
use auth_mini_gateway.Db.Store.{
  conditional_revoke, persist_pending, resolve_cas, cas_of, lookup_session_at,
}
use auth_mini_gateway.Db.Invariant.{Stable, resolve_cas-Keeps}

-- The ids of the rows are distinct, as the primary key has it.
abbrev pub HasUniqueIds : List SessionRow → Type 0
HasUniqueIds [] = Unit
HasUniqueIds (r ∷ rows) = All (λ q. q.id ≢ r.id) rows × HasUniqueIds rows

-- The rows of the id are past the generation.
abbrev pub IsPast : Str → ℕ → SessionRow → Type 0
IsPast id generation r = r.id ≡ id → generation < r.refresh_generation

pub IsPast-Stable : (id : Str) (generation : ℕ) → Stable (IsPast id generation)
IsPast-Stable id generation = record {
  revoke = λ at r h q. h q;
  persist = λ a b c d x at r h q. let p = h q in omega arith;
  finalize = λ email at r h q. h q;
}

version_test-parts :
    (s : GatewaySession) (at : Stamp) (r : SessionRow)
    → version_test s.id s.refresh_generation s.refresh_token s.identity_state at r ≡ true
    → (r.id ≡ s.id) × (r.refresh_generation ≡ s.refresh_generation)
version_test-parts s at r t = (
  eq_of_str_eq r.id s.id (and_parts _ _ t).0,
  let rest : ((r.refresh_generation == s.refresh_generation)
            && (str_eq r.refresh_token s.refresh_token
                && (text_is r.identity_state s.identity_state && row_live at r)))
          ≡ true =
        (and_parts (str_eq r.id s.id) _ t).1 in
      ground arith,
)

-- A version test fails on every row that is past the generation.
count-past :
    (s : GatewaySession) (at : Stamp) (rows : List SessionRow)
    → All (IsPast s.id s.refresh_generation) rows
    → count_where (version_test s.id s.refresh_generation s.refresh_token s.identity_state at) rows
      ≡ 0
unfolding count_where
count-past s at [] h = refl
count-past s at (r ∷ rows) (p, h) =
    elim (Bool-cases
      (version_test s.id s.refresh_generation s.refresh_token s.identity_state at r)) [
        | inl t ↦
            let (own, same) = version_test-parts s at r t in
            let past = p own in absurd (omega arith)
        | inr f ↦ rw f (count-past s at rows h)
      ]

module _ (s : GatewaySession) (at : Stamp) (set : SessionRow → SessionRow)
    (set_id : (r : SessionRow) → (set r).id ≡ r.id)
    (set_generation : (r : SessionRow)
      → (set r).refresh_generation ≡ r.refresh_generation + 1) where
  test : SessionRow → Bool
  test = version_test s.id s.refresh_generation s.refresh_token s.identity_state at

  -- Where no row has the id, the statement leaves none.
  absent :
      (rows : List SessionRow)
      → All (λ q. q.id ≢ s.id) rows
      → All (IsPast s.id s.refresh_generation) (update_where test set rows)
  unfolding update_where test
  absent [] h = tt
  absent (r ∷ rows) (p, h) = elim (Bool-cases (test r)) [
    | inl t ↦ absurd (p (version_test-parts s at r t).0)
    | inr f ↦ rw f ((λ q. absurd (p q)), absent rows h)
  ]

  counted :
      (rows : List SessionRow) (other : SessionRow) {n : ℕ}
      → All (λ q. q.id ≢ other.id) rows
      → count_where test rows ≡ suc n
      → other.id ≢ s.id
  unfolding count_where test
  counted [] other h c = absurd (omega arith)
  counted (r ∷ rows) other (p, h) c = elim (Bool-cases (test r)) [
    | inl t ↦ let own = (version_test-parts s at r t).0 in λ q. p (own ∙ sym q)
    | inr f ↦ counted rows other h (rw f at c)
  ]

  -- If the statement changes one row, then every row of the id is past the generation behind it.
  spent :
      (rows : List SessionRow)
      → HasUniqueIds rows
      → count_where test rows ≡ 1
      → All (IsPast s.id s.refresh_generation) (update_where test set rows)
  unfolding update_where count_where test
  spent [] u c = absurd (omega arith)
  spent (r ∷ rows) (u, us) c = elim (Bool-cases (test r)) [
    | inl t ↦
        let (own, same) = version_test-parts s at r t in
        rw t (
          (λ q. let g = set_generation r in omega arith),
          absent rows (All_map rows (λ x h q. h (q ∙ sym own)) u),
        )
    | inr f ↦ rw f ((λ q. absurd (counted rows r u (rw f at c) q)), spent rows us (rw f at c))
  ]

module _ (e : Env) (s : GatewaySession) where
  Past : SessionRow → Type 0
  Past = IsPast s.id s.refresh_generation

  update-past :
      (at : Stamp) (set : SessionRow → SessionRow) (w : World) {n : ℕ}
      → OthersKeep e (AllSessions (IsPast s.id s.refresh_generation))
      → AllSessions (IsPast s.id s.refresh_generation) w.db
      → (execute_sessions e
          (version_test s.id s.refresh_generation s.refresh_token s.identity_state at)
          set
          w).0
        ≡ ok n
      → n ≡ 0
  update-past at set w others past run =
      let (c, _) = execute_sessions-ok e _ set w run in
      sym c ∙ count-past s at (e.others w.step w.db).sessions (others w.step w.db past)

  resolve_cas-updated :
      (at : DateTime) (n : ℕ) (w : World) {t : GatewaySession}
      → (resolve_cas e s.id at n w).0 ≡ ok (updated t)
      → n ≡ 1
  unfolding resolve_cas pure
  resolve_cas-updated at n w h =
      let (found, _, rest, _) = bind-ok (lookup_session_at e s.id at) _ w h in cas_one found rest
    where
      cas_one :
          (found : SessionLookup) {t : GatewaySession}
          → ◌≡◌ {A = Result Db.DbError CasResult} (ok (cas_of n found)) (ok (updated t))
          → n ≡ 1
      cas_one (active u) q = unfold cas_of in ground arith
      cas_one SessionLookup.inactive q = unfold cas_of in absurd (ground arith)

  -- The rows behind a rotation that was stored are past the version that it was made for.
  pub persist_pending-spends :
      (next : PendingTokens) (w : World) {t : GatewaySession}
      → ((n : ℕ) (d : Tables) → HasUniqueIds d.sessions → HasUniqueIds (e.others n d).sessions)
      → OthersKeep e (AllSessions (IsPast s.id s.refresh_generation))
      → HasUniqueIds w.db.sessions
      → (persist_pending e s next w).0 ≡ ok (updated t)
      → AllSessions (IsPast s.id s.refresh_generation) (persist_pending e s next w).1.db
  unfolding persist_pending Past now connection test
  persist_pending-spends next w unique others u run =
      let (_, _, timed, p) = bind-ok (connection e) _ w run in
      let (at, _, rest, q) = bind-ok (now e) _ (connection e w).1 timed in
      let v = (now e (connection e w).1).1 in
      let opened = (Keeps-connection e (λ n d h. unique n d h)).at w u in
      let (n, changed, resolved, r) =
        bind-ok
          (execute_sessions e
            (version_test s.id s.refresh_generation s.refresh_token s.identity_state
              (format_time at))
            _)
          _ v rest in
      let (c, d) = execute_sessions-ok e _ _ v changed in
      let one = resolve_cas-updated at n _ resolved in
      rw (p, q, r)
        ((resolve_cas-Keeps e Past others s.id at n).at _ (
          rw d (
            spent s (format_time at) _ (λ x. refl) (λ x. refl) (e.others v.step v.db).sessions
              (unique v.step v.db opened) (c ∙ one))))

  refused_revoke :
      (w : World)
      → OthersKeep e (AllSessions (IsPast s.id s.refresh_generation))
      → AllSessions (IsPast s.id s.refresh_generation) w.db
      → (conditional_revoke e s w).0 ≢ ok true
  unfolding conditional_revoke pure now
  refused_revoke w others past run =
      let (_, _, timed, _) = bind-ok (connection e) _ w run in
      let (at, _, rest, _) = bind-ok (now e) _ (connection e w).1 timed in
      let v = (now e (connection e w).1).1 in
      let (n, changed, last, _) =
        bind-ok
          (execute_sessions e
            (version_test s.id s.refresh_generation s.refresh_token s.identity_state
              (format_time at))
            _)
          _ v rest in
      let none_changed =
        update-past (format_time at) _ v others ((Keeps-connection e others).at w past) changed in
      ground arith

  refused_persist :
      (next : PendingTokens) (w : World) {t : GatewaySession}
      → OthersKeep e (AllSessions (IsPast s.id s.refresh_generation))
      → AllSessions (IsPast s.id s.refresh_generation) w.db
      → (persist_pending e s next w).0 ≢ ok (updated t)
  unfolding persist_pending now
  refused_persist next w others past run =
      let (_, _, timed, _) = bind-ok (connection e) _ w run in
      let (at, _, rest, _) = bind-ok (now e) _ (connection e w).1 timed in
      let v = (now e (connection e w).1).1 in
      let (n, changed, resolved, _) =
        bind-ok
          (execute_sessions e
            (version_test s.id s.refresh_generation s.refresh_token s.identity_state
              (format_time at))
            _)
          _ v rest in
      let none_changed =
        update-past (format_time at) _ v others ((Keeps-connection e others).at w past) changed in
      let one = resolve_cas-updated at n _ resolved in absurd (omega arith)

  -- A version of a session is spent at most once: after a rotation made for it was stored, no further
  -- rotation and no conditional revocation that rests on the same snapshot changes a row, whatever
  -- tokens it brings. The ids are distinct, and the other connections keep them so and never take a
  -- generation back.
  pub persist_pending-once :
      (next next' : PendingTokens) (w later : World) {t : GatewaySession}
      → ((n : ℕ) (d : Tables) → HasUniqueIds d.sessions → HasUniqueIds (e.others n d).sessions)
      → OthersKeep e (AllSessions (IsPast s.id s.refresh_generation))
      → HasUniqueIds w.db.sessions
      → (persist_pending e s next w).0 ≡ ok (updated t)
      → later.db ≡ (persist_pending e s next w).1.db
      → ((conditional_revoke e s later).0 ≢ ok true)
        × ((t' : GatewaySession) → (persist_pending e s next' later).0 ≢ ok (updated t'))
  persist_pending-once next next' w later unique others u run same =
      let past = rw (← same) at (persist_pending-spends next w unique others u run) in
      (refused_revoke later others past, λ t'. refused_persist next' later {t = t'} others past)

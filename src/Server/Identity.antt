-- ===== src/Server/Identity.antt =====
-- src/server.rs: whom the gateway lets in. The user of a session is followed through the lookups, the
-- refresh with its rotation of the tokens, and the touch.
use auth_mini_gateway.Prelude.{
  ℕ, ◌+◌, ◌≡◌, refl, true, ◌||◌, not, Option, none, if◌then◌else◌, arith, sym, List, ◌⊎◌, ◌∙◌, min,
  Bool-cases, inl, inr, and_parts, ◌==◌, ltb, leb,
}
use auth_mini_gateway.Prelude.Result.{Result, ok, err}
use auth_mini_gateway.Prelude.Text.{Str, str_eq, eq_of_str_eq}
use auth_mini_gateway.Util.{DateTime, Stamp, seconds, format_time}
use auth_mini_gateway.Db.{
  SessionRow, GatewaySession, same_state, ready, SessionLookup, active, CasResult, updated, current,
  TouchResult, not_due, advanced, lost, PendingTokens, DbError, is_active, row_to_session,
}
use auth_mini_gateway.Db.Sql.{version_test, pending_set, touch_test, touch_set}
use auth_mini_gateway.Db.Monad.{Env, World, pure, ◌>>=◌, now, connection, execute_sessions}
use auth_mini_gateway.Db.Monad.Keeps.{OthersKeep, Keeps-connection, Keeps-execute_sessions}
use auth_mini_gateway.Db.Monad.Runs.{bind-ok}
use auth_mini_gateway.Db.Rows.{AllSessions, update_where-All}
use auth_mini_gateway.Db.Store.{
  lookup_session, lookup_session_at, persist_pending, resolve_cas, cas_of, touch_ready, touch_row,
  touched,
}
use auth_mini_gateway.Db.Fence.{lookup_session_at-active}
use auth_mini_gateway.Db.Invariant.{
  lookup_session-Keeps, conditional_revoke-Keeps_on, finalize_pending-Keeps_on,
  persist_pending-Keeps_on,
}
use auth_mini_gateway.Server.Flights.{Laws, Known, KnownCas}

-- The rows of the id are those of the user.
abbrev pub UserIs : Str → Str → SessionRow → Type 0
UserIs id user r = r.id ≡ id → r.user_id ≡ user

abbrev pub SessionIs : Str → Str → GatewaySession → Type 0
SessionIs id user x = x.id ≡ id → x.user_id ≡ user

read_row :
    (decode : Str → Option (List Str)) (row : SessionRow) (x : GatewaySession)
    → row_to_session decode row ≡ ok x
    → (x.id ≡ row.id) × (x.user_id ≡ row.user_id)
unfolding row_to_session
read_row decode row x h = ground arith

known_of :
    {S : GatewaySession → Type 0} (r : Result DbError SessionLookup)
    → ((x : GatewaySession) → r ≡ ok (active x) → S x)
    → Known S r
known_of (ok (active x)) k = k x refl
known_of (ok SessionLookup.inactive) k = tt
known_of (err e) k = tt

known_cas_of :
    {S : GatewaySession → Type 0} (r : Result DbError CasResult)
    → ((x : GatewaySession) → r ≡ ok (updated x) → S x)
    → ((x : GatewaySession) → r ≡ ok (current x) → S x)
    → KnownCas S r
known_cas_of (ok (updated x)) k c = k x refl
known_cas_of (ok (current x)) k c = c x refl
known_cas_of (ok CasResult.inactive) k c = tt
known_cas_of (err e) k c = tt

module _ (e : Env) (id user : Str) (others : OthersKeep e (AllSessions (UserIs id user))) where
  found_at :
      (own : Str) (at : DateTime) (w : World) (x : GatewaySession)
      → AllSessions (UserIs id user) w.db
      → (lookup_session_at e own at w).0 ≡ ok (active x)
      → SessionIs id user x × (x.id ≡ own)
  found_at own at w x h run =
      let (row, is, same, read, _) =
        lookup_session_at-active e (UserIs id user) others own at w h run in
      let (ids, users) = read_row e.decode_amr row x read in
      ((λ q. users ∙ is (sym ids ∙ q)), ids ∙ same)

  pub found :
      (own : Str) (w : World) (x : GatewaySession)
      → AllSessions (UserIs id user) w.db
      → (lookup_session e own w).0 ≡ ok (active x)
      → SessionIs id user x × (x.id ≡ own)
  unfolding lookup_session now
  found own w x h run =
      let (at, _, rest, _) = bind-ok (now e) _ w run in found_at own at (now e w).1 x h rest

  cas_session :
      (n : ℕ) (l : SessionLookup) (x : GatewaySession)
      → ((cas_of n l ≡ updated x) ⊎ (cas_of n l ≡ current x))
      → l ≡ active x
  unfolding cas_of
  cas_session n (active y) x h = ground arith
  cas_session n SessionLookup.inactive x h = absurd (ground arith)

  resolved :
      (own : Str) (at : DateTime) (n : ℕ) (w : World) (x : GatewaySession) {r : CasResult}
      → AllSessions (UserIs id user) w.db
      → (resolve_cas e own at n w).0 ≡ ok r
      → ((r ≡ updated x) ⊎ (r ≡ current x))
      → SessionIs id user x
  unfolding resolve_cas pure
  resolved own at n w x h run which =
      let (l, looked, rest, _) = bind-ok (lookup_session_at e own at) _ w run in
      let same : l ≡ active x = cas_session n l x (ground arith) in
      (found_at own at w x h (rw same at looked)).0

  version_own :
      (x : GatewaySession) (at : Stamp) (r : SessionRow)
      → version_test x.id x.refresh_generation x.refresh_token x.identity_state at r ≡ true
      → r.id ≡ x.id
  version_own x at r t = eq_of_str_eq r.id x.id (and_parts (str_eq r.id x.id) _ t).0

  keeps_user :
      (x : GatewaySession) (next : PendingTokens) (at : Stamp) (r : SessionRow)
      → SessionIs id user x
      → next.user_id ≡ x.user_id
      → version_test x.id x.refresh_generation x.refresh_token x.identity_state at r ≡ true
      → UserIs id user (
          pending_set next.access_token next.refresh_token next.user_id
            (e.encode_amr next.amr)
            (format_time next.access_expires_at)
            at
            r)
  keeps_user x next at r k same t q = same ∙ k (sym (version_own x at r t) ∙ q)

  persisted_session :
      (x : GatewaySession) (next : PendingTokens) (w : World) (y : GatewaySession) {r : CasResult}
      → AllSessions (UserIs id user) w.db
      → SessionIs id user x
      → next.user_id ≡ x.user_id
      → (persist_pending e x next w).0 ≡ ok r
      → ((r ≡ updated y) ⊎ (r ≡ current y))
      → SessionIs id user y
  unfolding persist_pending now
  persisted_session x next w y h k same run which =
      let (_, _, timed, _) = bind-ok (connection e) _ w run in
      let (at, _, rest, _) = bind-ok (now e) _ (connection e w).1 timed in
      let v = (now e (connection e w).1).1 in
      let opened = (Keeps-connection e others).at w h in
      let test =
        version_test x.id x.refresh_generation x.refresh_token x.identity_state (format_time at) in
      let set =
        pending_set next.access_token next.refresh_token next.user_id (e.encode_amr next.amr)
          (format_time next.access_expires_at) (format_time at) in
      let (n, _, last, _) = bind-ok (execute_sessions e test set) _ v rest in
      let kept =
        (Keeps-execute_sessions e test set others (λ t a.
            update_where-All (UserIs id user) test set t.sessions
              (λ r c _. keeps_user x next (format_time at) r k same c) a)).at
          v opened in
      resolved x.id at n (execute_sessions e test set v).1 y kept last which

  pub laws : Laws e (AllSessions (UserIs id user)) (SessionIs id user) Unit
  laws = record {
    lookup = λ own. lookup_session-Keeps e (UserIs id user) others own;
    found = λ own w h. known_of (lookup_session e own w).0 (λ x q. (found own w x h q).0);
    revoke = λ _ x. conditional_revoke-Keeps_on e (UserIs id user) others x (λ at r h. h);
    finalize = λ x. finalize_pending-Keeps_on e (UserIs id user) others x none (λ at r h. h);
    persist = λ x next k same.
        persist_pending-Keeps_on e (UserIs id user) others x next
          (λ at r t h. keeps_user x next at r k same t);
    persisted = λ x next w h k same.
        known_cas_of (persist_pending e x next w).0
          (λ y q. persisted_session x next w y h k same q (inl refl))
          (λ y q. persisted_session x next w y h k same q (inr refl));
  }

  abbrev pub TouchedIs : Result DbError TouchResult → Type 0
  TouchedIs (ok (not_due y)) = y.user_id ≡ user
  TouchedIs (ok (advanced y)) = y.user_id ≡ user
  TouchedIs _ = Unit

  touched_of :
      (r : Result DbError TouchResult)
      → ((y : GatewaySession) → r ≡ ok (not_due y) → y.user_id ≡ user)
      → ((y : GatewaySession) → r ≡ ok (advanced y) → y.user_id ≡ user)
      → TouchedIs r
  touched_of (ok (not_due y)) k c = k y refl
  touched_of (ok (advanced y)) k c = c y refl
  touched_of (ok lost) k c = tt
  touched_of (err x) k c = tt

  -- How a touch that asked for its row ends.
  abbrev EndsTouch : GatewaySession → TouchResult → Type 0
  EndsTouch x r =
      (r ≡ lost) ⊎ ((y : GatewaySession) × (r ≡ advanced y) × SessionIs id user y × (y.id ≡ x.id))

  touched-ends :
      (x : GatewaySession) (at : DateTime) (v : World) (l : SessionLookup) (r : TouchResult)
      → AllSessions (UserIs id user) v.db
      → (lookup_session_at e x.id at v).0 ≡ ok l
      → touched e l ≡ r
      → EndsTouch x r
  unfolding touched
  touched-ends x at v (active y) r h looked last =
      let (known, ids) = found_at x.id at v y h looked in inr (y, sym last, known, ids)
  touched-ends x at v SessionLookup.inactive r h looked last = inl (sym last)

  touch-ends :
      (x : GatewaySession) (at : DateTime) (changed : ℕ) (v : World) {r : TouchResult}
      → AllSessions (UserIs id user) v.db
      → ((if changed == 1
            then (lookup_session_at e x.id at >>= λ l. pure (touched e l))
            else pure lost)
          v).0
        ≡ ok r
      → EndsTouch x r
  unfolding pure
  touch-ends x at changed v {r} h run = elim (Bool-cases (changed == 1)) [
    | inl t ↦
        let (l, looked, last, _) = bind-ok (lookup_session_at e x.id at) _ v (rw t at run) in
        touched-ends x at v l r h looked (ground arith)
    | inr f ↦ let k = rw f at run in inl (ground arith)
  ]

  touch_row-ends :
      (x : GatewaySession) (candidate at : DateTime) (w : World) {r : TouchResult}
      → AllSessions (UserIs id user) w.db
      → (touch_row e x candidate at w).0 ≡ ok r
      → EndsTouch x r
  unfolding touch_row
  touch_row-ends x candidate at w h run =
      let test =
        touch_test x.id x.refresh_generation (format_time x.idle_expires_at) (format_time at) in
      let set = touch_set (format_time candidate) (format_time at) in
      let (_, _, rest, _) = bind-ok (connection e) _ w run in
      let v = (connection e w).1 in
      let opened = (Keeps-connection e others).at w h in
      let (n, _, last, _) = bind-ok (execute_sessions e test set) _ v rest in
      let kept =
        (Keeps-execute_sessions e test set others
            (λ t a. update_where-All (UserIs id user) test set t.sessions (λ r c k. k) a)).at
          v opened in
      touch-ends x at n (execute_sessions e test set v).1 kept last

  touch_row-user :
      (x : GatewaySession) (candidate at : DateTime) (w : World)
      → AllSessions (UserIs id user) w.db
      → x.id ≡ id
      → x.user_id ≡ user
      → TouchedIs (touch_row e x candidate at w).0
  touch_row-user x candidate at w h same own =
      touched_of (touch_row e x candidate at w).0
        (λ y q. never y (touch_row-ends x candidate at w h q))
        (λ y q. kept y (touch_row-ends x candidate at w h q))
    where
      never : (y : GatewaySession) → EndsTouch x (not_due y) → y.user_id ≡ user
      never y (inl gone) = absurd (ground arith)
      never y (inr (z, r, _, _)) = absurd (ground arith)

      kept : (y : GatewaySession) → EndsTouch x (advanced y) → y.user_id ≡ user
      kept y (inl gone) = absurd (ground arith)
      kept y (inr (z, r, known, ids)) =
          let z_is_y : z ≡ y = ground arith in rw z_is_y at (known (ids ∙ same))

  pub touch-user :
      (x : GatewaySession) (idle touch : ℕ) (w : World)
      → AllSessions (UserIs id user) w.db
      → x.id ≡ id
      → x.user_id ≡ user
      → TouchedIs (touch_ready e x idle touch w).0
  unfolding touch_ready now pure ◌>>=◌
  touch-user x idle touch w h same own =
      elim (Bool-cases
        (not (same_state x.identity_state ready) || not (is_active x (e.clock w.step)))) [
          | inl t ↦ rw t tt
          | inr f ↦
              rw f (elim (Bool-cases (ltb (e.clock w.step) (x.last_touched_at + seconds touch))) [
                | inl t ↦ rw t own
                | inr g ↦
                    rw g
                      (elim (Bool-cases (
                        leb (min (e.clock w.step + seconds idle) x.absolute_expires_at)
                          x.idle_expires_at)) [
                            | inl t ↦ rw t own
                            | inr k ↦ rw k (touch_row-user x _ _ _ h same own)
                          ])
              ])
        ]

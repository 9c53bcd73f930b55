-- ===== src/Server/Fuel.antt =====
-- src/server.rs: how much fuel the recovery of a pending identity needs.
use auth_mini_gateway.Prelude.{
  ℕ, suc, ◌≡◌, refl, Bool, true, false, ◌||◌, not, Option, none, some, if◌then◌else◌, arith, ◌∙◌,
}
use auth_mini_gateway.Prelude.Result.{Result, ok, err}
use auth_mini_gateway.Prelude.Text.{Str, str_eq, str_eq_iff}
use auth_mini_gateway.Db.{
  SessionRow, GatewaySession, IdentityState, StateText, as_str, ready, pending, same_state, text_is,
  SessionLookup, active, DbError, Tables, row_to_session,
}
use auth_mini_gateway.Db.Monad.{World, M, now}
use auth_mini_gateway.Db.Monad.Keeps.{Keeps, OthersKeep}
use auth_mini_gateway.Db.Monad.Runs.{bind-ok}
use auth_mini_gateway.Db.Rows.{AllSessions}
use auth_mini_gateway.Db.Store.{lookup_session, finalize_pending}
use auth_mini_gateway.Db.Fence.{lookup_session_at-active}
use auth_mini_gateway.Db.Invariant.{lookup_session-Keeps, conditional_revoke-Keeps_on}
use auth_mini_gateway.AuthTypes.{RefreshError, VerifiedAccessToken, Jwks}
use auth_mini_gateway.Flight.{FlightOutcome, RejectedReason, audience_rejected}
use auth_mini_gateway.Server.{Surroundings, AuthMini, Gateway, G, give, ◌>>=◌, ask, call}
use auth_mini_gateway.Server.Refresh.{
  differs, not_revoked, revoked, revoke_found, revoke_expected_generation, recover_verified,
  recover_prepared, recover_pending_identity, finalized,
}

-- auth-mini answers, with an error perhaps, and no call of it panics.
pub record Answers (a : AuthMini) : Type 0 where
  pub prepares : (n : ℕ) → (r : Result RefreshError Jwks) × (a.prepare_refresh_verifier n ≡ some r)
  pub verifies :
      (n : ℕ) (token : Str) (jwks : Jwks)
      → (r : Result RefreshError VerifiedAccessToken) × (a.verify_refreshed_access n token jwks
          ≡ some r)

-- The row of the session is the version that was read.
abbrev pub StoredAs : GatewaySession → SessionRow → Type 0
StoredAs x r =
    r.id ≡ x.id
    → (r.refresh_generation ≡ x.refresh_generation)
      × (r.refresh_token ≡ x.refresh_token)
      × (text_is r.identity_state x.identity_state ≡ true)

-- From tables with `P`, the action returns, with `Q`, and leaves tables with `P`.
record Total {A : Type 0} (P : Tables → Type 0) (m : G A) (Q : A → Type 0) : Type 0 where
  run : (g : Gateway) → P g.world.db → P (m g).1.world.db × ((a : A) × ((m g).0 ≡ some a) × Q a)

abbrev Anything : {A : Type 0} → A → Type 0
Anything a = Unit

-- As the last action of a block, it only has to return.
abbrev Finishes : {A : Type 0} → (Tables → Type 0) → G A → Type 0
Finishes {A} P m = (g : Gateway) → P g.world.db → (a : A) × ((m g).0 ≡ some a)

module _ {A B : Type 0} {P : Tables → Type 0} {Q : A → Type 0} where
  Finishes-bind :
      (m : G A) (f : A → G B)
      → Total P m Q
      → ((a : A) → Q a → Finishes P (f a))
      → Finishes P (m >>= f)
  unfolding ◌>>=◌
  Finishes-bind m f t k g h = let (p, (a, e, q)) = t.run g h in rw e (k a q (m g).1 p)

module _ {A : Type 0} (P : Tables → Type 0) where
  Finishes-give : (a : A) → Finishes P (give a)
  unfolding give
  Finishes-give a g h = (a, refl)

  Finishes-if :
      (b : Bool) (m n : G A)
      → (b ≡ true → Finishes P m)
      → Finishes P n
      → Finishes P (if b then m else n)
  Finishes-if true m n km kn = km refl
  Finishes-if false m n km kn = kn

module _ {A : Type 0} {P : Tables → Type 0} where
  Total-ask :
      (m : M A) (Q : Result DbError A → Type 0)
      → Keeps P m
      → ((w : World) → P w.db → Q (m w).0)
      → Total P (ask m) Q
  unfolding ask
  Total-ask m Q keep q = record {
    run = λ g h. (keep.at g.world h, ((m g.world).0, refl, q g.world h));
  }

  Total-call :
      (answer : ℕ → Option A)
      → ((n : ℕ) → (a : A) × (answer n ≡ some a))
      → Total P (call answer) Anything
  unfolding call
  Total-call answer answers = record {
    run = λ g h. let (a, e) = answers g.world.step in (h, (a, e, tt));
  }

module _ (s : Surroundings) (x : GatewaySession)
    (others : OthersKeep s.store (AllSessions (StoredAs x))) where
  P : Tables → Type 0
  P = AllSessions (StoredAs x)

  NotOther : Result DbError SessionLookup → Type 0
  NotOther (ok (active y)) = differs y x ≡ false
  NotOther _ = Unit

  read_version :
      (row : SessionRow) (y : GatewaySession)
      → row_to_session s.store.decode_amr row ≡ ok y
      → (y.refresh_generation ≡ row.refresh_generation)
        × (y.refresh_token ≡ row.refresh_token)
        × (as_str y.identity_state ≡ row.identity_state)
  unfolding row_to_session
  read_version row y h = (ground arith, ground arith, ground arith)

  states_agree :
      (a b : IdentityState) (t : StateText)
      → as_str a ≡ t
      → text_is t b ≡ true
      → same_state a b ≡ true
  states_agree ready ready t e h = refl
  states_agree pending pending t e h = refl
  states_agree ready pending t e h = absurd (let k = rw (← e) at h in ground arith)
  states_agree pending ready t e h = absurd (let k = rw (← e) at h in ground arith)

  read_same :
      (row : SessionRow) (y : GatewaySession)
      → row_to_session s.store.decode_amr row ≡ ok y
      → StoredAs x row
      → row.id ≡ x.id
      → differs y x ≡ false
  unfolding differs
  read_same row y h stored same =
      let (g, t, st) = read_version row y h in
      let (g', t', st') = stored same in
      let state = states_agree y.identity_state x.identity_state row.identity_state st st' in
      let token = (str_eq_iff y.refresh_token x.refresh_token).1 (t ∙ t') in ground arith

  looked_up : (w : World) → P w.db → NotOther (lookup_session s.store x.id w).0
  unfolding lookup_session now P NotOther
  looked_up w h = of_result (lookup_session s.store x.id w).0 (λ y q.
      let (at, _, rest, _) = bind-ok (now s.store) _ w q in
      let (row, stored, same, read, _) =
        lookup_session_at-active s.store (StoredAs x) others x.id at (now s.store w).1 h rest in
      read_same row y read stored same)
    where
      of_result :
          (r : Result DbError SessionLookup)
          → ((y : GatewaySession) → r ≡ ok (active y) → differs y x ≡ false)
          → NotOther r
      of_result (ok (active y)) k = k y refl
      of_result (ok SessionLookup.inactive) k = tt
      of_result (err e) k = tt

  module _ (answers : Answers s.auth_mini) (fuel : ℕ) where
    recover : GatewaySession → G FlightOutcome
    recover = recover_pending_identity s fuel

    looked_up-Total : Total P (ask (lookup_session s.store x.id)) NotOther
    unfolding P
    looked_up-Total =
        Total-ask _ NotOther (lookup_session-Keeps s.store (StoredAs x) others x.id) looked_up

    not_revoked-Finishes :
        (r : Result DbError SessionLookup) → NotOther r → Finishes P (not_revoked s recover x r)
    unfolding not_revoked NotOther
    not_revoked-Finishes (ok (active y)) k =
        Finishes-if P (differs y x) _ _ (λ t. absurd (ground arith)) (Finishes-give P _)
    not_revoked-Finishes (ok SessionLookup.inactive) k = Finishes-give P _
    not_revoked-Finishes (err e) k = Finishes-give P _

    revoked-Finishes :
        (reason : RejectedReason) (r : Result DbError Bool)
        → Finishes P (revoked s recover x reason r)
    unfolding revoked
    revoked-Finishes reason (ok true) = Finishes-give P _
    revoked-Finishes reason (ok false) = Finishes-bind _ _ looked_up-Total not_revoked-Finishes
    revoked-Finishes reason (err e) = Finishes-give P _

    revoke_found-Finishes :
        (reason : RejectedReason) (r : Result DbError SessionLookup)
        → NotOther r
        → Finishes P (revoke_found s recover x reason r)
    unfolding revoke_found NotOther P
    revoke_found-Finishes reason (ok (active y)) k =
        Finishes-if P (differs y x) _ _ (λ t. absurd (ground arith))
          (Finishes-bind _ _
            (Total-ask _ Anything
              (conditional_revoke-Keeps_on s.store (StoredAs x) others x (λ at r h. h)) (λ w h. tt))
            (λ r _. revoked-Finishes reason r))
    revoke_found-Finishes reason (ok SessionLookup.inactive) k = Finishes-give P _
    revoke_found-Finishes reason (err e) k = Finishes-give P _

    recover_verified-Finishes :
        (r : Result RefreshError VerifiedAccessToken) → Finishes P (recover_verified s recover x r)
    unfolding recover_verified revoke_expected_generation
    recover_verified-Finishes (ok v) =
        Finishes-if P
          (not (str_eq v.auth_session_id x.auth_session_id) || not (str_eq v.user_id x.user_id)) _ _
          (λ _. Finishes-give P _) (finalizes)
      where
        finalizes : Finishes P (ask (finalize_pending s.store x none) >>= λ r. give (finalized x r))
        finalizes g h = unfold ask give ◌>>=◌ in (_, refl)
    recover_verified-Finishes (err RefreshError.audience_rejected) =
        Finishes-bind _ _ looked_up-Total (revoke_found-Finishes audience_rejected)
    recover_verified-Finishes (err (RefreshError.rejected reason)) = Finishes-give P _
    recover_verified-Finishes (err (RefreshError.temporary class)) = Finishes-give P _
    recover_verified-Finishes (err (RefreshError.indeterminate class)) = Finishes-give P _

    recover_prepared-Finishes :
        (r : Result RefreshError Jwks) → Finishes P (recover_prepared s recover x r)
    unfolding recover_prepared
    recover_prepared-Finishes (err e) = Finishes-give P _
    recover_prepared-Finishes (ok jwks) =
        Finishes-bind _ _ (Total-call _ (λ n. answers.verifies n x.access_token jwks))
          (λ r _. recover_verified-Finishes r)

    -- One unit of fuel is enough for the recovery of a pending identity: as long as no other connection
    -- stores another version of the session meanwhile, the recovery does not nest and returns an
    -- outcome, whatever auth-mini answers and whichever statements fail, provided that no call panics.
    pub recover_pending_identity-returns :
        (g : Gateway)
        → AllSessions (StoredAs x) g.world.db
        → (o : FlightOutcome) × ((recover_pending_identity s (suc fuel) x g).0 ≡ some o)
    unfolding recover_pending_identity P recover
    recover_pending_identity-returns g h =
        Finishes-bind {P = AllSessions (StoredAs x)} _ _ (Total-call _ answers.prepares)
          (λ r _. recover_prepared-Finishes r) g h

-- ===== src/Server/Flights.antt =====
-- src/server.rs: what a leader keeps of the tables, whatever auth-mini answers and whichever of its
-- calls panics.
use auth_mini_gateway.Prelude.{
  ℕ, zero, suc, ◌≡◌, refl, Bool, true, false, ◌||◌, not, Option, none, some, arith,
}
use auth_mini_gateway.Prelude.Result.{Result, ok, err}
use auth_mini_gateway.Prelude.Text.{Str, str_eq, eq_of_str_eq}
use auth_mini_gateway.Util.{DateTime}
use auth_mini_gateway.Config.{Config}
use auth_mini_gateway.Db.{
  GatewaySession, same_state, pending, SessionLookup, active, CasResult, updated, current,
  PendingTokens, DbError, Tables,
}
use auth_mini_gateway.Db.Monad.{Env, World}
use auth_mini_gateway.Db.Monad.Keeps.{Keeps}
use auth_mini_gateway.Db.Store.{
  lookup_session, conditional_revoke, finalize_pending, persist_pending,
}
use auth_mini_gateway.AuthTypes.{
  RefreshRejected, TokenResponse, RefreshError, VerifiedAccessToken, Jwks,
}
use auth_mini_gateway.Flight.{
  FlightLeader, FlightOutcome, RejectedReason, remote, audience_rejected,
}
use auth_mini_gateway.Server.{AuthMini, Surroundings, G, ask}
use auth_mini_gateway.Server.Refresh.{
  differs, session_needs_refresh, use_current_session_without_refresh, not_revoked, revoked,
  revoke_found, revoke_expected_generation, recover_verified, recover_prepared,
  recover_pending_identity, use_pending, use_current_session, persisted, store_tokens,
  refresh_verified, handle_refresh_rejection, refreshed_with, refresh_prepared,
  refresh_gateway_session, execute_at, execute_flight,
}
use auth_mini_gateway.Server.Triples.{
  Triple, Any, Triple-give, Triple-exhausted, Triple-if, Triple-bind, Triple-ask, Triple-call,
  Triple-on_flights, Triple-time,
}

abbrev pub Known : (GatewaySession → Type 0) → Result DbError SessionLookup → Type 0
Known S (ok (active x)) = S x
Known S _ = Unit

abbrev pub KnownCas : (GatewaySession → Type 0) → Result DbError CasResult → Type 0
KnownCas S (ok (updated x)) = S x
KnownCas S (ok (current x)) = S x
KnownCas S _ = Unit

-- The answers of auth-mini after which a leader revokes a session: they are the only ones that make
-- `Revokes` true.
pub record Causes (a : AuthMini) (Revokes : Type 0) : Type 0 where
  pub audience :
      (n : ℕ) (token : Str) (jwks : Jwks)
      → a.verify_refreshed_access n token jwks ≡ some (err RefreshError.audience_rejected)
      → Revokes
  pub rejection :
      (n : ℕ) (id token : Str) (reason : RefreshRejected)
      → a.refresh n id token ≡ some (err (RefreshError.rejected reason))
      → Revokes

-- What the operations of the store that a leader uses keep, on the sessions that they return.
pub record Laws (e : Env) (P : Tables → Type 0) (S : GatewaySession → Type 0) (Revokes : Type 0)
    : Type 0 where
  pub lookup : (id : Str) → Keeps P (lookup_session e id)
  pub found : (id : Str) (w : World) → P w.db → Known S (lookup_session e id w).0
  pub revoke : Revokes → (x : GatewaySession) → Keeps P (conditional_revoke e x)
  pub finalize : (x : GatewaySession) → Keeps P (finalize_pending e x none)
  pub persist :
      (x : GatewaySession) (next : PendingTokens)
      → S x
      → next.user_id ≡ x.user_id
      → Keeps P (persist_pending e x next)
  pub persisted :
      (x : GatewaySession) (next : PendingTokens) (w : World)
      → P w.db
      → S x
      → next.user_id ≡ x.user_id
      → KnownCas S (persist_pending e x next w).0

module _ (s : Surroundings) {P : Tables → Type 0} {S : GatewaySession → Type 0} {Revokes : Type 0}
    (causes : Causes s.auth_mini Revokes) (laws : Laws s.store P S Revokes) where
  pub Found-Triple : (id : Str) → Triple P (ask (lookup_session s.store id)) (Known S)
  Found-Triple id = Triple-ask _ (Known S) (laws.lookup id) (laws.found id)

  module _ (recover : GatewaySession → G FlightOutcome)
      (safe : (x : GatewaySession) → S x → Triple P (recover x) Any) where
    use_current-Triple :
        (x : GatewaySession) → S x → Triple P (use_current_session_without_refresh s recover x) Any
    unfolding use_current_session_without_refresh
    use_current-Triple x k =
        Triple-if (same_state x.identity_state pending) (recover x) _ (λ _. safe x k)
          (λ _. Triple-give _ tt)

    not_revoked-Triple :
        (x : GatewaySession) (r : Result DbError SessionLookup)
        → Known S r
        → Triple P (not_revoked s recover x r) Any
    unfolding not_revoked
    not_revoked-Triple x (ok (active f)) k =
        Triple-if (differs f x) _ _ (λ _. use_current-Triple f k) (λ _. Triple-give _ tt)
    not_revoked-Triple x (ok SessionLookup.inactive) k = Triple-give _ tt
    not_revoked-Triple x (err e) k = Triple-give _ tt

    revoked-Triple :
        (x : GatewaySession) (reason : RejectedReason) (r : Result DbError Bool)
        → Triple P (revoked s recover x reason r) Any
    unfolding revoked
    revoked-Triple x reason (ok true) = Triple-give _ tt
    revoked-Triple x reason (ok false) =
        Triple-bind _ _ (Found-Triple x.id) (λ r k. not_revoked-Triple x r k)
    revoked-Triple x reason (err e) = Triple-give _ tt

    revoke_found-Triple :
        (cause : Revokes) (x : GatewaySession) (reason : RejectedReason)
        (r : Result DbError SessionLookup)
        → Known S r
        → Triple P (revoke_found s recover x reason r) Any
    unfolding revoke_found
    revoke_found-Triple cause x reason (ok (active f)) k =
        Triple-if (differs f x) _ _ (λ _. use_current-Triple f k)
          (λ _.
            Triple-bind _ _ (Triple-ask _ Any (laws.revoke cause x) (λ w h. tt))
              (λ r _. revoked-Triple x reason r))
    revoke_found-Triple cause x reason (ok SessionLookup.inactive) k = Triple-give _ tt
    revoke_found-Triple cause x reason (err e) k = Triple-give _ tt

    revoke_expected-Triple :
        (cause : Revokes) (x : GatewaySession) (reason : RejectedReason)
        → Triple P (revoke_expected_generation s recover x reason) Any
    unfolding revoke_expected_generation
    revoke_expected-Triple cause x reason =
        Triple-bind _ _ (Found-Triple x.id) (λ r k. revoke_found-Triple cause x reason r k)

    recover_verified-Triple :
        (x : GatewaySession) (r : Result RefreshError VerifiedAccessToken)
        → (r ≡ err RefreshError.audience_rejected → Revokes)
        → Triple P (recover_verified s recover x r) Any
    unfolding recover_verified
    recover_verified-Triple x (ok v) cause =
        Triple-if
          (not (str_eq v.auth_session_id x.auth_session_id) || not (str_eq v.user_id x.user_id)) _ _
          (λ _. Triple-give _ tt)
          (λ _.
            Triple-bind _ _ (Triple-ask _ Any (laws.finalize x) (λ w h. tt))
              (λ r _. Triple-give _ tt))
    recover_verified-Triple x (err RefreshError.audience_rejected) cause =
        revoke_expected-Triple (cause refl) x audience_rejected
    recover_verified-Triple x (err (RefreshError.rejected reason)) cause = Triple-give _ tt
    recover_verified-Triple x (err (RefreshError.temporary class)) cause = Triple-give _ tt
    recover_verified-Triple x (err (RefreshError.indeterminate class)) cause = Triple-give _ tt

    recover_prepared-Triple :
        (x : GatewaySession) (r : Result RefreshError Jwks)
        → Triple P (recover_prepared s recover x r) Any
    unfolding recover_prepared
    recover_prepared-Triple x (err e) = Triple-give _ tt
    recover_prepared-Triple x (ok jwks) = Triple-bind _ _ (Triple-call _) (λ r (n, e).
        recover_verified-Triple x r (λ q. causes.audience n x.access_token jwks (rw q at e)))

  recover-Triple :
      (fuel : ℕ) (x : GatewaySession) → S x → Triple P (recover_pending_identity s fuel x) Any
  unfolding recover_pending_identity
  recover-Triple zero x k = Triple-exhausted
  recover-Triple (suc fuel) x k =
      Triple-bind _ _ (Triple-call _)
        (λ r _. recover_prepared-Triple (recover_pending_identity s fuel) (recover-Triple fuel) x r)

  module _ (config : Config) (fuel : ℕ) where
    revoke-Triple :
        (cause : Revokes) (x : GatewaySession) (reason : RejectedReason)
        → Triple P (revoke_expected_generation s (recover_pending_identity s fuel) x reason) Any
    revoke-Triple cause x reason =
        revoke_expected-Triple (recover_pending_identity s fuel) (recover-Triple fuel) cause x
          reason

    use_current_session-Triple :
        (x : GatewaySession) → S x → Triple P (use_current_session s config fuel x) Any
    unfolding use_current_session use_pending
    use_current_session-Triple x k =
        Triple-if (same_state x.identity_state pending) _ _
          (λ _. Triple-bind _ _ (Triple-time s.store) (λ at _.
            Triple-if (session_needs_refresh x config at) _ _ (λ _. Triple-give _ tt)
              (λ _. recover-Triple fuel x k)))
          (λ _. Triple-give _ tt)

    persisted-Triple :
        (x : GatewaySession) (r : Result DbError CasResult)
        → KnownCas S r
        → Triple P (persisted s config fuel x r) Any
    unfolding persisted
    persisted-Triple x (ok (updated y)) k = recover-Triple fuel y k
    persisted-Triple x (ok (current y)) k =
        Triple-if (differs y x) _ _ (λ _. use_current_session-Triple y k) (λ _. Triple-give _ tt)
    persisted-Triple x (ok CasResult.inactive) k = Triple-give _ tt
    persisted-Triple x (err e) k = Triple-give _ tt

    store_tokens-Triple :
        (l : FlightLeader) (x : GatewaySession) (t : TokenResponse) (v : VerifiedAccessToken)
        (o : Option DateTime)
        → S x
        → v.user_id ≡ x.user_id
        → Triple P (store_tokens s config fuel l x t v o) Any
    unfolding store_tokens
    store_tokens-Triple l x t v none k q = Triple-give _ tt
    store_tokens-Triple l x t v (some at) k q = Triple-bind _ _ (Triple-on_flights _) (λ _ _.
        Triple-bind _ _
          (Triple-ask _ (KnownCas S) (laws.persist x _ k q) (λ w h. laws.persisted x _ w h k q))
          (λ r known. persisted-Triple x r known))

    refresh_verified-Triple :
        (l : FlightLeader) (x : GatewaySession) (t : TokenResponse)
        (r : Result RefreshError VerifiedAccessToken)
        → (r ≡ err RefreshError.audience_rejected → Revokes)
        → S x
        → Triple P (refresh_verified s config fuel l x t r) Any
    unfolding refresh_verified
    refresh_verified-Triple l x t (ok v) cause k =
        Triple-if
          (not (str_eq v.auth_session_id x.auth_session_id) || not (str_eq v.user_id x.user_id)) _ _
          (λ _. Triple-give _ tt)
          (λ same.
            store_tokens-Triple l x t v (s.crates.timestamp v.exp) k
              (eq_of_str_eq v.user_id x.user_id (ground arith)))
    refresh_verified-Triple l x t (err RefreshError.audience_rejected) cause k =
        revoke-Triple (cause refl) x audience_rejected
    refresh_verified-Triple l x t (err (RefreshError.rejected reason)) cause k = Triple-give _ tt
    refresh_verified-Triple l x t (err (RefreshError.temporary class)) cause k = Triple-give _ tt
    refresh_verified-Triple l x t (err (RefreshError.indeterminate class)) cause k =
        Triple-give _ tt

    refreshed_with-Triple :
        (l : FlightLeader) (x : GatewaySession) (jwks : Jwks)
        (r : Result RefreshError TokenResponse)
        → ((reason : RefreshRejected) → r ≡ err (RefreshError.rejected reason) → Revokes)
        → S x
        → Triple P (refreshed_with s config fuel l x jwks r) Any
    unfolding refreshed_with handle_refresh_rejection
    refreshed_with-Triple l x jwks (ok t) cause k =
        Triple-if (not (str_eq t.session_id x.auth_session_id)) _ _ (λ _. Triple-give _ tt)
          (λ _. Triple-bind _ _ (Triple-call _) (λ r (n, e).
            refresh_verified-Triple l x t r (λ q. causes.audience n t.access_token jwks (rw q at e))
              k))
    refreshed_with-Triple l x jwks (err (RefreshError.rejected reason)) cause k =
        revoke-Triple (cause reason refl) x (remote reason)
    refreshed_with-Triple l x jwks (err RefreshError.audience_rejected) cause k = Triple-give _ tt
    refreshed_with-Triple l x jwks (err (RefreshError.temporary class)) cause k = Triple-give _ tt
    refreshed_with-Triple l x jwks (err (RefreshError.indeterminate class)) cause k =
        Triple-give _ tt

    refresh_prepared-Triple :
        (l : FlightLeader) (x : GatewaySession) (r : Result RefreshError Jwks)
        → S x
        → Triple P (refresh_prepared s config fuel l x r) Any
    unfolding refresh_prepared
    refresh_prepared-Triple l x (err e) k = Triple-give _ tt
    refresh_prepared-Triple l x (ok jwks) k = Triple-bind _ _ (Triple-call _) (λ r (n, e).
        refreshed_with-Triple l x jwks r
          (λ reason q. causes.rejection n x.auth_session_id x.refresh_token reason (rw q at e)) k)

    pub execute_flight-Triple :
        (l : FlightLeader) (x : GatewaySession)
        → S x
        → Triple P (execute_flight s config fuel l x) Any
    unfolding execute_flight execute_at refresh_gateway_session
    execute_flight-Triple l x k = Triple-bind _ _ (Triple-time s.store) (λ at _.
        Triple-if (session_needs_refresh x config at) _ _
          (λ _. Triple-bind _ _ (Triple-call _) (λ r _. refresh_prepared-Triple l x r k))
          (λ _.
            Triple-if (same_state x.identity_state pending) _ _ (λ _. recover-Triple fuel x k)
              (λ _. Triple-give _ tt)))

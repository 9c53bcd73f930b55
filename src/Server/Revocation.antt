-- ===== src/Server/Revocation.antt =====
-- src/server.rs: for which answers of auth-mini a refresh revokes a session.
use auth_mini_gateway.Prelude.{ℕ, ◌≡◌, ◌≢◌, true, none, some}
use auth_mini_gateway.Prelude.Result.{Result, ok, err}
use auth_mini_gateway.Prelude.Text.{Str}
use auth_mini_gateway.Config.{Config}
use auth_mini_gateway.Db.{
  SessionRow, GatewaySession, SessionLookup, active, CasResult, updated, current, DbError,
}
use auth_mini_gateway.Db.Sql.{is_null}
use auth_mini_gateway.Db.Monad.{Env}
use auth_mini_gateway.Db.Monad.Keeps.{OthersKeep}
use auth_mini_gateway.Db.Rows.{AllSessions}
use auth_mini_gateway.Db.Store.{lookup_session, persist_pending}
use auth_mini_gateway.Db.Invariant.{
  lookup_session-Keeps, finalize_pending-Keeps_on, persist_pending-Keeps_on,
}
use auth_mini_gateway.AuthTypes.{RefreshRejected, RefreshError, Jwks}
use auth_mini_gateway.Flight.{FlightLeader}
use auth_mini_gateway.Server.{Surroundings, AuthMini, Gateway}
use auth_mini_gateway.Server.Refresh.{execute_flight}
use auth_mini_gateway.Server.Triples.{Any}
use auth_mini_gateway.Server.Flights.{Laws, Known, KnownCas, execute_flight-Triple}

-- The rows of the id are not revoked.
abbrev pub IsOpen : Str → SessionRow → Type 0
IsOpen id r = r.id ≡ id → is_null r.revoked_at ≡ true

-- No answer of auth-mini rejects a refresh, and no token that it signed has its audience rejected.
pub record NeverRejects (a : AuthMini) : Type 0 where
  pub audience :
      (n : ℕ) (token : Str) (jwks : Jwks)
      → a.verify_refreshed_access n token jwks ≢ some (err RefreshError.audience_rejected)
  pub rejection :
      (n : ℕ) (id token : Str) (reason : RefreshRejected)
      → a.refresh n id token ≢ some (err (RefreshError.rejected reason))

found_known : (r : Result DbError SessionLookup) → Known Any r
found_known (ok (active x)) = tt
found_known (ok SessionLookup.inactive) = tt
found_known (err e) = tt

cas_known : (r : Result DbError CasResult) → KnownCas Any r
cas_known (ok (updated x)) = tt
cas_known (ok (current x)) = tt
cas_known (ok CasResult.inactive) = tt
cas_known (err e) = tt

store_laws :
    (e : Env) (id : Str)
    → OthersKeep e (AllSessions (IsOpen id))
    → Laws e (AllSessions (IsOpen id)) Any ⊥
store_laws e id others = record {
  lookup = λ own. lookup_session-Keeps e (IsOpen id) others own;
  found = λ own w h. found_known (lookup_session e own w).0;
  revoke = λ never x. absurd never;
  finalize = λ x. finalize_pending-Keeps_on e (IsOpen id) others x none (λ at r h. h);
  persist = λ x next k same. persist_pending-Keeps_on e (IsOpen id) others x next (λ at r t h. h);
  persisted = λ x next w h k same. cas_known (persist_pending e x next w).0;
}

-- A refresh revokes no session as long as auth-mini does not reject it and no token of a refresh has its
-- audience rejected: timeouts, transport errors, rate limits, server errors, broken answers, tokens of
-- another user, failing statements and panics all leave the sessions of the id open. They are open
-- before, and the other connections keep them open.
pub execute_flight-IsOpen :
    (s : Surroundings) (config : Config) (fuel : ℕ) (l : FlightLeader) (x : GatewaySession)
    (id : Str) (g : Gateway)
    → NeverRejects s.auth_mini
    → OthersKeep s.store (AllSessions (IsOpen id))
    → AllSessions (IsOpen id) g.world.db
    → AllSessions (IsOpen id) (execute_flight s config fuel l x g).1.world.db
execute_flight-IsOpen s config fuel l x id g never others h =
    ((execute_flight-Triple s (record { audience = never.audience; rejection = never.rejection })
        (store_laws s.store id others) config fuel l x tt).at
      g h).0

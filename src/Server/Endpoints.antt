-- ===== src/Server/Endpoints.antt =====
-- src/server.rs: the check endpoint and the logout, from the request to the response.
use auth_mini_gateway.Prelude.{
  ℕ, ◌≡◌, ◌≢◌, refl, Bool, true, false, Option, none, some, arith, Option-cases, Bool-cases, inl,
  inr,
}
use auth_mini_gateway.Prelude.Result.{Result, ok, err}
use auth_mini_gateway.Prelude.Text.{Str, codes, eq_ignore_case}
use auth_mini_gateway.Util.{DateTime}
use auth_mini_gateway.Config.{Config}
use auth_mini_gateway.Policy.{IsListed}
use auth_mini_gateway.Http.{
  Request, Response, header, find_header, is_safe_header_value, is_safe_header_name, with_header,
  with_cookie, empty, text, new_response,
}
use auth_mini_gateway.Cookies.{session_cookie, read_signed_cookie}
use auth_mini_gateway.Db.{GatewaySession, active, DbError}
use auth_mini_gateway.Db.Monad.{World}
use auth_mini_gateway.Db.Monad.Keeps.{OthersKeep}
use auth_mini_gateway.Db.Rows.{AllSessions}
use auth_mini_gateway.Db.Store.{lookup_session_at, logout_access_snapshot, revoke_session}
use auth_mini_gateway.Db.Fence.{IsFenced, revoke_session-final}
use auth_mini_gateway.Server.{Surroundings, Gateway, G, give, ◌>>=◌, bind_option, ask, call}
use auth_mini_gateway.Server.Decision.{
  AuthDecision, allowed, unauthenticated, forbidden, unavailable, auth_decision, check_response,
  renewed, no_store, auth_unavailable, handle_auth_check,
}
use auth_mini_gateway.Server.Identity.{UserIs}
use auth_mini_gateway.Server.Admission.{auth_decision-admits}
use auth_mini_gateway.Server.Login.{
  handle_logout, logout_session, logout_revoked, remote_logout, snapshot_of,
}

module _ {A B : Type 0} where
  bind_option-some :
      (o : Option A) (g : Gateway) (f : A → G B) {b : B}
      → (bind_option o g f).0 ≡ some b
      → (a : A) × (o ≡ some a) × ((f a g).0 ≡ some b) × (bind_option o g f ≡ f a g)
  bind_option-some (some a) g f h = (a, refl, h, refl)
  bind_option-some none g f h = absurd (ground arith)

  bind-some :
      (m : G A) (f : A → G B) (g : Gateway) {b : B}
      → ((m >>= f) g).0 ≡ some b
      → (a : A) × ((m g).0 ≡ some a) × ((f a (m g).1).0 ≡ some b) × ((m >>= f) g ≡ f a (m g).1)
  unfolding ◌>>=◌
  bind-some m f g h = bind_option-some (m g).0 (m g).1 f h

abbrev user_header : Str
user_header = codes "X-Auth-Mini-User-Id"

abbrev is_admission : AuthDecision → Bool
is_admission (allowed name session_renewal) = true
is_admission _ = false

module _ (s : Surroundings) (config : Config) where
  -- The first header is the user's, whatever headers follow.
  renewed-header :
      (name : Str) (session_renewal : Option Str)
      → is_safe_header_value name ≡ true
      → (find_header user_header
            (no_store
              (renewed s config (with_header (empty 204) user_header name) session_renewal)).headers
          ≡ some name)
  unfolding no_store renewed with_header with_cookie empty new_response find_header
      is_safe_header_name is_safe_header_value eq_ignore_case
  renewed-header name none clean = rw clean refl
  renewed-header name (some cookie) clean = elim (Bool-cases (is_safe_header_value cookie)) [
    | inl t ↦ rw (clean, t) refl
    | inr f ↦ rw (clean, f) refl
  ]

  status_admits :
      (d : AuthDecision)
      → (check_response s config d).status ≡ 204
      → (name : Str) × (session_renewal : Option Str) × (d ≡ allowed name session_renewal)
  unfolding check_response no_store auth_unavailable with_header with_cookie empty text new_response
  status_admits (allowed name session_renewal) h = (name, session_renewal, refl)
  status_admits (unauthenticated cookie) h = absurd (ground arith)
  status_admits forbidden h = absurd (ground arith)
  status_admits unavailable h = absurd (ground arith)

  -- The check endpoint answers 204 only if the request's session cookie is there and carries an id under
  -- the gateway's signature, and the owner of the session with that id is on the allowlist; then the
  -- header that the proxy in front passes on is exactly the owner's id. This holds whatever auth-mini
  -- answers, whichever calls fail or panic, and whatever the other requests do in between. Each session
  -- id has one owner in the database, and no other connection gives a session to another user.
  pub handle_auth_check-admits :
      (owner : Str → Str) (fuel : ℕ) (request : Request) (g : Gateway) (r : Response)
      → ((id : Str) → OthersKeep s.store (AllSessions (UserIs id (owner id))))
      → ((id : Str) → AllSessions (UserIs id (owner id)) g.world.db)
      → (handle_auth_check s config fuel request g).0 ≡ some r
      → r.status ≡ 204
      → (id : Str) × (read_signed_cookie s.crates
            (header request (codes "Cookie"))
            session_cookie
            config.cookie_secret
          ≡ some id)
        × IsListed (owner id) config.allow_user_ids
        × (find_header (codes "X-Auth-Mini-User-Id") r.headers ≡ some (owner id))
  unfolding handle_auth_check give
  handle_auth_check-admits owner fuel request g r others h run status =
      let (d, decided, last, _) =
        bind-some (auth_decision s config fuel (header request (codes "Cookie"))) _ g run in
      let made : check_response s config d ≡ r = ground arith in
      let (name, session_renewal, q) = status_admits d (rw made status) in
      let (id, signed, own, listed, clean) =
        auth_decision-admits s config owner fuel (header request (codes "Cookie")) g name
          session_renewal others h (rw q at decided) in
      (id, signed, listed, rw (← made, q, own) (headers (owner id) session_renewal clean))
    where
      headers :
          (name : Str) (session_renewal : Option Str)
          → is_safe_header_value name ≡ true
          → (find_header user_header
                (check_response s config (allowed name session_renewal)).headers
              ≡ some name)
      headers name session_renewal clean =
          unfold check_response in renewed-header name session_renewal clean

  remote_logout-db :
      (snapshot : Option Str) (g : Gateway)
      → (remote_logout s config snapshot g).1.world.db ≡ g.world.db
  unfolding remote_logout give call ◌>>=◌
  remote_logout-db none g = refl
  remote_logout-db (some token) g = elim (Option-cases (s.auth_mini.logout g.world.step token)) [
    | inl e ↦ rw e refl
    | inr (r, e) ↦ rw e refl
  ]

  revoked_before :
      (request : Request) (id : Str) (g : Gateway) (r : Response)
      → (logout_session s config request (some id) g).0 ≡ some (ok r)
      → (w : World) × (b : Bool) × ((revoke_session s.store id w).0 ≡ ok b)
        × ((logout_session s config request (some id) g).1.world.db
            ≡ (revoke_session s.store id w).1.db)
  unfolding logout_session ask ◌>>=◌
  revoked_before request id g r run =
      let w = (logout_access_snapshot s.store id g.world).1 in
      after (snapshot_of s config (logout_access_snapshot s.store id g.world).0) w
        (revoke_session s.store id w).0 refl run
    where
      after :
          (snapshot : Option Str) (w : World) (o : Result DbError Bool)
          → (revoke_session s.store id w).0 ≡ o
          → (logout_revoked s config request snapshot o
              (record g { world = (revoke_session s.store id w).1 })).0
            ≡ some (ok r)
          → (v : World) × (b : Bool) × ((revoke_session s.store id v).0 ≡ ok b)
            × ((logout_revoked s config request snapshot o
                  (record g { world = (revoke_session s.store id w).1 })).1.world.db
                ≡ (revoke_session s.store id v).1.db)
      after snapshot w (ok b) e h =
          unfold logout_revoked in
          let v = record g { world = (revoke_session s.store id w).1 } in
          let (_, _, _, same) = bind-some (remote_logout s config snapshot) _ v h in
          (w, b, e, unfold give in rw same (remote_logout-db snapshot v))
      after snapshot w (err x) e h = unfold logout_revoked give in absurd (ground arith)

  -- Once a logout has answered, no lookup returns the session of the cookie as active, whether or not
  -- auth-mini was told, as long as the other connections do not undo a revocation.
  pub handle_logout-final :
      (request : Request) (id : Str) (g : Gateway) (r : Response) (later : World)
      → OthersKeep s.store (AllSessions (IsFenced id))
      → read_signed_cookie s.crates
          (header request (codes "Cookie"))
          session_cookie
          config.cookie_secret
        ≡ some id
      → (handle_logout s config request g).0 ≡ some (ok r)
      → later.db ≡ (handle_logout s config request g).1.world.db
      → (at : DateTime) (x : GatewaySession)
      → (lookup_session_at s.store id at later).0 ≢ ok (active x)
  unfolding handle_logout
  handle_logout-final request id g r later others signed run same at x =
      let (w, b, done, d) = revoked_before request id g r (rw signed at run) in
      revoke_session-final s.store id w later others done (rw (same, signed) d) at x

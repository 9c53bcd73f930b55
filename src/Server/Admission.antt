-- ===== src/Server/Admission.antt =====
-- src/server.rs: `auth_decision`, from the cookie to the decision.
use auth_mini_gateway.Prelude.{
  ℕ, zero, suc, ◌≡◌, refl, true, not, Option, some, arith, Option-cases, inl, inr,
}
use auth_mini_gateway.Prelude.Result.{Result, ok, err}
use auth_mini_gateway.Prelude.Text.{Str}
use auth_mini_gateway.Config.{Config}
use auth_mini_gateway.Policy.{PolicyDecision, allow, deny, evaluate, evaluate_iff, IsListed}
use auth_mini_gateway.Http.{is_safe_header_value}
use auth_mini_gateway.Cookies.{session_cookie, read_signed_cookie}
use auth_mini_gateway.Db.{
  GatewaySession, same_state, pending, SessionLookup, active, TouchResult, not_due, advanced, lost,
  DbError, Tables,
}
use auth_mini_gateway.Db.Monad.Keeps.{OthersKeep}
use auth_mini_gateway.Db.Rows.{AllSessions}
use auth_mini_gateway.Db.Store.{lookup_session}
use auth_mini_gateway.Db.Invariant.{lookup_session-Keeps, touch_ready-Keeps}
use auth_mini_gateway.Flight.{
  FlightLeader, FlightOutcome, ready, rejected, temporary, indeterminate, Acquire, leader, joined,
  wait_for_close,
}
use auth_mini_gateway.Server.{Surroundings, Gateway, G, ask, give}
use auth_mini_gateway.Server.Refresh.{session_needs_refresh}
use auth_mini_gateway.Server.Decision.{
  AuthDecision, allowed, evaluate_session_policy, identity_headers_are_safe, or_aborted, sign_out,
  acquire_flight, complete_flight, wait_outcome, wait_closed, touched, after_flight, with_flight,
  admit, admit_decided, decide_at, decide_found, decision_loop, decide_cookie, auth_decision,
}
use auth_mini_gateway.Server.Triples.{
  Triple, Any, Triple-give, Triple-if, Triple-bind, Triple-ask, Triple-catch_unwind, Triple-time,
}
use auth_mini_gateway.Server.Flights.{Causes, execute_flight-Triple}
use auth_mini_gateway.Server.Identity.{UserIs, laws, found, TouchedIs, touch-user}

-- Whom a decision lets in: the user, who is on the allowlist and whose id is a safe header value.
abbrev pub Admits : Str → Config → AuthDecision → Type 0
Admits user config (allowed name session_renewal) =
    (name ≡ user) × IsListed user config.allow_user_ids × (is_safe_header_value user ≡ true)
Admits user config _ = Unit

module _ (s : Surroundings) (config : Config) (id user : Str)
    (others : OthersKeep s.store (AllSessions (UserIs id user))) where
  any_cause : Causes s.auth_mini Unit
  any_cause = record { audience = λ n t j e. tt; rejection = λ n i t r e. tt }

  P : Tables → Type 0
  P = AllSessions (UserIs id user)

  Found : Result DbError SessionLookup → Type 0
  Found (ok (active x)) = (x.id ≡ id) × (x.user_id ≡ user)
  Found _ = Unit

  Found-Triple : Triple P (ask (lookup_session s.store id)) Found
  unfolding P Found
  Found-Triple =
      Triple-ask _ Found (lookup_session-Keeps s.store (UserIs id user) others id) (λ w h.
        of_result (lookup_session s.store id w).0
          (λ x q. let (known, own) = found s.store id user others id w x h q in (own, known own)))
    where
      of_result :
          (r : Result DbError SessionLookup)
          → ((x : GatewaySession) → r ≡ ok (active x) → (x.id ≡ id) × (x.user_id ≡ user))
          → Found r
      of_result (ok (active x)) k = k x refl
      of_result (ok SessionLookup.inactive) k = tt
      of_result (err e) k = tt

  acquire-Triple : (x : GatewaySession) → Triple P (acquire_flight s config x) Any
  unfolding acquire_flight
  acquire-Triple x = record { at = λ g h. (h, tt) }

  complete-Triple :
      (l : FlightLeader) (o : FlightOutcome) → Triple P (complete_flight s config l o) Any
  unfolding complete_flight
  complete-Triple l o = record { at = λ g h. (h, tt) }

  wait_outcome-Triple : (f : ℕ) → Triple P (wait_outcome s config f) Any
  unfolding wait_outcome
  wait_outcome-Triple f = record { at = λ g h. (h, tt) }

  wait_closed-Triple : (f : ℕ) → Triple P (wait_closed s config f) Any
  unfolding wait_closed
  wait_closed-Triple f = record { at = λ g h. (h, tt) }

  module _ (fuel : ℕ) (again : G AuthDecision) (safe : Triple P again (Admits user config)) where
    after_flight-Triple :
        (o : FlightOutcome) → Triple P (after_flight s config fuel again o) (Admits user config)
    unfolding after_flight sign_out
    after_flight-Triple (ready generation) = safe
    after_flight-Triple (rejected reason) = Triple-give _ tt
    after_flight-Triple (temporary class) = Triple-give _ tt
    after_flight-Triple (indeterminate class) = Triple-give _ tt

    with_flight-Triple :
        (x : GatewaySession) (a : Acquire)
        → x.user_id ≡ user
        → Triple P (with_flight s config fuel again x a) (Admits user config)
    unfolding with_flight P
    with_flight-Triple x (leader l) own =
        Triple-bind _ _
          (Triple-catch_unwind _ (
            execute_flight-Triple s any_cause (laws s.store id user others) config fuel l x
              (λ _. own)))
          (λ ran _.
            Triple-bind _ _ (complete-Triple l (or_aborted ran)) (λ o _. after_flight-Triple o))
    with_flight-Triple x (joined f) own =
        Triple-bind _ _ (wait_outcome-Triple f) (λ o _. after_flight-Triple o)
    with_flight-Triple x (wait_for_close f) own =
        Triple-bind _ _ (wait_closed-Triple f) (λ _ _. safe)

    touched-Triple :
        (r : Result DbError TouchResult)
        → TouchedIs s.store id user others r
        → IsListed user config.allow_user_ids
        → is_safe_header_value user ≡ true
        → Triple P (touched s config fuel again r) (Admits user config)
    unfolding touched
    touched-Triple (ok (not_due y)) own listed clean = Triple-give _ (own, listed, clean)
    touched-Triple (ok (advanced y)) own listed clean = Triple-give _ (own, listed, clean)
    touched-Triple (ok lost) own listed clean = safe
    touched-Triple (err e) own listed clean = Triple-give _ tt

    admit_decided-Triple :
        (x : GatewaySession) (d : PolicyDecision)
        → x.id ≡ id
        → x.user_id ≡ user
        → (d ≡ allow → IsListed user config.allow_user_ids)
        → Triple P (admit_decided s config fuel again x d) (Admits user config)
    unfolding admit_decided identity_headers_are_safe P
    admit_decided-Triple x deny same own listed = Triple-give _ tt
    admit_decided-Triple x allow same own listed =
        Triple-if (not (is_safe_header_value x.user_id)) _ _ (λ _. Triple-give _ tt)
          (λ clean.
            Triple-bind _ _
              (Triple-ask _ (TouchedIs s.store id user others)
                (touch_ready-Keeps s.store (UserIs id user) others x config.session_ttl_seconds
                  config.session_touch_interval_seconds (λ at r t h. h))
                (λ w h.
                  touch-user s.store id user others x config.session_ttl_seconds
                    config.session_touch_interval_seconds w h same own))
              (λ r known. touched-Triple r known (listed refl) (rw (← own) (ground arith))))

    admit-Triple :
        (x : GatewaySession)
        → x.id ≡ id
        → x.user_id ≡ user
        → Triple P (admit s config fuel again x) (Admits user config)
    unfolding admit evaluate_session_policy
    admit-Triple x same own =
        admit_decided-Triple x (evaluate x.user_id config) same own
          (λ d. rw own at ((evaluate_iff x.user_id config).0 d))

    decide_found-Triple :
        (r : Result DbError SessionLookup)
        → Found r
        → Triple P (decide_found s config fuel again r) (Admits user config)
    unfolding decide_found decide_at Found
    decide_found-Triple (ok (active x)) (same, own) =
        Triple-if (same_state x.identity_state pending) _ _
          (λ _. Triple-bind _ _ (acquire-Triple x) (λ a _. with_flight-Triple x a own))
          (λ _. Triple-bind _ _ (Triple-time s.store) (λ at _.
            Triple-if (session_needs_refresh x config at) _ _
              (λ _. Triple-bind _ _ (acquire-Triple x) (λ a _. with_flight-Triple x a own))
              (λ _. admit-Triple x same own)))
    decide_found-Triple (ok SessionLookup.inactive) k = unfold sign_out in Triple-give _ tt
    decide_found-Triple (err e) k = Triple-give _ tt

  decision_loop-Triple :
      (fuel rounds : ℕ) → Triple P (decision_loop s config fuel rounds id) (Admits user config)
  unfolding decision_loop
  decision_loop-Triple fuel zero = Triple-give _ tt
  decision_loop-Triple fuel (suc rounds) = Triple-bind _ _ Found-Triple (λ r k.
      decide_found-Triple fuel (decision_loop s config fuel rounds id)
        (decision_loop-Triple fuel rounds) r k)

  decision_loop-admits :
      (fuel : ℕ) (g : Gateway) (name : Str) (session_renewal : Option Str)
      → AllSessions (UserIs id user) g.world.db
      → (decision_loop s config fuel 8 id g).0 ≡ some (allowed name session_renewal)
      → (name ≡ user) × IsListed user config.allow_user_ids × (is_safe_header_value user ≡ true)
  unfolding P
  decision_loop-admits fuel g name session_renewal h run =
      rw run at ((decision_loop-Triple fuel 8).at g h).1

-- A request is allowed only if its session cookie is there and carries an id under the gateway's
-- signature, and only as the owner of the session with that id, who is on the allowlist at the time of
-- the request and whose id can be sent in a header. This holds whatever auth-mini answers, whichever
-- calls fail or panic, and whatever the other requests do in between. Each session id has one owner in
-- the database, and no other connection gives a session to another user.
pub auth_decision-admits :
    (s : Surroundings) (config : Config) (owner : Str → Str) (fuel : ℕ) (cookie_header : Option Str)
    (g : Gateway) (name : Str) (session_renewal : Option Str)
    → ((id : Str) → OthersKeep s.store (AllSessions (UserIs id (owner id))))
    → ((id : Str) → AllSessions (UserIs id (owner id)) g.world.db)
    → (auth_decision s config fuel cookie_header g).0 ≡ some (allowed name session_renewal)
    → (id : Str) × (read_signed_cookie s.crates cookie_header session_cookie config.cookie_secret
        ≡ some id)
      × (name ≡ owner id)
      × IsListed (owner id) config.allow_user_ids
      × (is_safe_header_value (owner id) ≡ true)
unfolding auth_decision decide_cookie
auth_decision-admits s config owner fuel cookie_header g name session_renewal others h run =
    elim (Option-cases
      (read_signed_cookie s.crates cookie_header session_cookie config.cookie_secret)) [
        | inl e ↦ absurd (unfold give in ground (arith, rw e at run))
        | inr (id, e) ↦
            let (own, listed, clean) =
              decision_loop-admits s config id (owner id) (others id) fuel g name session_renewal
                (h id) (rw e at run) in
            (id, e, own, listed, clean)
      ]

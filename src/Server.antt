-- ===== src/Server.antt =====
-- src/server.rs: what the request handlers share. They run in a state that holds the world of the store
-- and the coordinator of the flights. auth-mini is asked over the network, one call after another; its
-- answers are given by the number of the call, and a call may panic (`none`), which ends the handler
-- unless it is caught.
pub mod Refresh
pub mod Decision
pub mod Login
pub mod Triples
pub mod Flights
pub mod Identity
pub mod Admission
pub mod Endpoints
pub mod Fuel
pub mod Revocation
pub mod Accept
use auth_mini_gateway.Prelude.{ℕ, suc, Bool, true, false, Option, none, some, List, if◌then◌else◌}
use auth_mini_gateway.Prelude.Result.{Result, ok, err}
use auth_mini_gateway.Prelude.Text.{Str}
use auth_mini_gateway.Util.{DateTime}
use auth_mini_gateway.Crates.{Crates}
use auth_mini_gateway.Db.{DbError}
use auth_mini_gateway.Db.Monad.{Env, World, M}
use auth_mini_gateway.AuthTypes.{
  TokenResponse, InitialAccessError, RefreshError, VerifiedAccessToken, Jwks,
}
use auth_mini_gateway.Flight.{FlightCoordinator, FlightOutcome}

-- The trait AuthMini. The error of a logout is not looked at.
pub record AuthMini : Type 0 where
  pub verify_initial_access : ℕ → Str → Option (Result InitialAccessError VerifiedAccessToken)
  pub prepare_refresh_verifier : ℕ → Option (Result RefreshError Jwks)
  pub verify_refreshed_access : ℕ → Str → Jwks → Option (Result RefreshError VerifiedAccessToken)
  pub refresh : ℕ → Str → Str → Option (Result RefreshError TokenResponse)
  pub logout : ℕ → Str → Option (Result (Unit {0}) (Unit {0}))

-- The fields of the JSON object of a login callback.
pub record CallbackBody : Type 0 where
  pub access_token : Option Str
  pub refresh_token : Option Str
  pub session_id : Option Str
  pub token_type : Option Str
  pub state : Option Str

pub record Surroundings : Type 1 where
  pub crates : Crates
  pub store : Env
  pub auth_mini : AuthMini
  -- what the other requests do to the coordinator before an acquire
  pub other_flights : ℕ → FlightCoordinator → FlightCoordinator
  -- the outcome that a waiter of a flight reads
  pub waits : ℕ → ℕ → FlightOutcome
  -- serde_json: the body of a callback, and the object that returns its target
  pub parse_callback : Str → Option CallbackBody
  pub return_to_json : Str → Str

pub record Gateway : Type 0 where
  pub world : World
  pub flights : FlightCoordinator

abbrev pub G : Type 0 → Type 0
G A = Gateway → Option A × Gateway

unfoldable pub give : {A : Type 0} → A → G A
give a g = (some a, g)

abbrev pub bind_option : {A B : Type 0} → Option A → Gateway → (A → G B) → Option B × Gateway
bind_option (some a) g f = f a g
bind_option none g f = (none, g)

infixl 5 ◌>>=◌ ◌>>◌
unfoldable pub ◌>>=◌ : {A B : Type 0} → G A → (A → G B) → G B
◌>>=◌ m f g = bind_option (m g).0 (m g).1 f

abbrev pub ◌>>◌ : {B : Type 0} → G (Unit {0}) → G B → G B
m >> k = m >>= λ _. k

-- std::panic::catch_unwind: what was done before the panic stays done.
unfoldable pub catch_unwind : {A : Type 0} → G A → G (Option A)
catch_unwind m g = (some (m g).0, (m g).1)

-- A call of the store.
unfoldable pub ask : {A : Type 0} → M A → G (Result DbError A)
ask m g = (some (m g.world).0, record g { world = (m g.world).1 })

abbrev pub next_step : Gateway → Gateway
next_step g = record g { world = record g.world { step = suc g.world.step } }

-- A call of auth-mini.
unfoldable pub call : {A : Type 0} → (ℕ → Option A) → G A
call answer g = (answer g.world.step, next_step g)

unfoldable pub on_flights : (FlightCoordinator → FlightCoordinator) → G (Unit {0})
on_flights f g = (some tt, record g { flights = f g.flights })

-- Store::now
unfoldable pub time : Env → G DateTime
time e g = (some (e.clock g.world.step), next_step g)

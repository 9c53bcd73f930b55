-- ===== src/Tests/Fixtures.antt =====
-- The values that the runs share: crates, a database with one session, a configuration and a request.
use auth_mini_gateway.Prelude.{◌++◌, true, false, none, some, [], ◌∷◌, if◌then◌else◌}
use auth_mini_gateway.Prelude.Result.{err}
use auth_mini_gateway.Prelude.Text.{Str, codes, str_eq}
use auth_mini_gateway.Util.{seconds}
use auth_mini_gateway.Crates.{Crates, Host}
use auth_mini_gateway.Config.{Config, auto, lax}
use auth_mini_gateway.Http.{Request}
use auth_mini_gateway.Db.{
  SessionRow, LoginRow, Tables, GatewaySession, NewSession, PendingTokens, ready, ready_text,
}
use auth_mini_gateway.Db.Monad.{Env, World}
use auth_mini_gateway.AuthTypes.{InitialAccessError, RefreshError, timeout}
use auth_mini_gateway.Flight.{new_coordinator, FlightOutcome}
use auth_mini_gateway.Server.{Surroundings, AuthMini, Gateway}

-- A URL that is its origin and its path.
pub record PlainUrl : Type 0 where
  pub origin : Str
  pub location : Str

abbrev pub public_base : Str
public_base = codes "https://gw.test"

abbrev pub crates : Crates
crates = record {
  Url = PlainUrl;
  parse = λ s.
      if str_eq s public_base
      then some (record { origin = s; location = codes "/" })
      else if str_eq s (public_base ++ codes "//evil.test")
      then some (record { origin = public_base; location = codes "//evil.test" })
      else none;
  join = λ base path. some (record { origin = base.origin; location = path });
  same_origin = λ a b. str_eq a.origin b.origin;
  scheme = λ _. codes "https";
  cannot_be_a_base = λ _. false;
  host = λ _. some (Host.domain (codes "gw.test"));
  username = λ _. [];
  password = λ _. none;
  path = λ url. url.location;
  query = λ _. none;
  fragment = λ _. none;
  port_or_known_default = λ _. some 443;
  authority = λ _. codes "gw.test";
  base_text = λ url path. url.origin;
  url_text = λ url. url.origin;
  timestamp = λ n. some (seconds n);
  ip_text = λ _. [];
  urlencode = λ s. s;
  parse_network = λ _. none;
  network_contains = λ _ _. false;
  max_permits = 1000;
  mac = λ _ _. codes "c2ln";
  http_date = λ _. codes "Thu, 01 Jan 1970 00:00:00 GMT";
}

-- No statement fails, and nobody else uses the database.
abbrev pub env : Env
env = record {
  clock = λ _. seconds 1000;
  fails = λ _. false;
  random_token = λ _. codes "s2";
  others = λ _ t. t;
  encode_amr = λ _. [];
  decode_amr = λ _. some [];
}

abbrev pub session_id : Str
session_id = codes "s1"

abbrev pub user : Str
user = codes "u1"

abbrev pub row : SessionRow
row = record {
  id = session_id;
  auth_session_id = codes "a1";
  access_token = codes "access";
  refresh_token = codes "refresh";
  user_id = user;
  email = none;
  amr_json = [];
  access_expires_at = 2000000;
  session_expires_at = 3000000;
  revoked_at = none;
  refresh_generation = 0;
  created_at = 900000;
  updated_at = 900000;
  idle_expires_at = 3000000;
  absolute_expires_at = 5000000;
  last_touched_at = 990000;
  identity_state = ready_text;
  identity_pending_since = none;
}

-- The session of the row.
abbrev pub session : GatewaySession
session = record {
  id = session_id;
  auth_session_id = codes "a1";
  access_token = codes "access";
  refresh_token = codes "refresh";
  user_id = user;
  email = none;
  amr = [];
  access_expires_at = seconds 2000;
  session_expires_at = seconds 3000;
  idle_expires_at = seconds 3000;
  absolute_expires_at = seconds 5000;
  last_touched_at = seconds 990;
  identity_state = ready;
  identity_pending_since = none;
  refresh_generation = 0;
  revoked_at = none;
}

abbrev pub login_id : Str
login_id = codes "l1"

abbrev pub login_row : LoginRow
login_row = record {
  id = login_id;
  return_to = codes "/app";
  expires_at = 1600000;
  consumed_at = none;
  created_at = 900000;
}

abbrev pub tables : Tables
tables = record { login_states = login_row ∷ []; sessions = row ∷ [] }

abbrev pub world : World
world = record { step = 0; db = tables }

abbrev pub input : NewSession
input = record {
  auth_session_id = codes "a2";
  access_token = codes "access2";
  refresh_token = codes "refresh2";
  user_id = user;
  email = none;
  amr = [];
  access_expires_at = seconds 2000;
  idle_ttl_seconds = 100;
  absolute_ttl_seconds = 200;
}

abbrev pub next_tokens : PendingTokens
next_tokens = record {
  access_token = codes "access3";
  refresh_token = codes "refresh3";
  user_id = user;
  amr = [];
  access_expires_at = seconds 4000;
}

abbrev pub config : Config
config = record {
  host = codes "127.0.0.1";
  port = 3000;
  public_base_url = public_base;
  auth_mini_audience = codes "gw.test";
  auth_mini_issuer = codes "https://auth.test";
  auth_mini_public_base_url = codes "https://auth.test";
  auth_mini_login_url = none;
  database_path = codes "db";
  cookie_secret = codes "secret";
  cookie_secure = true;
  cookie_same_site = lax;
  session_ttl_seconds = 2000;
  session_absolute_ttl_seconds = 4000;
  session_touch_interval_seconds = 60;
  login_state_ttl_seconds = 600;
  refresh_skew_seconds = 60;
  allow_user_ids = user ∷ [];
  logout_redirect = codes "/";
  upstream = none;
  upstream_protocol = auto;
  max_downstream_connections = 256;
  max_active_upstreams = 128;
  max_blocking_resolvers = 8;
  trusted_proxy_cidrs = [];
}

abbrev pub request : Request
request = record {
  method = codes "GET";
  target = codes "/auth/check";
  path = codes "/auth/check";
  query = [];
  headers = (codes "Cookie", codes "amg_session=s1.c2ln") ∷ [];
  body = [];
}

-- auth-mini cannot be reached.
abbrev pub auth_mini : AuthMini
auth_mini = record {
  verify_initial_access = λ _ _. some (err InitialAccessError.invalid);
  prepare_refresh_verifier = λ _. some (err (RefreshError.temporary timeout));
  verify_refreshed_access = λ _ _ _. some (err (RefreshError.temporary timeout));
  refresh = λ _ _ _. some (err (RefreshError.temporary timeout));
  logout = λ _ _. some (err tt);
}

abbrev pub surroundings : Surroundings
surroundings = record {
  crates = crates;
  store = env;
  auth_mini = auth_mini;
  other_flights = λ _ c. c;
  waits = λ _ _. FlightOutcome.temporary timeout;
  parse_callback = λ _. none;
  return_to_json = λ s. s;
}

abbrev pub gateway : Gateway
gateway = record { world = world; flights = new_coordinator }

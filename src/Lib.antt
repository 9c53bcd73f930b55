-- ===== src/Lib.antt =====
-- A model of auth-mini-gateway, a Rust gateway that keeps browser sessions for auth-mini logins and
-- decides for a reverse proxy which requests pass.
--
-- The parts and how they interact. A request carries a signed cookie (Cookies, src/cookies.rs) that
-- names a session in an SQLite database (Db, src/db.rs). The check of a request (Server.Decision,
-- src/server.rs) looks the session up; where its access token is about to expire, or its identity is
-- pending, one request leads a flight (Flight, src/flight.rs) and refreshes the tokens with
-- auth-mini (Server.Refresh, src/server.rs), while the others wait for the outcome. The user is then
-- compared with the allowlist (Policy, src/policy.rs), and the idle deadline is moved. A login
-- begins and ends in Server.Login (src/server.rs): a login state is stored and consumed once, tokens
-- are verified (Jwt, src/jwt.rs), and the browser returns to a target that is safe (ReturnTarget,
-- src/return_target.rs). Client (src/auth_mini.rs) classifies the answers of auth-mini. Http
-- (src/http.rs) has the requests and the responses, Config (src/config.rs) the settings, Util
-- (src/util.rs) times and the comparison of signatures. RuntimePlan (src/runtime_plan.rs,
-- src/exit.rs, src/main.rs) has the checks before the process starts. Proxy (src/proxy.rs) passes an
-- admitted request on to the upstream: Proxy.Headers are the rules for headers in both directions,
-- Proxy.Frames the scanner of the upstream's HTTP/2 frames, Proxy.Acks and Proxy.Proof what proves
-- that both sides have exchanged their SETTINGS, Proxy.Generation the gate through which requests
-- reach an HTTP/2 connection, and Proxy.Websocket, Proxy.Tokens and Proxy.Upgrade the handshake of
-- WebSockets, and Proxy.Exchange the end of an exchange with the upstream. Server.Accept
-- (src/server.rs) has what follows a failed accept. AuthTypes has the outcomes of the calls of
-- auth-mini, Crates what other crates provide, Prelude the shared helpers, and Tests the runs at
-- concrete inputs. The proofs about requests stand in Server.Identity, Server.Admission,
-- Server.Endpoints, Server.Revocation and Server.Fuel, which use the triples of Server.Triples.
--
-- How state is modelled. Text is a list of bytes. A table is a list of rows, and a SQL statement a
-- function of the tables (Db.Sql). A store operation runs in Db.Monad: before each statement the
-- other connections may change the tables in any way, the statement may fail, and the clock and the
-- random source answer anew. A request handler runs in Server: it holds the store's world and the
-- coordinator of the flights, and a call of auth-mini answers anything or panics. A flight behind a
-- shared pointer is an index into a store of flights. The interleavings of requests on one
-- coordinator are the lists of events of Flight.System.
--
-- Bounds and fuel. `auth_decision` has the code's own bound of eight rounds. The recovery of a
-- pending identity and the revocation call each other without a bound in the code; their model takes
-- fuel for the nested recoveries, each of which needs another connection to have stored a new
-- version of the session. A run that needs more fuel counts as one that does not return, which is
-- caught as a panic of the leader; the statements about `auth_decision` hold for every fuel. Times
-- are natural numbers: nanoseconds since 1970, and milliseconds in the database, whose texts SQLite
-- compares as those numbers up to the year 9999. The refresh generation starts at 0 and only grows,
-- and is not bounded by 64 bits. The outcome that a waiter reads, and what other requests do to the
-- coordinator, are parameters of the decision: they may be anything.
--
-- The scanner of frames takes the length of a read as its fuel, and the parser of acknowledgements
-- one more, which is enough since each turn takes a byte, or ends, or empties a full header. A
-- header map is a parameter with the documented laws of the http crate (Crates.HeaderMap), and the
-- handshake's base64 and SHA-1 are parameters without laws.
--
-- What is not modelled: the migration of the schema, the serving of connections, of the proxy the
-- pools of connections, the resolver, the streaming of bodies and the tunnel of WebSockets, capacity
-- leases, process entry, log lines, and the benchmarks. What url, ipnet, rusqlite's storage,
-- serde_json, base64, hmac, ed25519_dalek, reqwest and chrono do is a parameter.
pub mod Prelude
pub mod Crates
pub mod Util
pub mod Config
pub mod Policy
pub mod Http
pub mod Cookies
pub mod ReturnTarget
pub mod Db
pub mod AuthTypes
pub mod Flight
pub mod RuntimePlan
pub mod Server
pub mod Jwt
pub mod Client
pub mod Proxy
pub mod Tests

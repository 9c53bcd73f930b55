-- ===== src/Tests.antt =====
-- Runs of the theorems at concrete inputs, with every parameter of the model given by a function.
pub mod Fixtures
mod HeaderLists
mod Proxying
mod Handshakes
mod Requests
mod Sessions
mod Flights
mod Tokens
mod Values

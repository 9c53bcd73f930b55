-- ===== src/Proxy.antt =====
-- src/proxy.rs: the errors and protocols that the parts of the proxy share.
pub mod Headers
pub mod Frames
pub mod Generation
pub mod Acks
pub mod Proof
pub mod Tokens
pub mod Websocket
pub mod Upgrade
pub mod Exchange
use auth_mini_gateway.Prelude.{Bool, true, false}

pub data CapacityClass : Type 0 where
  active_upstream blocking_resolver : CapacityClass

pub data ProxyError : Type 0 where
  bad_request bad_gateway internal : ProxyError
  capacity : CapacityClass → ProxyError

pub data ActualProtocol : Type 0 where
  http1 http2 : ActualProtocol

-- ==
abbrev pub is_http1 : ActualProtocol → Bool
is_http1 http1 = true
is_http1 http2 = false

-- ===== src/Gateway.antt =====
-- The gateway service, atframework/service/atgateway.
pub mod Codes
pub mod Flags
pub mod Proto
pub mod State
pub mod Limits
pub mod Session
pub mod Calls
pub mod Manager
pub mod Reconnect
pub mod Dispatch
pub mod Accept
pub mod Examples

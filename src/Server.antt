-- ===== src/Server.antt =====
-- internal/server: what of the HTTP layer decides, without the transport.
pub mod RateLimit
pub mod Guard
pub mod Errors
pub mod Request
pub mod Response
pub mod Handlers
pub mod Routes
pub mod Serve
pub mod Authorized
pub mod AuditPages
pub mod ResetOracle
pub mod Security

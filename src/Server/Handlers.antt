-- ===== src/Server/Handlers.antt =====
-- internal/server/handlers*.go: each handler decodes, calls the service, and encodes.
pub mod Public
pub mod Account
pub mod Gated

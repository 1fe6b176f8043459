-- ===== src/Identity.antt =====
-- The rules of internal/identity that touch no database.
pub mod Permission
pub mod Access
pub mod Validation

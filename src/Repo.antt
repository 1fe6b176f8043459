-- ===== src/Repo.antt =====
-- internal/identity/*repository.go: the SQL statements, on the tables of Model.
pub mod Users
pub mod Sessions
pub mod Roles
pub mod Invitations
pub mod PasswordResets
pub mod EmailVerifications
pub mod ApiKeys
pub mod Directory

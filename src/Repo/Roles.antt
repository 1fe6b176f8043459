-- ===== src/Repo/Roles.antt =====
-- internal/identity/roles_repository.go: roles, their permissions, and who holds them.
pub mod Rows
pub mod Writes
pub mod Laws
pub mod Assignments
pub mod Chosen
pub mod Holders
pub mod Admins
pub mod Grants

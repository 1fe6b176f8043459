-- ===== src/Service.antt =====
-- internal/identity: the methods of Service, each with the transaction that it runs.
pub mod Common
pub mod Sessions
pub mod Users
pub mod Roles
pub mod Invitations
pub mod PasswordReset
pub mod EmailVerification
pub mod ApiKeys
pub mod Catalog
pub mod Revocation
pub mod CatalogSync
pub mod Authority
pub mod LastAdmin
pub mod LastHolder
pub mod IssuedSession
pub mod LoginSession
pub mod LoginRoundTrip
pub mod KeyRevocation
pub mod RoleCreation
pub mod RoleEditing
pub mod LoginRefused
pub mod Login
pub mod SingleUse
pub mod ResetLockout
pub mod VerifiedOnce
pub mod AcceptedOnce
pub mod Assignment

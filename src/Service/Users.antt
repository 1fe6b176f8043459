-- ===== src/Service/Users.antt =====
-- internal/identity/service.go: registration, authorization, and the accounts of users.
use git_single_tenant_templa.Repo.Users
use git_single_tenant_templa.Repo.Sessions
use git_single_tenant_templa.Repo.Roles.Rows
use git_single_tenant_templa.Repo.Roles.Writes
use git_single_tenant_templa.Prelude.{
  ℕ, String, Bool, true, false, not, ◌&&◌, ◌||◌, none, some, List, [], ◌∷◌, ltb, ◌==◌,
  if◌then◌else◌,
}
use git_single_tenant_templa.Audit.{record_event, event_of}
use git_single_tenant_templa.Exec.{
  Exec, pure, raise, lift, require, Conn, World, Env, in_tx, on_pool, ◌>>=◌, ◌>>◌,
}
use git_single_tenant_templa.Identity.Access.{role_key_admin, union_permissions, has_role}
use git_single_tenant_templa.Identity.Permission.{all_permissions}
use git_single_tenant_templa.Identity.Validation.{normalize_email, validate_password}
use git_single_tenant_templa.Model.{
  User, Role, Access, user_registered, user_deactivated, user_reactivated, user_roles_updated,
  superuser_granted, superuser_revoked, text, number, cannot_deactivate_self, last_admin,
  validation,
}
use git_single_tenant_templa.Service.Common.{hash}
use git_single_tenant_templa.Service.EmailVerification.{send_verification_email}

abbrev pub superuser_access : Access
superuser_access = record {
  roles = [];
  permissions = all_permissions;
  via_superuser = true;
  via_api_key = false;
}

abbrev pub role_access : List Role → Access
role_access roles = record {
  roles = roles;
  permissions = union_permissions roles;
  via_superuser = false;
  via_api_key = false;
}

module _ (env : Env) where
  unfoldable pub register_tx : String → String → String → String → Exec Conn User
  register_tx email password_hash first_name last_name = do
    user ← Users.create_user env email password_hash first_name last_name
    record_event env
        (event_of (some user.id) user_registered "user" (some user.id) (("email", text email) ∷ []))
    pure user

  unfoldable pub register : String → String → String → String → Exec World User
  register raw_email password first_name last_name = do
    email ← lift (normalize_email env raw_email)
    lift (validate_password env password)
    password_hash ← hash env password
    user ←
        in_tx env
          (register_tx email password_hash (env.trim_space first_name) (env.trim_space last_name))
    send_verification_email env user
    pure user

  unfoldable pub authorize : User → Exec World Access
  authorize user =
      if user.is_superuser
      then pure superuser_access
      else do roles ← on_pool env (Rows.load_user_roles env user.id); pure (role_access roles)

  -- The guard of SetUserActive: the last active admin stays active.
  unfoldable pub guard_last_active_admin : Bool → Exec Conn (Unit {0})
  guard_last_active_admin is_admin =
      if not is_admin
      then pure tt
      else do n ← Rows.count_active_users_with_role role_key_admin; require (ltb 1 n) last_admin

  unfoldable pub guard_deactivation : User → ℕ → Bool → Exec Conn (Unit {0})
  guard_deactivation actor target_id is_active =
      if is_active || actor.is_superuser then pure tt else do
        target_roles ← Rows.load_user_roles env target_id
        guard_last_active_admin (has_role target_roles role_key_admin)

  -- The sessions revoked, and the audit entry, of either direction.
  unfoldable pub record_active : User → User → ℕ → Bool → Exec Conn (Unit {0})
  record_active actor user target_id true = record_event env (
      event_of (some actor.id) user_reactivated "user" (some target_id)
        (("email", text user.email) ∷ []))
  record_active actor user target_id false = do
    revoked ← Sessions.revoke_user_sessions target_id
    record_event env (
        event_of (some actor.id) user_deactivated "user" (some target_id)
          (("email", text user.email) ∷ ("sessions_revoked", number revoked) ∷ []))

  unfoldable pub set_user_active_tx : User → ℕ → Bool → Exec Conn User
  set_user_active_tx actor target_id is_active = do
    guard_deactivation actor target_id is_active
    user ← Users.set_user_active target_id is_active
    record_active actor user target_id is_active
    pure user

  unfoldable pub set_user_active : User → ℕ → Bool → Exec World User
  set_user_active actor target_id is_active =
      if actor.id == target_id && not is_active
      then raise (validation cannot_deactivate_self)
      else in_tx env (set_user_active_tx actor target_id is_active)

  unfoldable pub set_superuser_tx : String → Bool → Exec Conn User
  set_superuser_tx email is_superuser = do
    user ← Users.set_superuser env email is_superuser
    record_event env (
        event_of none (if is_superuser then superuser_granted else superuser_revoked) "user"
          (some user.id) (("email", text user.email) ∷ ("via", text "cli") ∷ []))
    pure user

  unfoldable pub set_superuser : String → Bool → Exec World User
  set_superuser raw_email is_superuser = do
    email ← lift (normalize_email env raw_email)
    in_tx env (set_superuser_tx email is_superuser)

  unfoldable pub grant_role_by_key_tx : String → String → Exec Conn (User × Role)
  grant_role_by_key_tx email role_key = do
    user ← Users.get_user_by_email env email
    role ← Rows.get_role_by_key role_key
    Writes.add_user_role user.id role.row.id
    record_event env (
        event_of none user_roles_updated "user" (some user.id)
          (("email", text user.email) ∷ ("granted", text role.row.key) ∷ ("via", text "cli") ∷ []))
    pure (user, role)

  unfoldable pub grant_role_by_key : String → String → Exec World (User × Role)
  grant_role_by_key raw_email role_key = do
    email ← lift (normalize_email env raw_email)
    in_tx env (grant_role_by_key_tx email role_key)

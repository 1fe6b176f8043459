-- ===== src/Service/Roles.antt =====
-- internal/identity/roles_service.go: roles created, edited, deleted and assigned, each behind the
-- escalation guard.
use git_single_tenant_templa.Repo.Roles.Rows
use git_single_tenant_templa.Repo.Roles.Writes
use git_single_tenant_templa.Prelude.{
  ℕ, String, Bool, not, ◌&&◌, ◌||◌, some, List, [], ◌∷◌, ltb, if◌then◌else◌,
}
use git_single_tenant_templa.Audit.{record_event, event_of}
use git_single_tenant_templa.Exec.{
  Result, ok, err, Exec, pure, raise, lift, require, Conn, World, Env, in_tx, on_pool, ◌>>=◌, ◌>>◌,
}
use git_single_tenant_templa.Identity.Access.{
  role_key_admin, union_permissions, has_role, actor_holds_role, check_escalation, role_keys,
}
use git_single_tenant_templa.Identity.Permission.{slice}
use git_single_tenant_templa.Identity.Validation.{validate_role_input}
use git_single_tenant_templa.Model.{
  Permission, PermissionSet, User, Role, Access, user_roles_updated, role_created, role_updated,
  role_deleted, text, texts, forbidden, last_admin, system_role, role_key_taken,
}
use git_single_tenant_templa.Repo.Roles.Rows.{roles_to_ids}
use git_single_tenant_templa.Service.Common.{is_not_found}

-- `if _, err := GetRoleByKey(key); err == nil { return ErrRoleKeyTaken } else if !isNotFound(err) …`
unfoldable pub require_free_key : Result Role → Exec Conn (Unit {0})
require_free_key (ok role) = raise role_key_taken
require_free_key (err e) = if is_not_found e then pure tt else raise e

unfoldable pub check_free_key : String → Exec Conn (Unit {0})
check_free_key key c = let found = Rows.get_role_by_key key c in require_free_key found.0 found.1

module _ (env : Env) where
  unfoldable pub list_roles : Exec World (List Role)
  list_roles = on_pool env (Rows.list_roles env)

  unfoldable pub get_role : ℕ → Exec World Role
  get_role role_id = on_pool env (Rows.get_role role_id)

  unfoldable pub create_role_tx : User → String → String → PermissionSet → Exec Conn Role
  create_role_tx actor key name set = do
    check_free_key key
    role ← Writes.create_role key name set
    record_event env (
        event_of (some actor.id) role_created "role" (some role.row.id)
          (("key", text key) ∷ ("name", text name) ∷ ("permissions", texts (slice set)) ∷ []))
    pure role

  unfoldable pub create_role : User → Access → String → String → List Permission → Exec World Role
  create_role actor access raw_key raw_name perms = do
    (key, name, set) ← lift (validate_role_input env raw_key raw_name perms)
    lift (check_escalation access set)
    in_tx env (create_role_tx actor key name set)

  unfoldable pub update_role_tx : User → Access → ℕ → String → PermissionSet → Exec Conn Role
  update_role_tx actor access role_id name set = do
    existing ← Rows.get_role role_id
    require (not existing.row.is_system) system_role
    lift (check_escalation access existing.permissions)
    role ← Writes.update_role role_id name set
    record_event env (
        event_of (some actor.id) role_updated "role" (some role.row.id) (
          ("key", text role.row.key)
          ∷ ("from", texts (slice existing.permissions))
          ∷ ("to", texts (slice set))
          ∷ []))
    pure role

  unfoldable pub update_role : User → Access → ℕ → String → List Permission → Exec World Role
  update_role actor access role_id raw_name perms = do
    (_, name, set) ← lift (validate_role_input env "placeholder" raw_name perms)
    lift (check_escalation access set)
    in_tx env (update_role_tx actor access role_id name set)

  unfoldable pub delete_role_tx : User → Access → ℕ → Exec Conn (Unit {0})
  delete_role_tx actor access role_id = do
    existing ← Rows.get_role role_id
    require (not existing.row.is_system) system_role
    lift (check_escalation access existing.permissions)
    Writes.delete_role role_id
    record_event env (
        event_of (some actor.id) role_deleted "role" (some role_id)
          (("key", text existing.row.key) ∷ []))

  unfoldable pub delete_role : User → Access → ℕ → Exec World (Unit {0})
  delete_role actor access role_id = in_tx env (delete_role_tx actor access role_id)

  -- Demoting an admin is for admins and superusers.
  unfoldable pub may_demote : Access → List Role → Bool
  may_demote access before =
      not (has_role before role_key_admin)
      || access.via_superuser
      || actor_holds_role access role_key_admin

  -- Taking the admin role from its last holder is refused.
  unfoldable pub guard_last_admin : List Role → List Role → Exec Conn (Unit {0})
  guard_last_admin before roles =
      if not (has_role before role_key_admin && not (has_role roles role_key_admin))
      then pure tt
      else do admins ← Rows.count_users_with_role role_key_admin; require (ltb 1 admins) last_admin

  unfoldable pub set_user_roles_tx : User → Access → ℕ → List ℕ → Exec Conn (Unit {0})
  set_user_roles_tx actor access target_id role_ids = do
    roles ← Rows.get_roles_by_ids env role_ids
    lift (check_escalation access (union_permissions roles))
    before ← Rows.load_user_roles env target_id
    require (may_demote access before) forbidden
    guard_last_admin before roles
    Writes.set_user_roles target_id (roles_to_ids roles)
    record_event env (
        event_of (some actor.id) user_roles_updated "user" (some target_id)
          (("from", texts (role_keys before)) ∷ ("to", texts (role_keys roles)) ∷ []))

  unfoldable pub set_user_roles : User → Access → ℕ → List ℕ → Exec World (Unit {0})
  set_user_roles actor access target_id role_ids =
      in_tx env (set_user_roles_tx actor access target_id role_ids)

-- ===== src/Evolution/Roles.antt =====
-- The statements on roles, their permissions, and who holds them.
use git_single_tenant_templa.Repo.Roles.Rows
use git_single_tenant_templa.Repo.Roles.Writes
use git_single_tenant_templa.Prelude.{ℕ, String, not, ◌&&◌, List, [], ◌∷◌, str_eq, ◌==◌, any}
use git_single_tenant_templa.Evolution.{Evolves, Became-assigned}
use git_single_tenant_templa.Exec.{ok, err, Conn, Env}
use git_single_tenant_templa.Exec.Upholds.{Upholds, Upholds-pure, Upholds-bind, upholds_rules}
use git_single_tenant_templa.Exec.Leaves.{if-state}
use git_single_tenant_templa.Identity.Permission.{has}
use git_single_tenant_templa.Model.{
  Permission, PermissionSet, Role, Db, unknown_permission, not_found, validation, internal,
}

module _ {db : Db} where
  first_role-Evolves :
      (rs : List Role) (s : Conn) → Evolves db s → Evolves db (Rows.first_role rs s).1
  first_role-Evolves [] s h = h
  first_role-Evolves (r ∷ rs) s h = h

  pub get_role-Evolves : (id : ℕ) → Upholds (Evolves db) (Rows.get_role id)
  unfolding Rows.get_role
  get_role-Evolves id = record { at = λ s h. first_role-Evolves _ s h }

  pub get_role_by_key-Evolves : (key : String) → Upholds (Evolves db) (Rows.get_role_by_key key)
  unfolding Rows.get_role_by_key
  get_role_by_key-Evolves key = record { at = λ s h. first_role-Evolves _ s h }

  pub list_roles-Evolves : (env : Env) → Upholds (Evolves db) (Rows.list_roles env)
  unfolding Rows.list_roles
  list_roles-Evolves env = record { at = λ s h. h }

  pub get_roles_by_ids-Evolves :
      (env : Env) (ids : List ℕ) → Upholds (Evolves db) (Rows.get_roles_by_ids env ids)
  unfolding Rows.get_roles_by_ids
  get_roles_by_ids-Evolves env [] = record { at = λ s h. h }
  get_roles_by_ids-Evolves env (id ∷ ids) = record {
    at = λ s h. if-state (Evolves db) _ _ (err not_found, s) h h;
  }

  pub load_user_roles-Evolves :
      (env : Env) (id : ℕ) → Upholds (Evolves db) (Rows.load_user_roles env id)
  unfolding Rows.load_user_roles
  load_user_roles-Evolves env id = record { at = λ s h. h }

  pub count_users_with_role-Evolves :
      (key : String) → Upholds (Evolves db) (Rows.count_users_with_role key)
  unfolding Rows.count_users_with_role
  count_users_with_role-Evolves key = record { at = λ s h. h }

  pub count_active_users_with_role-Evolves :
      (key : String) → Upholds (Evolves db) (Rows.count_active_users_with_role key)
  unfolding Rows.count_active_users_with_role
  count_active_users_with_role-Evolves key = record { at = λ s h. h }

  grant_permission-Evolves :
      (id : ℕ) (p : Permission) → Upholds (Evolves db) (Writes.grant_permission id p)
  unfolding Writes.grant_permission
  grant_permission-Evolves id p = record {
    at = λ s h.
        if-state (Evolves db) (not (has s.db.permissions p))
          (err (validation (unknown_permission p)), s) _ h
          (if-state (Evolves db) (any (λ rp. rp.0 == id && str_eq rp.1 p) s.db.role_permissions)
            (err internal, s) _ h h);
  }

  grant_permissions-Evolves :
      (id : ℕ) (ps : List Permission) → Upholds (Evolves db) (Writes.grant_permissions id ps)
  unfolding Writes.grant_permissions
  grant_permissions-Evolves id [] = Upholds-pure tt
  grant_permissions-Evolves id (p ∷ ps) =
      Upholds-bind _ _ (grant_permission-Evolves id p) (λ _. grant_permissions-Evolves id ps)

  clear_role_permissions-Evolves :
      (id : ℕ) → Upholds (Evolves db) (Writes.clear_role_permissions id)
  unfolding Writes.clear_role_permissions
  clear_role_permissions-Evolves id = record { at = λ s h. h }

  pub replace_role_permissions-Evolves :
      (id : ℕ) (set : PermissionSet) → Upholds (Evolves db) (Writes.replace_role_permissions id set)
  unfolding Writes.replace_role_permissions
  replace_role_permissions-Evolves id set =
      search (upholds_rules, clear_role_permissions-Evolves, grant_permissions-Evolves)

  pub add_user_role-Evolves : (u r : ℕ) → Upholds (Evolves db) (Writes.add_user_role u r)
  unfolding Writes.add_user_role
  add_user_role-Evolves u r = record {
    at = λ s h.
        if-state (Evolves db) (Writes.holds_assignment s.db u r) (ok tt, s) _ h
          (if-state (Evolves db) (not (Writes.can_reference s.db u r)) (err internal, s) _ h
            (Became-assigned (u, r) h));
  }

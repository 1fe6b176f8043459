-- ===== src/Evolution/RoleMethods.antt =====
-- The methods on roles (roles_service.go).
use git_single_tenant_templa.Service.Roles
use git_single_tenant_templa.Prelude.{ℕ, String, List}
use git_single_tenant_templa.Evolution.{Evolves}
use git_single_tenant_templa.Evolution.Calls.{Progress, Upholds-attempt}
use git_single_tenant_templa.Evolution.Roles.{get_role_by_key-Evolves}
use git_single_tenant_templa.Evolution.Rules.{statement_rules}
use git_single_tenant_templa.Exec.{Result, ok, err, Env}
use git_single_tenant_templa.Exec.Upholds.{Upholds, upholds_rules}
use git_single_tenant_templa.Model.{Permission, PermissionSet, User, Role, Access, Db}
use git_single_tenant_templa.Service.Roles.{require_free_key, check_free_key}

module _ {db : Db} (env : Env) where
  require_free_key-Evolves : (found : Result Role) → Upholds (Evolves db) (require_free_key found)
  unfolding require_free_key
  require_free_key-Evolves (ok role) = search upholds_rules
  require_free_key-Evolves (err e) = search upholds_rules

  check_free_key-Evolves : (key : String) → Upholds (Evolves db) (check_free_key key)
  unfolding check_free_key
  check_free_key-Evolves key =
      Upholds-attempt _ require_free_key (get_role_by_key-Evolves key) require_free_key-Evolves

  pub list_roles-Progress : Upholds (Progress db) (Roles.list_roles env)
  unfolding Roles.list_roles
  list_roles-Progress = search (statement_rules)

  pub get_role-Progress : (role_id : ℕ) → Upholds (Progress db) (Roles.get_role env role_id)
  unfolding Roles.get_role
  get_role-Progress role_id = search (statement_rules)

  create_role_tx-Evolves :
      (actor : User) (key name : String) (set : PermissionSet)
      → Upholds (Evolves db) (Roles.create_role_tx env actor key name set)
  unfolding Roles.create_role_tx
  create_role_tx-Evolves actor key name set = search (statement_rules, check_free_key-Evolves)

  pub create_role-Progress :
      (actor : User) (access : Access) (raw_key raw_name : String) (perms : List Permission)
      → Upholds (Progress db) (Roles.create_role env actor access raw_key raw_name perms)
  unfolding Roles.create_role
  create_role-Progress actor access raw_key raw_name perms =
      search (statement_rules, create_role_tx-Evolves)

  update_role_tx-Evolves :
      (actor : User) (access : Access) (role_id : ℕ) (name : String) (set : PermissionSet)
      → Upholds (Evolves db) (Roles.update_role_tx env actor access role_id name set)
  unfolding Roles.update_role_tx
  update_role_tx-Evolves actor access role_id name set = search (statement_rules) depth 16

  pub update_role-Progress :
      (actor : User) (access : Access) (role_id : ℕ) (raw_name : String) (perms : List Permission)
      → Upholds (Progress db) (Roles.update_role env actor access role_id raw_name perms)
  unfolding Roles.update_role
  update_role-Progress actor access role_id raw_name perms =
      search (statement_rules, update_role_tx-Evolves)

  delete_role_tx-Evolves :
      (actor : User) (access : Access) (role_id : ℕ)
      → Upholds (Evolves db) (Roles.delete_role_tx env actor access role_id)
  unfolding Roles.delete_role_tx
  delete_role_tx-Evolves actor access role_id = search (statement_rules)

  pub delete_role-Progress :
      (actor : User) (access : Access) (role_id : ℕ)
      → Upholds (Progress db) (Roles.delete_role env actor access role_id)
  unfolding Roles.delete_role
  delete_role-Progress actor access role_id = search (statement_rules, delete_role_tx-Evolves)

-- ===== src/Evolution/UserMethods.antt =====
-- The methods on accounts and invitations (service.go).
use git_single_tenant_templa.Service.Users
use git_single_tenant_templa.Prelude.{ℕ, String, Bool, true, false}
use git_single_tenant_templa.Evolution.{Evolves}
use git_single_tenant_templa.Evolution.Accounts.{record_event-Evolves}
use git_single_tenant_templa.Evolution.Calls.{Progress}
use git_single_tenant_templa.Evolution.ResetMethods.{send_verification_email-Progress}
use git_single_tenant_templa.Evolution.Rules.{statement_rules}
use git_single_tenant_templa.Exec.{Env}
use git_single_tenant_templa.Exec.Upholds.{Upholds}
use git_single_tenant_templa.Model.{User, Db}
use git_single_tenant_templa.Service.Users.{
  register, register_tx, authorize, guard_last_active_admin, guard_deactivation, record_active,
  grant_role_by_key_tx, grant_role_by_key,
}

module _ {db : Db} (env : Env) where
  register_tx-Evolves :
      (email password_hash first_name last_name : String)
      → Upholds (Evolves db) (register_tx env email password_hash first_name last_name)
  unfolding register_tx
  register_tx-Evolves email password_hash first_name last_name = search (statement_rules)

  pub register-Progress :
      (raw_email password first_name last_name : String)
      → Upholds (Progress db) (register env raw_email password first_name last_name)
  unfolding register
  register-Progress raw_email password first_name last_name =
      search (statement_rules, register_tx-Evolves, send_verification_email-Progress) depth 16

  pub authorize-Progress : (user : User) → Upholds (Progress db) (authorize env user)
  unfolding authorize
  authorize-Progress user = search (statement_rules)

  guard_last_active_admin-Evolves :
      (is_admin : Bool) → Upholds (Evolves db) (guard_last_active_admin env is_admin)
  unfolding guard_last_active_admin
  guard_last_active_admin-Evolves is_admin = search (statement_rules)

  guard_deactivation-Evolves :
      (actor : User) (target_id : ℕ) (is_active : Bool)
      → Upholds (Evolves db) (guard_deactivation env actor target_id is_active)
  unfolding guard_deactivation
  guard_deactivation-Evolves actor target_id is_active =
      search (statement_rules, guard_last_active_admin-Evolves)

  record_active-Evolves :
      (actor user : User) (target_id : ℕ) (is_active : Bool)
      → Upholds (Evolves db) (record_active env actor user target_id is_active)
  unfolding record_active
  record_active-Evolves actor user target_id true = record_event-Evolves env _
  record_active-Evolves actor user target_id false = search statement_rules

  set_user_active_tx-Evolves :
      (actor : User) (target_id : ℕ) (is_active : Bool)
      → Upholds (Evolves db) (Users.set_user_active_tx env actor target_id is_active)
  unfolding Users.set_user_active_tx
  set_user_active_tx-Evolves actor target_id is_active =
      search (statement_rules, guard_deactivation-Evolves, record_active-Evolves)

  pub set_user_active-Progress :
      (actor : User) (target_id : ℕ) (is_active : Bool)
      → Upholds (Progress db) (Users.set_user_active env actor target_id is_active)
  unfolding Users.set_user_active
  set_user_active-Progress actor target_id is_active =
      search (statement_rules, set_user_active_tx-Evolves)

  set_superuser_tx-Evolves :
      (email : String) (is_superuser : Bool)
      → Upholds (Evolves db) (Users.set_superuser_tx env email is_superuser)
  unfolding Users.set_superuser_tx
  set_superuser_tx-Evolves email is_superuser = search (statement_rules)

  pub set_superuser-Progress :
      (raw_email : String) (is_superuser : Bool)
      → Upholds (Progress db) (Users.set_superuser env raw_email is_superuser)
  unfolding Users.set_superuser
  set_superuser-Progress raw_email is_superuser = search (statement_rules, set_superuser_tx-Evolves)

  grant_role_by_key_tx-Evolves :
      (email role_key : String) → Upholds (Evolves db) (grant_role_by_key_tx env email role_key)
  unfolding grant_role_by_key_tx
  grant_role_by_key_tx-Evolves email role_key = search (statement_rules)

  pub grant_role_by_key-Progress :
      (raw_email role_key : String)
      → Upholds (Progress db) (grant_role_by_key env raw_email role_key)
  unfolding grant_role_by_key
  grant_role_by_key-Progress raw_email role_key =
      search (statement_rules, grant_role_by_key_tx-Evolves)

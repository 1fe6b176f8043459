-- ===== src/Evolution/SessionMethods.antt =====
-- The methods on sessions and passwords (service.go, password_reset.go).
use git_single_tenant_templa.Prelude.{ℕ, String, Option}
use git_single_tenant_templa.Evolution.{Evolves}
use git_single_tenant_templa.Evolution.Accounts.{get_user_by_email-Evolves}
use git_single_tenant_templa.Evolution.Calls.{Progress, On-on_pool, Upholds-attempt, method_rules}
use git_single_tenant_templa.Evolution.Rules.{statement_rules}
use git_single_tenant_templa.Exec.{Result, ok, err, Verdict, matches, mismatch, malformed, Env}
use git_single_tenant_templa.Exec.Upholds.{Upholds}
use git_single_tenant_templa.Model.{User, Db}
use git_single_tenant_templa.Service.Common.{ClientMeta}
use git_single_tenant_templa.Service.Sessions.{
  login, logout, change_password, list_sessions, revoke_session, record_failed_login, refuse_login,
  reject_password, upgrade_hash, login_tx, issue_session, login_verified, login_found, authenticate,
  logout_tx, revoke_session_tx, change_password_tx, cleanup_sessions,
}

module _ {db : Db} (env : Env) where
  record_failed_login-Progress :
      (email : String) (user_id : Option ℕ) (reason : String)
      → Upholds (Progress db) (record_failed_login env email user_id reason)
  unfolding record_failed_login
  record_failed_login-Progress email user_id reason = search (statement_rules)

  refuse_login-Progress :
      (email password : String) (user_id : Option ℕ) (reason : String)
      → Upholds (Progress db) (refuse_login env email password user_id reason)
  unfolding refuse_login
  refuse_login-Progress email password user_id reason =
      search (statement_rules, record_failed_login-Progress)

  reject_password-Progress :
      (email : String) (user_id : ℕ) (reason : String)
      → Upholds (Progress db) (reject_password env email user_id reason)
  unfolding reject_password
  reject_password-Progress email user_id reason =
      search (statement_rules, record_failed_login-Progress)

  upgrade_hash-Progress :
      (user : User) (password : String) → Upholds (Progress db) (upgrade_hash env user password)
  unfolding upgrade_hash
  upgrade_hash-Progress user password = search (statement_rules)

  login_tx-Evolves :
      (user : User) (digest : String) (expires_at : ℕ) (meta : ClientMeta)
      → Upholds (Evolves db) (login_tx env user digest expires_at meta)
  unfolding login_tx
  login_tx-Evolves user digest expires_at meta = search (statement_rules)

  issue_session-Progress :
      (user : User) (meta : ClientMeta) → Upholds (Progress db) (issue_session env user meta)
  unfolding issue_session
  issue_session-Progress user meta = search (statement_rules, login_tx-Evolves)

  login_verified-Progress :
      (v : Verdict) (email password : String) (meta : ClientMeta) (user : User)
      → Upholds (Progress db) (login_verified env v email password meta user)
  unfolding login_verified
  login_verified-Progress mismatch email password meta user =
      reject_password-Progress email user.id "wrong_password"
  login_verified-Progress malformed email password meta user =
      reject_password-Progress email user.id "corrupt_hash"
  login_verified-Progress matches email password meta user =
      search (method_rules, upgrade_hash-Progress, issue_session-Progress)

  login_found-Progress :
      (email password : String) (meta : ClientMeta) (found : Result User)
      → Upholds (Progress db) (login_found env email password meta found)
  unfolding login_found
  login_found-Progress email password meta (err e) = search (method_rules, refuse_login-Progress)
  login_found-Progress email password meta (ok user) =
      search (method_rules, refuse_login-Progress, login_verified-Progress)

  pub login-Progress :
      (raw_email password : String) (meta : ClientMeta)
      → Upholds (Progress db) (login env raw_email password meta)
  unfolding login
  login-Progress raw_email password meta =
      Upholds-attempt _ (login_found env _ password meta)
        (On-on_pool env _ (get_user_by_email-Evolves env _)) (login_found-Progress _ password meta)

  pub authenticate-Progress : (token : String) → Upholds (Progress db) (authenticate env token)
  unfolding authenticate
  authenticate-Progress token = search (statement_rules)

  pub logout-Progress :
      (token : String) (user_id : ℕ) → Upholds (Progress db) (logout env token user_id)
  unfolding logout logout_tx
  logout-Progress token user_id = search (statement_rules)

  pub list_sessions-Progress : (user_id : ℕ) → Upholds (Progress db) (list_sessions env user_id)
  unfolding list_sessions
  list_sessions-Progress user_id = search (statement_rules)

  pub revoke_session-Progress :
      (actor : User) (session_id : ℕ) → Upholds (Progress db) (revoke_session env actor session_id)
  unfolding revoke_session revoke_session_tx
  revoke_session-Progress actor session_id = search (statement_rules)

  change_password_tx-Evolves :
      (user_id : ℕ) (new_hash : String)
      → Upholds (Evolves db) (change_password_tx env user_id new_hash)
  unfolding change_password_tx
  change_password_tx-Evolves user_id new_hash = search (statement_rules)

  pub change_password-Progress :
      (user_id : ℕ) (current new_password : String)
      → Upholds (Progress db) (change_password env user_id current new_password)
  unfolding change_password
  change_password-Progress user_id current new_password =
      search (statement_rules, change_password_tx-Evolves) depth 12

  pub cleanup_sessions-Progress : (retain : ℕ) → Upholds (Progress db) (cleanup_sessions env retain)
  unfolding cleanup_sessions
  cleanup_sessions-Progress retain = search (statement_rules)

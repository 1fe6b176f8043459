-- ===== src/Evolution/ResetMethods.antt =====
-- The methods on password resets and email verifications (password_reset.go,
-- email_verification.go).
use git_single_tenant_templa.Prelude.{ℕ, String, Option}
use git_single_tenant_templa.Evolution.{Evolves}
use git_single_tenant_templa.Evolution.Accounts.{get_user_by_email-Evolves}
use git_single_tenant_templa.Evolution.Calls.{Progress, On-on_pool, Upholds-attempt, method_rules}
use git_single_tenant_templa.Evolution.Rules.{statement_rules}
use git_single_tenant_templa.Exec.{Result, ok, err, Env}
use git_single_tenant_templa.Exec.Upholds.{Upholds}
use git_single_tenant_templa.Model.{User, Db}
use git_single_tenant_templa.Service.Common.{ClientMeta}
use git_single_tenant_templa.Service.EmailVerification.{
  resend_verification, store_verification_tx, try_send_verification, send_verification_email,
  verify_email_tx, verify_email, cleanup_email_verifications,
}
use git_single_tenant_templa.Service.PasswordReset.{
  record_reset_request, request_reset_tx, try_send_reset, request_for, request_password_reset,
  reset_password_tx, reset_password, cleanup_password_resets,
}

module _ {db : Db} (env : Env) where
  record_reset_request-Progress :
      (user_id : Option ℕ) (email : String) (reason : String)
      → Upholds (Progress db) (record_reset_request env user_id email reason)
  unfolding record_reset_request
  record_reset_request-Progress user_id email reason = search (statement_rules)

  request_reset_tx-Evolves :
      (user : User) (email digest : String) (expires_at : ℕ) (meta : ClientMeta)
      → Upholds (Evolves db) (request_reset_tx env user email digest expires_at meta)
  unfolding request_reset_tx
  request_reset_tx-Evolves user email digest expires_at meta = search (statement_rules)

  try_send_reset-Progress :
      (user : User) (email : String) (meta : ClientMeta)
      → Upholds (Progress db) (try_send_reset env user email meta)
  unfolding try_send_reset
  try_send_reset-Progress user email meta = search (statement_rules, request_reset_tx-Evolves)

  request_for-Progress :
      (email : String) (meta : ClientMeta) (found : Result User)
      → Upholds (Progress db) (request_for env email meta found)
  unfolding request_for
  request_for-Progress email meta (err e) = search (method_rules, record_reset_request-Progress)
  request_for-Progress email meta (ok user) =
      search (method_rules, record_reset_request-Progress, try_send_reset-Progress)

  pub request_password_reset-Progress :
      (raw_email : String) (meta : ClientMeta)
      → Upholds (Progress db) (request_password_reset env raw_email meta)
  unfolding request_password_reset
  request_password_reset-Progress raw_email meta =
      Upholds-attempt _ (request_for env _ meta)
        (On-on_pool env _ (get_user_by_email-Evolves env _)) (request_for-Progress _ meta)

  reset_password_tx-Evolves :
      (digest new_hash : String) → Upholds (Evolves db) (reset_password_tx env digest new_hash)
  unfolding reset_password_tx
  reset_password_tx-Evolves digest new_hash = search (statement_rules)

  pub reset_password-Progress :
      (token new_password : String) → Upholds (Progress db) (reset_password env token new_password)
  unfolding reset_password
  reset_password-Progress token new_password = search (statement_rules, reset_password_tx-Evolves)

  pub cleanup_password_resets-Progress :
      (retain : ℕ) → Upholds (Progress db) (cleanup_password_resets env retain)
  unfolding cleanup_password_resets
  cleanup_password_resets-Progress retain = search (statement_rules)

  store_verification_tx-Evolves :
      (user : User) (digest : String) (expires_at : ℕ)
      → Upholds (Evolves db) (store_verification_tx env user digest expires_at)
  unfolding store_verification_tx
  store_verification_tx-Evolves user digest expires_at = search (statement_rules)

  try_send_verification-Progress :
      (user : User) → Upholds (Progress db) (try_send_verification env user)
  unfolding try_send_verification
  try_send_verification-Progress user = search (statement_rules, store_verification_tx-Evolves)

  pub send_verification_email-Progress :
      (user : User) → Upholds (Progress db) (send_verification_email env user)
  unfolding send_verification_email
  send_verification_email-Progress user = search (statement_rules, try_send_verification-Progress)

  verify_email_tx-Evolves : (token : String) → Upholds (Evolves db) (verify_email_tx env token)
  unfolding verify_email_tx
  verify_email_tx-Evolves token = search (statement_rules)

  pub verify_email-Progress : (token : String) → Upholds (Progress db) (verify_email env token)
  unfolding verify_email
  verify_email-Progress token = search (statement_rules, verify_email_tx-Evolves)

  pub resend_verification-Progress :
      (user : User) → Upholds (Progress db) (resend_verification env user)
  unfolding resend_verification
  resend_verification-Progress user = search (statement_rules, send_verification_email-Progress)

  pub cleanup_email_verifications-Progress :
      (retain : ℕ) → Upholds (Progress db) (cleanup_email_verifications env retain)
  unfolding cleanup_email_verifications
  cleanup_email_verifications-Progress retain = search (statement_rules)

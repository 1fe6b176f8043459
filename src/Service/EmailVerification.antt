-- ===== src/Service/EmailVerification.antt =====
-- internal/identity/email_verification.go.
use git_single_tenant_templa.Repo.Users
use git_single_tenant_templa.Repo.EmailVerifications
use git_single_tenant_templa.Prelude.{ℕ, ◌+◌, String, some, [], ◌∷◌, if◌then◌else◌}
use git_single_tenant_templa.Audit.{record_event, event_of}
use git_single_tenant_templa.Exec.{
  Exec, pure, raise, gets, Conn, email_verification_mail, World, Env, in_tx, on_pool, ◌>>=◌, ◌>>◌,
}
use git_single_tenant_templa.Identity.Access.{is_verified}
use git_single_tenant_templa.Model.{User, email_verified, text, already_verified, validation}
use git_single_tenant_templa.Service.Common.{ignore, email_verify_token_prefix, new_token, send}

module _ (env : Env) where
  unfoldable pub store_verification_tx : User → String → ℕ → Exec Conn (Unit {0})
  store_verification_tx user digest expires_at = do
    EmailVerifications.invalidate_email_verifications user.id
    EmailVerifications.create_email_verification user.id user.email digest expires_at

  -- The steps of SendVerificationEmail up to its first failure.
  unfoldable pub try_send_verification : User → Exec World (Unit {0})
  try_send_verification user = do
    (plaintext, digest) ← new_token env email_verify_token_prefix
    now ← gets (λ w. w.now)
    in_tx env (store_verification_tx user digest (now + env.email_verify_ttl))
    send env (record { to = user.email; kind = email_verification_mail; token = plaintext })

  -- Every failure on the way is logged and ends the method.
  unfoldable pub send_verification_email : User → Exec World (Unit {0})
  send_verification_email user =
      if is_verified user then pure tt else ignore (try_send_verification user)

  unfoldable pub verify_email_tx : String → Exec Conn User
  verify_email_tx token = do
    (user_id, email) ← EmailVerifications.consume_email_verification (env.hash_token token)
    user ← Users.mark_email_verified env user_id email
    record_event env
        (event_of (some user_id) email_verified "user" (some user_id) (("email", text email) ∷ []))
    pure user

  unfoldable pub verify_email : String → Exec World User
  verify_email token = in_tx env (verify_email_tx token)

  unfoldable pub resend_verification : User → Exec World (Unit {0})
  resend_verification user =
      if is_verified user then raise (validation already_verified) else send_verification_email user

  unfoldable pub cleanup_email_verifications : ℕ → Exec World ℕ
  cleanup_email_verifications retain =
      on_pool env (EmailVerifications.delete_dead_email_verifications retain)

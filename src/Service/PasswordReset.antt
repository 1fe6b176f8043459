-- ===== src/Service/PasswordReset.antt =====
-- internal/identity/password_reset.go.
use git_single_tenant_templa.Repo.Users
use git_single_tenant_templa.Repo.Sessions
use git_single_tenant_templa.Repo.PasswordResets
use git_single_tenant_templa.Prelude.{
  ℕ, ◌+◌, String, not, Option, none, some, [], ◌∷◌, str_eq, if◌then◌else◌,
}
use git_single_tenant_templa.Audit.{record_event, event_of}
use git_single_tenant_templa.Exec.{
  Result, ok, err, Exec, pure, lift, gets, Conn, password_reset_mail, World, Env, in_tx, on_pool,
  ◌>>=◌, ◌>>◌,
}
use git_single_tenant_templa.Identity.Validation.{validate_password}
use git_single_tenant_templa.Model.{
  User, password_reset_requested, password_reset_rejected, password_reset, text, number,
}
use git_single_tenant_templa.Service.Common.{
  ignore, is_not_found, password_reset_token_prefix, ClientMeta, new_token, hash, send,
}

module _ (env : Env) where
  unfoldable pub record_reset_request : Option ℕ → String → String → Exec World (Unit {0})
  record_reset_request user_id email reason = ignore (
      on_pool env (
        record_event env (
          event_of user_id password_reset_rejected "user" none
            (("email", text email) ∷ ("reason", text reason) ∷ []))))

  unfoldable pub request_reset_tx : User → String → String → ℕ → ClientMeta → Exec Conn (Unit {0})
  request_reset_tx user email digest expires_at meta = do
    PasswordResets.invalidate_password_resets user.id
    PasswordResets.create_password_reset env user.id digest expires_at meta.ip_address
        meta.user_agent
    record_event env (
        event_of (some user.id) password_reset_requested "user" (some user.id)
          (("email", text email) ∷ []))

  -- The steps of RequestPasswordReset for an account that has a password, up to the first failure.
  unfoldable pub try_send_reset : User → String → ClientMeta → Exec World (Unit {0})
  try_send_reset user email meta = do
    (plaintext, digest) ← new_token env password_reset_token_prefix
    now ← gets (λ w. w.now)
    in_tx env (request_reset_tx user email digest (now + env.password_reset_ttl) meta)
    send env (record { to = email; kind = password_reset_mail; token = plaintext })

  unfoldable pub request_for : String → ClientMeta → Result User → Exec World (Unit {0})
  request_for email meta (err e) =
      if is_not_found e then record_reset_request none email "unknown_email" else pure tt
  request_for email meta (ok user) =
      if not user.is_active
      then record_reset_request (some user.id) email "deactivated"
      else if str_eq user.password_hash ""
      then record_reset_request (some user.id) email "no_password_set"
      else ignore (try_send_reset user email meta)

  unfoldable pub request_password_reset : String → ClientMeta → Exec World (Unit {0})
  request_password_reset raw_email meta w =
      let email = env.to_lower (env.trim_space raw_email) in
      let found = on_pool env (Users.get_user_by_email env email) w in
      request_for email meta found.0 found.1

  unfoldable pub reset_password_tx : String → String → Exec Conn (Unit {0})
  reset_password_tx digest new_hash = do
    user_id ← PasswordResets.consume_password_reset digest
    Users.update_user_password user_id new_hash
    revoked ← Sessions.revoke_user_sessions user_id
    PasswordResets.invalidate_password_resets user_id
    record_event env (
        event_of (some user_id) password_reset "user" (some user_id)
          (("sessions_revoked", number revoked) ∷ []))

  unfoldable pub reset_password : String → String → Exec World (Unit {0})
  reset_password token new_password = do
    lift (validate_password env new_password)
    new_hash ← hash env new_password
    in_tx env (reset_password_tx (env.hash_token token) new_hash)

  unfoldable pub cleanup_password_resets : ℕ → Exec World ℕ
  cleanup_password_resets retain = on_pool env (PasswordResets.delete_dead_password_resets retain)

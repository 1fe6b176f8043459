-- ===== src/Service/Sessions.antt =====
-- internal/identity/service.go: login, the sessions of a user, and the change of a password.
use git_single_tenant_templa.Repo.Users
use git_single_tenant_templa.Repo.Sessions
use git_single_tenant_templa.Prelude.{
  ℕ, ◌+◌, String, Bool, true, false, not, ◌||◌, Option, none, some, List, [], ◌∷◌, str_eq,
  if◌then◌else◌,
}
use git_single_tenant_templa.Audit.{record_event, event_of}
use git_single_tenant_templa.Exec.{
  Result, ok, err, Exec, pure, raise, lift, gets, require, Conn, World, Verdict, matches, mismatch,
  malformed, Env, in_tx, on_pool, ◌>>=◌, ◌>>◌,
}
use git_single_tenant_templa.Identity.Validation.{validate_password}
use git_single_tenant_templa.Model.{
  User, Session, user_logged_in, user_logged_out, password_changed, session_revoked, login_failed,
  text, number, invalid_credentials, unauthenticated,
}
use git_single_tenant_templa.Service.Common.{
  ignore, is_not_found, session_token_prefix, ClientMeta, new_token, hash,
}

-- `err != nil` of Verify, whichever error it is.
abbrev pub is_match : Verdict → Bool
is_match matches = true
is_match _ = false

module _ (env : Env) where
  unfoldable pub record_failed_login : String → Option ℕ → String → Exec World (Unit {0})
  record_failed_login email user_id reason = ignore (
      on_pool env (
        record_event env (
          event_of user_id login_failed "user" none
            (("email", text email) ∷ ("reason", text reason) ∷ []))))

  -- A refusal hashes the password all the same, so that it takes as long as a comparison.
  unfoldable pub refuse_login : String → String → Option ℕ → String → Exec World (String × User)
  refuse_login email password user_id reason = do
    ignore (hash env password)
    record_failed_login email user_id reason
    raise invalid_credentials

  unfoldable pub reject_password : String → ℕ → String → Exec World (String × User)
  reject_password email user_id reason = do
    record_failed_login email (some user_id) reason
    raise invalid_credentials

  -- A stored hash under weaker parameters is replaced; a failure to do so is ignored.
  unfoldable pub upgrade_hash : User → String → Exec World (Unit {0})
  upgrade_hash user password =
      if not (env.needs_rehash user.password_hash)
      then pure tt
      else ignore
          do new_hash ← hash env password; on_pool env (Users.update_user_password user.id new_hash)

  unfoldable pub login_tx : User → String → ℕ → ClientMeta → Exec Conn (Unit {0})
  login_tx user digest expires_at meta = do
    Sessions.create_session env user.id digest expires_at meta.user_agent meta.ip_address
    record_event env (
        event_of (some user.id) user_logged_in "user" (some user.id)
          (("ip", text meta.ip_address) ∷ ("user_agent", text meta.user_agent) ∷ []))

  unfoldable pub issue_session : User → ClientMeta → Exec World (String × User)
  issue_session user meta = do
    (plaintext, digest) ← new_token env session_token_prefix
    now ← gets (λ w. w.now)
    in_tx env (login_tx user digest (now + env.session_ttl) meta)
    pure (plaintext, user)

  -- The part of Login behind the comparison of the passwords.
  unfoldable pub login_verified :
      Verdict → String → String → ClientMeta → User → Exec World (String × User)
  login_verified mismatch email password meta user = reject_password email user.id "wrong_password"
  login_verified malformed email password meta user = reject_password email user.id "corrupt_hash"
  login_verified matches email password meta user = do
    upgrade_hash user password
    issue_session user meta

  -- The part of Login behind the lookup of the email.
  unfoldable pub login_found :
      String → String → ClientMeta → Result User → Exec World (String × User)
  login_found email password meta (err e) =
      if is_not_found e then refuse_login email password none "unknown_email" else raise e
  login_found email password meta (ok user) =
      if str_eq user.password_hash "" || not user.is_active
      then refuse_login email password (some user.id)
          (if str_eq user.password_hash "" then "no_password_set" else "deactivated")
      else login_verified (env.verify_password password user.password_hash) email password meta user

  unfoldable pub login : String → String → ClientMeta → Exec World (String × User)
  login raw_email password meta w =
      let email = env.to_lower (env.trim_space raw_email) in
      let found = on_pool env (Users.get_user_by_email env email) w in
      login_found email password meta found.0 found.1

  unfoldable pub authenticate : String → Exec World (User × Session)
  authenticate token =
      if str_eq token ""
      then raise unauthenticated
      else on_pool env (Sessions.authenticate_session (env.hash_token token))

  unfoldable pub logout_tx : String → ℕ → Exec Conn (Unit {0})
  logout_tx token user_id = do
    Sessions.revoke_session (env.hash_token token)
    record_event env (event_of (some user_id) user_logged_out "user" (some user_id) [])

  unfoldable pub logout : String → ℕ → Exec World (Unit {0})
  logout token user_id = in_tx env (logout_tx token user_id)

  unfoldable pub list_sessions : ℕ → Exec World (List Session)
  list_sessions user_id = on_pool env (Sessions.list_user_sessions user_id)

  unfoldable pub revoke_session_tx : User → ℕ → Exec Conn (Unit {0})
  revoke_session_tx actor session_id = do
    Sessions.revoke_session_by_id actor.id session_id
    record_event env (event_of (some actor.id) session_revoked "session" (some session_id) [])

  unfoldable pub revoke_session : User → ℕ → Exec World (Unit {0})
  revoke_session actor session_id = in_tx env (revoke_session_tx actor session_id)

  unfoldable pub change_password_tx : ℕ → String → Exec Conn (Unit {0})
  change_password_tx user_id new_hash = do
    Users.update_user_password user_id new_hash
    revoked ← Sessions.revoke_user_sessions user_id
    record_event env (
        event_of (some user_id) password_changed "user" (some user_id)
          (("sessions_revoked", number revoked) ∷ []))

  unfoldable pub change_password : ℕ → String → String → Exec World (Unit {0})
  change_password user_id current new_password = do
    lift (validate_password env new_password)
    user ← on_pool env (Users.get_user_by_id user_id)
    require (not (str_eq user.password_hash "")) invalid_credentials
    require (is_match (env.verify_password current user.password_hash)) invalid_credentials
    new_hash ← hash env new_password
    in_tx env (change_password_tx user_id new_hash)

  unfoldable pub cleanup_sessions : ℕ → Exec World ℕ
  cleanup_sessions retain = on_pool env (Sessions.delete_dead_sessions retain)

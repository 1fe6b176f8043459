-- ===== src/Service/Invitations.antt =====
-- internal/identity/service.go: invitations.
use git_single_tenant_templa.Repo.Users
use git_single_tenant_templa.Repo.Roles.Rows
use git_single_tenant_templa.Repo.Roles.Writes
use git_single_tenant_templa.Repo.Invitations
use git_single_tenant_templa.Prelude.{ℕ, ◌+◌, String, some, List, [], ◌∷◌, if◌then◌else◌}
use git_single_tenant_templa.Audit.{record_event, event_of}
use git_single_tenant_templa.Exec.{
  Result, ok, err, Exec, pure, raise, lift, gets, require, Conn, invitation_mail, World, Env, in_tx,
  on_pool, ◌>>=◌, ◌>>◌,
}
use git_single_tenant_templa.Identity.Access.{check_escalation}
use git_single_tenant_templa.Identity.Validation.{normalize_email, validate_password}
use git_single_tenant_templa.Model.{
  User, Role, Access, Invitation, invitation_created, invitation_revoked, invitation_accepted, text,
  email_taken, invitation_invalid, mail_failed,
}
use git_single_tenant_templa.Service.Common.{
  is_not_found, invitation_token_prefix, new_token, hash, send,
}

-- `if _, err := GetUserByEmail(email); err == nil { return ErrEmailTaken } else if !isNotFound(err) …`
unfoldable pub require_no_account : Result User → Exec World (Unit {0})
require_no_account (ok user) = raise email_taken
require_no_account (err e) = if is_not_found e then pure tt else raise e

-- The invitation is returned although the mail failed; the error says so.
unfoldable pub or_mail_failed : Invitation → (Result (Unit {0}) × World) → Result Invitation × World
or_mail_failed inv (ok _, w) = (ok inv, w)
or_mail_failed inv (err _, w) = (err mail_failed, w)

module _ (env : Env) where
  unfoldable pub check_no_account : String → Exec World (Unit {0})
  check_no_account email w =
      let found = on_pool env (Users.get_user_by_email env email) w in
      require_no_account found.0 found.1

  unfoldable pub invite_tx : User → String → Role → String → ℕ → Exec Conn Invitation
  invite_tx actor email role digest expires_at = do
    Invitations.revoke_pending_invitation_for env email
    id ← Invitations.create_invitation env email role.row.id actor.id digest expires_at
    inv ← Invitations.get_invitation id
    record_event env (
        event_of (some actor.id) invitation_created "invitation" (some inv.row.id)
          (("email", text email) ∷ ("role", text role.row.key) ∷ []))
    pure inv

  unfoldable pub mail_invitation : String → String → Invitation → Exec World Invitation
  mail_invitation email plaintext inv w =
      or_mail_failed inv
        (send env (record { to = email; kind = invitation_mail; token = plaintext }) w)

  unfoldable pub invite : User → Access → String → ℕ → Exec World Invitation
  invite actor access raw_email role_id = do
    email ← lift (normalize_email env raw_email)
    role ← on_pool env (Rows.get_role role_id)
    lift (check_escalation access role.permissions)
    check_no_account email
    (plaintext, digest) ← new_token env invitation_token_prefix
    now ← gets (λ w. w.now)
    inv ← in_tx env (invite_tx actor email role digest (now + env.invitation_ttl))
    mail_invitation email plaintext inv

  unfoldable pub list_invitations : Exec World (List Invitation)
  list_invitations = on_pool env Invitations.list_pending_invitations

  unfoldable pub revoke_invitation_tx : User → ℕ → Exec Conn (Unit {0})
  revoke_invitation_tx actor invitation_id = do
    Invitations.revoke_invitation invitation_id
    record_event env
        (event_of (some actor.id) invitation_revoked "invitation" (some invitation_id) [])

  unfoldable pub revoke_invitation : User → ℕ → Exec World (Unit {0})
  revoke_invitation actor invitation_id = in_tx env (revoke_invitation_tx actor invitation_id)

  unfoldable pub accept_invitation_tx : String → String → String → String → Exec Conn User
  accept_invitation_tx digest password_hash first_name last_name = do
    inv ← Invitations.get_invitation_by_token_hash digest
    now ← gets (λ c. c.now)
    require (Invitations.is_pending now inv) invitation_invalid
    Invitations.accept_invitation inv.row.id
    created ← Users.create_user env inv.row.email password_hash first_name last_name
    Writes.add_user_role created.id inv.role.row.id
    user ← Users.mark_email_verified env created.id created.email
    record_event env (
        event_of (some user.id) invitation_accepted "invitation" (some inv.row.id)
          (("email", text inv.row.email) ∷ ("role", text inv.role.row.key) ∷ []))
    pure user

  unfoldable pub accept_invitation : String → String → String → String → Exec World User
  accept_invitation token password first_name last_name = do
    lift (validate_password env password)
    password_hash ← hash env password
    in_tx env (
        accept_invitation_tx (env.hash_token token) password_hash (env.trim_space first_name)
          (env.trim_space last_name))

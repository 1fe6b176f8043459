-- ===== src/Evolution/Tokens.antt =====
-- The statements on password resets, email verifications, invitations and API keys.
use git_single_tenant_templa.Repo.PasswordResets
use git_single_tenant_templa.Repo.EmailVerifications
use git_single_tenant_templa.Repo.Invitations
use git_single_tenant_templa.Repo.ApiKeys
use git_single_tenant_templa.Prelude.{
  ℕ, String, Bool, not, ◌&&◌, ◌||◌, Option, List, [], ◌∷◌, str_eq, ◌==◌, is_none, any, find?,
}
use git_single_tenant_templa.Evolution.{Evolves, Became-fresh}
use git_single_tenant_templa.Exec.{err, Conn, Env}
use git_single_tenant_templa.Exec.Upholds.{Upholds, Upholds-pure, Upholds-bind, upholds_rules}
use git_single_tenant_templa.Exec.Leaves.{found-Leaves, if-state}
use git_single_tenant_templa.Identity.Permission.{has}
use git_single_tenant_templa.Model.{
  Permission, PermissionSet, InvitationRow, Invitation, Db, unknown_permission, Error, not_found,
  unauthenticated, email_taken, invitation_invalid, invalid_token, validation, internal,
}
use git_single_tenant_templa.Repo.Users.{same_email}

module _ {db : Db} where
  pub create_password_reset-Evolves :
      (env : Env) (id : ℕ) (digest : String) (expires : ℕ) (ip ua : String)
      → Upholds (Evolves db) (PasswordResets.create_password_reset env id digest expires ip ua)
  unfolding PasswordResets.create_password_reset
  create_password_reset-Evolves env id digest expires ip ua = record {
    at = λ s h.
        if-state (Evolves db)
          (any (λ r. str_eq r.token_hash digest) s.db.password_resets
            || not (any (λ u. u.id == id) s.db.users))
          (err internal, s) _ h (Became-fresh h);
  }

  pub consume_password_reset-Evolves :
      (digest : String) → Upholds (Evolves db) (PasswordResets.consume_password_reset digest)
  unfolding PasswordResets.consume_password_reset
  consume_password_reset-Evolves digest = record {
    at = λ s h.
        found-Leaves (Evolves db)
          (find? (λ r. str_eq r.token_hash digest && PasswordResets.is_usable_reset s.now r)
            s.db.password_resets)
          (err invalid_token, s) _ h (λ _. h);
  }

  pub invalidate_password_resets-Evolves :
      (id : ℕ) → Upholds (Evolves db) (PasswordResets.invalidate_password_resets id)
  unfolding PasswordResets.invalidate_password_resets
  invalidate_password_resets-Evolves id = record { at = λ s h. h }

  pub delete_dead_password_resets-Evolves :
      (n : ℕ) → Upholds (Evolves db) (PasswordResets.delete_dead_password_resets n)
  unfolding PasswordResets.delete_dead_password_resets
  delete_dead_password_resets-Evolves n = record { at = λ s h. h }

  pub create_email_verification-Evolves :
      (id : ℕ) (email digest : String) (expires : ℕ)
      → Upholds (Evolves db) (EmailVerifications.create_email_verification id email digest expires)
  unfolding EmailVerifications.create_email_verification
  create_email_verification-Evolves id email digest expires = record {
    at = λ s h.
        if-state (Evolves db)
          (any (λ v. str_eq v.token_hash digest) s.db.email_verifications
            || not (any (λ u. u.id == id) s.db.users))
          (err internal, s) _ h (Became-fresh h);
  }

  pub consume_email_verification-Evolves :
      (digest : String)
      → Upholds (Evolves db) (EmailVerifications.consume_email_verification digest)
  unfolding EmailVerifications.consume_email_verification
  consume_email_verification-Evolves digest = record {
    at = λ s h.
        found-Leaves (Evolves db)
          (find?
            (λ v. str_eq v.token_hash digest && EmailVerifications.is_usable_verification s.now v)
            s.db.email_verifications)
          (err invalid_token, s) _ h (λ _. h);
  }

  pub invalidate_email_verifications-Evolves :
      (id : ℕ) → Upholds (Evolves db) (EmailVerifications.invalidate_email_verifications id)
  unfolding EmailVerifications.invalidate_email_verifications
  invalidate_email_verifications-Evolves id = record { at = λ s h. h }

  pub delete_dead_email_verifications-Evolves :
      (n : ℕ) → Upholds (Evolves db) (EmailVerifications.delete_dead_email_verifications n)
  unfolding EmailVerifications.delete_dead_email_verifications
  delete_dead_email_verifications-Evolves n = record { at = λ s h. h }

  first_invitation-Evolves :
      (e : Error) (is : List Invitation) (s : Conn)
      → Evolves db s
      → Evolves db (Invitations.first_invitation e is s).1
  first_invitation-Evolves e [] s h = h
  first_invitation-Evolves e (i ∷ is) s h = h

  pub get_invitation-Evolves : (id : ℕ) → Upholds (Evolves db) (Invitations.get_invitation id)
  unfolding Invitations.get_invitation
  get_invitation-Evolves id = record { at = λ s h. first_invitation-Evolves not_found _ s h }

  pub get_invitation_by_token_hash-Evolves :
      (digest : String) → Upholds (Evolves db) (Invitations.get_invitation_by_token_hash digest)
  unfolding Invitations.get_invitation_by_token_hash
  get_invitation_by_token_hash-Evolves digest = record {
    at = λ s h. first_invitation-Evolves invitation_invalid _ s h;
  }

  pub list_pending_invitations-Evolves : Upholds (Evolves db) Invitations.list_pending_invitations
  unfolding Invitations.list_pending_invitations
  list_pending_invitations-Evolves = record { at = λ s h. h }

  pub create_invitation-Evolves :
      (env : Env) (email : String) (role_id by : ℕ) (digest : String) (expires : ℕ)
      → Upholds (Evolves db) (Invitations.create_invitation env email role_id by digest expires)
  unfolding Invitations.create_invitation
  create_invitation-Evolves env email role_id by digest expires = record {
    at = λ s h.
        if-state (Evolves db)
          (any (λ i. Invitations.is_open i && same_email env i.email email) s.db.invitations)
          (err email_taken, s) _ h
          (if-state (Evolves db)
            (any (λ i. str_eq i.token_hash digest) s.db.invitations
              || not (any (λ r. r.id == role_id) s.db.roles)
              || not (any (λ u. u.id == by) s.db.users))
            (err internal, s) _ h (Became-fresh h));
  }

  update_invitation-Evolves :
      (p : InvitationRow → Bool) (f : InvitationRow → InvitationRow) (e : Error)
      → Upholds (Evolves db) (Invitations.update_invitation p f e)
  unfolding Invitations.update_invitation
  update_invitation-Evolves p f e = record {
    at = λ s h. if-state (Evolves db) (any p s.db.invitations) _ (err e, s) h h;
  }

  pub accept_invitation-Evolves : (id : ℕ) → Upholds (Evolves db) (Invitations.accept_invitation id)
  unfolding Invitations.accept_invitation
  accept_invitation-Evolves id = record {
    at = λ s h. (update_invitation-Evolves _ _ invitation_invalid).at s h;
  }

  pub revoke_invitation-Evolves : (id : ℕ) → Upholds (Evolves db) (Invitations.revoke_invitation id)
  unfolding Invitations.revoke_invitation
  revoke_invitation-Evolves id = record {
    at = λ s h. (update_invitation-Evolves _ _ not_found).at s h;
  }

  pub revoke_pending_invitation_for-Evolves :
      (env : Env) (email : String)
      → Upholds (Evolves db) (Invitations.revoke_pending_invitation_for env email)
  unfolding Invitations.revoke_pending_invitation_for
  revoke_pending_invitation_for-Evolves env email = record { at = λ s h. h }

  insert_api_key-Evolves :
      (id : ℕ) (name prefix digest : String) (expires : Option ℕ)
      → Upholds (Evolves db) (ApiKeys.insert_api_key id name prefix digest expires)
  unfolding ApiKeys.insert_api_key
  insert_api_key-Evolves id name prefix digest expires = record {
    at = λ s h.
        if-state (Evolves db)
          (any (λ k. str_eq k.token_hash digest) s.db.api_keys
            || not (any (λ u. u.id == id) s.db.users))
          (err internal, s) _ h (Became-fresh h);
  }

  grant_api_key_permission-Evolves :
      (id : ℕ) (p : Permission) → Upholds (Evolves db) (ApiKeys.grant_api_key_permission id p)
  unfolding ApiKeys.grant_api_key_permission
  grant_api_key_permission-Evolves id p = record {
    at = λ s h.
        if-state (Evolves db) (not (has s.db.permissions p))
          (err (validation (unknown_permission p)), s) _ h
          (if-state (Evolves db) (any (λ kp. kp.0 == id && str_eq kp.1 p) s.db.api_key_permissions)
            (err internal, s) _ h h);
  }

  grant_api_key_permissions-Evolves :
      (id : ℕ) (ps : List Permission)
      → Upholds (Evolves db) (ApiKeys.grant_api_key_permissions id ps)
  unfolding ApiKeys.grant_api_key_permissions
  grant_api_key_permissions-Evolves id [] = Upholds-pure tt
  grant_api_key_permissions-Evolves id (p ∷ ps) =
      Upholds-bind _ _ (grant_api_key_permission-Evolves id p)
        (λ _. grant_api_key_permissions-Evolves id ps)

  pub create_api_key-Evolves :
      (id : ℕ) (name prefix digest : String) (perms : PermissionSet) (expires : Option ℕ)
      → Upholds (Evolves db) (ApiKeys.create_api_key id name prefix digest perms expires)
  unfolding ApiKeys.create_api_key
  create_api_key-Evolves id name prefix digest perms expires =
      search (upholds_rules, insert_api_key-Evolves, grant_api_key_permissions-Evolves)

  pub revoke_api_key-Evolves : (id : ℕ) → Upholds (Evolves db) (ApiKeys.revoke_api_key id)
  unfolding ApiKeys.revoke_api_key
  revoke_api_key-Evolves id = record {
    at = λ s h.
        found-Leaves (Evolves db) (find? (λ k. k.id == id && is_none k.revoked_at) s.db.api_keys)
          (err not_found, s) _ h (λ _. h);
  }

  pub claim_api_key-Evolves :
      (digest : String) → Upholds (Evolves db) (ApiKeys.claim_api_key digest)
  unfolding ApiKeys.claim_api_key
  claim_api_key-Evolves digest = record {
    at = λ s h.
        found-Leaves (Evolves db)
          (find? (λ k. str_eq k.token_hash digest && ApiKeys.is_live_key s.db s.now k)
            s.db.api_keys)
          (err unauthenticated, s) _ h (λ _. h);
  }

  pub load_api_key_permissions-Evolves :
      (id : ℕ) → Upholds (Evolves db) (ApiKeys.load_api_key_permissions id)
  unfolding ApiKeys.load_api_key_permissions
  load_api_key_permissions-Evolves id = record { at = λ s h. h }

  pub list_api_keys-Evolves : Upholds (Evolves db) ApiKeys.list_api_keys
  unfolding ApiKeys.list_api_keys
  list_api_keys-Evolves = record { at = λ s h. h }

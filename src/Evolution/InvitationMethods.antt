-- ===== src/Evolution/InvitationMethods.antt =====
-- The methods on invitations (service.go) and API keys (apikeys_service.go).
use git_single_tenant_templa.Service.Invitations
use git_single_tenant_templa.Service.ApiKeys
use git_single_tenant_templa.Prelude.{ℕ, String, Option, List}
use git_single_tenant_templa.Evolution.{Evolves}
use git_single_tenant_templa.Evolution.Accounts.{get_user_by_email-Evolves}
use git_single_tenant_templa.Evolution.Calls.{
  Progress, On-on_pool, On-send, Upholds-attempt, method_rules,
}
use git_single_tenant_templa.Evolution.Rules.{statement_rules}
use git_single_tenant_templa.Exec.{Result, ok, err, World, Env}
use git_single_tenant_templa.Exec.Upholds.{Upholds}
use git_single_tenant_templa.Model.{Permission, PermissionSet, User, Role, Access, Invitation, Db}
use git_single_tenant_templa.Service.Invitations.{
  list_invitations, require_no_account, or_mail_failed, check_no_account, invite_tx,
  mail_invitation, invite,
}

module _ {db : Db} (env : Env) where
  require_no_account-Progress :
      (found : Result User) → Upholds (Progress db) (require_no_account found)
  unfolding require_no_account
  require_no_account-Progress (ok user) = search method_rules
  require_no_account-Progress (err e) = search method_rules

  check_no_account-Progress : (email : String) → Upholds (Progress db) (check_no_account env email)
  unfolding check_no_account
  check_no_account-Progress email =
      Upholds-attempt _ require_no_account (On-on_pool env _ (get_user_by_email-Evolves env _))
        require_no_account-Progress

  invite_tx-Evolves :
      (actor : User) (email : String) (role : Role) (digest : String) (expires_at : ℕ)
      → Upholds (Evolves db) (invite_tx env actor email role digest expires_at)
  unfolding invite_tx
  invite_tx-Evolves actor email role digest expires_at = search (statement_rules)

  or_mail_failed-Progress :
      (inv : Invitation) (r : Result (Unit {0})) (w : World)
      → Progress db w
      → Progress db (or_mail_failed inv (r, w)).1
  unfolding or_mail_failed
  or_mail_failed-Progress inv (ok _) w h = h
  or_mail_failed-Progress inv (err _) w h = h

  mail_invitation-Progress :
      (email plaintext : String) (inv : Invitation)
      → Upholds (Progress db) (mail_invitation env email plaintext inv)
  unfolding mail_invitation
  mail_invitation-Progress email plaintext inv = record {
    at = λ w h. or_mail_failed-Progress inv _ _ ((On-send env _).at w h);
  }

  pub invite-Progress :
      (actor : User) (access : Access) (raw_email : String) (role_id : ℕ)
      → Upholds (Progress db) (invite env actor access raw_email role_id)
  unfolding invite
  invite-Progress actor access raw_email role_id =
      search
        (statement_rules, check_no_account-Progress, invite_tx-Evolves, mail_invitation-Progress)
        depth 16

  pub list_invitations-Progress : Upholds (Progress db) (list_invitations env)
  unfolding list_invitations
  list_invitations-Progress = search (statement_rules)

  pub revoke_invitation-Progress :
      (actor : User) (invitation_id : ℕ)
      → Upholds (Progress db) (Invitations.revoke_invitation env actor invitation_id)
  unfolding Invitations.revoke_invitation Invitations.revoke_invitation_tx
  revoke_invitation-Progress actor invitation_id = search (statement_rules)

  accept_invitation_tx-Evolves :
      (digest password_hash first_name last_name : String)
      → Upholds
          (Evolves db)
          (Invitations.accept_invitation_tx env digest password_hash first_name last_name)
  unfolding Invitations.accept_invitation_tx
  accept_invitation_tx-Evolves digest password_hash first_name last_name =
      search (statement_rules) depth 16

  pub accept_invitation-Progress :
      (token password first_name last_name : String)
      → Upholds
          (Progress db)
          (Invitations.accept_invitation env token password first_name last_name)
  unfolding Invitations.accept_invitation
  accept_invitation-Progress token password first_name last_name =
      search (statement_rules, accept_invitation_tx-Evolves)

  create_api_key_tx-Evolves :
      (actor : User) (name display_prefix digest : String) (set : PermissionSet)
      (expires_at : Option ℕ)
      → Upholds
          (Evolves db)
          (ApiKeys.create_api_key_tx env actor name display_prefix digest set expires_at)
  unfolding ApiKeys.create_api_key_tx
  create_api_key_tx-Evolves actor name display_prefix digest set expires_at =
      search (statement_rules)

  pub create_api_key-Progress :
      (actor : User) (access : Access) (raw_name : String) (perms : List Permission)
      (expires_at : Option ℕ)
      → Upholds (Progress db) (ApiKeys.create_api_key env actor access raw_name perms expires_at)
  unfolding ApiKeys.create_api_key
  create_api_key-Progress actor access raw_name perms expires_at =
      search (statement_rules, create_api_key_tx-Evolves) depth 16

  pub list_api_keys-Progress : Upholds (Progress db) (ApiKeys.list_api_keys env)
  unfolding ApiKeys.list_api_keys
  list_api_keys-Progress = search (statement_rules)

  pub revoke_api_key-Progress :
      (actor : User) (key_id : ℕ) → Upholds (Progress db) (ApiKeys.revoke_api_key env actor key_id)
  unfolding ApiKeys.revoke_api_key ApiKeys.revoke_api_key_tx
  revoke_api_key-Progress actor key_id = search (statement_rules)

  pub authenticate_api_key-Progress :
      (token : String) → Upholds (Progress db) (ApiKeys.authenticate_api_key env token)
  unfolding ApiKeys.authenticate_api_key
  authenticate_api_key-Progress token = search (statement_rules) depth 16

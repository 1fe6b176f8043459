-- ===== src/Evolution/Rules.antt =====
-- Every statement of the repositories, as rules for the proofs about the methods that run them.
use git_single_tenant_templa.Evolution.Accounts.{
  record_event-Evolves, get_user_by_id-Evolves, get_user_by_email-Evolves, set_user_active-Evolves,
  set_superuser-Evolves, mark_email_verified-Evolves, update_user_password-Evolves,
  create_user-Evolves, create_session-Evolves, authenticate_session-Evolves, revoke_session-Evolves,
  revoke_user_sessions-Evolves, list_user_sessions-Evolves, delete_dead_sessions-Evolves,
  revoke_session_by_id-Evolves,
}
use git_single_tenant_templa.Evolution.Calls.{method_rules}
use git_single_tenant_templa.Evolution.RoleRows.{
  create_role-Evolves, update_role-Evolves, delete_role-Evolves,
}
use git_single_tenant_templa.Evolution.Roles.{
  get_role-Evolves, get_role_by_key-Evolves, list_roles-Evolves, get_roles_by_ids-Evolves,
  load_user_roles-Evolves, count_users_with_role-Evolves, count_active_users_with_role-Evolves,
  replace_role_permissions-Evolves, add_user_role-Evolves,
}
use git_single_tenant_templa.Evolution.Tokens.{
  create_password_reset-Evolves, consume_password_reset-Evolves, invalidate_password_resets-Evolves,
  delete_dead_password_resets-Evolves, create_email_verification-Evolves,
  consume_email_verification-Evolves, invalidate_email_verifications-Evolves,
  delete_dead_email_verifications-Evolves, get_invitation-Evolves,
  get_invitation_by_token_hash-Evolves, list_pending_invitations-Evolves, create_invitation-Evolves,
  accept_invitation-Evolves, revoke_invitation-Evolves, revoke_pending_invitation_for-Evolves,
  create_api_key-Evolves, revoke_api_key-Evolves, claim_api_key-Evolves,
  load_api_key_permissions-Evolves, list_api_keys-Evolves,
}

pub ruleset statement_rules = (
  method_rules, record_event-Evolves, get_user_by_id-Evolves, get_user_by_email-Evolves,
  set_user_active-Evolves, set_superuser-Evolves, mark_email_verified-Evolves,
  update_user_password-Evolves, create_user-Evolves, create_session-Evolves,
  authenticate_session-Evolves, revoke_session-Evolves, revoke_user_sessions-Evolves,
  list_user_sessions-Evolves, delete_dead_sessions-Evolves, revoke_session_by_id-Evolves,
  create_password_reset-Evolves, consume_password_reset-Evolves, invalidate_password_resets-Evolves,
  delete_dead_password_resets-Evolves, create_email_verification-Evolves,
  consume_email_verification-Evolves, invalidate_email_verifications-Evolves,
  delete_dead_email_verifications-Evolves, get_invitation-Evolves,
  get_invitation_by_token_hash-Evolves, list_pending_invitations-Evolves, create_invitation-Evolves,
  accept_invitation-Evolves, revoke_invitation-Evolves, revoke_pending_invitation_for-Evolves,
  create_api_key-Evolves, revoke_api_key-Evolves, claim_api_key-Evolves,
  load_api_key_permissions-Evolves, list_api_keys-Evolves, get_role-Evolves,
  get_role_by_key-Evolves, list_roles-Evolves, get_roles_by_ids-Evolves, load_user_roles-Evolves,
  count_users_with_role-Evolves, count_active_users_with_role-Evolves,
  replace_role_permissions-Evolves, add_user_role-Evolves, create_role-Evolves, update_role-Evolves,
  delete_role-Evolves,
)

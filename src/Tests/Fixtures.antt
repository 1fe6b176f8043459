-- ===== src/Tests/Fixtures.antt =====
-- A small installation, and an environment in which nothing fails: passwords are stored as they
-- are, and a token is its own digest.
use git_single_tenant_templa.Repo.Users as Stored
use git_single_tenant_templa.Repo.Sessions as StoredSessions
use git_single_tenant_templa.Repo.Roles.Rows
use git_single_tenant_templa.Repo.Roles.Writes
use git_single_tenant_templa.Repo.Invitations as StoredInvitations
use git_single_tenant_templa.Repo.PasswordResets
use git_single_tenant_templa.Repo.EmailVerifications
use git_single_tenant_templa.Repo.ApiKeys as StoredApiKeys
use git_single_tenant_templa.Service.Users
use git_single_tenant_templa.Service.Sessions
use git_single_tenant_templa.Service.Roles
use git_single_tenant_templa.Service.Invitations
use git_single_tenant_templa.Service.PasswordReset
use git_single_tenant_templa.Service.EmailVerification
use git_single_tenant_templa.Service.ApiKeys
use git_single_tenant_templa.Prelude.{
  ℕ, String, true, false, none, some, [], ◌∷◌, flat_map, str_eq, if◌then◌else◌, any, all, filter,
  find?, update, count, take, insert_by, sort_by,
}
use git_single_tenant_templa.Audit.{
  with_api_key, cap_user_agent, entry_of, record_event, page_limit, action_name, passes, newer,
  list_entries, purge,
}
use git_single_tenant_templa.Exec.{
  pure, raise, lift, gets, ◌>>=◌, require, World, matches, mismatch, Env, commit, in_tx, on_pool,
  or_raise,
}
use git_single_tenant_templa.Identity.Access.{
  union_from, union_permissions, has_role, can, actor_holds_role, check_escalation, is_verified,
}
use git_single_tenant_templa.Identity.Permission.{
  catalog, has, add, add_all, new_permission_set, valid, all_permissions, superset, text_le,
  missing, slice,
}
use git_single_tenant_templa.Identity.Validation.{
  invalid, is_address, collect_permissions, is_past, normalize_email, validate_password,
  validate_role_input, validate_api_key_input,
}
use git_single_tenant_templa.Model.{User, RoleRow, Session, PasswordReset, Db}
use git_single_tenant_templa.Repo.Roles.Holders.{has_unique_ids}
use git_single_tenant_templa.Repo.Roles.Laws.{role_grants, role_exists, user_can}
use git_single_tenant_templa.Server.Guard.{
  access_of, require_access, require_permission, token_of, bearer_token, require_api_key,
  require_session, require_auth,
}
use git_single_tenant_templa.Server.Guard.Laws.{may}
use git_single_tenant_templa.Server.RateLimit.{
  bucket_of, put_bucket, allow_bucket, allow, reap, or_wait, allow_keys,
}
use git_single_tenant_templa.Server.RateLimit.Bounds.{after_call, passes_key, passed}
use git_single_tenant_templa.Server.Security.{is_allowed}
use git_single_tenant_templa.Service.Assignment.{roles_grant}
use git_single_tenant_templa.Service.Common.{
  ignore, is_not_found, ClientMeta, new_token, hash, send,
}
use git_single_tenant_templa.Service.LastAdmin.{has_active_admin}
use git_single_tenant_templa.Service.LastHolder.{has_admin}

abbrev pub test_env : Env
test_env = record {
  db_fails = λ _. false;
  mail_fails = λ _. false;
  random = λ n. some "abcdefgh";
  hash_password = λ n p. some p;
  verify_password = λ p h. if str_eq p h then matches else mismatch;
  needs_rehash = λ h. false;
  hash_token = λ t. t;
  fold_email = λ e. e;
  trim_space = λ s. s;
  to_lower = λ s. s;
  parse_address = λ s. some s;
  parse_ip = λ s. some s;
  role_key_pattern = λ s. true;
  collate = λ a b. true;
  session_ttl = 100;
  invitation_ttl = 100;
  password_reset_ttl = 100;
  email_verify_ttl = 100;
  min_password_length = 4;
  meta = record { request_id = "r"; ip_address = "ip"; user_agent = "ua"; api_key_id = none };
}

abbrev pub user_named : ℕ → String → User
user_named id email = record {
  id = id;
  email = email;
  first_name = "";
  last_name = "";
  is_superuser = false;
  is_active = true;
  email_verified_at = none;
  created_at = 0;
  updated_at = 0;
  password_hash = "secret";
}

abbrev pub ann : User
ann = user_named 1 "ann@x"

abbrev pub bob : User
bob = user_named 2 "bob@x"

abbrev pub admin_role : RoleRow
admin_role = record {
  id = 3;
  key = "admin";
  name = "Admin";
  is_system = true;
  created_at = 0;
  updated_at = 0;
}

abbrev pub billing_role : RoleRow
billing_role = record {
  id = 4;
  key = "billing";
  name = "Billing";
  is_system = false;
  created_at = 0;
  updated_at = 0;
}

abbrev pub ann_session : Session
ann_session = record {
  id = 6;
  user_id = 1;
  expires_at = 1000;
  revoked_at = none;
  user_agent = "ua";
  ip_address = none;
  last_used_at = none;
  created_at = 0;
  token_hash = "mtt_sess_ann";
}

abbrev pub bob_reset : PasswordReset
bob_reset = record {
  id = 7;
  user_id = 2;
  token_hash = "mtt_pwr_bob";
  expires_at = 1000;
  used_at = none;
  created_at = 0;
  ip_address = none;
  user_agent = "ua";
}

-- ann is the admin and bob holds no role. Both have a session; bob has asked for a reset of the
-- password, and for a verification of the email.
abbrev pub small_db : Db
small_db = record {
  next_id = 10;
  permissions = "users.read" ∷ "users.update" ∷ [];
  users = bob ∷ ann ∷ [];
  roles = billing_role ∷ admin_role ∷ [];
  role_permissions = (3, "users.read") ∷ (3, "users.update") ∷ (4, "users.read") ∷ [];
  user_roles = (1, 3) ∷ [];
  sessions =
      record {
        id = 5;
        user_id = 2;
        expires_at = 1000;
        revoked_at = none;
        user_agent = "ua";
        ip_address = none;
        last_used_at = none;
        created_at = 0;
        token_hash = "mtt_sess_bob";
      }
      ∷ ann_session
      ∷ [];
  invitations = [];
  api_keys = [];
  api_key_permissions = [];
  password_resets = bob_reset ∷ [];
  email_verifications =
      record {
        id = 8;
        user_id = 2;
        email = "bob@x";
        token_hash = "mtt_ver_bob";
        expires_at = 1000;
        used_at = none;
        created_at = 0;
      }
      ∷ [];
  audit_log = [];
}

abbrev pub small_world : World
small_world = record { conn = record { now = 50; db = small_db }; tick = 0; outbox = [] }

abbrev pub client : ClientMeta
client = record { user_agent = "ua"; ip_address = "ip" }

-- Naming this on an `unfolding` line opens every method.
unfoldable pub open_all : Unit {0}
unfolding Stored.update_user Stored.get_user_by_id Stored.set_user_active
    Stored.update_user_password Stored.create_user Stored.get_user_by_email Stored.set_superuser
    Stored.mark_email_verified StoredSessions.is_live StoredSessions.is_stale
    StoredSessions.create_session StoredSessions.touch_session StoredSessions.owner_of_session
    StoredSessions.authenticate_session StoredSessions.revoke_session
    StoredSessions.revoke_user_sessions StoredSessions.list_user_sessions StoredSessions.is_dead
    StoredSessions.delete_dead_sessions StoredSessions.revoke_session_by_id Rows.permissions_of
    Rows.left_join_rows Rows.left_join Rows.role_order Rows.add_permission Rows.collect_row
    Rows.collect_from Rows.collect_roles Rows.get_role Rows.get_role_by_key Rows.list_roles
    Rows.distinct Rows.get_roles_by_ids Rows.user_role_rows Rows.load_user_roles
    Rows.is_assignment_of Rows.count_users_with_role Rows.count_active_users_with_role
    Writes.grant_permission Writes.grant_permissions Writes.clear_role_permissions
    Writes.replace_role_permissions Writes.insert_role Writes.create_role Writes.rename_role
    Writes.update_role Writes.delete_role Writes.can_reference Writes.holds_assignment
    Writes.assign_role Writes.assign_roles Writes.clear_user_roles Writes.set_user_roles
    Writes.add_user_role StoredInvitations.is_open StoredInvitations.invitation_rows
    StoredInvitations.collect_invitation StoredInvitations.collect_invitations
    StoredInvitations.select_invitations StoredInvitations.get_invitation
    StoredInvitations.get_invitation_by_token_hash StoredInvitations.list_pending_invitations
    StoredInvitations.create_invitation StoredInvitations.update_invitation
    StoredInvitations.accept_invitation StoredInvitations.revoke_invitation
    StoredInvitations.revoke_pending_invitation_for StoredInvitations.is_pending
    PasswordResets.create_password_reset PasswordResets.is_usable_reset
    PasswordResets.consume_password_reset PasswordResets.invalidate_password_resets
    PasswordResets.is_dead_reset PasswordResets.delete_dead_password_resets
    EmailVerifications.create_email_verification EmailVerifications.is_usable_verification
    EmailVerifications.consume_email_verification EmailVerifications.invalidate_email_verifications
    EmailVerifications.is_dead_verification EmailVerifications.delete_dead_email_verifications
    StoredApiKeys.insert_api_key StoredApiKeys.grant_api_key_permission
    StoredApiKeys.grant_api_key_permissions StoredApiKeys.create_api_key
    StoredApiKeys.revoke_api_key StoredApiKeys.is_live_key StoredApiKeys.claim_api_key
    StoredApiKeys.load_api_key_permissions StoredApiKeys.api_key_rows StoredApiKeys.collect_api_key
    StoredApiKeys.collect_api_keys StoredApiKeys.list_api_keys Users.register_tx Users.register
    Users.authorize Users.guard_last_active_admin Users.guard_deactivation Users.record_active
    Users.set_user_active_tx Users.set_user_active Users.set_superuser_tx Users.set_superuser
    Users.grant_role_by_key_tx Users.grant_role_by_key Sessions.record_failed_login
    Sessions.refuse_login Sessions.reject_password Sessions.upgrade_hash Sessions.login_tx
    Sessions.issue_session Sessions.login_verified Sessions.login_found Sessions.login
    Sessions.authenticate Sessions.logout_tx Sessions.logout Sessions.list_sessions
    Sessions.revoke_session_tx Sessions.revoke_session Sessions.change_password_tx
    Sessions.change_password Sessions.cleanup_sessions Roles.require_free_key Roles.check_free_key
    Roles.list_roles Roles.get_role Roles.create_role_tx Roles.create_role Roles.update_role_tx
    Roles.update_role Roles.delete_role_tx Roles.delete_role Roles.may_demote Roles.guard_last_admin
    Roles.set_user_roles_tx Roles.set_user_roles Invitations.require_no_account
    Invitations.or_mail_failed Invitations.check_no_account Invitations.invite_tx
    Invitations.mail_invitation Invitations.invite Invitations.list_invitations
    Invitations.revoke_invitation_tx Invitations.revoke_invitation Invitations.accept_invitation_tx
    Invitations.accept_invitation PasswordReset.record_reset_request PasswordReset.request_reset_tx
    PasswordReset.try_send_reset PasswordReset.request_for PasswordReset.request_password_reset
    PasswordReset.reset_password_tx PasswordReset.reset_password
    PasswordReset.cleanup_password_resets EmailVerification.store_verification_tx
    EmailVerification.try_send_verification EmailVerification.send_verification_email
    EmailVerification.verify_email_tx EmailVerification.verify_email
    EmailVerification.resend_verification EmailVerification.cleanup_email_verifications
    ApiKeys.create_api_key_tx ApiKeys.create_api_key ApiKeys.list_api_keys ApiKeys.revoke_api_key_tx
    ApiKeys.revoke_api_key ApiKeys.authenticate_api_key pure raise lift gets ◌>>=◌ require commit
    in_tx on_pool or_raise with_api_key cap_user_agent entry_of record_event page_limit action_name
    passes newer list_entries purge ignore is_not_found new_token hash send catalog has add add_all
    new_permission_set valid all_permissions superset text_le missing slice union_from
    union_permissions has_role can actor_holds_role check_escalation is_verified invalid is_address
    collect_permissions is_past normalize_email validate_password validate_role_input
    validate_api_key_input any all filter find? update count take insert_by sort_by flat_map
open_all = tt

-- What the tables grant.
unfoldable pub open_tables : Unit {0}
unfolding role_grants role_exists user_can roles_grant has_active_admin has_admin has_unique_ids
open_tables = tt

-- The guards of a route.
unfoldable pub open_guard : Unit {0}
unfolding token_of bearer_token require_api_key require_session require_auth access_of
    require_access require_permission may
open_guard = tt

unfoldable pub open_limiter : Unit {0}
unfolding bucket_of put_bucket allow_bucket allow reap or_wait allow_keys is_allowed after_call
    passes_key passed
open_limiter = tt

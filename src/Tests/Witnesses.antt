-- ===== src/Tests/Witnesses.antt =====
-- The theorems at small installations.
use git_single_tenant_templa.Service.ApiKeys
use git_single_tenant_templa.Service.Sessions
use git_single_tenant_templa.Service.Users
use git_single_tenant_templa.Service.Roles
use git_single_tenant_templa.Prelude.{
  ℕ, ◌+◌, ◌≤◌, String, ◌≡◌, refl, ◌≢◌, ◌↔◌, ◌⊎◌, true, false, not, ◌&&◌, ◌||◌, none, some, List, [],
  ◌∷◌, arith, ◌==◌, if◌then◌else◌, any,
}
use git_single_tenant_templa.Exec.{ok, err, World}
use git_single_tenant_templa.Identity.Access.{union_permissions, can, check_escalation}
use git_single_tenant_templa.Identity.Access.Laws.{
  has-union_permissions, check_escalation_iff, check_escalation_refusal,
}
use git_single_tenant_templa.Identity.Permission.{has, valid, all_permissions, superset, missing}
use git_single_tenant_templa.Identity.Permission.Laws.{
  has-all_permissions, superset_iff, has-missing,
}
use git_single_tenant_templa.Model.{
  Permission, User, Role, Access, Session, InvitationRow, ApiKeyRow, Complaint, invalid_credentials,
  escalation, validation, internal,
}
use git_single_tenant_templa.Repo.Roles.Laws.{role_grants, role_exists, user_can}
use git_single_tenant_templa.Server.Errors.{handle}
use git_single_tenant_templa.Server.Errors.Laws.{handle-shows_error}
use git_single_tenant_templa.Server.RateLimit.{Limiter}
use git_single_tenant_templa.Server.RateLimit.Bounds.{attempt, reaped, passed, passed-bound}
use git_single_tenant_templa.Service.AcceptedOnce.{accept_invitation-single_use}
use git_single_tenant_templa.Service.Assignment.{set_user_roles-user_can, set_user_roles-escalation}
use git_single_tenant_templa.Service.Authority.{can-authorize}
use git_single_tenant_templa.Service.EmailVerification.{verify_email}
use git_single_tenant_templa.Service.Invitations.{accept_invitation}
use git_single_tenant_templa.Service.KeyRevocation.{
  revoke_api_key-locked_out, set_user_active-keys_locked_out,
}
use git_single_tenant_templa.Service.LastAdmin.{has_active_admin, set_user_active-has_active_admin}
use git_single_tenant_templa.Service.LastHolder.{has_admin, set_user_roles-has_admin}
use git_single_tenant_templa.Service.Login.{login-refusal}
use git_single_tenant_templa.Service.LoginRefused.{can_log_in, login-invalid_credentials}
use git_single_tenant_templa.Service.LoginRoundTrip.{login-authenticate}
use git_single_tenant_templa.Service.PasswordReset.{reset_password}
use git_single_tenant_templa.Service.ResetLockout.{reset_password-locked_out}
use git_single_tenant_templa.Service.Revocation.{
  set_user_active-locked_out, change_password-locked_out,
}
use git_single_tenant_templa.Service.RoleCreation.{create_role-has}
use git_single_tenant_templa.Service.RoleEditing.{update_role-role_grants}
use git_single_tenant_templa.Service.SingleUse.{reset_password-single_use}
use git_single_tenant_templa.Service.Users.{superuser_access}
use git_single_tenant_templa.Service.VerifiedOnce.{verify_email-single_use}
use git_single_tenant_templa.Tests.Fixtures.{
  test_env, ann, bob, admin_role, billing_role, ann_session, bob_reset, small_db, small_world,
  client, open_all, open_tables, open_limiter,
}

-- The authority of ann, who is the admin.
abbrev ann_access : Access
ann_access = record {
  roles = [];
  permissions = "users.read" ∷ "users.update" ∷ [];
  via_superuser = true;
  via_api_key = false;
}

set_user_roles-user_can_example :
    user_can
      (Roles.set_user_roles test_env ann ann_access 2 (4 ∷ []) small_world).1.db
      2
      "users.read"
    ≡ true
unfolding open_all open_tables
set_user_roles-user_can_example =
    set_user_roles-user_can test_env ann ann_access 2 (4 ∷ []) small_world refl 2 "users.read"

abbrev after_assignment : World
after_assignment = (Roles.set_user_roles test_env ann ann_access 2 (4 ∷ []) small_world).1

set_user_roles-escalation_example : can ann_access "users.read" ≡ true
unfolding open_all open_tables
set_user_roles-escalation_example =
    set_user_roles-escalation test_env ann ann_access 2 (4 ∷ []) small_world refl test_env bob
      after_assignment (Users.authorize test_env bob after_assignment).1
      (Users.role_access (record { row = billing_role; permissions = "users.read" ∷ [] } ∷ [])) refl
      refl refl refl "users.read" refl

can-authorize_example :
    can
      (Users.role_access
        (record { row = admin_role; permissions = "users.update" ∷ "users.read" ∷ [] } ∷ []))
      "users.read"
    ≡ true
unfolding open_all open_tables
can-authorize_example = can-authorize test_env ann small_world refl "users.read"

set_user_active-locked_out_example : ann.id ≢ 2
unfolding open_all
set_user_active-locked_out_example =
    set_user_active-locked_out test_env ann 2 small_world
      (record bob { is_active = false; updated_at = 50 })
      (Users.set_user_active test_env ann 2 false small_world).1 refl test_env "mtt_sess_ann"
      (Users.set_user_active test_env ann 2 false small_world).1 (ann, ann_session)
      (Sessions.authenticate test_env "mtt_sess_ann"
        (Users.set_user_active test_env ann 2 false small_world).1).1
      refl refl

change_password-locked_out_example : ann.id ≢ 2
unfolding open_all
change_password-locked_out_example =
    change_password-locked_out test_env 2 "secret" "better" small_world
      (Sessions.change_password test_env 2 "secret" "better" small_world).1 refl test_env
      "mtt_sess_ann" (Sessions.change_password test_env 2 "secret" "better" small_world).1
      (ann, ann_session)
      (Sessions.authenticate test_env "mtt_sess_ann"
        (Sessions.change_password test_env 2 "secret" "better" small_world).1).1
      refl refl

abbrev after_reset : World
after_reset = (reset_password test_env "mtt_pwr_bob" "better" small_world).1

reset_password-locked_out_example : ann.id ≢ 2
unfolding open_all
reset_password-locked_out_example =
    reset_password-locked_out test_env "mtt_pwr_bob" "better" small_world after_reset bob_reset refl
      refl test_env "mtt_sess_ann" after_reset (ann, ann_session)
      (Sessions.authenticate test_env "mtt_sess_ann" after_reset).1 refl refl

reset_password-single_use_example :
    ¬ (reset_password test_env "mtt_pwr_bob" "others" after_reset ≡ (ok tt, after_reset))
unfolding open_all
reset_password-single_use_example =
    reset_password-single_use test_env "mtt_pwr_bob" "better" small_world after_reset refl test_env
      "others" after_reset after_reset refl refl (omega arith)

abbrev after_verification : World
after_verification = (verify_email test_env "mtt_ver_bob" small_world).1

abbrev verified_bob : User
verified_bob = record bob { email_verified_at = some 50; updated_at = 50 }

verify_email-single_use_example :
    ¬ (verify_email test_env "mtt_ver_bob" after_verification ≡ (ok bob, after_verification))
unfolding open_all
verify_email-single_use_example =
    verify_email-single_use test_env "mtt_ver_bob" small_world verified_bob after_verification refl
      test_env after_verification bob after_verification refl refl (omega arith)

abbrev eve : User
eve = record {
  id = 10;
  email = "eve@x";
  first_name = "Eve";
  last_name = "E";
  is_superuser = false;
  is_active = true;
  email_verified_at = some 50;
  created_at = 50;
  updated_at = 50;
  password_hash = "secret";
}

abbrev eve_invitation : InvitationRow
eve_invitation = record {
  id = 9;
  email = "eve@x";
  role_id = 4;
  invited_by = some 1;
  expires_at = 90;
  accepted_at = none;
  revoked_at = none;
  created_at = 40;
  token_hash = "mtt_inv_eve";
}

abbrev invited_world : World
invited_world = record small_world {
  conn = record { now = 50; db = record small_db { invitations = eve_invitation ∷ [] } };
}

abbrev after_acceptance : World
after_acceptance = (accept_invitation test_env "mtt_inv_eve" "secret" "Eve" "E" invited_world).1

accept_invitation-single_use_example : ¬ (
    accept_invitation test_env "mtt_inv_eve" "other" "Mal" "L" after_acceptance
    ≡ (ok eve, after_acceptance))
unfolding open_all
accept_invitation-single_use_example =
    accept_invitation-single_use test_env "mtt_inv_eve" "secret" "Eve" "E" invited_world eve
      after_acceptance refl test_env "other" "Mal" "L" after_acceptance eve after_acceptance refl
      refl (omega arith)

login-refusal_example :
    (invalid_credentials ≡ invalid_credentials)
    ⊎ ((invalid_credentials ≡ internal)
        × ((test_env.db_fails small_world.tick || can_log_in test_env "bob@x" "wrong" small_db)
            ≡ true))
unfolding open_all
login-refusal_example =
    login-refusal test_env "bob@x" "wrong" client small_world invalid_credentials
      (Sessions.login test_env "bob@x" "wrong" client small_world).1 refl

login-invalid_credentials_example :
    (Sessions.login test_env "bob@x" "wrong" client small_world).0 ≡ err invalid_credentials
unfolding open_all can_log_in
login-invalid_credentials_example =
    login-invalid_credentials test_env "bob@x" "wrong" client small_world refl refl

abbrev reader_role : Role
reader_role = record {
  row = record {
    id = 10;
    key = "reader";
    name = "Reader";
    is_system = false;
    created_at = 50;
    updated_at = 50;
  };
  permissions = "users.read" ∷ [];
}

abbrev after_creation : World
after_creation =
    (Roles.create_role test_env ann ann_access "reader" "Reader" ("users.read" ∷ []) small_world).1

create_role-has_example :
    (reader_role.row.is_system ≡ false)
    × (role_exists after_creation.db 10 ≡ true)
    × (has reader_role.permissions "users.read" ≡ has ("users.read" ∷ []) "users.read")
    × (has ("users.read" ∷ []) "users.read" ≡ true
        → (valid "users.read" ≡ true) × (can ann_access "users.read" ≡ true))
    × ((i : ℕ)
        → role_grants after_creation.db i "users.read" ≡ (
            if 10 == i
            then has ("users.read" ∷ []) "users.read"
            else role_grants small_db i "users.read"))
unfolding open_all
create_role-has_example =
    create_role-has test_env ann ann_access "reader" "Reader" ("users.read" ∷ []) small_world
      reader_role after_creation refl "users.read"

-- Five attempts are allowed, and one was made.
abbrev one_attempt : Limiter
one_attempt = record {
  buckets = ("ip", record { count = 1; expires_at = 60 }) ∷ [];
  attempts = 5;
  window = 60;
}

passed-bound_example :
    passed "ip" (attempt 3 "ip" ∷ reaped 4 ∷ attempt 5 "other" ∷ []) one_attempt + 1 ≤ 5
unfolding open_all open_limiter
passed-bound_example =
    passed-bound "ip" (attempt 3 "ip" ∷ reaped 4 ∷ attempt 5 "other" ∷ []) one_attempt
      (record { count = 1; expires_at = 60 }) refl (omega arith) refl

check_escalation_iff_example :
    (check_escalation ann_access ("users.read" ∷ []) ≡ ok tt)
    ↔ ((p : Permission) → has ("users.read" ∷ []) p ≡ true → has ann_access.permissions p ≡ true)
check_escalation_iff_example = check_escalation_iff ann_access ("users.read" ∷ [])

check_escalation_refusal_example :
    has ("roles.read" ∷ []) "roles.read"
    ≡ (has ("roles.read" ∷ []) "roles.read" && not (has ann_access.permissions "roles.read"))
unfolding open_all
check_escalation_refusal_example =
    check_escalation_refusal ann_access ("roles.read" ∷ []) ("roles.read" ∷ []) refl "roles.read"

has-union_permissions_example :
    has (union_permissions (reader_role ∷ [])) "users.read"
    ≡ any (λ r. has r.permissions "users.read") (reader_role ∷ [])
has-union_permissions_example = has-union_permissions (reader_role ∷ []) "users.read"

superset_iff_example :
    (superset ("users.read" ∷ []) ("users.read" ∷ []) ≡ true)
    ↔ ((p : Permission) → has ("users.read" ∷ []) p ≡ true → has ("users.read" ∷ []) p ≡ true)
superset_iff_example = superset_iff ("users.read" ∷ []) ("users.read" ∷ [])

has-missing_example :
    has (missing ("users.read" ∷ []) ("roles.read" ∷ [])) "roles.read"
    ≡ (has ("roles.read" ∷ []) "roles.read" && not (has ("users.read" ∷ []) "roles.read"))
has-missing_example = has-missing ("users.read" ∷ []) ("roles.read" ∷ []) "roles.read"

has-all_permissions_example : has all_permissions "users.read" ≡ valid "users.read"
has-all_permissions_example = has-all_permissions "users.read"

abbrev edited_billing : Role
edited_billing = record {
  row = record billing_role { name = "Accounts"; updated_at = 50 };
  permissions = "users.update" ∷ [];
}

update_role-role_grants_example :
    (edited_billing.row.is_system ≡ false)
    × (has ("users.update" ∷ []) "users.update" ≡ true → can ann_access "users.update" ≡ true)
    × ((i : ℕ)
        → role_grants
            (Roles.update_role test_env ann ann_access 4 "Accounts"
              ("users.update" ∷ [])
              small_world).1.db
            i
            "users.update"
          ≡ (if 4 == i
              then has ("users.update" ∷ []) "users.update"
              else role_grants small_world.db i "users.update"))
unfolding open_all open_tables
update_role-role_grants_example =
    update_role-role_grants test_env ann ann_access 4 "Accounts" ("users.update" ∷ []) small_world
      edited_billing
      (Roles.update_role test_env ann ann_access 4 "Accounts" ("users.update" ∷ []) small_world).1
      refl "users.update"

-- Both users are admins.
abbrev two_admins : World
two_admins = record small_world {
  conn = record { now = 50; db = record small_db { user_roles = (2, 3) ∷ (1, 3) ∷ [] } };
}

set_user_active-has_active_admin_example :
    has_active_admin (Users.set_user_active test_env ann 2 false two_admins).1.db ≡ true
unfolding open_all open_tables
set_user_active-has_active_admin_example =
    set_user_active-has_active_admin test_env ann 2 two_admins
      (record bob { is_active = false; updated_at = 50 })
      (Users.set_user_active test_env ann 2 false two_admins).1 refl refl refl refl

set_user_roles-has_admin_example :
    has_admin (Roles.set_user_roles test_env ann superuser_access 1 (4 ∷ []) two_admins).1.db ≡ true
unfolding open_all open_tables
set_user_roles-has_admin_example =
    set_user_roles-has_admin test_env ann superuser_access 1 (4 ∷ []) two_admins
      (Roles.set_user_roles test_env ann superuser_access 1 (4 ∷ []) two_admins).1 refl refl refl

abbrev key_row : ℕ → ℕ → String → ApiKeyRow
key_row id user_id token = record {
  id = id;
  user_id = user_id;
  name = "ci";
  token_prefix = "mtt_key_abcd";
  expires_at = none;
  last_used_at = some 49;
  revoked_at = none;
  created_at = 0;
  token_hash = token;
}

-- Both users have an API key.
abbrev two_keys : World
two_keys = record small_world {
  conn = record {
    now = 50;
    db = record small_db {
      api_keys = key_row 20 1 "mtt_key_ann" ∷ key_row 21 2 "mtt_key_bob" ∷ [];
    };
  };
}

abbrev after_revocation : World
after_revocation = (ApiKeys.revoke_api_key test_env ann 21 two_keys).1

revoke_api_key-locked_out_example : (key_row 20 1 "mtt_key_ann").id ≢ 21
unfolding open_all open_tables
revoke_api_key-locked_out_example =
    revoke_api_key-locked_out test_env ann 21 two_keys after_revocation refl test_env "mtt_key_ann"
      after_revocation (record { row = key_row 20 1 "mtt_key_ann"; permissions = [] }) ann
      (ApiKeys.authenticate_api_key test_env "mtt_key_ann" after_revocation).1 refl refl

abbrev after_deactivation : World
after_deactivation = (Users.set_user_active test_env ann 2 false two_keys).1

set_user_active-keys_locked_out_example : (key_row 20 1 "mtt_key_ann").user_id ≢ 2
unfolding open_all open_tables
set_user_active-keys_locked_out_example =
    set_user_active-keys_locked_out test_env ann 2 two_keys
      (record bob { is_active = false; updated_at = 50 }) after_deactivation refl test_env
      "mtt_key_ann" after_deactivation
      (record { row = key_row 20 1 "mtt_key_ann"; permissions = [] }) ann
      (ApiKeys.authenticate_api_key test_env "mtt_key_ann" after_deactivation).1 refl refl

abbrev logged_in : World
logged_in = (Sessions.login test_env "bob@x" "secret" client small_world).1

login-authenticate_example :
    (x : User × Session) × (v : World) × (Sessions.authenticate test_env "mtt_sess_abcdefgh"
        logged_in
      ≡ (ok x, v))
    × (x.0.id ≡ bob.id)
unfolding open_all
login-authenticate_example =
    login-authenticate test_env "bob@x" "secret" client small_world "mtt_sess_abcdefgh" bob
      logged_in refl logged_in refl refl refl refl

handle-shows_error_example :
    ((lacked : List Permission) × (escalation ("roles.read" ∷ []) ≡ escalation lacked))
    ⊎ ((c : Complaint) × (escalation ("roles.read" ∷ []) ≡ validation c))
unfolding handle
handle-shows_error_example = handle-shows_error (escalation ("roles.read" ∷ [])) refl

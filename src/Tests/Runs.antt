-- ===== src/Tests/Runs.antt =====
-- Runs of the services.
use git_single_tenant_templa.Service.Roles
use git_single_tenant_templa.Service.Sessions
use git_single_tenant_templa.Service.Users
use git_single_tenant_templa.Prelude.{◌≡◌, refl, false, [], ◌∷◌}
use git_single_tenant_templa.Exec.{ok, err, World}
use git_single_tenant_templa.Model.{invalid_credentials}
use git_single_tenant_templa.Service.LastAdmin.{has_active_admin}
use git_single_tenant_templa.Service.Users.{superuser_access, role_access}
use git_single_tenant_templa.Tests.Fixtures.{
  test_env, ann, bob, admin_role, small_db, small_world, client, open_all, open_tables,
}

login_run :
    (Sessions.login test_env "bob@x" "secret" client small_world).0 ≡ ok ("mtt_sess_abcdefgh", bob)
unfolding open_all
login_run = refl

login_refused :
    (Sessions.login test_env "bob@x" "wrong" client small_world).0 ≡ err invalid_credentials
unfolding open_all
login_refused = refl

authorize_run :
    (Users.authorize test_env ann small_world).0
    ≡ ok (
        role_access
          (record { row = admin_role; permissions = "users.update" ∷ "users.read" ∷ [] } ∷ []))
unfolding open_all
authorize_run = refl

-- Both users are admins, and bob is deactivated.
abbrev one_active_admin : World
one_active_admin = record small_world {
  conn = record {
    now = 50;
    db = record small_db {
      users = record bob { is_active = false } ∷ ann ∷ [];
      user_roles = (2, 3) ∷ (1, 3) ∷ [];
    };
  };
}

-- SetUserRoles counts the deactivated admin, so the only active one may lose the role.
last_active_admin_stripped :
    has_active_admin (Roles.set_user_roles test_env ann superuser_access 1 [] one_active_admin).1.db
    ≡ false
unfolding open_all open_tables
last_active_admin_stripped = refl

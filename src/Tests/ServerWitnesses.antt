-- ===== src/Tests/ServerWitnesses.antt =====
-- The theorems on requests and runs of the program, at a small server.
-- Ann, the admin, tries to leave nobody the admin role; then a sweep, a command and a second's wait.
use git_single_tenant_templa.Prelude.{
  suc, ◌≡◌, refl, ◌⊎◌, true, false, not, ◌&&◌, ◌||◌, none, some, List, [], ◌∷◌, ◌++◌, str_eq, leb,
  ◌==◌, length, any,
}
use git_single_tenant_templa.Audit.{Filter, page_limit}
use git_single_tenant_templa.Command.{main, reap_tick}
use git_single_tenant_templa.Evolution.{RolesOk, system_roles}
use git_single_tenant_templa.Evolution.Steps.{
  request, command, sweep, Steps, here, after, Steps-append_only, Steps-system_roles,
  Steps-has_admin, Steps-read_pages,
}
use git_single_tenant_templa.Evolution.Unauthorized.{IsPermitted, serve-unauthorized}
use git_single_tenant_templa.Evolution.Unchanged.{Unchanged}
use git_single_tenant_templa.Exec.{ok}
use git_single_tenant_templa.Identity.Permission.{valid}
use git_single_tenant_templa.Model.{Permission, Entry, Complaint, escalation, validation}
use git_single_tenant_templa.Repo.Directory.{list_users, UserSummary}
use git_single_tenant_templa.Repo.Directory.Grants.{shows}
use git_single_tenant_templa.Repo.Directory.Laws.{same_user, each_once}
use git_single_tenant_templa.Repo.Directory.Page.{list_users-page_limit, list_users-user_can}
use git_single_tenant_templa.Repo.Directory.Query.{behind}
use git_single_tenant_templa.Repo.Roles.Laws.{user_can}
use git_single_tenant_templa.Server.AuditPages.{read_pages, matching}
use git_single_tenant_templa.Server.AuditPages.Reading.{read_pages-matching}
use git_single_tenant_templa.Server.Authorized.{authorized-may}
use git_single_tenant_templa.Server.Errors.{handle}
use git_single_tenant_templa.Server.Guard.{by_session, Caller}
use git_single_tenant_templa.Server.Guard.Laws.{may}
use git_single_tenant_templa.Server.Request.{Request}
use git_single_tenant_templa.Server.ResetOracle.{serve-reset_oracle}
use git_single_tenant_templa.Server.Response.{write_no_content}
use git_single_tenant_templa.Server.Routes.{
  PublicRoute, AccountRoute, GatedRoute, Route, permission_of,
}
use git_single_tenant_templa.Server.Security.Laws.{answer-allows}
use git_single_tenant_templa.Server.Serve.{Process, authorized, serve}
use git_single_tenant_templa.Service.Catalog.{sync_permissions}
use git_single_tenant_templa.Service.CatalogSync.{is_listed, sync_permissions-is_listed}
use git_single_tenant_templa.Service.LastHolder.{has_admin}
use git_single_tenant_templa.Settings.{
  pos, is_positive, less, Settings, is_production, has_wildcard, validate_rest, validate_production,
  validate,
}
use git_single_tenant_templa.Settings.Laws.{validate-shows_error}
use git_single_tenant_templa.Tests.Fixtures.{
  test_env, ann, ann_session, small_db, small_world, open_all, open_tables, open_guard,
  open_limiter,
}
use git_single_tenant_templa.Tests.Requests.{
  test_wire, test_config, request_with, test_migrator, small_process, open_server,
}

abbrev demotion : Request
demotion = request_with "mtt_sess_ann" "1" "[]"

abbrev after_demotion : Process
after_demotion =
    (serve test_env test_config test_wire demotion (Route.gated GatedRoute.set_user_roles)
      small_process).1

abbrev after_sweep : Process
after_sweep = record after_demotion { world = (reap_tick test_env after_demotion.world).1 }

abbrev after_command : Process
after_command = record after_sweep {
  world =
      (main test_env test_migrator 0 ("grant-role" ∷ "bob@x" ∷ "admin" ∷ []) after_sweep.world).1;
}

small_run : Steps 0 small_process after_command
small_run =
    after
      (after
        (after here
          (request test_env test_config test_wire demotion (Route.gated GatedRoute.set_user_roles)))
        (sweep test_env))
      (command test_env test_migrator ("grant-role" ∷ "bob@x" ∷ "admin" ∷ [])
        (unfold open_server in refl))

small_RolesOk : RolesOk small_db.roles small_db.next_id
small_RolesOk = record {
  unique = unfold open_tables open_all in refl;
  below = unfold open_all in refl;
}

Steps-append_only_example :
    (added : List Entry) × (after_command.world.db.audit_log ≡ added ++ small_db.audit_log)
Steps-append_only_example = Steps-append_only small_run

Steps-system_roles_example : system_roles after_command.world.db.roles ≡ system_roles small_db.roles
Steps-system_roles_example = Steps-system_roles small_run

Steps-has_admin_example : has_admin after_command.world.db ≡ true
Steps-has_admin_example =
    Steps-has_admin small_run small_RolesOk (unfold open_tables open_all in refl)

-- Every entry of the log.
abbrev everything : Filter
everything = record {
  action = "";
  actor_user_id = none;
  from = none;
  to = none;
  before = 0;
  limit = 50;
}

Steps-read_pages_example :
    read_pages
      (suc (length (matching everything after_command.world.conn)))
      everything
      0
      after_command.world.conn
    ≡ some (matching everything after_command.world.conn)
Steps-read_pages_example = Steps-read_pages small_run (unfold open_server in refl, refl) everything

read_pages-matching_example :
    read_pages
      (suc (length (matching everything after_command.world.conn)))
      everything
      0
      after_command.world.conn
    ≡ some (matching everything after_command.world.conn)
unfolding open_server open_all open_guard open_limiter
read_pages-matching_example =
    read_pages-matching everything after_command.world.db.next_id after_command.world.conn refl

-- Bob, who holds no role, asks for the admin role.
serve-unauthorized_example :
    IsPermitted test_env test_config test_wire
      (request_with "mtt_sess_bob" "2" "[3]")
      GatedRoute.set_user_roles
      small_process
    ⊎ Unchanged small_db
        (serve test_env test_config test_wire
          (request_with "mtt_sess_bob" "2" "[3]")
          (Route.gated GatedRoute.set_user_roles)
          small_process).1.world.conn
serve-unauthorized_example =
    serve-unauthorized test_env test_config test_wire (request_with "mtt_sess_bob" "2" "[3]")
      GatedRoute.set_user_roles small_process

-- The same server, without an account.
abbrev empty_process : Process
empty_process = record small_process {
  world = record small_world {
    conn = record { now = 50; db = record small_db { users = []; user_roles = []; sessions = [] } };
  };
}

serve-reset_oracle_example :
    (serve test_env test_config test_wire
      (request_with "" "" "bob@x")
      (Route.public PublicRoute.request_reset)
      small_process).0
    ≡ (serve test_env test_config test_wire
        (request_with "" "" "bob@x")
        (Route.public PublicRoute.request_reset)
        empty_process).0
serve-reset_oracle_example =
    serve-reset_oracle test_env test_config test_wire (request_with "" "" "bob@x") small_process
      empty_process refl refl

answer-allows_example :
    ((request_with "mtt_sess_ann" "1" "[]").origin ≡ "https://app.x")
    × (any (λ o. str_eq o "https://app.x") test_config.allowed_origins ≡ true)
unfolding open_server open_all
answer-allows_example =
    answer-allows test_env test_config test_wire (request_with "mtt_sess_ann" "1" "[]")
      (Route.account AccountRoute.me) small_process "https://app.x" refl

sync_permissions-is_listed_example :
    (is_listed (sync_permissions test_env small_world).1.db "roles.read"
      ≡ (is_listed small_db "roles.read" || valid "roles.read"))
    × (any (λ q. str_eq q "roles.read") [] ≡ (
        is_listed (sync_permissions test_env small_world).1.db "roles.read"
        && not (valid "roles.read")))
unfolding open_server open_all
sync_permissions-is_listed_example =
    sync_permissions-is_listed test_env small_world [] (sync_permissions test_env small_world).1
      refl "roles.read"

-- Settings for production.
abbrev production_settings : Settings
production_settings = record {
  app = record { environment = "production"; debug = false; log_level = "info"; instance_id = "" };
  server = record {
    host = "0.0.0.0";
    port = pos 8080;
    read_timeout = pos 10;
    write_timeout = pos 10;
    idle_timeout = pos 60;
    shutdown_timeout = pos 15;
    trust_proxy_headers = false;
  };
  postgres = record {
    host = "db";
    port = pos 5432;
    user = "app";
    password = "app";
    database = "app";
    ssl_mode = "require";
    max_conns = pos 10;
    min_conns = pos 2;
    max_conn_lifetime = pos 3600;
    max_conn_idle_time = pos 1800;
  };
  auth = record {
    session_ttl = pos 720;
    invitation_ttl = pos 168;
    password_reset_ttl = pos 1;
    email_verify_ttl = pos 24;
    min_password_length = pos 12;
    argon_memory_kib = 19456;
    argon_iterations = 2;
    argon_parallelism = 1;
  };
  audit_retention = pos 0;
  allowed_origins = "https://app.x" ∷ [];
  mail = record {
    backend = "smtp";
    from = "no-reply@app.x";
    base_url = "https://app.x";
    smtp_host = "smtp";
    smtp_port = pos 587;
    smtp_username = "";
    smtp_password = "";
  };
  rate_limit = record { enabled = true; attempts = pos 10; window = pos 60 };
}

validate-shows_error_example :
    ((lacked : List Permission) × (escalation ("roles.read" ∷ []) ≡ escalation lacked))
    ⊎ ((c : Complaint) × (escalation ("roles.read" ∷ []) ≡ validation c))
unfolding validate validate_production validate_rest is_production is_positive less has_wildcard
    handle
validate-shows_error_example =
    validate-shows_error (λ s t. str_eq s t) production_settings refl refl
      (escalation ("roles.read" ∷ [])) refl

list_users-user_can_example :
    (page : List UserSummary) × (list_users test_env 0 0 small_world.conn
      ≡ (ok page, small_world.conn))
    × (any (shows 1 "users.read") page
        ≡ (any (same_user 1) page && user_can small_db 1 "users.read"))
    × ((any (same_user 1) page && not (any (λ u. behind 0 u && u.id == 1) small_db.users)) ≡ false)
list_users-user_can_example = list_users-user_can test_env 0 0 small_world.conn 1 "users.read"

list_users-page_limit_example :
    (page : List UserSummary) × (list_users test_env 2 1 small_world.conn
      ≡ (ok page, small_world.conn))
    × (leb (length page) (page_limit 1) ≡ true)
    × (leb (page_limit 1) 200 ≡ true)
    × (each_once page ≡ true)
list_users-page_limit_example = list_users-page_limit test_env 2 1 small_world.conn

-- Ann, in a session of hers, takes every role from Bob.
abbrev ann_caller : Caller
ann_caller = record { user = ann; credential = by_session ann_session }

abbrev clearing : Request
clearing = request_with "mtt_sess_ann" "2" "[]"

authorized-may_example :
    may small_db ann (by_session ann_session) (permission_of GatedRoute.set_user_roles) ≡ true
unfolding open_server open_all open_tables open_guard
authorized-may_example =
    authorized-may test_env test_config test_wire clearing test_env GatedRoute.set_user_roles
      ann_caller small_world write_no_content
      (authorized test_env test_config test_wire clearing test_env GatedRoute.set_user_roles
        ann_caller small_world).1
      refl

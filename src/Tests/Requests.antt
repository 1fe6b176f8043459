-- ===== src/Tests/Requests.antt =====
-- A server in front of the small installation, and requests to it.
use git_single_tenant_templa.Repo.Directory
use git_single_tenant_templa.Service.Catalog
use git_single_tenant_templa.Server.Handlers.Public
use git_single_tenant_templa.Server.Handlers.Account
use git_single_tenant_templa.Server.Handlers.Gated
use git_single_tenant_templa.Prelude.{
  String, true, false, none, some, [], ◌∷◌, str_eq, if◌then◌else◌,
}
use git_single_tenant_templa.Audit.{descends}
use git_single_tenant_templa.Command.{
  report, run_set_superuser, run_grant_role, run_purge, run_migrate, start, main, reap_tick,
}
use git_single_tenant_templa.Evolution.Commands.{is_migration}
use git_single_tenant_templa.Migration.{Migrator, run_goose, migrate}
use git_single_tenant_templa.Server.AuditPages.{page_before, read_pages, matching}
use git_single_tenant_templa.Server.Errors.{handle, denial_of}
use git_single_tenant_templa.Server.Guard.{session_only}
use git_single_tenant_templa.Server.RateLimit.{new_limiter}
use git_single_tenant_templa.Server.Request.{
  Request, Decoder, Wire, Config, only_value, decode_json, host_of, or_real_ip, client_ip,
  request_meta, with_audit_meta, with_credential,
}
use git_single_tenant_templa.Server.Response.{
  write_reply, escalation_detail, denial_event, audit_denial, handle_error, finish, run_handler,
  or_answer,
}
use git_single_tenant_templa.Server.Routes.{
  ip_key, by_ip, peek_email, peeked, by_ip_and_email, public_keys, account_keys, left_by_keys,
  public_handler, permission_of, account_handler, gated_handler,
}
use git_single_tenant_templa.Server.Security.{security_headers, cors, answer}
use git_single_tenant_templa.Server.Security.Laws.{allows_origin}
use git_single_tenant_templa.Server.Serve.{
  Process, limited_reply, after_limit, limit_by, rate_limit, serve_account, authorized, serve_gated,
  after_auth, with_auth, dispatch, serve,
}
use git_single_tenant_templa.Service.CatalogSync.{is_listed}
use git_single_tenant_templa.Tests.Fixtures.{small_world}

abbrev nothing_read : {A : Type 0} → Decoder A
nothing_read = λ _. none

abbrev pub test_wire : Wire
test_wire = record {
  texts = record {
    cut_space = λ h. some ("Bearer", h);
    equal_fold = λ a b. true;
    has_prefix = λ t p. str_eq t "mtt_key_ann";
  };
  parse_uuid = λ s. if str_eq s "2" then some 2 else if str_eq s "1" then some 1 else none;
  parse_time = λ s. none;
  split_host_port = λ s. some s;
  before_comma = λ s. s;
  is_at_eof = λ s. str_eq s "";
  peek_email = λ s. some s;
  first_bytes = λ n s. s;
  read_register = nothing_read;
  read_login = nothing_read;
  read_change_password = nothing_read;
  read_reset_password = nothing_read;
  read_email = λ s. some (s, "");
  read_token = nothing_read;
  read_accept_invitation = nothing_read;
  read_create_invitation = nothing_read;
  read_role = nothing_read;
  read_update_role = nothing_read;
  read_role_ids = λ s. if str_eq s "[3]" then some (3 ∷ [], "") else some ([], "");
  read_is_active = nothing_read;
  read_create_api_key = nothing_read;
}

abbrev pub test_config : Config
test_config = record {
  debug = false;
  trust_proxy_headers = false;
  allowed_origins = "https://app.x" ∷ [];
}

-- A request under this token, with this id in its path and this body.
abbrev pub request_with : String → String → String → Request
request_with token id body = record {
  request_id = "r";
  method = "PUT";
  path = "/api/v1/users";
  origin = "https://app.x";
  authorization = token;
  forwarded_for = "";
  real_ip = "";
  remote_addr = "ip";
  user_agent = "ua";
  url_param = id;
  query = λ _. "";
  body = body;
}

-- A migration tool that finds nothing to do.
abbrev pub test_migrator : Migrator
test_migrator = record {
  connects = λ w. true;
  up = λ w. (none, w);
  down = λ w. (none, w);
  status = λ w. (none, w);
  reset = λ w. (none, w);
}

abbrev pub small_process : Process
small_process = record { world = small_world; limiter = some (new_limiter 3 60) }

-- Naming this on an `unfolding` line opens the server.
unfoldable pub open_server : Unit {0}
unfolding new_limiter only_value decode_json host_of or_real_ip client_ip request_meta
    with_audit_meta with_credential write_reply escalation_detail denial_event audit_denial
    handle_error finish run_handler or_answer denial_of handle session_only ip_key by_ip peek_email
    peeked left_by_keys by_ip_and_email public_keys account_keys public_handler permission_of
    account_handler gated_handler limited_reply after_limit limit_by rate_limit serve_account
    authorized serve_gated after_auth with_auth dispatch serve Public.handle_register
    Public.handle_login Public.handle_request_password_reset Public.handle_reset_password
    Public.handle_verify_email Public.handle_accept_invitation Public.handle_list_permissions
    Public.handle_health Public.handle_ready Account.handle_logout Account.handle_me
    Account.handle_change_password Account.is_current Account.handle_list_sessions
    Account.handle_revoke_session Account.handle_resend_verification Gated.last_of Gated.next_before
    Gated.or_unset Gated.handle_list_users Gated.handle_set_user_active
    Gated.handle_create_invitation Gated.handle_list_invitations Gated.handle_revoke_invitation
    Gated.handle_list_roles Gated.handle_create_role Gated.handle_update_role
    Gated.handle_delete_role Gated.handle_set_user_roles Gated.handle_list_audit_log
    Gated.handle_list_api_keys Gated.handle_create_api_key Gated.handle_revoke_api_key
    Directory.rows_of_user Directory.held_order Directory.directory_order Directory.directory_rows
    Directory.add_held Directory.place_row Directory.collect_page Directory.before_role
    Directory.sort_roles Directory.list_users Catalog.upsert_permission Catalog.upsert_permissions
    Catalog.stale_permissions Catalog.sync_permissions_tx Catalog.sync_permissions is_listed
    is_migration descends page_before read_pages matching security_headers cors answer allows_origin
    report run_set_superuser run_grant_role run_purge start migrate run_goose run_migrate main
    reap_tick
open_server = tt

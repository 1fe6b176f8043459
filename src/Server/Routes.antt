-- ===== src/Server/Routes.antt =====
-- The routes of server.go, which middleware guards each, and which handler it ends in.
use Prim.Native.String
use git_single_tenant_templa.Server.Handlers.Public
use git_single_tenant_templa.Server.Handlers.Account
use git_single_tenant_templa.Server.Handlers.Gated
use git_single_tenant_templa.Prelude.{
  String, Option, none, some, List, [], ◌∷◌, str_eq, if◌then◌else◌,
}
use git_single_tenant_templa.Exec.{Exec, World, Env}
use git_single_tenant_templa.Identity.Permission.{
  users_read, users_update, invitations_read, invitations_create, invitations_delete, roles_read,
  roles_create, roles_update, roles_delete, audit_read, api_keys_read, api_keys_create,
  api_keys_delete,
}
use git_single_tenant_templa.Model.{Permission, Access}
use git_single_tenant_templa.Server.Guard.{Caller}
use git_single_tenant_templa.Server.RateLimit.{Limiter}
use git_single_tenant_templa.Server.Request.{Request, Wire, Config, max_body_bytes, client_ip}
use git_single_tenant_templa.Server.Response.{Response}

-- The routes without a session, in the order of routes().
pub data PublicRoute : Type 0 where
  healthz readyz register login request_reset confirm_reset verify accept_invitation : PublicRoute
  list_permissions : PublicRoute

-- The routes behind requireAuth and sessionOnly.
pub data AccountRoute : Type 0 where
  logout me change_password list_sessions revoke_session resend_verification : AccountRoute

-- The routes behind requireAuth, requireAccess and requirePermission.
pub data GatedRoute : Type 0 where
  list_users set_user_roles set_user_active : GatedRoute
  list_invitations create_invitation revoke_invitation : GatedRoute
  list_roles create_role update_role delete_role : GatedRoute
  list_audit_log : GatedRoute
  list_api_keys create_api_key revoke_api_key : GatedRoute

-- What chi makes of the method and the path of a request.
pub data Route : Type 0 where
  public : PublicRoute → Route
  account : AccountRoute → Route
  gated : GatedRoute → Route

-- byIP and byIPAndEmail of ratelimit.go: the keys under which a request is counted.
module _ (env : Env) (config : Config) (wire : Wire) (r : Request) where
  unfoldable pub ip_key : String → String
  unfolding client_ip
  ip_key prefix = String.◌++◌ prefix (String.◌++◌ "|ip|" (client_ip wire env config r))

  unfoldable pub by_ip : String → List String
  unfolding ip_key
  by_ip prefix = ip_key prefix ∷ []

  -- peekEmail: "" when the body is not JSON.
  unfoldable pub peek_email : String
  peek_email = elim (wire.peek_email (wire.first_bytes max_body_bytes r.body)) [
    | none ↦ ""
    | some email ↦ env.to_lower (env.trim_space email)
  ]

  -- The request that peekEmail leaves: with as much of the body as it read.
  unfoldable pub peeked : Request
  peeked = record r { body = wire.first_bytes max_body_bytes r.body }

  unfoldable pub by_ip_and_email : String → List String
  unfolding ip_key peek_email
  by_ip_and_email prefix =
      ip_key prefix
      ∷ (if str_eq peek_email ""
          then []
          else String.◌++◌ prefix (String.◌++◌ "|email|" peek_email) ∷ [])

  -- The keys of the rateLimit that a route stands behind: none where there is no limit.
  unfoldable pub public_keys : PublicRoute → List String
  unfolding by_ip by_ip_and_email
  public_keys register = by_ip_and_email "register"
  public_keys login = by_ip_and_email "login"
  public_keys request_reset = by_ip_and_email "reset"
  public_keys confirm_reset = by_ip "reset-confirm"
  public_keys verify = by_ip "verify"
  public_keys accept_invitation = by_ip "invitation-accept"
  public_keys healthz = []
  public_keys readyz = []
  public_keys list_permissions = []

  unfoldable pub account_keys : AccountRoute → List String
  unfolding by_ip
  account_keys resend_verification = by_ip "verify-resend"
  account_keys _ = []

  -- The request as the key function leaves it to the handler: a disabled limiter asks for no keys.
  unfoldable pub left_by_keys : Option Limiter → PublicRoute → Request
  unfolding peeked
  left_by_keys none route = r
  left_by_keys (some l) register = peeked
  left_by_keys (some l) login = peeked
  left_by_keys (some l) request_reset = peeked
  left_by_keys (some l) _ = r

  unfoldable pub public_handler : PublicRoute → Exec World Response
  public_handler healthz = Public.handle_health env config wire r
  public_handler readyz = Public.handle_ready env config wire r
  public_handler register = Public.handle_register env config wire r
  public_handler login = Public.handle_login env config wire r
  public_handler request_reset = Public.handle_request_password_reset env config wire r
  public_handler confirm_reset = Public.handle_reset_password env config wire r
  public_handler verify = Public.handle_verify_email env config wire r
  public_handler accept_invitation = Public.handle_accept_invitation env config wire r
  public_handler list_permissions = Public.handle_list_permissions env config wire r

-- The argument of requirePermission on a route.
unfoldable pub permission_of : GatedRoute → Permission
permission_of list_users = users_read
permission_of set_user_roles = users_update
permission_of set_user_active = users_update
permission_of list_invitations = invitations_read
permission_of create_invitation = invitations_create
permission_of revoke_invitation = invitations_delete
permission_of list_roles = roles_read
permission_of create_role = roles_create
permission_of update_role = roles_update
permission_of delete_role = roles_delete
permission_of list_audit_log = audit_read
permission_of list_api_keys = api_keys_read
permission_of create_api_key = api_keys_create
permission_of revoke_api_key = api_keys_delete

module _ (env : Env) (wire : Wire) (r : Request) (caller : Caller) where
  unfoldable pub account_handler : AccountRoute → Exec World Response
  account_handler logout = Account.handle_logout env wire r caller
  account_handler me = Account.handle_me env wire r caller
  account_handler change_password = Account.handle_change_password env wire r caller
  account_handler list_sessions = Account.handle_list_sessions env wire r caller
  account_handler revoke_session = Account.handle_revoke_session env wire r caller
  account_handler resend_verification = Account.handle_resend_verification env wire r caller

  unfoldable pub gated_handler : Access → GatedRoute → Exec World Response
  gated_handler access list_users = Gated.handle_list_users env wire r caller access
  gated_handler access set_user_roles = Gated.handle_set_user_roles env wire r caller access
  gated_handler access set_user_active = Gated.handle_set_user_active env wire r caller access
  gated_handler access list_invitations = Gated.handle_list_invitations env wire r caller access
  gated_handler access create_invitation = Gated.handle_create_invitation env wire r caller access
  gated_handler access revoke_invitation = Gated.handle_revoke_invitation env wire r caller access
  gated_handler access list_roles = Gated.handle_list_roles env wire r caller access
  gated_handler access create_role = Gated.handle_create_role env wire r caller access
  gated_handler access update_role = Gated.handle_update_role env wire r caller access
  gated_handler access delete_role = Gated.handle_delete_role env wire r caller access
  gated_handler access list_audit_log = Gated.handle_list_audit_log env wire r caller access
  gated_handler access list_api_keys = Gated.handle_list_api_keys env wire r caller access
  gated_handler access create_api_key = Gated.handle_create_api_key env wire r caller access
  gated_handler access revoke_api_key = Gated.handle_revoke_api_key env wire r caller access

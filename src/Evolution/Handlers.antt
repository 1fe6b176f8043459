-- ===== src/Evolution/Handlers.antt =====
-- The handlers of internal/server, and a request from the middleware to its handler.
use git_single_tenant_templa.Repo.Directory as Stored
use git_single_tenant_templa.Server.Handlers.Public
use git_single_tenant_templa.Server.Handlers.Account
use git_single_tenant_templa.Server.Handlers.Gated
use git_single_tenant_templa.Prelude.{ℕ, Option, none, some}
use git_single_tenant_templa.Audit.{Filter, list_entries}
use git_single_tenant_templa.Evolution.{Evolves}
use git_single_tenant_templa.Evolution.Calls.{Progress, method_rules}
use git_single_tenant_templa.Evolution.InvitationMethods.{
  invite-Progress, list_invitations-Progress, revoke_invitation-Progress,
  accept_invitation-Progress, create_api_key-Progress, list_api_keys-Progress,
  revoke_api_key-Progress,
}
use git_single_tenant_templa.Evolution.Reassigned.{set_user_roles-Progress}
use git_single_tenant_templa.Evolution.ResetMethods.{
  request_password_reset-Progress, reset_password-Progress, verify_email-Progress,
  resend_verification-Progress,
}
use git_single_tenant_templa.Evolution.RoleMethods.{
  list_roles-Progress, create_role-Progress, update_role-Progress, delete_role-Progress,
}
use git_single_tenant_templa.Evolution.SessionMethods.{
  login-Progress, logout-Progress, list_sessions-Progress, revoke_session-Progress,
  change_password-Progress,
}
use git_single_tenant_templa.Evolution.UserMethods.{register-Progress, set_user_active-Progress}
use git_single_tenant_templa.Exec.{ok, Exec, World, Env, next}
use git_single_tenant_templa.Exec.Upholds.{Upholds, Upholds-pure}
use git_single_tenant_templa.Exec.Leaves.{if-state}
use git_single_tenant_templa.Model.{Access, Db}
use git_single_tenant_templa.Server.Guard.{Caller}
use git_single_tenant_templa.Server.Request.{Request, Wire, Config}
use git_single_tenant_templa.Server.Response.{Response, or_answer}
use git_single_tenant_templa.Server.Routes.{
  PublicRoute, AccountRoute, GatedRoute, public_handler, account_handler, gated_handler,
}

module _ {db : Db} where
  or_answer-Progress :
      {A : Type 0} (o : Option A) (response : Response) (f : A → Exec World Response)
      → ((a : A) → Upholds (Progress db) (f a))
      → Upholds (Progress db) (or_answer o response f)
  unfolding or_answer
  or_answer-Progress none response f k = Upholds-pure response
  or_answer-Progress (some a) response f k = k a

  list_users-Evolves :
      (env : Env) (before limit : ℕ) → Upholds (Evolves db) (Stored.list_users env before limit)
  unfolding Stored.list_users
  list_users-Evolves env before limit = record { at = λ s h. h }

  list_entries-Evolves : (f : Filter) → Upholds (Evolves db) (list_entries f)
  unfolding list_entries
  list_entries-Evolves f = record { at = λ s h. h }

  ready-Progress :
      (env : Env) (config : Config) (wire : Wire) (r : Request)
      → Upholds (Progress db) (Public.handle_ready env config wire r)
  unfolding Public.handle_ready
  ready-Progress env config wire r = record {
    at = λ w h.
        if-state (Progress db) (env.db_fails w.tick) (ok _, next w) (ok _, next w)
          (record { rows = h.rows }) (record { rows = h.rows });
  }

ruleset handler_rules = (method_rules, or_answer-Progress)

module _ {db : Db} (env : Env) (wire : Wire) (r : Request) where
  pub public_handler-Progress :
      (config : Config) (route : PublicRoute)
      → Upholds (Progress db) (public_handler env config wire r route)
  unfolding public_handler Public.handle_health Public.handle_register Public.handle_login
      Public.handle_request_password_reset Public.handle_reset_password Public.handle_verify_email
      Public.handle_accept_invitation Public.handle_list_permissions
  public_handler-Progress config PublicRoute.healthz = search handler_rules depth 12
  public_handler-Progress config PublicRoute.readyz = ready-Progress env config wire r
  public_handler-Progress config PublicRoute.register =
      search (handler_rules, register-Progress) depth 12
  public_handler-Progress config PublicRoute.login = search (handler_rules, login-Progress) depth 12
  public_handler-Progress config PublicRoute.request_reset =
      search (handler_rules, request_password_reset-Progress) depth 12
  public_handler-Progress config PublicRoute.confirm_reset =
      search (handler_rules, reset_password-Progress) depth 12
  public_handler-Progress config PublicRoute.verify =
      search (handler_rules, verify_email-Progress) depth 12
  public_handler-Progress config PublicRoute.accept_invitation =
      search (handler_rules, accept_invitation-Progress) depth 12
  public_handler-Progress config PublicRoute.list_permissions = search handler_rules depth 12

  pub account_handler-Progress :
      (caller : Caller) (route : AccountRoute)
      → Upholds (Progress db) (account_handler env wire r caller route)
  unfolding account_handler Account.handle_logout Account.handle_me Account.handle_change_password
      Account.handle_list_sessions Account.handle_revoke_session Account.handle_resend_verification
  account_handler-Progress caller AccountRoute.logout =
      search (handler_rules, logout-Progress) depth 12
  account_handler-Progress caller AccountRoute.me = search handler_rules depth 12
  account_handler-Progress caller AccountRoute.change_password =
      search (handler_rules, change_password-Progress) depth 12
  account_handler-Progress caller AccountRoute.list_sessions =
      search (handler_rules, list_sessions-Progress) depth 12
  account_handler-Progress caller AccountRoute.revoke_session =
      search (handler_rules, revoke_session-Progress) depth 12
  account_handler-Progress caller AccountRoute.resend_verification =
      search (handler_rules, resend_verification-Progress) depth 12

  pub gated_handler-Progress :
      (caller : Caller) (access : Access) (route : GatedRoute)
      → Upholds (Progress db) (gated_handler env wire r caller access route)
  unfolding gated_handler Gated.handle_list_users Gated.handle_set_user_roles
      Gated.handle_set_user_active Gated.handle_list_invitations Gated.handle_create_invitation
      Gated.handle_revoke_invitation Gated.handle_list_roles Gated.handle_create_role
      Gated.handle_update_role Gated.handle_delete_role Gated.handle_list_audit_log
      Gated.handle_list_api_keys Gated.handle_create_api_key Gated.handle_revoke_api_key
  gated_handler-Progress caller access GatedRoute.list_users =
      search (handler_rules, list_users-Evolves) depth 12
  gated_handler-Progress caller access GatedRoute.set_user_roles =
      search (handler_rules, set_user_roles-Progress) depth 12
  gated_handler-Progress caller access GatedRoute.set_user_active =
      search (handler_rules, set_user_active-Progress) depth 12
  gated_handler-Progress caller access GatedRoute.list_invitations =
      search (handler_rules, list_invitations-Progress) depth 12
  gated_handler-Progress caller access GatedRoute.create_invitation =
      search (handler_rules, invite-Progress) depth 12
  gated_handler-Progress caller access GatedRoute.revoke_invitation =
      search (handler_rules, revoke_invitation-Progress) depth 12
  gated_handler-Progress caller access GatedRoute.list_roles =
      search (handler_rules, list_roles-Progress) depth 12
  gated_handler-Progress caller access GatedRoute.create_role =
      search (handler_rules, create_role-Progress) depth 12
  gated_handler-Progress caller access GatedRoute.update_role =
      search (handler_rules, update_role-Progress) depth 12
  gated_handler-Progress caller access GatedRoute.delete_role =
      search (handler_rules, delete_role-Progress) depth 12
  gated_handler-Progress caller access GatedRoute.list_audit_log =
      search (handler_rules, list_entries-Evolves) depth 12
  gated_handler-Progress caller access GatedRoute.list_api_keys =
      search (handler_rules, list_api_keys-Progress) depth 12
  gated_handler-Progress caller access GatedRoute.create_api_key =
      search (handler_rules, create_api_key-Progress) depth 12
  gated_handler-Progress caller access GatedRoute.revoke_api_key =
      search (handler_rules, revoke_api_key-Progress) depth 12

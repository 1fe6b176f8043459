-- ===== src/Server/Handlers/Public.antt =====
-- The handlers that need no session: registration, login, resets, invitations, the probes.
use git_single_tenant_templa.Service.Users as Accounts
use git_single_tenant_templa.Service.Invitations as Invited
use git_single_tenant_templa.Prelude.{str_eq, if◌then◌else◌}
use git_single_tenant_templa.Exec.{ok, Exec, pure, World, Env, next, ◌>>=◌, ◌>>◌}
use git_single_tenant_templa.Identity.Permission.{catalog}
use git_single_tenant_templa.Server.Request.{Request, Wire, Config, decode_json, request_meta}
use git_single_tenant_templa.Server.Response.{
  status_text, user_json, token_and_user, permissions_json, Response, write_json, write_error,
  invalid_body, write_no_content, or_answer,
}
use git_single_tenant_templa.Service.Common.{ignore}
use git_single_tenant_templa.Service.EmailVerification.{verify_email}
use git_single_tenant_templa.Service.PasswordReset.{request_password_reset, reset_password}
use git_single_tenant_templa.Service.Sessions.{login}

module _ (env : Env) (config : Config) (wire : Wire) (r : Request) where
  unfoldable pub handle_register : Exec World Response
  handle_register = or_answer (decode_json wire wire.read_register r.body) invalid_body λ req. do
    user ← Accounts.register env req.email req.password req.first_name req.last_name
    pure (write_json 201 (user_json user))

  unfoldable pub handle_login : Exec World Response
  handle_login = or_answer (decode_json wire wire.read_login r.body) invalid_body λ req. do
    (token, user) ← login env req.email req.password (request_meta wire env config r)
    pure (write_json 200 (token_and_user token user))

  -- The answer does not depend on what the service returns.
  unfoldable pub handle_request_password_reset : Exec World Response
  handle_request_password_reset =
      or_answer (decode_json wire wire.read_email r.body) invalid_body λ email. do
        ignore (request_password_reset env email (request_meta wire env config r))
        pure write_no_content

  unfoldable pub handle_reset_password : Exec World Response
  handle_reset_password =
      or_answer (decode_json wire wire.read_reset_password r.body) invalid_body λ req.
        if str_eq req.token ""
        then pure (write_error 400 "token is required")
        else do reset_password env req.token req.new_password; pure write_no_content

  unfoldable pub handle_verify_email : Exec World Response
  handle_verify_email = or_answer (decode_json wire wire.read_token r.body) invalid_body λ token.
      if str_eq token ""
      then pure (write_error 400 "token is required")
      else do user ← verify_email env token; pure (write_json 200 (user_json user))

  unfoldable pub handle_accept_invitation : Exec World Response
  handle_accept_invitation =
      or_answer (decode_json wire wire.read_accept_invitation r.body) invalid_body λ req. do
        user ← Invited.accept_invitation env req.token req.password req.first_name req.last_name
        pure (write_json 201 (user_json user))

  unfoldable pub handle_list_permissions : Exec World Response
  handle_list_permissions = pure (write_json 200 (permissions_json catalog))

  unfoldable pub handle_health : Exec World Response
  handle_health = pure (write_json 200 (status_text "ok"))

  -- The probe of the database is one outside call more.
  unfoldable pub handle_ready : Exec World Response
  handle_ready w =
      if env.db_fails w.tick
      then (ok (write_error 503 "database unavailable"), next w)
      else (ok (write_json 200 (status_text "ready")), next w)

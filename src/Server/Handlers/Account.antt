-- ===== src/Server/Handlers/Account.antt =====
-- The handlers of the caller's own account, which need a session.
use git_single_tenant_templa.Prelude.{Bool, false, map, ◌==◌}
use git_single_tenant_templa.Exec.{Exec, pure, World, Env, ◌>>=◌, ◌>>◌}
use git_single_tenant_templa.Model.{Session}
use git_single_tenant_templa.Server.Guard.{Credential, by_session, by_api_key, Caller, bearer_token}
use git_single_tenant_templa.Server.Request.{Request, Wire, decode_json}
use git_single_tenant_templa.Server.Response.{
  user_json, sessions_json, Response, write_json, write_error, invalid_body, write_no_content,
  or_answer,
}
use git_single_tenant_templa.Service.EmailVerification.{resend_verification}
use git_single_tenant_templa.Service.Sessions.{
  logout, list_sessions, revoke_session, change_password,
}

module _ (env : Env) (wire : Wire) (r : Request) (caller : Caller) where
  unfoldable pub handle_logout : Exec World Response
  handle_logout = do
    logout env (bearer_token env wire.texts r.authorization) caller.user.id
    pure write_no_content

  unfoldable pub handle_me : Exec World Response
  handle_me = pure (write_json 200 (user_json caller.user))

  unfoldable pub handle_change_password : Exec World Response
  handle_change_password =
      or_answer (decode_json wire wire.read_change_password r.body) invalid_body λ req. do
        change_password env caller.user.id req.current_password req.new_password
        pure write_no_content

  -- `sess.ID == current.ID`
  unfoldable pub is_current : Credential → Session → Bool
  is_current (by_session current) s = s.id == current.id
  is_current (by_api_key key) s = false

  unfoldable pub handle_list_sessions : Exec World Response
  unfolding is_current
  handle_list_sessions = do
    sessions ← list_sessions env caller.user.id
    pure (write_json 200 (sessions_json (map (λ s. (s, is_current caller.credential s)) sessions)))

  unfoldable pub handle_revoke_session : Exec World Response
  handle_revoke_session =
      or_answer (wire.parse_uuid r.url_param) (write_error 400 "sessionID must be a UUID")
        λ id. do revoke_session env caller.user id; pure write_no_content

  unfoldable pub handle_resend_verification : Exec World Response
  handle_resend_verification = do resend_verification env caller.user; pure write_no_content

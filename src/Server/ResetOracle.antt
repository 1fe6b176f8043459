-- ===== src/Server/ResetOracle.antt =====
-- What an answer of POST /auth/password/reset gives away (handlers_password.go, ratelimit.go).
use git_single_tenant_templa.Server.Handlers.Public
use git_single_tenant_templa.Prelude.{String, ◌≡◌, refl, ap, ◌∙◌, Option, none, some, List}
use git_single_tenant_templa.Exec.{Result, ok, err, pure, ◌>>=◌, World, Env, next, ◌>>◌}
use git_single_tenant_templa.Model.{User}
use git_single_tenant_templa.Server.RateLimit.{Limiter, Answer, allowed, wait, allow_keys}
use git_single_tenant_templa.Server.Request.{
  Request, Wire, Config, decode_json, request_meta, with_audit_meta,
}
use git_single_tenant_templa.Server.Response.{
  Response, invalid_body, write_no_content, handle_error, finish, run_handler, or_answer,
}
use git_single_tenant_templa.Server.Routes.{
  PublicRoute, Route, public_keys, left_by_keys, public_handler,
}
use git_single_tenant_templa.Server.Serve.{
  Process, limited_reply, after_limit, limit_by, rate_limit, dispatch, serve,
}
use git_single_tenant_templa.Service.Common.{ignore}
use git_single_tenant_templa.Service.PasswordReset.{request_password_reset}

module _ (env : Env) (config : Config) (wire : Wire) (r : Request) where
  handler-answer :
      (read : Request) (o : Option String) (w v : World)
      → ((or_answer o invalid_body λ email. do
        ignore (request_password_reset env email (request_meta wire env config read))
        pure write_no_content)
          w).0
        ≡ ((or_answer o invalid_body λ email. do
          ignore (request_password_reset env email (request_meta wire env config read))
          pure write_no_content)
            v).0
  unfolding or_answer pure ignore ◌>>=◌
  handler-answer read none w v = refl
  handler-answer read (some email) w v = refl

  finish-answer :
      (who : Option User) (result : Result Response) (w v : World)
      → (finish env config r who result w).0 ≡ (finish env config r who result v).0
  unfolding finish handle_error
  finish-answer who (ok response) w v = refl
  finish-answer who (err e) w v = refl

  run-answer :
      (read : Request) (w v : World)
      → (run_handler env config r none
          (Public.handle_request_password_reset env config wire read)
          w).0
        ≡ (run_handler env config r none
            (Public.handle_request_password_reset env config wire read)
            v).0
  unfolding run_handler Public.handle_request_password_reset
  run-answer read w v =
      let handler = Public.handle_request_password_reset env config wire read in
      finish-answer none (handler w).0 (handler w).1 (handler v).1
      ∙ ap (λ result. (finish env config r none result (handler v).1).0)
          (handler-answer read (decode_json wire wire.read_email read.body) w v)

  limited-answer :
      (who : Option User) (next : World → Response × World) (w v : World) (a : Answer × Limiter)
      → (next w).0 ≡ (next v).0
      → (after_limit env config wire r who next w a).0
        ≡ (after_limit env config wire r who next v a).0
  unfolding after_limit limited_reply handle_error
  limited-answer who next w v (allowed, l) h = h
  limited-answer who next w v (wait n, l) h = refl

  limit_by-answer :
      (keys : List String) (next : World → Response × World) (w v : World)
      (limiter : Option Limiter)
      → w.now ≡ v.now
      → (next w).0 ≡ (next v).0
      → (limit_by env config wire r keys none next w limiter).0
        ≡ (limit_by env config wire r keys none next v limiter).0
  unfolding limit_by
  limit_by-answer keys next w v none now h = h
  limit_by-answer keys next w v (some l) now h =
      limited-answer none next w v (allow_keys w.now keys l) h
      ∙ ap (λ t. (after_limit env config wire r none next v (allow_keys t keys l)).0) now

-- The answer to a request for a password reset tells nothing of the accounts: whatever the tables
-- hold, whether mail and database work or fail, the same request at the same time, with the same
-- counts of the rate limiter, gets the same answer.
pub serve-reset_oracle :
    (env : Env) (config : Config) (wire : Wire) (r : Request) (p q : Process)
    → p.limiter ≡ q.limiter
    → p.world.now ≡ q.world.now
    → (serve env config wire r (Route.public PublicRoute.request_reset) p).0
      ≡ (serve env config wire r (Route.public PublicRoute.request_reset) q).0
unfolding serve dispatch rate_limit public_handler
serve-reset_oracle env config wire r p q limiter now =
    let inner : Env = with_audit_meta wire env config r in
    let keys : List String = public_keys inner config wire r PublicRoute.request_reset in
    let read : Option Limiter → Request =
      λ l. left_by_keys inner config wire r l PublicRoute.request_reset in
    let handler : Option Limiter → World → Response × World = λ l.
      run_handler inner config r none
        (Public.handle_request_password_reset inner config wire (read l)) in
    limit_by-answer inner config wire r keys (handler p.limiter) p.world q.world p.limiter now
      (run-answer inner config wire r (read p.limiter) p.world q.world)
    ∙ ap (λ l. (limit_by inner config wire r keys none (handler l) q.world l).0) limiter

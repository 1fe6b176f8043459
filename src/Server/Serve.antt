-- ===== src/Server/Serve.antt =====
-- One request through the middleware of server.go to its handler.
use git_single_tenant_templa.Prelude.{ℕ, ◌+◌, String, not, Option, none, some, List, if◌then◌else◌}
use git_single_tenant_templa.Exec.{Result, ok, err, Exec, World, Env, next, ◌>>=◌, ◌>>◌}
use git_single_tenant_templa.Model.{User, rate_limited}
use git_single_tenant_templa.Server.Guard.{
  Caller, require_access, require_permission, require_auth, session_only,
}
use git_single_tenant_templa.Server.RateLimit.{Limiter, Answer, allowed, wait, allow_keys}
use git_single_tenant_templa.Server.Request.{
  Request, Wire, Config, with_audit_meta, with_credential,
}
use git_single_tenant_templa.Server.Response.{Response, write_error, handle_error, run_handler}
use git_single_tenant_templa.Server.Routes.{
  AccountRoute, GatedRoute, Route, public, account, gated, public_keys, account_keys, left_by_keys,
  public_handler, permission_of, account_handler, gated_handler,
}

-- The process: the shared state, and the limiter unless it is disabled.
pub record Process : Type 0 where
  pub world : World
  pub limiter : Option Limiter

abbrev pub at_world : Response × World → Option Limiter → Response × Process
at_world (response, w) limiter = (response, record { world = w; limiter = limiter })

-- The refusal of rateLimit. Times are in seconds, so Retry-After is what is left of the window and
-- one more.
unfoldable pub limited_reply : ℕ → Response × World → Response × World
limited_reply wait_for (response, w) = (record response { retry_after = some (wait_for + 1) }, w)

module _ (env : Env) (config : Config) (wire : Wire) (r : Request) where
  unfoldable pub after_limit :
      Option User → (World → Response × World) → World → Answer × Limiter → Response × Process
  unfolding limited_reply handle_error
  after_limit who next w (allowed, l) = at_world (next w) (some l)
  after_limit who next w (wait n, l) =
      at_world (limited_reply n (handle_error env config r who rate_limited w)) (some l)

  -- The part of rateLimit behind `s.limiter == nil`.
  unfoldable pub limit_by :
      List String
      → Option User
      → (World → Response × World)
      → World
      → Option Limiter
      → Response × Process
  unfolding after_limit allow_keys
  limit_by keys who next w none = at_world (next w) none
  limit_by keys who next w (some l) = after_limit who next w (allow_keys w.now keys l)

  -- Server.rateLimit
  unfoldable pub rate_limit :
      List String → Option User → (World → Response × World) → Process → Response × Process
  unfolding limit_by
  rate_limit keys who next p = limit_by keys who next p.world p.limiter

  -- Behind requireAuth: `env` is what the context holds once the caller is known.
  unfoldable pub serve_account : AccountRoute → Caller → Process → Response × Process
  unfolding session_only rate_limit account_keys with_credential run_handler
  serve_account route caller p =
      let inner = with_credential env caller.credential in
      if not (session_only caller.credential)
      then (write_error 403 "API keys cannot be used on this endpoint", p)
      else rate_limit (account_keys env config wire r route) (some caller.user)
          (run_handler inner config r (some caller.user)
            (account_handler inner wire r caller route))
          p

  -- requireAccess and requirePermission, and the handler behind them.
  unfoldable pub authorized : Env → GatedRoute → Caller → Exec World Response
  unfolding require_access require_permission permission_of
  authorized inner route caller = do
    access ← require_access inner caller
    require_permission (permission_of route) access
    gated_handler inner wire r caller access route

  unfoldable pub serve_gated : GatedRoute → Caller → Process → Response × Process
  unfolding with_credential authorized run_handler
  serve_gated route caller p =
      let inner = with_credential env caller.credential in
      at_world
        (run_handler inner config r (some caller.user) (authorized inner route caller) p.world)
        p.limiter

  -- requireAuth, and what it lets through.
  unfoldable pub after_auth :
      (Caller → Process → Response × Process)
      → Option Limiter
      → Result Caller
      → World
      → Response × Process
  unfolding handle_error
  after_auth next limiter (ok caller) w = next caller (record { world = w; limiter = limiter })
  after_auth next limiter (err e) w = at_world (handle_error env config r none e w) limiter

  unfoldable pub with_auth : (Caller → Process → Response × Process) → Process → Response × Process
  unfolding after_auth require_auth
  with_auth next p =
      let who = require_auth env wire.texts r.authorization p.world in
      after_auth next p.limiter who.0 who.1

  unfoldable pub dispatch : Route → Process → Response × Process
  unfolding left_by_keys rate_limit public_keys public_handler run_handler with_auth serve_account
      serve_gated
  dispatch (public route) p =
      let read = left_by_keys env config wire r p.limiter route in
      rate_limit (public_keys env config wire r route) none
        (run_handler env config r none (public_handler env config wire read route)) p
  dispatch (account route) p = with_auth (serve_account route) p
  dispatch (gated route) p = with_auth (serve_gated route) p

-- A request, from withAuditMeta on.
unfoldable pub serve : Env → Config → Wire → Request → Route → Process → Response × Process
unfolding with_audit_meta dispatch
serve env config wire r route p = dispatch (with_audit_meta wire env config r) config wire r route p

-- ===== src/Evolution/Serving.antt =====
-- A request, from the middleware to its handler and the audit entry of its denial.
use git_single_tenant_templa.Prelude.{
  String, Bool, true, false, not, Option, none, some, List, if◌then◌else◌,
}
use git_single_tenant_templa.Audit.{recorded, record_event}
use git_single_tenant_templa.Evolution.Accounts.{record_event-Evolves}
use git_single_tenant_templa.Evolution.Calls.{On, Progress, On-on_pool, On-ignore, method_rules}
use git_single_tenant_templa.Evolution.Handlers.{
  public_handler-Progress, account_handler-Progress, gated_handler-Progress,
}
use git_single_tenant_templa.Evolution.InvitationMethods.{authenticate_api_key-Progress}
use git_single_tenant_templa.Evolution.SessionMethods.{authenticate-Progress}
use git_single_tenant_templa.Evolution.UserMethods.{authorize-Progress}
use git_single_tenant_templa.Exec.{Result, ok, err, Exec, pure, Conn, World, Env, next, on_pool}
use git_single_tenant_templa.Exec.Upholds.{Upholds, Upholds-pure}
use git_single_tenant_templa.Model.{User, Action, rate_limited, Event, Db, Error}
use git_single_tenant_templa.Server.Errors.{denial_of}
use git_single_tenant_templa.Server.Guard.{
  Credential, by_session, by_api_key, Caller, access_of, require_access, require_permission,
  require_api_key, require_session, require_auth, session_only,
}
use git_single_tenant_templa.Server.RateLimit.{Limiter, Answer, allowed, wait}
use git_single_tenant_templa.Server.Request.{Request, Wire, Config, with_credential}
use git_single_tenant_templa.Server.Response.{
  Response, write_error, denial_event, audit_denial, handle_error, finish, run_handler,
}
use git_single_tenant_templa.Server.Routes.{
  AccountRoute, GatedRoute, Route, public_keys, account_keys, left_by_keys, public_handler,
  account_handler,
}
use git_single_tenant_templa.Server.Serve.{
  Process, limited_reply, after_limit, limit_by, rate_limit, serve_account, authorized, serve_gated,
  after_auth, with_auth, dispatch, serve,
}
use git_single_tenant_templa.Service.Common.{ignore}

-- The audit entry of a denial is all that errorHandler.handle writes.
pub On-audit_denial :
    {R : Conn → Type 0} (env : Env) (r : Request) (who : Option User) (e : Error)
    → ((event : Event) → Upholds R (record_event env event))
    → Upholds (On R) (audit_denial env r who e)
unfolding audit_denial
On-audit_denial {R} env r who e recorded = recorded_denial (denial_of e)
  where
    recorded_denial :
        (o : Option Action)
        → Upholds (On R) (elim o [
          | none ↦ pure tt
          | some action ↦ ignore (on_pool env (record_event env (denial_event r who e action)))
        ])
    recorded_denial none = Upholds-pure tt
    recorded_denial (some action) = On-ignore _ (On-on_pool env _ (recorded _))

module _ {db : Db} where
  audit_denial-Progress :
      (env : Env) (r : Request) (who : Option User) (e : Error)
      → Upholds (Progress db) (audit_denial env r who e)
  audit_denial-Progress env r who e = On-audit_denial env r who e (record_event-Evolves env)

  finish-Progress :
      (env : Env) (config : Config) (r : Request) (who : Option User) (result : Result Response)
      (w : World)
      → Progress db w
      → Progress db (finish env config r who result w).1
  unfolding finish handle_error
  finish-Progress env config r who (ok response) w h = h
  finish-Progress env config r who (err e) w h = (audit_denial-Progress env r who e).at w h

  run_handler-Progress :
      (env : Env) (config : Config) (r : Request) (who : Option User) (m : Exec World Response)
      → Upholds (Progress db) m
      → (w : World) → Progress db w
      → Progress db (run_handler env config r who m w).1
  unfolding run_handler
  run_handler-Progress env config r who m k w h =
      finish-Progress env config r who (m w).0 (m w).1 (k.at w h)

  module _ (env : Env) (config : Config) (wire : Wire) (r : Request) where
    after_limit-Progress :
        (who : Option User) (next : World → Response × World) (w : World) (a : Answer × Limiter)
        → ((v : World) → Progress db v → Progress db (next v).1)
        → Progress db w
        → Progress db (after_limit env config wire r who next w a).1.world
    unfolding after_limit limited_reply handle_error
    after_limit-Progress who next w (allowed, l) k h = k w h
    after_limit-Progress who next w (wait n, l) k h =
        (audit_denial-Progress env r who rate_limited).at w h

    rate_limit-Progress :
        (keys : List String) (who : Option User) (next : World → Response × World) (w : World)
        (limiter : Option Limiter)
        → ((v : World) → Progress db v → Progress db (next v).1)
        → Progress db w
        → Progress db (limit_by env config wire r keys who next w limiter).1.world
    unfolding limit_by
    rate_limit-Progress keys who next w none k h = k w h
    rate_limit-Progress keys who next w (some l) k h = after_limit-Progress who next w _ k h

    if-Progress :
        (b : Bool) (x y : Response × Process)
        → Progress db x.1.world
        → Progress db y.1.world
        → Progress db (if b then x else y).1.world
    if-Progress true x y h k = h
    if-Progress false x y h k = k

    serve_account-Progress :
        (route : AccountRoute) (caller : Caller) (p : Process)
        → Progress db p.world
        → Progress db (serve_account env config wire r route caller p).1.world
    unfolding serve_account rate_limit
    serve_account-Progress route caller p h =
        let inner = with_credential env caller.credential in
        if-Progress (not (session_only caller.credential)) (write_error 403 _, p) _ h
          (rate_limit-Progress (account_keys env config wire r route) (some caller.user)
            (run_handler inner config r (some caller.user)
              (account_handler inner wire r caller route))
            p.world p.limiter
            (run_handler-Progress inner config r (some caller.user) _
              (account_handler-Progress inner wire r caller route))
            h)

    access_of-Progress :
        (inner : Env) (user : User) (credential : Credential)
        → Upholds (Progress db) (access_of inner user credential)
    unfolding access_of
    access_of-Progress inner user (by_api_key key) = Upholds-pure _
    access_of-Progress inner user (by_session session) = authorize-Progress inner user

    authorized-Progress :
        (inner : Env) (route : GatedRoute) (caller : Caller)
        → Upholds (Progress db) (authorized env config wire r inner route caller)
    unfolding authorized require_access require_permission
    authorized-Progress inner route caller =
        search (method_rules, access_of-Progress, gated_handler-Progress)

    serve_gated-Progress :
        (route : GatedRoute) (caller : Caller) (p : Process)
        → Progress db p.world
        → Progress db (serve_gated env config wire r route caller p).1.world
    unfolding serve_gated
    serve_gated-Progress route caller p h =
        let inner = with_credential env caller.credential in
        run_handler-Progress inner config r (some caller.user) _
          (authorized-Progress inner route caller) p.world h

    require_auth-Progress :
        (header : String) → Upholds (Progress db) (require_auth env wire.texts header)
    unfolding require_auth require_api_key require_session
    require_auth-Progress header =
        search (method_rules, authenticate_api_key-Progress, authenticate-Progress)

    after_auth-Progress :
        (next : Caller → Process → Response × Process) (limiter : Option Limiter)
        (result : Result Caller) (w : World)
        → ((caller : Caller) (p : Process)
            → Progress db p.world
            → Progress db (next caller p).1.world)
        → Progress db w
        → Progress db (after_auth env config wire r next limiter result w).1.world
    unfolding after_auth handle_error
    after_auth-Progress next limiter (ok caller) w k h = k caller _ h
    after_auth-Progress next limiter (err e) w k h = (audit_denial-Progress env r none e).at w h

    dispatch-Progress :
        (route : Route) (p : Process)
        → Progress db p.world
        → Progress db (dispatch env config wire r route p).1.world
    unfolding dispatch with_auth rate_limit
    dispatch-Progress (Route.public route) p h =
        rate_limit-Progress (public_keys env config wire r route) none
          (run_handler env config r none
            (public_handler env config wire (left_by_keys env config wire r p.limiter route) route))
          p.world p.limiter
          (run_handler-Progress env config r none _ (
            public_handler-Progress env wire (left_by_keys env config wire r p.limiter route) config
              route))
          h
    dispatch-Progress (Route.account route) p h =
        after_auth-Progress (serve_account env config wire r route) p.limiter _ _
          (serve_account-Progress route) ((require_auth-Progress r.authorization).at p.world h)
    dispatch-Progress (Route.gated route) p h =
        after_auth-Progress (serve_gated env config wire r route) p.limiter _ _
          (serve_gated-Progress route) ((require_auth-Progress r.authorization).at p.world h)

-- A request changes the tables only as the methods do.
pub serve-Progress :
    {db : Db} (env : Env) (config : Config) (wire : Wire) (r : Request) (route : Route)
    (p : Process)
    → Progress db p.world
    → Progress db (serve env config wire r route p).1.world
unfolding serve
serve-Progress env config wire r route p h = dispatch-Progress _ config wire r route p h

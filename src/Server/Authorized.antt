-- ===== src/Server/Authorized.antt =====
-- What a request that reached a gated handler may do (requireAccess and requirePermission).
use git_single_tenant_templa.Prelude.{◌≡◌, sym, ap, ◌∙◌, true}
use git_single_tenant_templa.Exec.{ok, World, Env}
use git_single_tenant_templa.Exec.Ensures.{
  Ensures, Ensures-always, Ensures-map, Ensures-require, Ensures-bind, Ensures-and,
}
use git_single_tenant_templa.Identity.Access.{can}
use git_single_tenant_templa.Model.{forbidden}
use git_single_tenant_templa.Server.Guard.{Caller, require_access, require_permission}
use git_single_tenant_templa.Server.Guard.Laws.{may, access_of-may, access_of-reads}
use git_single_tenant_templa.Server.Request.{Request, Wire, Config}
use git_single_tenant_templa.Server.Response.{Response}
use git_single_tenant_templa.Server.Routes.{GatedRoute, permission_of}
use git_single_tenant_templa.Server.Security.{answer}
use git_single_tenant_templa.Server.Serve.{authorized}

-- The handler of a gated route answers a caller only if the caller has the permission of that
-- route: the scope of the API key holds it, or the tables give it to the user of the session, or that
-- user is a superuser and the catalog lists it.
pub authorized-may :
    (env : Env) (config : Config) (wire : Wire) (r : Request) (inner : Env) (route : GatedRoute)
    (caller : Caller) (w : World) (answer : Response) (w' : World)
    → authorized env config wire r inner route caller w ≡ (ok answer, w')
    → may w.db caller.user caller.credential (permission_of route) ≡ true
authorized-may env config wire r inner route caller w answer w' h = passed.at answer w' h
  where
    passed :
        Ensures
          (λ _ _. may w.db caller.user caller.credential (permission_of route) ≡ true)
          (authorized env config wire r inner route caller w)
    passed =
        unfold authorized require_access require_permission in
        Ensures-bind _ _ w (
          Ensures-map _
            (Ensures-and (access_of-may inner caller.user caller.credential w)
              (access_of-reads inner caller.user caller.credential w))
            λ a v facts. Ensures-bind _ _ v (
              Ensures-require (can a (permission_of route)) forbidden v λ holds.
                Ensures-always _ λ _ _.
                  sym
                    (ap (λ c. may c.db caller.user caller.credential (permission_of route)) facts.1)
                  ∙ sym (facts.0 (permission_of route))
                  ∙ holds))

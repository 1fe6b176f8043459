-- ===== src/Evolution/Unauthorized.antt =====
-- What a request to a gated route changes when its caller lacks the permission of the route.
use git_single_tenant_templa.Prelude.{
  ◌≡◌, refl, sym, ◌∙◌, subst, ◌⊎◌, inl, inr, Bool, true, false, Option, none, some,
}
use git_single_tenant_templa.Evolution.Calls.{On}
use git_single_tenant_templa.Evolution.Serving.{On-audit_denial}
use git_single_tenant_templa.Evolution.Unchanged.{
  Unchanged, record_event-Unchanged, require_auth-Unchanged, access_of-Unchanged, may-Unchanged,
}
use git_single_tenant_templa.Exec.{Result, ok, err, Exec, ◌>>=◌, ◌>>◌, require, World, Env, next}
use git_single_tenant_templa.Exec.Leaves.{bind-after}
use git_single_tenant_templa.Identity.Access.{can}
use git_single_tenant_templa.Model.{User, Access, Error, forbidden}
use git_single_tenant_templa.Server.Guard.{
  Caller, access_of, require_access, require_permission, require_auth,
}
use git_single_tenant_templa.Server.Guard.Laws.{may, access_of-may}
use git_single_tenant_templa.Server.Request.{
  Request, Wire, Config, with_audit_meta, with_credential,
}
use git_single_tenant_templa.Server.Response.{
  Response, audit_denial, handle_error, finish, run_handler,
}
use git_single_tenant_templa.Server.Routes.{GatedRoute, Route, permission_of, gated_handler}
use git_single_tenant_templa.Server.Serve.{
  Process, authorized, serve_gated, after_auth, with_auth, dispatch, serve,
}

-- The request authenticated as somebody who has the permission.
pub record IsPermitted (env : Env) (config : Config) (wire : Wire) (r : Request)
    (route : GatedRoute) (p : Process) : Type 0 where
  pub caller : Caller
  pub left : World
  pub authenticated :
      require_auth (with_audit_meta wire env config r) wire.texts r.authorization p.world
      ≡ (ok caller, left)
  pub holds : may p.world.db caller.user caller.credential (permission_of route) ≡ true

module _ (env : Env) (config : Config) (wire : Wire) (r : Request) (route : GatedRoute)
    (p : Process) where
  abbrev Outcome : World → Type 0
  Outcome w = IsPermitted env config wire r route p ⊎ On (Unchanged p.world.db) w

  denied :
      (inner : Env) (who : Option User) (e : Error) (w : World)
      → Outcome w
      → Outcome (audit_denial inner r who e w).1
  denied inner who e w (inl permitted) = inl permitted
  denied inner who e w (inr h) =
      inr ((On-audit_denial inner r who e (record_event-Unchanged inner)).at w h)

  finished :
      (inner : Env) (who : Option User) (result : Result Response) (w : World)
      → Outcome w
      → Outcome (finish inner config r who result w).1
  unfolding finish handle_error
  finished inner who (ok response) w h = h
  finished inner who (err e) w h = denied inner who e w h

  required :
      (b : Bool) (next : Exec World Response) (w : World)
      → Outcome w
      → (b ≡ true → IsPermitted env config wire r route p)
      → Outcome ((require b forbidden >> next) w).1
  unfolding require ◌>>=◌
  required true next w h permitted = inl (permitted refl)
  required false next w h permitted = h

  served :
      (caller : Caller) (w : World)
      → require_auth (with_audit_meta wire env config r) wire.texts r.authorization p.world
        ≡ (ok caller, w)
      → On (Unchanged p.world.db) w
      → Outcome
          (authorized
            (with_audit_meta wire env config r)
            config
            wire
            r
            (with_credential (with_audit_meta wire env config r) caller.credential)
            route
            caller
            w).1
  unfolding authorized require_access require_permission
  served caller w auth h =
      bind-after Outcome (access_of inner caller.user caller.credential) _ w
        (inr ((access_of-Unchanged inner caller.user caller.credential).at w h))
        λ access v e. allowed access v e (
          subst (λ x. On (Unchanged p.world.db) x.1) e
            ((access_of-Unchanged inner caller.user caller.credential).at w h))
    where
      inner : Env
      inner = with_credential (with_audit_meta wire env config r) caller.credential

      allowed :
          (access : Access) (v : World)
          → access_of inner caller.user caller.credential w ≡ (ok access, v)
          → On (Unchanged p.world.db) v
          → Outcome
              ((require (can access (permission_of route)) forbidden
                  >> gated_handler inner wire r caller access route)
                v).1
      allowed access v e kept = required (can access (permission_of route)) _ v (inr kept) λ holds.
          record {
            caller = caller;
            left = w;
            authenticated = auth;
            holds =
                sym (
                  may-Unchanged v.conn caller.user caller.credential (permission_of route)
                    kept.rows)
                ∙ sym (
                    (access_of-may inner caller.user caller.credential w).at access v e
                      (permission_of route))
                ∙ holds;
          }

  after :
      (result : Result Caller) (w : World)
      → require_auth (with_audit_meta wire env config r) wire.texts r.authorization p.world
        ≡ (result, w)
      → On (Unchanged p.world.db) w
      → Outcome
          (after_auth
            (with_audit_meta wire env config r)
            config
            wire
            r
            (serve_gated (with_audit_meta wire env config r) config wire r route)
            p.limiter
            result
            w).1.world
  unfolding after_auth handle_error serve_gated run_handler
  after (ok caller) w auth h = finished _ (some caller.user) _ _ (served caller w auth h)
  after (err e) w auth h = denied _ none e w (inr h)

-- A request to a gated route changes no user, role, grant, assignment, invitation, scope of a key,
-- password reset or email verification, unless it authenticated as somebody whom the tables, or the
-- scope of their API key, give the permission of the route.
pub serve-unauthorized :
    (env : Env) (config : Config) (wire : Wire) (r : Request) (route : GatedRoute) (p : Process)
    → IsPermitted env config wire r route p
      ⊎ Unchanged p.world.db (serve env config wire r (Route.gated route) p).1.world.conn
unfolding serve dispatch with_auth
serve-unauthorized env config wire r route p =
    elim (after env config wire r route p _ _ refl
      ((require_auth-Unchanged _ wire.texts r.authorization).at p.world start)) [
        | inl permitted ↦ inl permitted
        | inr h ↦ inr h.rows
      ]
  where
    start : On (Unchanged p.world.db) p.world
    start = record {
      rows = record {
        users_same = refl;
        roles_same = refl;
        grants_same = refl;
        user_roles_same = refl;
        invitations_same = refl;
        scopes_same = refl;
        resets_same = refl;
        verifications_same = refl;
      };
    }

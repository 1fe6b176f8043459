-- ===== src/Server/Security/Laws.antt =====
-- Which other origins a browser lets read an answer.
-- The header that lets a browser hand the answer to a page of this origin.
use git_single_tenant_templa.Prelude.{
  String, ◌≡◌, refl, ap, Bool, true, false, ◌&&◌, List, ◌++◌, arith, str_eq, str_eq_iff,
  and-eq-true, any, any-append,
}
use git_single_tenant_templa.Exec.{Env}
use git_single_tenant_templa.Server.Request.{Request, Wire, Config}
use git_single_tenant_templa.Server.Routes.{Route}
use git_single_tenant_templa.Server.Security.{
  Header, security_headers, allow_origin, is_allowed, cors, answer,
}
use git_single_tenant_templa.Server.Serve.{Process}

unfoldable pub allows_origin : String → List Header → Bool
unfolding any
allows_origin origin headers = any (λ h. str_eq h.0 allow_origin && str_eq h.1 origin) headers

cors-allows :
    (listed : List String) (r : Request) (origin : String)
    → allows_origin origin (cors listed r).0 ≡ true
    → (str_eq r.origin origin && is_allowed listed r.origin) ≡ true
unfolding cors allows_origin any
cors-allows listed r origin h = ground arith

answer-headers :
    (env : Env) (config : Config) (wire : Wire) (r : Request) (route : Route) (p : Process)
    → (answer env config wire r route p).headers
      ≡ security_headers ++ (cors config.allowed_origins r).0
unfolding answer
answer-headers env config wire r route p = ground arith

-- An answer lets a browser hand it to pages of an origin only if the request came from that origin
-- and the origin is listed, to the letter, in the settings.
pub answer-allows :
    (env : Env) (config : Config) (wire : Wire) (r : Request) (route : Route) (p : Process)
    (origin : String)
    → allows_origin origin (answer env config wire r route p).headers ≡ true
    → (r.origin ≡ origin) × (any (λ o. str_eq o r.origin) config.allowed_origins ≡ true)
unfolding allows_origin is_allowed
answer-allows env config wire r route p origin h =
    let seen : allows_origin origin (cors config.allowed_origins r).0 ≡ true = ground (
      arith,
      ap (allows_origin origin) (answer-headers env config wire r route p),
      any-append (λ k. str_eq k.0 allow_origin && str_eq k.1 origin) security_headers
          (cors config.allowed_origins r).0,
      plain origin,
    ) in
    let (from, listed) = and-eq-true _ _ (cors-allows config.allowed_origins r origin seen) in
    ((str_eq_iff r.origin origin).0 from, listed)
  where
    plain :
        (o : String) → any (λ k. str_eq k.0 allow_origin && str_eq k.1 o) security_headers ≡ false
    plain o = unfold any security_headers in refl

-- ===== src/Server/Security.antt =====
-- internal/server/security.go: the headers that every answer carries, and the answer to browsers of
-- other origins.
pub mod Laws
use git_single_tenant_templa.Prelude.{
  String, Bool, true, false, not, ◌||◌, List, [], ◌∷◌, ◌++◌, str_eq, if◌then◌else◌, any,
}
use git_single_tenant_templa.Exec.{Env}
use git_single_tenant_templa.Server.Request.{Request, Wire, Config}
use git_single_tenant_templa.Server.Response.{Response, write_no_content}
use git_single_tenant_templa.Server.Routes.{Route}
use git_single_tenant_templa.Server.Serve.{Process, serve}

abbrev pub Header : Type 0
Header = String × String

-- securityHeaders
unfoldable pub security_headers : List Header
security_headers =
    ("X-Content-Type-Options", "nosniff")
    ∷ ("Content-Security-Policy", "default-src 'none'; frame-ancestors 'none'")
    ∷ ("X-Frame-Options", "DENY")
    ∷ ("Referrer-Policy", "no-referrer")
    ∷ ("Strict-Transport-Security", "max-age=31536000; includeSubDomains")
    ∷ []

abbrev pub allow_origin : String
allow_origin = "Access-Control-Allow-Origin"

-- slices.Contains
unfoldable pub is_allowed : List String → String → Bool
unfolding any
is_allowed listed origin = any (λ o. str_eq o origin) listed

abbrev pub cors_headers : String → List Header
cors_headers origin =
    (allow_origin, origin) ∷ ("Access-Control-Allow-Credentials", "true") ∷ ("Vary", "Origin") ∷ []

abbrev pub preflight_headers : List Header
preflight_headers =
    ("Access-Control-Allow-Methods", "GET, POST, PUT, PATCH, DELETE, OPTIONS")
    ∷ ("Access-Control-Allow-Headers", "Authorization, Content-Type")
    ∷ ("Access-Control-Max-Age", "86400")
    ∷ []

abbrev pub is_empty : List String → Bool
is_empty [] = true
is_empty (o ∷ os) = false

-- What Server.cors adds to the answer, and whether it answers the request itself, as a preflight.
unfoldable pub cors : List String → Request → List Header × Bool
unfolding is_allowed
cors listed r =
    if str_eq r.origin "" || is_empty listed
    then ([], false)
    else if not (is_allowed listed r.origin)
    then ([], false)
    else if str_eq r.method "OPTIONS"
    then (cors_headers r.origin ++ preflight_headers, true)
    else (
      cors_headers r.origin
          ++ (("Access-Control-Expose-Headers", "Retry-After, X-Request-Id") ∷ []),
      false,
    )

-- An answer with its headers.
pub record Answered : Type 0 where
  pub headers : List Header
  pub response : Response
  pub process : Process

-- A request behind securityHeaders and cors.
unfoldable pub answer : Env → Config → Wire → Request → Route → Process → Answered
unfolding security_headers cors serve
answer env config wire r route p =
    let (added, is_preflight) = cors config.allowed_origins r in
    let served = serve env config wire r route p in
    if is_preflight
    then record { headers = security_headers ++ added; response = write_no_content; process = p }
    else record { headers = security_headers ++ added; response = served.0; process = served.1 }

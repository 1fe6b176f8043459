-- ===== src/Settings.antt =====
-- internal/settings/settings.go: the configuration, and the checks that refuse an unsafe one at
-- startup. env.Parse, which fills it from the environment, and strings.Contains are parameters.
pub mod Laws
use Prim.Native.String
use git_single_tenant_templa.Prelude.{
  ℕ, String, Bool, true, false, not, ◌&&◌, ◌||◌, Option, none, some, List, [], ◌∷◌, str_eq, ltb,
  ◌==◌, if◌then◌else◌,
}

-- Go's int, int32 and time.Duration, of which only sign and order are read here.
pub data ℤ : Type 0 where
  pos negsuc : ℕ → ℤ

-- `0 < i`
unfoldable pub is_positive : ℤ → Bool
is_positive (pos n) = ltb 0 n
is_positive (negsuc n) = false

unfoldable pub less : ℤ → ℤ → Bool
less (pos m) (pos n) = ltb m n
less (pos m) (negsuc n) = false
less (negsuc m) (pos n) = true
less (negsuc m) (negsuc n) = ltb n m

pub record App : Type 0 where
  pub environment : String
  pub debug : Bool
  pub log_level : String
  pub instance_id : String

pub record ServerSettings : Type 0 where
  pub host : String
  pub port : ℤ
  pub read_timeout : ℤ
  pub write_timeout : ℤ
  pub idle_timeout : ℤ
  pub shutdown_timeout : ℤ
  pub trust_proxy_headers : Bool

pub record Postgres : Type 0 where
  pub host : String
  pub port : ℤ
  pub user : String
  pub password : String
  pub database : String
  pub ssl_mode : String
  pub max_conns : ℤ
  pub min_conns : ℤ
  pub max_conn_lifetime : ℤ
  pub max_conn_idle_time : ℤ

-- The Argon2id parameters are unsigned.
pub record Auth : Type 0 where
  pub session_ttl : ℤ
  pub invitation_ttl : ℤ
  pub password_reset_ttl : ℤ
  pub email_verify_ttl : ℤ
  pub min_password_length : ℤ
  pub argon_memory_kib : ℕ
  pub argon_iterations : ℕ
  pub argon_parallelism : ℕ

pub record Mail : Type 0 where
  pub backend : String
  pub from : String
  pub base_url : String
  pub smtp_host : String
  pub smtp_port : ℤ
  pub smtp_username : String
  pub smtp_password : String

pub record RateLimit : Type 0 where
  pub enabled : Bool
  pub attempts : ℤ
  pub window : ℤ

-- Audit and CORS have one field each.
pub record Settings : Type 0 where
  pub app : App
  pub server : ServerSettings
  pub postgres : Postgres
  pub auth : Auth
  pub audit_retention : ℤ
  pub allowed_origins : List String
  pub mail : Mail
  pub rate_limit : RateLimit

-- The errors of validate, in its order.
pub data Refusal : Type 0 where
  invalid_port min_conns_exceeds_max session_ttl_not_positive : Refusal
  invitation_ttl_not_positive password_reset_ttl_not_positive min_password_too_short : Refusal
  no_parallelism debug_in_production ssl_disabled_in_production unknown_mail_backend : Refusal
  log_mail_in_production localhost_in_production email_verify_ttl_not_positive : Refusal
  wildcard_in_production rate_limit_not_positive : Refusal

-- Settings.IsProduction
unfoldable pub is_production : Settings → Bool
is_production s = str_eq s.app.environment "production"

-- The loop over the origins.
unfoldable pub has_wildcard : Bool → List String → Bool
has_wildcard production [] = false
has_wildcard production (origin ∷ origins) =
    let rest = has_wildcard production origins in
    if str_eq origin "*" && production then true else rest

-- The checks of validate that come after those of the mail backend.
unfoldable pub validate_rest : Settings → Option Refusal
unfolding is_production is_positive has_wildcard
validate_rest s =
    if not (is_positive s.auth.email_verify_ttl)
    then some email_verify_ttl_not_positive
    else if has_wildcard (is_production s) s.allowed_origins
    then some wildcard_in_production
    else if s.rate_limit.enabled
        && (not (is_positive s.rate_limit.attempts) || not (is_positive s.rate_limit.window))
    then some rate_limit_not_positive
    else none

module _ (contains : String → String → Bool) where
  unfoldable pub validate_production : Settings → Option Refusal
  unfolding is_production validate_rest
  validate_production s =
      if is_production s && s.app.debug
      then some debug_in_production
      else if is_production s && str_eq s.postgres.ssl_mode "disable"
      then some ssl_disabled_in_production
      else if not (str_eq s.mail.backend "log" || str_eq s.mail.backend "smtp")
      then some unknown_mail_backend
      else if is_production s && str_eq s.mail.backend "log"
      then some log_mail_in_production
      else if is_production s && contains s.mail.base_url "localhost"
      then some localhost_in_production
      else validate_rest s

  -- Settings.validate
  unfoldable pub validate : Settings → Option Refusal
  unfolding validate_production is_positive less
  validate s =
      if not (is_positive s.server.port) || less (pos 65535) s.server.port
      then some invalid_port
      else if less s.postgres.max_conns s.postgres.min_conns
      then some min_conns_exceeds_max
      else if not (is_positive s.auth.session_ttl)
      then some session_ttl_not_positive
      else if not (is_positive s.auth.invitation_ttl)
      then some invitation_ttl_not_positive
      else if not (is_positive s.auth.password_reset_ttl)
      then some password_reset_ttl_not_positive
      else if less s.auth.min_password_length (pos 8)
      then some min_password_too_short
      else if s.auth.argon_parallelism == 0
      then some no_parallelism
      else validate_production s

  -- Load, of what env.Parse gave: nothing when the environment does not parse.
  unfoldable pub load : Option Settings → Option Settings
  unfolding validate
  load none = none
  load (some s) = elim (validate s) [ none ↦ some s | some refusal ↦ none ]

-- Server.Addr and Postgres.DSN, where `decimal` is fmt's %d.
module _ (decimal : ℤ → String) where
  unfoldable pub addr : ServerSettings → String
  addr s = String.◌++◌ s.host (String.◌++◌ ":" (decimal s.port))

  unfoldable pub dsn : Postgres → String
  dsn p = concat (
      "host="
      ∷ p.host
      ∷ " port="
      ∷ decimal p.port
      ∷ " user="
      ∷ p.user
      ∷ " password="
      ∷ p.password
      ∷ " dbname="
      ∷ p.database
      ∷ " sslmode="
      ∷ p.ssl_mode
      ∷ [])
    where
      concat : List String → String
      concat [] = ""
      concat (t ∷ ts) = String.◌++◌ t (concat ts)

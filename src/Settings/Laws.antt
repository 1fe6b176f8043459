-- ===== src/Settings/Laws.antt =====
-- Which configurations are accepted, and what that spares the rest of the program.
-- Links that expire later than they are made, a port, a pool, a limiter that lets somebody pass, and,
-- in production, neither debugging nor credentials in logs or in plain text.
use git_single_tenant_templa.Prelude.{
  String, ◌≡◌, subst, ◌⊎◌, Bool, true, false, ◌&&◌, ◌||◌, none, List, [], ◌∷◌, arith, str_eq, ◌==◌,
  any,
}
use git_single_tenant_templa.Model.{Permission, Complaint, Error, escalation, validation}
use git_single_tenant_templa.Server.Errors.{shown, handle}
use git_single_tenant_templa.Server.Errors.Laws.{handle-shows_error}
use git_single_tenant_templa.Settings.{
  pos, is_positive, less, Settings, is_production, has_wildcard, validate_rest, validate_production,
  validate,
}

pub record IsSafe (contains : String → String → Bool) (s : Settings) : Type 0 where
  pub port_positive : is_positive s.server.port ≡ true
  pub port_bounded : less (pos 65535) s.server.port ≡ false
  pub pool_ordered : less s.postgres.max_conns s.postgres.min_conns ≡ false
  pub ttls_positive :
      (is_positive s.auth.session_ttl
        && is_positive s.auth.invitation_ttl
        && (is_positive s.auth.password_reset_ttl && is_positive s.auth.email_verify_ttl))
      ≡ true
  pub passwords_long : less s.auth.min_password_length (pos 8) ≡ false
  pub argon_parallel : (s.auth.argon_parallelism == 0) ≡ false
  pub mail_known : (str_eq s.mail.backend "log" || str_eq s.mail.backend "smtp") ≡ true
  pub limiter_passes :
      s.rate_limit.enabled ≡ true
      → (is_positive s.rate_limit.attempts && is_positive s.rate_limit.window) ≡ true
  pub production_safe :
      is_production s ≡ true
      → (s.app.debug ≡ false)
        × (str_eq s.postgres.ssl_mode "disable" ≡ false)
        × (str_eq s.mail.backend "log" ≡ false)
        × (contains s.mail.base_url "localhost" ≡ false)
        × (any (λ origin. str_eq origin "*") s.allowed_origins ≡ false)

has_wildcard-any :
    (production : Bool) (origins : List String)
    → has_wildcard production origins ≡ (production && any (λ origin. str_eq origin "*") origins)
unfolding has_wildcard any
has_wildcard-any production [] = ground arith
has_wildcard-any production (o ∷ os) = ground (arith, has_wildcard-any production os)

module _ (contains : String → String → Bool) (s : Settings) where
  validate_sound : validate contains s ≡ none → IsSafe contains s
  unfolding validate validate_production validate_rest
  validate_sound h = record {
    port_positive = ground arith;
    port_bounded = ground arith;
    pool_ordered = ground arith;
    ttls_positive = ground arith;
    passwords_long = ground arith;
    argon_parallel = ground arith;
    mail_known = ground arith;
    limiter_passes = λ e. ground arith;
    production_safe = λ p. (
      ground arith,
      ground arith,
      ground arith,
      ground arith,
      ground (arith, has_wildcard-any (is_production s) s.allowed_origins),
    );
  }

-- With settings that start in production, a client is shown the text of an error only if it is an
-- escalation, which names what the caller lacks, or a complaint about what the caller sent.
pub validate-shows_error :
    (contains : String → String → Bool) (s : Settings)
    → validate contains s ≡ none
    → is_production s ≡ true
    → (e : Error) → (handle s.app.debug e).shows_error ≡ true
    → ((lacked : List Permission) × (e ≡ escalation lacked))
      ⊎ ((c : Complaint) × (e ≡ validation c))
validate-shows_error contains s h production e shown = handle-shows_error e (
    subst (λ debug. (handle debug e).shows_error ≡ true)
      (((validate_sound contains s h).production_safe production).0) shown)

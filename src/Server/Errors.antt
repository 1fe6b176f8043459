-- ===== src/Server/Errors.antt =====
-- internal/server/response.go: what a client is told of an error, and which errors are audited.
pub mod Laws
use git_single_tenant_templa.Prelude.{ℕ, Bool, true, false, Option, none, some, if◌then◌else◌}
use git_single_tenant_templa.Model.{
  Action, access_denied, escalation_denied, invitation_rejected, rate_limited, Error, not_found,
  invalid_credentials, unauthenticated, forbidden, email_taken, invitation_invalid, last_admin,
  escalation, system_role, role_in_use, role_key_taken, invalid_token, mail_failed, validation,
  internal,
}

-- The answer to an error: its status, whether it asks for a credential (WWW-Authenticate), and
-- whether its text is that of the error itself in place of a constant one.
pub record Reply : Type 0 where
  pub status : ℕ
  pub asks_for_credential : Bool
  pub shows_error : Bool

abbrev pub constant : ℕ → Reply
constant status = record { status = status; asks_for_credential = false; shows_error = false }

abbrev pub shown : ℕ → Reply
shown status = record { status = status; asks_for_credential = false; shows_error = true }

-- errorHandler.handle, where `debug` is the setting.
unfoldable pub handle : Bool → Error → Reply
handle debug unauthenticated = record {
  status = 401;
  asks_for_credential = true;
  shows_error = false;
}
handle debug invalid_credentials = constant 401
handle debug forbidden = constant 403
handle debug not_found = constant 404
handle debug email_taken = constant 409
handle debug last_admin = constant 409
handle debug (escalation lacked) = shown 403
handle debug system_role = constant 403
handle debug role_in_use = constant 409
handle debug role_key_taken = constant 409
handle debug invitation_invalid = constant 400
handle debug invalid_token = constant 400
handle debug rate_limited = constant 429
handle debug mail_failed = constant 502
handle debug (validation complaint) = shown 400
handle debug internal = if debug then shown 500 else constant 500

-- The switch of errorHandler.auditDenial.
unfoldable pub denial_of : Error → Option Action
denial_of (escalation lacked) = some escalation_denied
denial_of forbidden = some access_denied
denial_of invitation_invalid = some invitation_rejected
denial_of rate_limited = some Action.rate_limited
denial_of _ = none

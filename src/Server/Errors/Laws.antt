-- ===== src/Server/Errors/Laws.antt =====
-- What a client can learn from an answer, and which answers an audited denial gets.
use git_single_tenant_templa.Prelude.{◌≡◌, refl, ◌⊎◌, inl, inr, true, false, List}
use git_single_tenant_templa.Model.{
  Permission, rate_limited, Complaint, Error, not_found, invalid_credentials, unauthenticated,
  forbidden, email_taken, invitation_invalid, last_admin, escalation, system_role, role_in_use,
  role_key_taken, invalid_token, mail_failed, validation, internal,
}
use git_single_tenant_templa.Server.Errors.{handle}

-- In production the text of an error reaches the client only if it is an escalation, which names
-- the permissions that the caller lacks, or a complaint about what the caller sent.
pub handle-shows_error :
    (e : Error)
    → (handle false e).shows_error ≡ true
    → ((lacked : List Permission) × (e ≡ escalation lacked))
      ⊎ ((c : Complaint) × (e ≡ validation c))
unfolding handle
handle-shows_error not_found h = cc
handle-shows_error invalid_credentials h = cc
handle-shows_error unauthenticated h = cc
handle-shows_error forbidden h = cc
handle-shows_error email_taken h = cc
handle-shows_error invitation_invalid h = cc
handle-shows_error last_admin h = cc
handle-shows_error (escalation lacked) h = inl (lacked, refl)
handle-shows_error system_role h = cc
handle-shows_error role_in_use h = cc
handle-shows_error role_key_taken h = cc
handle-shows_error invalid_token h = cc
handle-shows_error rate_limited h = cc
handle-shows_error mail_failed h = cc
handle-shows_error (validation c) h = inr (c, refl)
handle-shows_error internal h = cc

-- ===== src/Service/Common.antt =====
-- What the methods of Service share: minting a token, hashing, sending mail, and the failures
-- that are logged and swallowed.
use Prim.Native.String
use git_single_tenant_templa.Prelude.{
  String, Bool, true, false, Option, none, some, ◌∷◌, if◌then◌else◌,
}
use git_single_tenant_templa.Exec.{Result, ok, err, Exec, Message, World, Env, next}
use git_single_tenant_templa.Model.{Error, not_found, internal}

-- `_ = f()`, and an error that is only logged.
unfoldable pub ignore : {A : Type 0} → Exec World A → Exec World (Unit {0})
ignore m w = (ok tt, (m w).1)

unfoldable pub is_not_found : Error → Bool
is_not_found not_found = true
is_not_found _ = false

abbrev pub session_token_prefix : String
session_token_prefix = "mtt_sess_"

abbrev pub invitation_token_prefix : String
invitation_token_prefix = "mtt_inv_"

abbrev pub password_reset_token_prefix : String
password_reset_token_prefix = "mtt_pwr_"

abbrev pub email_verify_token_prefix : String
email_verify_token_prefix = "mtt_ver_"

abbrev pub api_key_token_prefix : String
api_key_token_prefix = "mtt_key_"

-- identity.RequestMeta
pub record ClientMeta : Type 0 where
  pub user_agent : String
  pub ip_address : String

module _ (env : Env) where
  abbrev pub minted : String → Option String → World → Result (String × String) × World
  minted prefix none w = (err internal, next w)
  minted prefix (some r) w =
      (ok (String.◌++◌ prefix r, env.hash_token (String.◌++◌ prefix r)), next w)

  -- auth.NewToken: the plaintext and its digest.
  unfoldable pub new_token : String → Exec World (String × String)
  new_token prefix w = minted prefix (env.random w.tick) w

  -- Hasher.Hash
  unfoldable pub hash : String → Exec World String
  hash password w = elim (env.hash_password w.tick password) [
    | none ↦ (err internal, next w)
    | some h ↦ (ok h, next w)
  ]

  -- Mailer.Send
  unfoldable pub send : Message → Exec World (Unit {0})
  send message w =
      if env.mail_fails w.tick
      then (err internal, next w)
      else (ok tt, record (next w) { outbox = message ∷ w.outbox })

-- ===== src/Service/LoginRefused.antt =====
-- The logins that Login of service.go refuses, whatever works or fails.
use git_single_tenant_templa.Prelude.{
  String, ◌≡◌, refl, inl, inr, Bool, true, false, not, ◌&&◌, ◌||◌, Option, none, some, arith,
  str_eq, Bool-cases, find?,
}
use git_single_tenant_templa.Exec.{
  ok, err, raise, ◌>>=◌, Conn, World, Verdict, matches, mismatch, malformed, Env, on_pool, or_raise,
}
use git_single_tenant_templa.Model.{User, Db, not_found, invalid_credentials}
use git_single_tenant_templa.Repo.Users.{same_email, get_user_by_email}
use git_single_tenant_templa.Service.Common.{ignore, is_not_found, ClientMeta}
use git_single_tenant_templa.Service.Sessions.{
  login, record_failed_login, refuse_login, reject_password, login_verified, login_found,
}

-- What a login asks for: the account of the email, with a password, active, and this password.
abbrev is_accepted : Env → String → Option User → Bool
is_accepted env password none = false
is_accepted env password (some u) =
    not (str_eq u.password_hash "")
    && u.is_active
    && elim (env.verify_password password u.password_hash) [
      | matches ↦ true
      | mismatch ↦ false
      | malformed ↦ false
    ]

unfoldable pub can_log_in : Env → String → String → Db → Bool
unfolding find?
can_log_in env raw_email password db =
    is_accepted env password
      (find? (λ u. same_email env u.email (env.to_lower (env.trim_space raw_email))) db.users)

module _ (env : Env) (email password : String) (meta : ClientMeta) where
  login_verified-refused :
      (v : Verdict) (user : User) (w : World)
      → elim v [ matches ↦ true | mismatch ↦ false | malformed ↦ false ] ≡ false
      → (login_verified env v email password meta user w).0 ≡ err invalid_credentials
  unfolding login_verified reject_password record_failed_login ignore ◌>>=◌ raise
  login_verified-refused mismatch user w h = refl
  login_verified-refused malformed user w h = refl
  login_verified-refused matches user w h = cc

  login_found-refused :
      (user : User) (w : World)
      → is_accepted env password (some user) ≡ false
      → (login_found env email password meta (ok user) w).0 ≡ err invalid_credentials
  unfolding login_found refuse_login record_failed_login ignore ◌>>=◌ raise
  login_found-refused user w h =
      elim (Bool-cases (str_eq user.password_hash "" || not user.is_active)) [
        | inl closed ↦ rw closed refl
        | inr open_account ↦ rw open_account (
            login_verified-refused (env.verify_password password user.password_hash) user w
              (ground arith))
      ]

  -- A missing row, and a row that does not accept the password.
  login_row-refused :
      (o : Option User) (c : Conn) (w : World)
      → is_accepted env password o ≡ false
      → (login_found env email password meta (or_raise o not_found c).0 w).0
        ≡ err invalid_credentials
  login_row-refused none c w h =
      unfold or_raise login_found is_not_found refuse_login record_failed_login ignore ◌>>=◌
        raise in
      refl
  login_row-refused (some user) c w h = unfold or_raise in login_found-refused user w h

-- While the lookup of the email works, a login with an unknown email, a wrong password, an account
-- without a password, a deactivated one or one whose stored hash is malformed gets one and the same
-- error, that for wrong credentials, whatever else fails: these cases cannot be told apart by it.
pub login-invalid_credentials :
    (env : Env) (raw_email password : String) (meta : ClientMeta) (w : World)
    → env.db_fails w.tick ≡ false
    → can_log_in env raw_email password w.db ≡ false
    → (login env raw_email password meta w).0 ≡ err invalid_credentials
unfolding login can_log_in on_pool get_user_by_email
login-invalid_credentials env raw_email password meta w works refused =
    rw works (login_row-refused env _ password meta _ w.conn _ refused)

-- ===== src/Service/Login.antt =====
-- How Login of service.go refuses, and what it leaves behind.
use git_single_tenant_templa.Prelude.{
  ℕ, ◌+◌, String, ◌≡◌, refl, sym, ap, ◌∙◌, ◌⊎◌, inl, inr, true, false, not, ◌||◌, Option, none,
  some, arith, str_eq, Bool-cases, find?,
}
use git_single_tenant_templa.Audit.{record_event}
use git_single_tenant_templa.Exec.{
  Result, ok, err, gets, Conn, World, Verdict, matches, mismatch, malformed, Env, on_pool, or_raise,
}
use git_single_tenant_templa.Exec.Refuses.{
  Refuses, Fails, Fails-Refuses, Refuses-ok, Refuses-err, Refuses-pure, Refuses-raise, Refuses-if,
  Refuses-branch, Refuses-bind, Refuses-in_tx, Refuses-on_pool,
}
use git_single_tenant_templa.Model.{User, Error, not_found, invalid_credentials, internal}
use git_single_tenant_templa.Repo.Sessions.{create_session}
use git_single_tenant_templa.Repo.Users.{same_email, get_user_by_email}
use git_single_tenant_templa.Service.Common.{
  ignore, is_not_found, session_token_prefix, ClientMeta, minted, new_token,
}
use git_single_tenant_templa.Service.LoginRefused.{can_log_in, login-invalid_credentials}
use git_single_tenant_templa.Service.Sessions.{
  login, record_failed_login, refuse_login, reject_password, upgrade_hash, login_tx, issue_session,
  login_verified, login_found,
}

-- The error of a refused login: the one for wrong credentials, or that of a failure on our side.
abbrev LoginRefusal : Error → Type 0
LoginRefusal e = (e ≡ invalid_credentials) ⊎ (e ≡ internal)

-- What the lookup of the email may answer: a missing row, or one of those errors.
abbrev LoginFailure : Error → Type 0
LoginFailure e = is_not_found e ≡ false → LoginRefusal e

internal-LoginRefusal : LoginRefusal internal
internal-LoginRefusal = inr refl

invalid-LoginRefusal : LoginRefusal invalid_credentials
invalid-LoginRefusal = inl refl

get_user_by_email-Refuses :
    (env : Env) (email : String) (w : World)
    → Refuses LoginFailure (on_pool env (get_user_by_email env email) w)
get_user_by_email-Refuses env email w =
    Refuses-on_pool env _ w (λ _. internal-LoginRefusal)
      (unfold get_user_by_email in missing (find? (λ u. same_email env u.email email) w.db.users))
  where
    refused : LoginFailure not_found
    refused = unfold is_not_found in λ k. cc k

    missing : (o : Option User) → Refuses LoginFailure (or_raise o not_found w.conn)
    missing none = unfold or_raise in Refuses-err not_found w.conn refused
    missing (some u) = unfold or_raise in Refuses-ok u w.conn

module _ (env : Env) where
  record_failed_login-Refuses :
      (email : String) (user_id : Option ℕ) (reason : String) (w : World)
      → Refuses LoginRefusal (record_failed_login env email user_id reason w)
  unfolding record_failed_login ignore
  record_failed_login-Refuses email user_id reason w = Refuses-ok tt _

  refuse_login-Refuses :
      (email password : String) (user_id : Option ℕ) (reason : String) (w : World)
      → Refuses LoginRefusal (refuse_login env email password user_id reason w)
  unfolding refuse_login
  refuse_login-Refuses email password user_id reason w =
      Refuses-bind _ _ w (unfold ignore in Refuses-ok tt _) λ _ w₁.
        Refuses-bind _ _ w₁ (record_failed_login-Refuses email user_id reason w₁)
          λ _ w₂. Refuses-raise invalid_credentials w₂ invalid-LoginRefusal

  reject_password-Refuses :
      (email : String) (user_id : ℕ) (reason : String) (w : World)
      → Refuses LoginRefusal (reject_password env email user_id reason w)
  unfolding reject_password
  reject_password-Refuses email user_id reason w =
      Refuses-bind _ _ w (record_failed_login-Refuses email (some user_id) reason w)
        λ _ w₁. Refuses-raise invalid_credentials w₁ invalid-LoginRefusal

  login_tx-Refuses :
      (user : User) (digest : String) (expires_at : ℕ) (meta : ClientMeta) (c : Conn)
      → Refuses LoginRefusal (login_tx env user digest expires_at meta c)
  unfolding login_tx
  login_tx-Refuses user digest expires_at meta c =
      Refuses-bind _ _ c (create_session-Refuses c) λ _ d. unfold record_event in Refuses-ok tt _
    where
      create_session-Refuses :
          (d : Conn)
          → Refuses LoginRefusal
              (create_session env user.id digest expires_at meta.user_agent meta.ip_address d)
      create_session-Refuses d =
          unfold create_session in
          Refuses-if _ _ _ (Refuses-err internal d internal-LoginRefusal) (Refuses-ok _ _)

  new_token-Refuses : (prefix : String) (w : World) → Refuses LoginRefusal (new_token env prefix w)
  unfolding new_token
  new_token-Refuses prefix w = go (env.random w.tick)
    where
      go : (r : Option String) → Refuses LoginRefusal (minted env prefix r w)
      go none = Refuses-err internal _ internal-LoginRefusal
      go (some r) = Refuses-ok _ _

  issue_session-Refuses :
      (user : User) (meta : ClientMeta) (w : World)
      → Refuses LoginRefusal (issue_session env user meta w)
  unfolding issue_session
  issue_session-Refuses user meta w =
      Refuses-bind _ _ w (new_token-Refuses session_token_prefix w) λ t w₁.
        Refuses-bind _ _ w₁ (unfold gets in Refuses-ok _ _) λ now w₂.
          Refuses-bind _ _ w₂
            (Refuses-in_tx env _ w₂ internal-LoginRefusal
              (login_tx-Refuses user t.1 (now + env.session_ttl) meta w₂.conn))
            λ _ w₃. Refuses-pure _ w₃

  upgrade_hash-Refuses :
      (user : User) (password : String) (w : World)
      → Refuses LoginRefusal (upgrade_hash env user password w)
  unfolding upgrade_hash
  upgrade_hash-Refuses user password w =
      Refuses-branch (not (env.needs_rehash user.password_hash)) _ _ w (Refuses-pure tt w)
        (unfold ignore in Refuses-ok tt _)

  login_verified-Refuses :
      (v : Verdict) (email password : String) (meta : ClientMeta) (user : User) (w : World)
      → Refuses LoginRefusal (login_verified env v email password meta user w)
  unfolding login_verified
  login_verified-Refuses mismatch email password meta user w =
      reject_password-Refuses email user.id _ w
  login_verified-Refuses malformed email password meta user w =
      reject_password-Refuses email user.id _ w
  login_verified-Refuses matches email password meta user w =
      Refuses-bind _ _ w (upgrade_hash-Refuses user password w)
        λ _ w₁. issue_session-Refuses user meta w₁

  -- A failed lookup, a refused comparison or a failure to store all end in the same two errors.
  login_found-Refuses :
      (email password : String) (meta : ClientMeta) (found : Result User) (w : World)
      → Fails LoginFailure found
      → Refuses LoginRefusal (login_found env email password meta found w)
  unfolding login_found
  login_found-Refuses email password meta (err e) w h = elim (Bool-cases (is_not_found e)) [
    | inl missing ↦ rw missing (refuse_login-Refuses email password none "unknown_email" w)
    | inr other ↦ rw other (Refuses-raise e w (h other))
  ]
  login_found-Refuses email password meta (ok user) w h =
      Refuses-branch (str_eq user.password_hash "" || not user.is_active) _ _ w
        (refuse_login-Refuses email password (some user.id) _ w)
        (login_verified-Refuses (env.verify_password password user.password_hash) email password
          meta user w)

-- A login that fails answers with the error for wrong credentials, or with that of a failure on our
-- side; the latter only if the lookup of the email failed, or if the account is active and the
-- password is its own.
pub login-refusal :
    (env : Env) (raw_email password : String) (meta : ClientMeta) (w : World) (e : Error)
    (w' : World)
    → login env raw_email password meta w ≡ (err e, w')
    → (e ≡ invalid_credentials)
      ⊎ ((e ≡ internal) × ((env.db_fails w.tick || can_log_in env raw_email password w.db) ≡ true))
login-refusal env raw_email password meta w e w' h = elim (refused.with_error e w' h) [
  | inl same_error ↦ inl same_error
  | inr failure ↦
      elim (Bool-cases (env.db_fails w.tick || can_log_in env raw_email password w.db)) [
        | inl possible ↦ inr (failure, possible)
        | inr impossible ↦ inl (
            err_of (
              sym (ap (λ r. r.0) h)
              ∙ login-invalid_credentials env raw_email password meta w (ground arith)
                  (ground arith)))
      ]
]
  where
    err_of :
        ◌≡◌ {A = Result (String × User)} (err e) (err invalid_credentials) → e ≡ invalid_credentials
    err_of k = ap (λ r. elim r [ ok a ↦ e | err x ↦ x ]) k

    refused : Refuses LoginRefusal (login env raw_email password meta w)
    refused =
        unfold login in
        login_found-Refuses env _ password meta _ _
          (Fails-Refuses LoginFailure _ _ (get_user_by_email-Refuses env _ w))

-- ===== src/Service/LoginSession.antt =====
-- A login stores a session that its token authenticates with (Login, Authenticate).
use git_single_tenant_templa.Repo.Users as Stored
use git_single_tenant_templa.Prelude.{
  ℕ, ◌+◌, String, ◌≡◌, refl, sym, ap, ◌∙◌, subst, Bool, true, false, not, ◌&&◌, ◌||◌, Option, none,
  some, arith, str_eq, ◌==◌, if◌then◌else◌, ==_refl, any, find?, find?-eq-some,
}
use git_single_tenant_templa.Exec.{
  Result, ok, err, pure, ◌>>=◌, Conn, World, Verdict, matches, mismatch, malformed, Env, next,
  on_pool, or_raise,
}
use git_single_tenant_templa.Exec.Ensures.{
  Ensures, Ensures-ok, Ensures-err, Ensures-raise, Ensures-always, Ensures-branch, Ensures-map,
  Ensures-bind, Ensures-on_pool,
}
use git_single_tenant_templa.Exec.Leaves.{bind-state, Leaves, found-Leaves, if-state}
use git_single_tenant_templa.Model.{User, not_found, invalid_credentials, internal}
use git_single_tenant_templa.Repo.Users.{same_email}
use git_single_tenant_templa.Service.Common.{ignore, is_not_found, ClientMeta, hash}
use git_single_tenant_templa.Service.IssuedSession.{
  IsActiveUser, HasSession, update_user_password-IsActiveUser, LoggedIn, issue_session-LoggedIn,
}
use git_single_tenant_templa.Service.Sessions.{
  refuse_login, reject_password, upgrade_hash, issue_session, login_verified, login_found, login,
}

rejected :
    (env : Env) {Q : String × User → World → Type 0} (email : String) (user_id : ℕ)
    (reason : String) (w : World)
    → Ensures Q (reject_password env email user_id reason w)
unfolding reject_password
rejected env email user_id reason w =
    Ensures-bind _ _ w (Ensures-always _ λ _ v. Ensures-raise invalid_credentials v)

refused :
    (env : Env) {Q : String × User → World → Type 0} (email password : String) (user_id : Option ℕ)
    (reason : String) (w : World)
    → Ensures Q (refuse_login env email password user_id reason w)
unfolding refuse_login
refused env email password user_id reason w = Ensures-bind _ _ w (
    Ensures-always _
      λ _ v. Ensures-bind _ _ v (Ensures-always _ λ _ x. Ensures-raise invalid_credentials x))

module _ (env : Env) (user : User) where
  -- The rows that the lookup of the email found stay what they are up to the new session.
  abbrev Found : ℕ → Conn → Type 0
  Found now c = IsActiveUser user.id c × (c.now ≡ now)

  upgrade_hash-Found :
      (password : String) (now : ℕ) (w : World)
      → Found now w.conn
      → Found now (upgrade_hash env user password w).1.conn
  unfolding upgrade_hash
  upgrade_hash-Found password now w found = by_rehash (not (env.needs_rehash user.password_hash))
    where
      same_now : (h : String) (c : Conn) → (Stored.update_user_password user.id h c).1.now ≡ c.now
      same_now h c =
          unfold Stored.update_user_password in
          if-state (λ x. x.now ≡ c.now) (any (λ u. u.id == user.id) c.db.users) _ (err not_found, c)
            refl refl

      pooled :
          (h : String) (v : World)
          → Found now v.conn
          → Found now (on_pool env (Stored.update_user_password user.id h) v).1.conn
      pooled h v kept =
          unfold on_pool in
          if-state (λ x. Found now x.conn) (env.db_fails v.tick) (err internal, next v) _ kept
            (
              update_user_password-IsActiveUser user.id user.id h v.conn kept.0,
              same_now h v.conn ∙ kept.1,
            )

      hashed : (v : World) → Found now v.conn → Leaves (λ x. Found now x.conn) (hash env password v)
      hashed v kept =
          unfold hash in
          found-Leaves (λ x. Found now x.conn) (env.hash_password v.tick password)
            (err internal, next v) (λ h. (ok h, next v)) kept (λ h. kept)

      by_rehash :
          (b : Bool)
          → Found now
              ((if b
                  then pure tt
                  else ignore (
                      hash env password >>= λ h.
                      on_pool env (Stored.update_user_password user.id h)))
                w).1.conn
      by_rehash true = unfold pure in found
      by_rehash false =
          unfold ignore in
          bind-state (λ v. Found now v.conn) (hash env password)
            (λ h. on_pool env (Stored.update_user_password user.id h)) w (hashed w found) pooled

  login_verified-LoggedIn :
      (v : Verdict) (email password : String) (meta : ClientMeta) (now : ℕ) (w : World)
      → Found now w.conn
      → Ensures (LoggedIn env user now) (login_verified env v email password meta user w)
  unfolding login_verified
  login_verified-LoggedIn mismatch email password meta now w found =
      rejected env email user.id "wrong_password" w
  login_verified-LoggedIn malformed email password meta now w found =
      rejected env email user.id "corrupt_hash" w
  login_verified-LoggedIn matches email password meta now w found = Ensures-bind _ _ w (
      Ensures-map _ upgraded λ _ v kept.
        subst (λ n. Ensures (LoggedIn env user n) (issue_session env user meta v)) kept.1
          (issue_session-LoggedIn env user meta v kept.0))
    where
      upgraded : Ensures (λ _ v. Found now v.conn) (upgrade_hash env user password w)
      upgraded = record {
        at = λ a t h. subst (λ x. Found now x.1.conn) h (upgrade_hash-Found password now w found);
      }

-- What Login hands back, against the user that the email found.
abbrev pub LoginStored : Env → ℕ → String × User → World → Type 0
LoginStored env now x v =
    IsActiveUser x.1.id v.conn
    × HasSession (env.hash_token x.0) x.1.id (now + env.session_ttl) v.conn

login_found-Stored :
    (env : Env) (email password : String) (meta : ClientMeta) (now : ℕ) (r : Result User)
    (w : World)
    → Ensures (λ u v. (v.now ≡ now) × (u.is_active ≡ true → IsActiveUser u.id v.conn)) (r, w)
    → Ensures (LoginStored env now) (login_found env email password meta r w)
unfolding login_found
login_found-Stored env email password meta now (err e) w p =
    Ensures-branch (is_not_found e) _ _ w (λ _. refused env email password none "unknown_email" w)
      (λ _. Ensures-raise e w)
login_found-Stored env email password meta now (ok user) w p =
    Ensures-branch (str_eq user.password_hash "" || not user.is_active) _ _ w
      (λ _. refused env email password (some user.id) _ w)
      (λ live.
        Ensures-map _
          (login_verified-LoggedIn env user (env.verify_password password user.password_hash) email
            password meta now w ((p.at user w refl).1 (active live), (p.at user w refl).0))
          λ x v facts. whole x v facts)
  where
    active : (str_eq user.password_hash "" || not user.is_active) ≡ false → user.is_active ≡ true
    active h = ground arith

    whole : (x : String × User) (v : World) → LoggedIn env user now x v → LoginStored env now x v
    whole x v facts =
        unfold LoggedIn in
        subst
          (λ i.
            IsActiveUser i v.conn
            × HasSession (env.hash_token x.0) i (now + env.session_ttl) v.conn)
          (sym facts.0) (facts.1, facts.2)

get_user_by_email-Stored :
    (env : Env) (email : String) (w : World)
    → Ensures
        (λ u v. (v.now ≡ w.now) × (u.is_active ≡ true → IsActiveUser u.id v.conn))
        (on_pool env (Stored.get_user_by_email env email) w)
get_user_by_email-Stored env email w = Ensures-on_pool env (Stored.get_user_by_email env email) w (
    unfold Stored.get_user_by_email in
    from (find? (λ u. same_email env u.email email) w.db.users) refl)
  where
    from :
        (o : Option User)
        → find? (λ u. same_email env u.email email) w.db.users ≡ o
        → Ensures
            (λ u d.
              (v : World)
              → v.conn ≡ d
              → (v.now ≡ w.now) × (u.is_active ≡ true → IsActiveUser u.id v.conn))
            (or_raise o not_found w.conn)
    from none e = unfold or_raise in Ensures-err not_found w.conn
    from (some u) e =
        unfold or_raise in
        Ensures-ok u w.conn λ v same. (
          ap (λ c. c.now) same,
          λ active. subst (IsActiveUser u.id) (sym same) (
              (find?-eq-some (λ x. same_email env x.email email) (λ x. x.id == u.id && x.is_active)
                  w.db.users e).1
                (ground (arith, ==_refl u.id))),
        )

pub login-Stored :
    (env : Env) (raw_email password : String) (meta : ClientMeta) (w : World)
    → Ensures (LoginStored env w.now) (login env raw_email password meta w)
unfolding login
login-Stored env raw_email password meta w =
    login_found-Stored env _ password meta w.now _ _ (get_user_by_email-Stored env _ w)

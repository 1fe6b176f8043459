-- ===== src/Service/ResetLockout.antt =====
-- Which sessions still authenticate once a password was reset (ResetPassword).
use git_single_tenant_templa.Prelude.{
  ℕ, String, ◌≡◌, sym, ap, ◌∙◌, ◌≢◌, ◌&&◌, Option, none, some, str_eq, ltb, is_none, find?,
}
use git_single_tenant_templa.Audit.{Ensures-record_event}
use git_single_tenant_templa.Exec.{ok, err, Conn, World, Env}
use git_single_tenant_templa.Exec.Ensures.{
  Ensures, Ensures-ok, Ensures-err, Ensures-lift, Ensures-always, Ensures-map, Ensures-found,
  Ensures-bind, Ensures-in_tx,
}
use git_single_tenant_templa.Model.{User, Session, PasswordReset, invalid_token}
use git_single_tenant_templa.Repo.PasswordResets.{
  is_usable_reset, consume_password_reset, invalidate_password_resets,
}
use git_single_tenant_templa.Service.PasswordReset.{reset_password_tx, reset_password}
use git_single_tenant_templa.Service.Revocation.{
  AreRevoked, Ensures-revoke_user_sessions, AreRevoked-locked_out,
}
use git_single_tenant_templa.Service.Sessions.{authenticate}
use git_single_tenant_templa.Service.SingleUse.{hash-conn}

-- The token names the user whose row it is.
consume_password_reset-owner :
    (token_hash : String) (c : Conn) (r : PasswordReset)
    → find? (λ t. str_eq t.token_hash token_hash && is_usable_reset c.now t) c.db.password_resets
      ≡ some r
    → Ensures (λ user_id _. user_id ≡ r.user_id) (consume_password_reset token_hash c)
unfolding consume_password_reset is_usable_reset
consume_password_reset-owner token_hash c r found =
    Ensures-found
      (find? (λ t. str_eq t.token_hash token_hash && (is_none t.used_at && ltb c.now t.expires_at))
        c.db.password_resets)
      (err invalid_token, c) _ (Ensures-err invalid_token c)
      λ s h. Ensures-ok s.user_id _ (ap owner (sym h ∙ found))
  where
    owner : Option PasswordReset → ℕ
    owner none = 0
    owner (some x) = x.user_id

-- So does a reset of the password, of the user that the token names.
reset_password_tx-AreRevoked :
    (env : Env) (token_hash new_hash : String) (c : Conn) (r : PasswordReset)
    → find? (λ t. str_eq t.token_hash token_hash && is_usable_reset c.now t) c.db.password_resets
      ≡ some r
    → Ensures (λ _ d. AreRevoked r.user_id d.db) (reset_password_tx env token_hash new_hash c)
unfolding reset_password_tx
reset_password_tx-AreRevoked env token_hash new_hash c r found = Ensures-bind _ _ c (
    Ensures-map _ (consume_password_reset-owner token_hash c r found) λ user_id c₁ owner.
      Ensures-bind _ _ c₁ (
        Ensures-always _ λ _ c₂. Ensures-bind _ _ c₂ (
          Ensures-map _ (Ensures-revoke_user_sessions user_id c₂) λ n d revoked.
            Ensures-bind _ _ d (
              unfold invalidate_password_resets in
              Ensures-ok tt _ (Ensures-record_event env _ _ (rw (← owner) revoked))))))

-- After a password was reset, no session token authenticates as the user whose usable reset the
-- token found, as long as the tables are what that call left.
pub reset_password-locked_out :
    (env : Env) (token new_password : String) (w w' : World) (r : PasswordReset)
    → find?
        (λ t. str_eq t.token_hash (env.hash_token token) && is_usable_reset w.now t)
        w.db.password_resets
      ≡ some r
    → reset_password env token new_password w ≡ (ok tt, w')
    → (env' : Env) (bearer : String) (v : World) (x : User × Session) (v' : World) → v.db ≡ w'.db
    → authenticate env' bearer v ≡ (ok x, v')
    → x.0.id ≢ r.user_id
reset_password-locked_out env token new_password w w' r found h env' bearer v x v' same e =
    AreRevoked-locked_out env' r.user_id bearer v (rw same (reset.at tt w' h)) e
  where
    reset : Ensures (λ _ t. AreRevoked r.user_id t.db) (reset_password env token new_password w)
    reset =
        unfold reset_password in
        Ensures-bind _ _ w (
          Ensures-lift _ w λ _ _. Ensures-bind _ _ w (
            Ensures-map _ (hash-conn env new_password w) λ new_hash w₁ kept.
              Ensures-in_tx env (reset_password_tx env (env.hash_token token) new_hash) w₁ (
                Ensures-map _
                  (reset_password_tx-AreRevoked env (env.hash_token token) new_hash w₁.conn r
                    (rw kept found))
                  λ _ d revoked z k. rw k revoked)))

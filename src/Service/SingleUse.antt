-- ===== src/Service/SingleUse.antt =====
-- The token of a password reset works once (ResetPassword of password_reset.go).
use git_single_tenant_templa.Prelude.{
  ℕ, ◌≤◌, String, ◌≡◌, refl, ap, ◌∙◌, false, ◌&&◌, some, arith, str_eq, ltb, ◌==◌, is_none, any,
  find?, find?-eq-none, any-update-false, any-update_keeps_false, any-false_mono,
}
use git_single_tenant_templa.Audit.{Ensures-record_event}
use git_single_tenant_templa.Exec.{ok, err, ◌>>=◌, Conn, World, Env, next}
use git_single_tenant_templa.Exec.Ensures.{
  Ensures, Ensures-ok, Ensures-err, Ensures-lift, Ensures-if, Ensures-map, Ensures-found,
  Ensures-bind, Ensures-in_tx,
}
use git_single_tenant_templa.Model.{not_found, invalid_token, internal}
use git_single_tenant_templa.Repo.PasswordResets.{
  is_usable_reset, consume_password_reset, invalidate_password_resets,
}
use git_single_tenant_templa.Repo.Sessions.{revoke_user_sessions}
use git_single_tenant_templa.Repo.Users.{update_user_password}
use git_single_tenant_templa.Service.Common.{hash}
use git_single_tenant_templa.Service.PasswordReset.{reset_password_tx, reset_password}

-- No row gives this token a use, now.
abbrev ResetIsSpent : String → Conn → Type 0
ResetIsSpent token_hash c =
    any (λ r. str_eq r.token_hash token_hash && is_usable_reset c.now r) c.db.password_resets
    ≡ false

ResetIsSpent-later :
    (token_hash : String) (c d : Conn)
    → d.db ≡ c.db
    → c.now ≤ d.now
    → ResetIsSpent token_hash c
    → ResetIsSpent token_hash d
unfolding is_usable_reset
ResetIsSpent-later token_hash c d same later spent = rw same (
    any-false_mono _
      (λ r. str_eq r.token_hash token_hash && (is_none r.used_at && ltb d.now r.expires_at))
      c.db.password_resets (λ r h. ground arith) spent)

consume_password_reset-IsSpent :
    (token_hash : String) (c : Conn)
    → Ensures
        (λ user_id d. (d.now ≡ c.now) × ResetIsSpent token_hash d)
        (consume_password_reset token_hash c)
unfolding consume_password_reset is_usable_reset
consume_password_reset-IsSpent token_hash c =
    Ensures-found
      (find? (λ r. str_eq r.token_hash token_hash && (is_none r.used_at && ltb c.now r.expires_at))
        c.db.password_resets)
      (err invalid_token, c) _ (Ensures-err invalid_token c)
      λ r _. Ensures-ok r.user_id _ (
        refl,
        any-update-false
            (λ r. str_eq r.token_hash token_hash && (is_none r.used_at && ltb c.now r.expires_at))
            (λ r. str_eq r.token_hash token_hash && (is_none r.used_at && ltb c.now r.expires_at))
            (λ r. record r { used_at = some c.now }) c.db.password_resets (λ r h. ground arith)
            (λ r h. h),
      )

invalidate_password_resets-IsSpent :
    (token_hash : String) (user_id : ℕ) (c : Conn)
    → ResetIsSpent token_hash c
    → ResetIsSpent token_hash (invalidate_password_resets user_id c).1
unfolding invalidate_password_resets is_usable_reset
invalidate_password_resets-IsSpent token_hash user_id c spent =
    any-update_keeps_false
      (λ r. str_eq r.token_hash token_hash && (is_none r.used_at && ltb c.now r.expires_at))
      (λ r. r.user_id == user_id && is_none r.used_at) (λ r. record r { used_at = some c.now })
      c.db.password_resets (λ r h. ground arith) spent

-- A spent token resets nothing.
consume_password_reset-spent :
    (token_hash : String) (c : Conn)
    → ResetIsSpent token_hash c
    → consume_password_reset token_hash c ≡ (err invalid_token, c)
unfolding consume_password_reset is_usable_reset
consume_password_reset-spent token_hash c spent =
    rw
      (
        find?-eq-none
            (λ r. str_eq r.token_hash token_hash && (is_none r.used_at && ltb c.now r.expires_at))
            c.db.password_resets spent,
        consume_password_reset,
      )
      refl

-- Hashing a password leaves the tables alone.
pub hash-conn :
    (env : Env) (password : String) (w : World)
    → Ensures (λ _ v. v.conn ≡ w.conn) (hash env password w)
unfolding hash
hash-conn env password w =
    Ensures-found (env.hash_password w.tick password) (err internal, next w) _
      (Ensures-err internal _) λ h _. Ensures-ok h _ refl

update_user_password-now :
    (user_id : ℕ) (password_hash token_hash : String) (c : Conn)
    → ResetIsSpent token_hash c
    → Ensures
        (λ _ d. (d.now ≡ c.now) × ResetIsSpent token_hash d)
        (update_user_password user_id password_hash c)
unfolding update_user_password
update_user_password-now user_id password_hash token_hash c spent =
    Ensures-if (any (λ u. u.id == user_id) c.db.users) _ (err not_found, c)
      (λ _. Ensures-ok tt _ (refl, spent)) (λ _. Ensures-err not_found c)

module _ (env : Env) where
  reset_password_tx-IsSpent :
      (token_hash new_hash : String) (c : Conn)
      → Ensures
          (λ _ d. (d.now ≡ c.now) × ResetIsSpent token_hash d)
          (reset_password_tx env token_hash new_hash c)
  unfolding reset_password_tx
  reset_password_tx-IsSpent token_hash new_hash c = Ensures-bind _ _ c (
      Ensures-map _ (consume_password_reset-IsSpent token_hash c) λ user_id c₁ spent.
        Ensures-bind _ _ c₁ (
          Ensures-map _ (update_user_password-now user_id new_hash token_hash c₁ spent.1)
            λ _ c₂ spent₂. Ensures-bind _ _ c₂ (
              unfold revoke_user_sessions in
              Ensures-ok _ _ (
                Ensures-bind _ _ _ (
                  unfold invalidate_password_resets in
                  Ensures-ok tt _ (
                    Ensures-record_event env _ _ (
                      spent₂.0 ∙ spent.0,
                      unfold invalidate_password_resets in
                          invalidate_password_resets-IsSpent token_hash user_id c₂ spent₂.1,
                    )))))))

  -- Within the transaction a spent token is an error, whatever is to be stored.
  reset_password_tx-refused :
      (token_hash new_hash : String) (c : Conn)
      → ResetIsSpent token_hash c
      → reset_password_tx env token_hash new_hash c ≡ (err invalid_token, c)
  unfolding reset_password_tx ◌>>=◌
  reset_password_tx-refused token_hash new_hash c spent =
      rw (consume_password_reset-spent token_hash c spent) refl

  reset_password-refused :
      (token new_password : String) (w : World)
      → ResetIsSpent (env.hash_token token) w.conn
      → Ensures (λ _ _. ⊥) (reset_password env token new_password w)
  unfolding reset_password
  reset_password-refused token new_password w spent = Ensures-bind _ _ w (
      Ensures-lift _ w λ _ _. Ensures-bind _ _ w (
        Ensures-map _ (hash-conn env new_password w) λ new_hash v same.
          Ensures-in_tx env (reset_password_tx env (env.hash_token token) new_hash) v (
            rw (reset_password_tx-refused (env.hash_token token) new_hash v.conn (rw same spent))
              (Ensures-err invalid_token v.conn))))

-- The token of a password reset that succeeded is refused from then on: no later call with it
-- succeeds, whatever password it asks for, as long as the token has the same digest and the tables
-- are what that reset left.
pub reset_password-single_use :
    (env : Env) (token new_password : String) (w w' : World)
    → reset_password env token new_password w ≡ (ok tt, w')
    → (env' : Env) (other : String) (v v' : World) → env'.hash_token token ≡ env.hash_token token
    → v.db ≡ w'.db
    → w.now ≤ v.now
    → ¬ (reset_password env' token other v ≡ (ok tt, v'))
reset_password-single_use env token new_password w w' h env' other v v' hashes same later again =
    (reset_password-refused env' token other v (
        rw hashes (
          ResetIsSpent-later (env.hash_token token) w'.conn v.conn same
            (rw ((spent.at tt w' h).0) later) (spent.at tt w' h).1))).at
      tt v' again
  where
    spent :
        Ensures
          (λ _ t. (t.now ≡ w.now) × ResetIsSpent (env.hash_token token) t.conn)
          (reset_password env token new_password w)
    spent =
        unfold reset_password in
        Ensures-bind _ _ w (
          Ensures-lift _ w λ _ _. Ensures-bind _ _ w (
            Ensures-map _ (hash-conn env new_password w) λ new_hash w₁ kept.
              Ensures-in_tx env (reset_password_tx env (env.hash_token token) new_hash) w₁ (
                Ensures-map _
                  (reset_password_tx-IsSpent env (env.hash_token token) new_hash w₁.conn)
                  λ _ d fact z e.
                    (ap (λ x. x.now) e ∙ fact.0 ∙ ap (λ x. x.now) kept, rw e fact.1))))

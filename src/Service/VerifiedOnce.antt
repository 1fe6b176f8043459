-- ===== src/Service/VerifiedOnce.antt =====
-- The link of an email verification works once (VerifyEmail of email_verification.go).
use git_single_tenant_templa.Prelude.{
  ℕ, ◌≤◌, String, ◌≡◌, refl, ap, ◌∙◌, false, ◌&&◌, some, arith, str_eq, ltb, ◌==◌, is_none, any,
  find?, find?-eq-none, any-update-false, any-false_mono,
}
use git_single_tenant_templa.Audit.{Ensures-record_event}
use git_single_tenant_templa.Exec.{ok, err, ◌>>=◌, Conn, World, Env}
use git_single_tenant_templa.Exec.Ensures.{
  Ensures, Ensures-ok, Ensures-err, Ensures-pure, Ensures-map, Ensures-found, Ensures-bind,
  Ensures-in_tx,
}
use git_single_tenant_templa.Model.{User, invalid_token}
use git_single_tenant_templa.Repo.EmailVerifications.{
  is_usable_verification, consume_email_verification,
}
use git_single_tenant_templa.Repo.Users.{same_email, update_user, mark_email_verified}
use git_single_tenant_templa.Service.EmailVerification.{verify_email_tx, verify_email}

-- No row gives this token a use, now.
abbrev VerificationIsSpent : String → Conn → Type 0
VerificationIsSpent token_hash c =
    any (λ r. str_eq r.token_hash token_hash && is_usable_verification c.now r)
      c.db.email_verifications
    ≡ false

VerificationIsSpent-later :
    (token_hash : String) (c d : Conn)
    → d.db ≡ c.db
    → c.now ≤ d.now
    → VerificationIsSpent token_hash c
    → VerificationIsSpent token_hash d
unfolding is_usable_verification
VerificationIsSpent-later token_hash c d same later spent = rw same (
    any-false_mono _
      (λ r. str_eq r.token_hash token_hash && (is_none r.used_at && ltb d.now r.expires_at))
      c.db.email_verifications (λ r h. ground arith) spent)

consume_email_verification-IsSpent :
    (token_hash : String) (c : Conn)
    → Ensures
        (λ x d. (d.now ≡ c.now) × VerificationIsSpent token_hash d)
        (consume_email_verification token_hash c)
unfolding consume_email_verification is_usable_verification
consume_email_verification-IsSpent token_hash c =
    Ensures-found
      (find? (λ r. str_eq r.token_hash token_hash && (is_none r.used_at && ltb c.now r.expires_at))
        c.db.email_verifications)
      (err invalid_token, c) _ (Ensures-err invalid_token c)
      λ r _.
        Ensures-ok (r.user_id, r.email) _
          (
            refl,
            any-update-false
                (λ r.
                  str_eq r.token_hash token_hash && (is_none r.used_at && ltb c.now r.expires_at))
                (λ r.
                  str_eq r.token_hash token_hash && (is_none r.used_at && ltb c.now r.expires_at))
                (λ r. record r { used_at = some c.now }) c.db.email_verifications
                (λ r h. ground arith) (λ r h. h),
          )

-- A spent token verifies nothing.
consume_email_verification-spent :
    (token_hash : String) (c : Conn)
    → VerificationIsSpent token_hash c
    → consume_email_verification token_hash c ≡ (err invalid_token, c)
unfolding consume_email_verification is_usable_verification
consume_email_verification-spent token_hash c spent =
    rw
      (
        find?-eq-none
            (λ r. str_eq r.token_hash token_hash && (is_none r.used_at && ltb c.now r.expires_at))
            c.db.email_verifications spent,
        consume_email_verification,
      )
      refl

mark_email_verified-keeps :
    (env : Env) (user_id : ℕ) (email token_hash : String) (c : Conn)
    → VerificationIsSpent token_hash c
    → Ensures
        (λ _ d. (d.now ≡ c.now) × VerificationIsSpent token_hash d)
        (mark_email_verified env user_id email c)
unfolding mark_email_verified update_user
mark_email_verified-keeps env user_id email token_hash c spent =
    Ensures-found (find? (λ u. u.id == user_id && same_email env u.email email) c.db.users)
      (err invalid_token, c) _ (Ensures-err invalid_token c) λ u _. Ensures-ok _ _ (refl, spent)

module _ (env : Env) where
  verify_email_tx-IsSpent :
      (token : String) (c : Conn)
      → Ensures
          (λ _ d. (d.now ≡ c.now) × VerificationIsSpent (env.hash_token token) d)
          (verify_email_tx env token c)
  unfolding verify_email_tx
  verify_email_tx-IsSpent token c = Ensures-bind _ _ c (
      Ensures-map _ (consume_email_verification-IsSpent (env.hash_token token) c) λ x c₁ spent.
        Ensures-bind _ _ c₁ (
          Ensures-map _ (mark_email_verified-keeps env x.0 x.1 (env.hash_token token) c₁ spent.1)
            λ user c₂ spent₂.
              Ensures-bind _ _ c₂ (
                Ensures-record_event env _ c₂
                  (Ensures-pure user _ (spent₂.0 ∙ spent.0, spent₂.1)))))

  verify_email_tx-refused :
      (token : String) (c : Conn)
      → VerificationIsSpent (env.hash_token token) c
      → verify_email_tx env token c ≡ (err invalid_token, c)
  unfolding verify_email_tx ◌>>=◌
  verify_email_tx-refused token c spent =
      rw (consume_email_verification-spent (env.hash_token token) c spent) refl

  verify_email-refused :
      (token : String) (w : World)
      → VerificationIsSpent (env.hash_token token) w.conn
      → Ensures (λ _ _. ⊥) (verify_email env token w)
  unfolding verify_email
  verify_email-refused token w spent =
      Ensures-in_tx env (verify_email_tx env token) w
        (rw (verify_email_tx-refused token w.conn spent) (Ensures-err invalid_token w.conn))

-- The link that verified an address is refused from then on: no later call with its token
-- succeeds, as long as the token has the same digest and the tables are what that call left.
pub verify_email-single_use :
    (env : Env) (token : String) (w : World) (u : User) (w' : World)
    → verify_email env token w ≡ (ok u, w')
    → (env' : Env) (v : World) (u' : User) (v' : World)
    → env'.hash_token token ≡ env.hash_token token
    → v.db ≡ w'.db
    → w.now ≤ v.now
    → ¬ (verify_email env' token v ≡ (ok u', v'))
verify_email-single_use env token w u w' h env' v u' v' hashes same later again =
    (verify_email-refused env' token v (
        rw hashes (
          VerificationIsSpent-later (env.hash_token token) w'.conn v.conn same
            (rw ((spent.at u w' h).0) later) (spent.at u w' h).1))).at
      u' v' again
  where
    spent :
        Ensures
          (λ _ t. (t.now ≡ w.now) × VerificationIsSpent (env.hash_token token) t.conn)
          (verify_email env token w)
    spent =
        unfold verify_email in
        Ensures-in_tx env (verify_email_tx env token) w (
          Ensures-map _ (verify_email_tx-IsSpent env token w.conn)
            λ _ d fact z e. (ap (λ x. x.now) e ∙ fact.0, rw e fact.1))

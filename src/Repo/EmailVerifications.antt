-- ===== src/Repo/EmailVerifications.antt =====
-- The email verifications of internal/identity/repository.go.
use git_single_tenant_templa.Prelude.{
  ℕ, ◌+◌, String, Bool, not, ◌&&◌, ◌||◌, none, some, List, ◌∷◌, str_eq, ltb, ◌==◌, if◌then◌else◌,
  is_none, any, filter, find?, update, count,
}
use git_single_tenant_templa.Exec.{ok, err, Exec, Conn}
use git_single_tenant_templa.Model.{EmailVerification, invalid_token, internal}
use git_single_tenant_templa.Repo.Sessions.{is_some_before}

abbrev pub with_email_verifications : Conn → List EmailVerification → Conn
with_email_verifications c rows = record c { db = record c.db { email_verifications = rows } }

unfoldable pub create_email_verification : ℕ → String → String → ℕ → Exec Conn (Unit {0})
unfolding any
create_email_verification user_id email token_hash expires_at c =
    let verification : EmailVerification = record {
      id = c.db.next_id;
      user_id = user_id;
      email = email;
      token_hash = token_hash;
      expires_at = expires_at;
      used_at = none;
      created_at = c.now;
    } in
    if any (λ v. str_eq v.token_hash token_hash) c.db.email_verifications
      || not (any (λ u. u.id == user_id) c.db.users)
    then (err internal, c)
    else (
      ok tt,
      record c {
        db = record c.db {
          next_id = c.db.next_id + 1;
          email_verifications = verification ∷ c.db.email_verifications;
        };
      },
    )

-- `used_at IS NULL AND expires_at > now()`
unfoldable pub is_usable_verification : ℕ → EmailVerification → Bool
is_usable_verification now v = is_none v.used_at && ltb now v.expires_at

-- The token is checked and claimed by one UPDATE … RETURNING user_id, email.
unfoldable pub consume_email_verification : String → Exec Conn (ℕ × String)
unfolding find? update is_usable_verification
consume_email_verification token_hash c =
    let chosen =
      λ (v : EmailVerification). str_eq v.token_hash token_hash && is_usable_verification c.now v in
    let used = λ (v : EmailVerification). record v { used_at = some c.now } in
    elim (find? chosen c.db.email_verifications) [
      | none ↦ (err invalid_token, c)
      | some v ↦ (
        ok (v.user_id, v.email),
        with_email_verifications c (update chosen used c.db.email_verifications),
      )
    ]

unfoldable pub invalidate_email_verifications : ℕ → Exec Conn (Unit {0})
unfolding update
invalidate_email_verifications user_id c = (
  ok tt,
  with_email_verifications c (
      update (λ v. v.user_id == user_id && is_none v.used_at)
        (λ v. record v { used_at = some c.now }) c.db.email_verifications),
)

unfoldable pub is_dead_verification : ℕ → ℕ → EmailVerification → Bool
is_dead_verification retain now v =
    ltb (v.expires_at + retain) now || is_some_before v.used_at retain now

unfoldable pub delete_dead_email_verifications : ℕ → Exec Conn ℕ
unfolding filter count is_dead_verification
delete_dead_email_verifications retain c = (
  ok (count (is_dead_verification retain c.now) c.db.email_verifications),
  with_email_verifications c
      (filter (λ v. not (is_dead_verification retain c.now v)) c.db.email_verifications),
)

-- ===== src/Repo/PasswordResets.antt =====
-- The password resets of internal/identity/repository.go.
use git_single_tenant_templa.Prelude.{
  ℕ, ◌+◌, String, Bool, not, ◌&&◌, ◌||◌, none, some, List, ◌∷◌, str_eq, ltb, ◌==◌, if◌then◌else◌,
  is_none, any, filter, find?, update, count,
}
use git_single_tenant_templa.Exec.{ok, err, Exec, Conn, Env}
use git_single_tenant_templa.Model.{PasswordReset, invalid_token, internal}
use git_single_tenant_templa.Repo.Sessions.{is_some_before}

abbrev pub with_password_resets : Conn → List PasswordReset → Conn
with_password_resets c rows = record c { db = record c.db { password_resets = rows } }

unfoldable pub create_password_reset :
    (env : Env) → ℕ → String → ℕ → String → String → Exec Conn (Unit {0})
unfolding any
create_password_reset env user_id token_hash expires_at ip user_agent c =
    let reset : PasswordReset = record {
      id = c.db.next_id;
      user_id = user_id;
      token_hash = token_hash;
      expires_at = expires_at;
      used_at = none;
      created_at = c.now;
      ip_address = env.parse_ip ip;
      user_agent = user_agent;
    } in
    if any (λ r. str_eq r.token_hash token_hash) c.db.password_resets
      || not (any (λ u. u.id == user_id) c.db.users)
    then (err internal, c)
    else (
      ok tt,
      record c {
        db = record c.db {
          next_id = c.db.next_id + 1;
          password_resets = reset ∷ c.db.password_resets;
        };
      },
    )

-- `used_at IS NULL AND expires_at > now()`
unfoldable pub is_usable_reset : ℕ → PasswordReset → Bool
is_usable_reset now r = is_none r.used_at && ltb now r.expires_at

-- The token is checked and claimed by one UPDATE … RETURNING user_id.
unfoldable pub consume_password_reset : String → Exec Conn ℕ
unfolding find? update is_usable_reset
consume_password_reset token_hash c =
    let chosen = λ (r : PasswordReset). str_eq r.token_hash token_hash && is_usable_reset c.now r in
    let used = λ (r : PasswordReset). record r { used_at = some c.now } in
    elim (find? chosen c.db.password_resets) [
      | none ↦ (err invalid_token, c)
      | some r ↦ (ok r.user_id, with_password_resets c (update chosen used c.db.password_resets))
    ]

unfoldable pub invalidate_password_resets : ℕ → Exec Conn (Unit {0})
unfolding update
invalidate_password_resets user_id c = (
  ok tt,
  with_password_resets c (
      update (λ r. r.user_id == user_id && is_none r.used_at)
        (λ r. record r { used_at = some c.now }) c.db.password_resets),
)

unfoldable pub is_dead_reset : ℕ → ℕ → PasswordReset → Bool
is_dead_reset retain now r = ltb (r.expires_at + retain) now || is_some_before r.used_at retain now

unfoldable pub delete_dead_password_resets : ℕ → Exec Conn ℕ
unfolding filter count is_dead_reset
delete_dead_password_resets retain c = (
  ok (count (is_dead_reset retain c.now) c.db.password_resets),
  with_password_resets c (filter (λ r. not (is_dead_reset retain c.now r)) c.db.password_resets),
)
